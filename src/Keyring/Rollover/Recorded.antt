-- ===== src/Keyring/Rollover/Recorded.antt =====
-- The revocations that a rollover leaves on record (internal/keyring/keyring.go, `Revocations` and
-- `RevokedDevice`).
use reinstate.Base.{
  ℕ, suc, ◌+◌, ◌≡◌, sym, ap, ◌∙◌, inl, inr, Bool, true, ◌&&◌, some, List, [], ◌∷◌, map, any,
  any-append, ◌==◌, ==_iff, nat_eq, bytes_eq, contains, ok, arith, Option-cases, Result-cases,
}
use reinstate.Base.Sorting.{contains-sort_ints}
use reinstate.Keyring.Model.{
  Bytes, Text, DeviceWrap, Revocation, Generation, Keyring, Binding, find_device, generation,
  current,
}
use reinstate.Keyring.Crypto.{Crypto}
use reinstate.Keyring.Verify.{generation_numbers}
use reinstate.Keyring.Verify.Signed.{contains-find_generation}
use reinstate.Keyring.Enrol.{has_device, is_listed}
use reinstate.Keyring.Rollover.{
  max_generation, Randomness, Carried, add_revocation, add_device, carry_wrap, carry_devices,
  check_revoke, rollover,
}
use reinstate.Keyring.Rollover.Revoked.{
  next_generation-carries, rollover-RolledOver, current-rollover, has_device-rollover,
}
use reinstate.Keyring.Unwrap.{revocations_of, revocations, revoked_device}

-- Some revocation is of the device.
abbrev names : Text → List Revocation → Bool
names id rs = any (λ r. r.device_id == id) rs

check_revoke-listed :
    (k : Keyring) (revoked_by : Text) (ids : List Text) (id : Text)
    → check_revoke k revoked_by ids ≡ ok tt
    → contains ids id ≡ true
    → has_device k id ≡ true
unfolding check_revoke
check_revoke-listed k revoked_by [] id h c = ground arith
check_revoke-listed k revoked_by (x ∷ ids) id h c =
    ground (arith, check_revoke-listed k revoked_by ids id, ap (has_device k), ==_iff x id)

names-revocations_of :
    (k : Keyring) (ns : List ℕ) (n : ℕ) (g : Generation) (id : Text)
    → generation k n ≡ some g
    → contains ns n ≡ true
    → names id g.revoked ≡ true
    → names id (revocations_of k ns) ≡ true
unfolding revocations_of
names-revocations_of k [] n g id e c h = absurd (ground arith)
names-revocations_of k (m ∷ ns) n g id e c h = elim (Option-cases (generation k m)) [
  | inl p ↦ ground (arith, names-revocations_of k ns n g id, ==_iff m n, ap (generation k))
  | inr (f, p) ↦ ground (
    arith,
    any-append (λ r. r.device_id == id) f.revoked (revocations_of k ns),
    names-revocations_of k ns n g id,
    ==_iff m n,
  )
]

contains-generation_numbers :
    (k : Keyring) (n : ℕ) (g : Generation)
    → generation k n ≡ some g
    → contains (generation_numbers k) n ≡ true
unfolding generation generation_numbers
contains-generation_numbers k n g h =
    contains-sort_ints n (map (λ (g : Generation). g.number) k.generations)
    ∙ contains-find_generation n k.generations g h

has_device-listed :
    (k : Keyring) (g : Generation) (id : Text)
    → current k ≡ some g
    → has_device k id ≡ is_listed (find_device id g.devices)
unfolding has_device
has_device-listed k g id h = ground (arith, h)

module _ (C : Crypto) where
  names-carry_devices :
      (entropy : ℕ) (root_key : Bytes) (revoke : List Text) (revoked_by now : Text) (bind : Binding)
      (ds : List DeviceWrap) (c : Carried) (id : Text)
      → carry_devices C entropy root_key revoke revoked_by now bind ds ≡ ok c
      → names id c.revoked ≡ is_listed (find_device id ds) && contains revoke id
  unfolding carry_devices add_revocation add_device find_device
  names-carry_devices entropy root_key revoke revoked_by now bind [] c id h = ground arith
  names-carry_devices entropy root_key revoke revoked_by now bind (d ∷ ds) c id h =
      elim (Result-cases (carry_devices C (suc entropy) root_key revoke revoked_by now bind ds)) [
        | inr (x, p) ↦ absurd (ground arith)
        | inl (c', p) ↦ elim (Result-cases (carry_wrap C entropy root_key now bind d)) [
          | inr (x, q) ↦ ground (
            arith,
            names-carry_devices (suc entropy) root_key revoke revoked_by now bind ds c' id p,
            ==_iff d.device_id id,
          )
          | inl (w, q) ↦ ground (
            arith,
            names-carry_devices (suc entropy) root_key revoke revoked_by now bind ds c' id p,
            ==_iff d.device_id id,
          )
        ]
      ]

  -- After a rollover that succeeds, every device that it was to revoke is a revoked device.
  pub revoked_device-rollover :
      (r : Randomness) (current_root_key : Bytes) (code : Text) (revoke : List Text)
      (revoked_by now : Text) (k k' : Keyring) (root_key : Bytes) (id : Text)
      → rollover C r current_root_key code revoke revoked_by now k ≡ ok (k', root_key)
      → contains revoke id ≡ true
      → revoked_device k' id ≡ true
  unfolding revoked_device revocations current
  revoked_device-rollover r current_root_key code revoke revoked_by now k k' root_key id h m =
      let e = rollover-RolledOver C r current_root_key code revoke revoked_by now k k' root_key h in
      let c =
        next_generation-carries C e.randomness root_key e.code e.seed revoke revoked_by now k
          e.from_generation e.next e.made in
      let there =
        current-rollover C r current_root_key code revoke revoked_by now k k' root_key e in
      let n = k'.current_generation in
      let listed : is_listed (find_device id e.from_generation.devices) ≡ true =
        sym (has_device-listed k e.from_generation id e.found)
        ∙ check_revoke-listed k revoked_by revoke id e.enrolled m in
      let named : names id e.next.revoked ≡ true =
        ap (names id) c.5
        ∙ names-carry_devices e.randomness.wraps root_key revoke revoked_by now
            (record { profile_id = k.profile_id; generation = max_generation k + 1 })
            e.from_generation.devices c.0 id c.1
        ∙ ground (arith, listed, m) in
      ground (
        arith,
        m,
        has_device-rollover C r current_root_key code revoke revoked_by now k k' root_key id h,
        names-revocations_of k' (generation_numbers k') n e.next id there
            (contains-generation_numbers k' n e.next there) named,
      )
