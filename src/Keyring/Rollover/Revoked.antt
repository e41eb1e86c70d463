-- ===== src/Keyring/Rollover/Revoked.antt =====
-- What a rollover that succeeds leaves enrolled (internal/keyring/keyring.go, `Rollover`).
use reinstate.Base.{
  ℕ, suc, ◌+◌, ◌<◌, ◌≤◌, ◌≡◌, refl, ◌∙◌, ap, not, ◌&&◌, none, some, List, [], ◌∷◌, ◌++◌, arith,
  ==_iff, ==_refl, nat_eq, bytes_eq, ltb, contains, if◌then◌else◌, ok, Option-cases, inl, inr,
  Result-cases,
}
use reinstate.Keyring.Model.{
  Bytes, Text, DeviceWrap, Generation, Keyring, Binding, find_generation, generation, current,
  find_device,
}
use reinstate.Keyring.Crypto.{Crypto}
use reinstate.Keyring.Wraps.{
  root_recipient, wrap_for_device, wrap_under_recovery_code, unwrap_with_recovery_code,
}
use reinstate.Keyring.Enrol.{has_device, is_listed, binding_for}
use reinstate.Keyring.Rollover.{
  max_of, max_generation, Randomness, Carried, add_revocation, add_device, carry_wrap,
  carry_devices, next_generation, check_rollover, check_revoke, derive_account_key, rollover,
}

≤-max_of : (n : ℕ) (gs : List Generation) → n ≤ max_of n gs
unfolding max_of
≤-max_of n [] = omega arith
≤-max_of n (g ∷ gs) = ground (arith, ≤-max_of (if ltb n g.number then g.number else n) gs)

find_generation-max_of :
    (n m : ℕ) (gs : List Generation) → max_of n gs < m → find_generation m gs ≡ none
unfolding max_of find_generation
find_generation-max_of n m [] h = refl
find_generation-max_of n m (g ∷ gs) h =
    let n' = if ltb n g.number then g.number else n in
    ground (arith, ≤-max_of n' gs, find_generation-max_of n' m gs h)

find_generation-append :
    (m : ℕ) (gs hs : List Generation)
    → find_generation m gs ≡ none
    → find_generation m (gs ++ hs) ≡ find_generation m hs
unfolding find_generation
find_generation-append m [] hs h = refl
find_generation-append m (g ∷ gs) hs h = ground (arith, find_generation-append m gs hs)

find_generation-append_some :
    (m : ℕ) (gs hs : List Generation) (g : Generation)
    → find_generation m gs ≡ some g
    → find_generation m (gs ++ hs) ≡ some g
unfolding find_generation
find_generation-append_some m [] hs g h = cc
find_generation-append_some m (x ∷ gs) hs g h =
    ground (arith, find_generation-append_some m gs hs g)

module _ (C : Crypto) where
  carry_wrap-device_id :
      (entropy : ℕ) (root_key : Bytes) (now : Text) (bind : Binding) (d w : DeviceWrap)
      → carry_wrap C entropy root_key now bind d ≡ ok w
      → w.device_id ≡ d.device_id
  unfolding carry_wrap wrap_for_device
  carry_wrap-device_id entropy root_key now bind d w h = ground arith

  listed-carry_devices :
      (entropy : ℕ) (root_key : Bytes) (revoke : List Text) (revoked_by now : Text) (bind : Binding)
      (ds : List DeviceWrap) (c : Carried) (id : Text)
      → carry_devices C entropy root_key revoke revoked_by now bind ds ≡ ok c
      → is_listed (find_device id c.devices)
        ≡ is_listed (find_device id ds) && not (contains revoke id)
  unfolding carry_devices add_revocation add_device find_device
  listed-carry_devices entropy root_key revoke revoked_by now bind [] c id h = ground arith
  listed-carry_devices entropy root_key revoke revoked_by now bind (d ∷ ds) c id h =
      elim (Result-cases (carry_devices C (suc entropy) root_key revoke revoked_by now bind ds)) [
        | inr (x, p) ↦ absurd (ground arith)
        | inl (c', p) ↦ elim (Result-cases (carry_wrap C entropy root_key now bind d)) [
          | inr (x, q) ↦ ground (
            arith,
            listed-carry_devices (suc entropy) root_key revoke revoked_by now bind ds c' id p,
            ==_iff d.device_id id,
          )
          | inl (w, q) ↦ ground (
            arith,
            carry_wrap-device_id entropy root_key now bind d w q,
            listed-carry_devices (suc entropy) root_key revoke revoked_by now bind ds c' id p,
            ==_iff d.device_id id,
            ==_iff w.device_id id,
          )
        ]
      ]

  pub next_generation-carries :
      (r : Randomness) (root_key code seed : Bytes) (revoke : List Text) (revoked_by now : Text)
      (k : Keyring) (g next : Generation)
      → next_generation C r root_key code seed revoke revoked_by now k g ≡ ok next
      → (c : Carried) × (carry_devices C r.wraps root_key revoke revoked_by now
            (record { profile_id = k.profile_id; generation = max_generation k + 1 })
            g.devices
          ≡ ok c)
        × (next.number ≡ max_generation k + 1)
        × (next.devices ≡ c.devices)
        × (root_recipient C root_key ≡ some next.recipient)
        × (next.revoked ≡ c.revoked)
  unfolding next_generation
  next_generation-carries r root_key code seed revoke revoked_by now k g next h =
      let bind : Binding = record {
        profile_id = k.profile_id;
        generation = max_generation k + 1;
      } in
      elim (Option-cases (root_recipient C root_key)) [
        | inl p ↦ absurd (ground arith)
        | inr (recipient, p) ↦
            elim (Result-cases (wrap_under_recovery_code C r.salt r.nonce root_key code bind)) [
              | inr (x, q) ↦ absurd (ground arith)
              | inl (w, q) ↦
                  elim (Result-cases
                    (carry_devices C r.wraps root_key revoke revoked_by now bind g.devices)) [
                      | inr (x, e) ↦ absurd (ground arith)
                      | inl (c, e) ↦ (c, e, ground arith, ground arith, ground arith, ground arith)
                    ]
            ]
      ]

  -- What a rollover that succeeds has done.
  pub record RolledOver (revoke : List Text) (revoked_by now : Text) (k k' : Keyring)
      (root_key : Bytes) : Type 0 where
    pub from_generation : Generation
    pub next : Generation
    pub randomness : Randomness
    pub code : Bytes
    pub seed : Bytes
    pub found : current k ≡ some from_generation
    pub enrolled : check_revoke k revoked_by revoke ≡ ok tt
    pub made :
        next_generation C randomness root_key code seed revoke revoked_by now k from_generation
        ≡ ok next
    pub appended : k'.generations ≡ k.generations ++ (next ∷ [])
    pub now_current : k'.current_generation ≡ next.number

  check_rollover-enrolled :
      (current_root_key : Bytes) (code : Text) (revoke : List Text) (revoked_by : Text)
      (k : Keyring) (g : Generation) (seed : Bytes)
      → check_rollover C current_root_key code revoke revoked_by k g ≡ ok seed
      → check_revoke k revoked_by revoke ≡ ok tt
  unfolding check_rollover
  check_rollover-enrolled current_root_key code revoke revoked_by k g seed h =
      elim (Result-cases (unwrap_with_recovery_code C g.recovery code (binding_for k g))) [
        | inr (e, p) ↦ absurd (ground arith)
        | inl (key, p) ↦ elim (Result-cases (derive_account_key C k.profile_id code)) [
          | inr (e, q) ↦ absurd (ground arith)
          | inl (x, q) ↦ ground arith
        ]
      ]

  pub rollover-RolledOver :
      (r : Randomness) (current_root_key : Bytes) (code : Text) (revoke : List Text)
      (revoked_by now : Text) (k k' : Keyring) (root_key : Bytes)
      → rollover C r current_root_key code revoke revoked_by now k ≡ ok (k', root_key)
      → RolledOver revoke revoked_by now k k' root_key
  unfolding rollover
  rollover-RolledOver r current_root_key code revoke revoked_by now k k' root_key h =
      elim (Option-cases (current k)) [
        | inl p ↦ absurd (ground arith)
        | inr (g, p) ↦
            elim (Result-cases (check_rollover C current_root_key code revoke revoked_by k g)) [
              | inr (x, q) ↦ absurd (ground arith)
              | inl (seed, q) ↦ elim (Option-cases r.root_key) [
                | inl e ↦ absurd (ground arith)
                | inr (key, e) ↦
                    elim (Result-cases
                      (next_generation C r key code seed revoke revoked_by now k g)) [
                        | inr (x, m) ↦ absurd (ground arith)
                        | inl (next, m) ↦ record {
                          from_generation = g;
                          next = next;
                          randomness = r;
                          code = code;
                          seed = seed;
                          found = p;
                          enrolled =
                              check_rollover-enrolled current_root_key code revoke revoked_by k g
                                seed q;
                          made = ground arith;
                          appended = ground arith;
                          now_current = ground arith;
                        }
                      ]
              ]
            ]
      ]

  rollover-generation_free :
      (k : Keyring) → find_generation (max_generation k + 1) k.generations ≡ none
  unfolding max_generation
  rollover-generation_free k =
      find_generation-max_of 0 (max_of 0 k.generations + 1) k.generations (omega arith)

  pub current-rollover :
      (r : Randomness) (current_root_key : Bytes) (code : Text) (revoke : List Text)
      (revoked_by now : Text) (k k' : Keyring) (root_key : Bytes)
      (e : RolledOver revoke revoked_by now k k' root_key)
      → current k' ≡ some e.next
  unfolding current generation find_generation
  current-rollover r current_root_key code revoke revoked_by now k k' root_key e =
      let c =
        next_generation-carries e.randomness root_key e.code e.seed revoke revoked_by now k
          e.from_generation e.next e.made in
      let free = rollover-generation_free k in
      ap (λ (n : ℕ). find_generation n k'.generations) e.now_current
      ∙ ap (find_generation e.next.number) e.appended
      ∙ find_generation-append e.next.number k.generations (e.next ∷ [])
          (ap (λ (n : ℕ). find_generation n k.generations) c.2 ∙ free)
      ∙ ground (arith, ==_refl e.next.number)

  -- A rollover that succeeds leaves every generation that was there as it was, and makes current a
  -- generation under a number that none had, whose recipient the new root key derives.
  pub generation-rollover :
      (r : Randomness) (current_root_key : Bytes) (code : Text) (revoke : List Text)
      (revoked_by now : Text) (k k' : Keyring) (root_key : Bytes)
      → rollover C r current_root_key code revoke revoked_by now k ≡ ok (k', root_key)
      → ((n : ℕ) (g : Generation) → generation k n ≡ some g → generation k' n ≡ some g)
        × (generation k k'.current_generation ≡ none)
        × (next : Generation) × (current k' ≡ some next)
        × (root_recipient C root_key ≡ some next.recipient)
  unfolding generation current
  generation-rollover r current_root_key code revoke revoked_by now k k' root_key h =
      let e = rollover-RolledOver r current_root_key code revoke revoked_by now k k' root_key h in
      let c =
        next_generation-carries e.randomness root_key e.code e.seed revoke revoked_by now k
          e.from_generation e.next e.made in
      let free = rollover-generation_free k in
      (
        λ n g p.
            ap (find_generation n) e.appended
            ∙ find_generation-append_some n k.generations (e.next ∷ []) g p,
        ground (arith, free, e.now_current, c.2),
        e.next,
        current-rollover r current_root_key code revoke revoked_by now k k' root_key e,
        c.4,
      )

  -- After a rollover that succeeds, exactly the devices that were enrolled and are not revoked are
  -- enrolled.
  pub has_device-rollover :
      (r : Randomness) (current_root_key : Bytes) (code : Text) (revoke : List Text)
      (revoked_by now : Text) (k k' : Keyring) (root_key : Bytes) (id : Text)
      → rollover C r current_root_key code revoke revoked_by now k ≡ ok (k', root_key)
      → has_device k' id ≡ has_device k id && not (contains revoke id)
  unfolding has_device
  has_device-rollover r current_root_key code revoke revoked_by now k k' root_key id h =
      let e = rollover-RolledOver r current_root_key code revoke revoked_by now k k' root_key h in
      let c =
        next_generation-carries e.randomness root_key e.code e.seed revoke revoked_by now k
          e.from_generation e.next e.made in
      ground (
        arith,
        e.found,
        c.3,
        current-rollover r current_root_key code revoke revoked_by now k k' root_key e,
        listed-carry_devices e.randomness.wraps root_key revoke revoked_by now
            (record { profile_id = k.profile_id; generation = max_generation k + 1 })
            e.from_generation.devices c.0 id c.1,
      )
