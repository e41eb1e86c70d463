-- ===== src/Keyring/Parse/Accepted.antt =====
-- What `Parse` accepts (internal/keyring/keyring.go).
use reinstate.Base.{
  ℕ, zero, suc, ◌+◌, ◌<◌, ◌≤◌, ◌≡◌, refl, ◌∙◌, ap, ◌≢◌, true, false, ◌||◌, none, some, List, [],
  ◌∷◌, map, length, All, arith, ◌==◌, ==_iff, nat_eq, bytes_eq, contains, ok, Option-cases,
  Bool-cases, subst, inl, inr, Result-cases,
}
use reinstate.Keyring.Model.{
  Bytes, Text, DeviceWrap, Generation, Keyring, schema_version, wrap_format_bound, find_generation,
  generation, current,
}
use reinstate.Keyring.Crypto.{Crypto}
use reinstate.Keyring.Verify.{verify_generations, parse_account_public_key}
use reinstate.Keyring.Verify.Signed.{Signed, verify_generations_sound}
use reinstate.Keyring.Parse.{
  Codec, check_devices, device_formats, check_formats, check_gaps, check_current, check_generation,
  check_generations, validate, parse,
}

-- No device id is listed twice, empty, or among those seen.
abbrev pub AreDistinct : List Text → List DeviceWrap → Type 0
AreDistinct seen [] = Unit {0}
AreDistinct seen (d ∷ ds) =
    (d.device_id ≢ []) × (contains seen d.device_id ≡ false) × AreDistinct (d.device_id ∷ seen) ds

abbrev pub HasBoundWraps : List DeviceWrap → Type 0
HasBoundWraps [] = Unit {0}
HasBoundWraps (d ∷ ds) = (d.format ≡ wrap_format_bound) × HasBoundWraps ds

-- A generation on its own.
pub record IsWellFormed (g : Generation) : Type 0 where
  pub positive : g.number ≢ 0
  pub distinct : AreDistinct [] g.devices
  pub recovery_bound : g.recovery.format ≡ wrap_format_bound
  pub devices_bound : HasBoundWraps g.devices

abbrev pub HasDistinctNumbers : List ℕ → List Generation → Type 0
HasDistinctNumbers seen [] = Unit {0}
HasDistinctNumbers seen (g ∷ gs) =
    (contains seen g.number ≡ false) × HasDistinctNumbers (g.number ∷ seen) gs

check_devices-AreDistinct :
    (seen : List Text) (ds : List DeviceWrap) → check_devices seen ds ≡ ok tt → AreDistinct seen ds
unfolding check_devices
check_devices-AreDistinct seen [] h = tt
check_devices-AreDistinct seen (d ∷ ds) h = (
  ground (arith, ==_iff d.device_id []),
  ground arith,
  check_devices-AreDistinct (d.device_id ∷ seen) ds (ground arith),
)

check_formats-HasBoundWraps :
    (ds : List DeviceWrap) → check_formats (device_formats ds) ≡ ok tt → HasBoundWraps ds
unfolding check_formats device_formats
check_formats-HasBoundWraps [] h = tt
check_formats-HasBoundWraps (d ∷ ds) h =
    (ground (arith, ==_iff d.format 2), check_formats-HasBoundWraps ds (ground arith))

check_gaps-contains :
    (m i : ℕ) (seen : List ℕ) (n : ℕ)
    → check_gaps m i seen ≡ ok tt
    → i ≤ n
    → n < i + m
    → contains seen n ≡ true
unfolding check_gaps
check_gaps-contains zero i seen n h p q = absurd (omega arith)
check_gaps-contains (suc m) i seen n h p q = ground (arith, check_gaps-contains m (suc i) seen n)

contains-find_generation-none :
    (n : ℕ) (gs : List Generation)
    → find_generation n gs ≡ none
    → contains (map (λ (g : Generation). g.number) gs) n ≡ false
unfolding find_generation
contains-find_generation-none n [] h = refl
contains-find_generation-none n (g ∷ gs) h = ground (arith, contains-find_generation-none n gs)

find_generation-All :
    (P : Generation → Type 0) (n : ℕ) (gs : List Generation) (g : Generation)
    → All P gs
    → find_generation n gs ≡ some g
    → P g
unfolding find_generation
find_generation-All P n [] g a h = absurd (ground arith)
find_generation-All P n (x ∷ gs) g a h = elim (Bool-cases (x.number == n)) [
  | inl p ↦ let e : x ≡ g = ground arith in subst P e a.0
  | inr p ↦ find_generation-All P n gs g a.1 (ground arith)
]

module _ (C : Crypto) where
  check_generation-IsWellFormed :
      (seen : List ℕ) (g : Generation)
      → check_generation C seen g ≡ ok tt
      → IsWellFormed g × (contains seen g.number ≡ false)
  unfolding check_generation check_formats
  check_generation-IsWellFormed seen g h = (
    record {
      positive = ground (arith, ==_iff g.number 0);
      distinct = check_devices-AreDistinct [] g.devices (ground arith);
      recovery_bound = ground (arith, ==_iff g.recovery.format 2);
      devices_bound = check_formats-HasBoundWraps g.devices (ground arith);
    },
    ground arith,
  )

  check_generations-IsWellFormed :
      (seen : List ℕ) (gs : List Generation) (seen' : List ℕ)
      → check_generations C seen gs ≡ ok seen'
      → All IsWellFormed gs
        × HasDistinctNumbers seen gs
        × ((n : ℕ)
            → contains seen' n
              ≡ contains seen n || contains (map (λ (g : Generation). g.number) gs) n)
  unfolding check_generations
  check_generations-IsWellFormed seen [] seen' h = (tt, tt, λ n. ground arith)
  check_generations-IsWellFormed seen (g ∷ gs) seen' h =
      elim (Result-cases (check_generation C seen g)) [
        | inr (e, p) ↦ absurd (ground arith)
        | inl (t, p) ↦
            let r = check_generations-IsWellFormed (g.number ∷ seen) gs seen' (ground arith) in
            let w = check_generation-IsWellFormed seen g p in
            ((w.0, r.0), (w.1, r.1), λ n. ground (arith, r.2 n))
      ]

  -- The parts of a validation that succeeds.
  validate-parts :
      (k k' : Keyring)
      → validate C k ≡ ok k'
      → (k ≡ k')
        × (k.schema_version ≡ schema_version)
        × (k.profile_id ≢ [])
        × (seen : List ℕ) × (check_generations C [] k.generations ≡ ok seen)
        × (check_gaps (length k.generations) 1 seen ≡ ok tt)
        × (check_current k ≡ ok tt)
        × (verify_generations C [] k ≡ ok tt)
  unfolding validate
  validate-parts k k' h = elim (Result-cases (check_generations C [] k.generations)) [
    | inr (e, p) ↦ absurd (ground arith)
    | inl (seen, p) ↦ (
      ground arith,
      ground (arith, ==_iff k.schema_version 5),
      ground (arith, ==_iff k.profile_id []),
      seen,
      p,
      ground arith,
      ground arith,
      ground arith,
    )
  ]

  -- A keyring that `Parse` may return.
  pub record Accepted (k : Keyring) : Type 0 where
    pub version : k.schema_version ≡ schema_version
    pub profiled : k.profile_id ≢ []
    pub numbered : HasDistinctNumbers [] k.generations
    pub gapless : (n : ℕ) → 1 ≤ n → n ≤ length k.generations → generation k n ≢ none
    pub has_current : current k ≢ none
    pub well_formed : (n : ℕ) (g : Generation) → generation k n ≡ some g → IsWellFormed g
    pub account_key : Bytes
    pub published : parse_account_public_key C k.account_key ≡ some account_key
    pub signed : (n : ℕ) (g : Generation) → generation k n ≡ some g → Signed C account_key k n g

  validate-Accepted : (k k' : Keyring) → validate C k ≡ ok k' → (k ≡ k') × Accepted k
  unfolding generation check_current
  validate-Accepted k k' h =
      let p = validate-parts k k' h in
      let seen = p.3 in
      let w = check_generations-IsWellFormed [] k.generations seen p.4 in
      elim (Option-cases (current k)) [
        | inl e ↦ absurd (ground (arith, p.6))
        | inr (c, e) ↦
            let s =
              verify_generations_sound C [] k k.current_generation c p.7 (unfold current in e) in
            (
              p.0,
              record {
                version = p.1;
                profiled = p.2;
                numbered = w.1;
                gapless = λ n one le z.
                    let none_there = contains-find_generation-none n k.generations z in
                    let there =
                      check_gaps-contains (length k.generations) 1 seen n p.5 one (omega arith) in
                    ground (arith, w.2 n, none_there, there);
                has_current = λ z. ground arith;
                well_formed = λ n g f. find_generation-All IsWellFormed n k.generations g w.0 f;
                account_key = s.0;
                published = s.1;
                signed = λ n g f.
                    let t = verify_generations_sound C [] k n g p.7 f in
                    let same : t.0 ≡ s.0 = ground (arith, t.1, s.1) in
                    subst (λ key. Signed C key k n g) same t.3;
              },
            )
      ]

  -- A keyring that `Parse` returns is the decoded object, and is accepted: its version is the one
  -- this code writes; its generations have distinct numbers, from 1 on without gaps, and one is the
  -- current; each lists distinct devices under ids and bound wraps only, and is signed by the
  -- account key that the object publishes.
  pub parse-Accepted :
      (codec : Codec) (raw : Bytes) (k : Keyring)
      → parse C codec raw ≡ ok k
      → (codec.unmarshal raw ≡ some k) × Accepted k
  unfolding parse
  parse-Accepted codec raw k h = elim (Option-cases (codec.unmarshal raw)) [
    | inl e ↦ absurd (ground arith)
    | inr (k', e) ↦
        let v = validate-Accepted k' k (ground arith) in (e ∙ ap some v.0, subst Accepted v.0 v.1)
  ]
