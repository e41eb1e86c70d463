-- ===== src/Keyring/Unwrap/Recovered.antt =====
-- What `UnwrapGenerationsWithRecoveryCode` returns (internal/keyring/keyring.go).
use reinstate.Base.{
  ℕ, ◌≡◌, refl, sym, ap, ◌∙◌, inl, inr, false, not, ◌&&◌, Option, none, some, List, [], ◌∷◌, map,
  ◌==◌, ==_iff, nat_eq, contains, ok, arith, if◌then◌else◌, Bool-cases, Option-cases, Result-cases,
}
use reinstate.Base.Dict.{Dict, lookup, lookup-insert}
use reinstate.Base.Sorting.{contains-sort_ints}
use reinstate.Keyring.Model.{Bytes, Text, Generation, Keyring, find_generation, generation, current}
use reinstate.Keyring.Crypto.{Crypto}
use reinstate.Keyring.Verify.{generation_numbers}
use reinstate.Keyring.Unwrap.{
  place, recover_key, recover_keys, unwrap_current, unwrap_generations_with_recovery_code,
}

find_generation-absent :
    (n : ℕ) (gs : List Generation)
    → contains (map (λ (g : Generation). g.number) gs) n ≡ false
    → find_generation n gs ≡ none
unfolding find_generation
find_generation-absent n [] h = refl
find_generation-absent n (g ∷ gs) h = ground (arith, find_generation-absent n gs)

lookup-singleton :
    (c m : ℕ) (key : Bytes) → lookup m ((c, key) ∷ []) ≡ (if c == m then some key else none)
unfolding lookup
lookup-singleton c m key = refl

-- The first answer that there is.
abbrev or_else : Option Bytes → Option Bytes → Option Bytes
or_else none o = o
or_else (some key) o = some key

or_else_idem : (r o : Option Bytes) → or_else r (or_else r o) ≡ or_else r o
or_else_idem none o = refl
or_else_idem (some key) o = refl

module _ (C : Crypto) (k : Keyring) (code : Text) where
  lookup-place :
      (n m : ℕ) (r : Option Bytes) (keys : Dict ℕ Bytes)
      → lookup m (place C k n r keys)
        ≡ (if n == m then or_else r (lookup m keys) else lookup m keys)
  lookup-place n m none keys = ground arith
  lookup-place n m (some key) keys = lookup-insert n m key keys

  recover_key-absent :
      (m : ℕ) → contains (generation_numbers k) m ≡ false → recover_key C k code m ≡ none
  unfolding recover_key generation_numbers generation
  recover_key-absent m h =
      let e =
        find_generation-absent m k.generations
          (sym (contains-sort_ints m (map (λ (g : Generation). g.number) k.generations)) ∙ h) in
      ground (arith, e)

  recover_key-current :
      (key : Bytes)
      → unwrap_current C k code ≡ ok key
      → recover_key C k code k.current_generation ≡ some key
  unfolding recover_key unwrap_current current
  recover_key-current key h = elim (Option-cases (generation k k.current_generation)) [
    | inl e ↦ ground arith
    | inr (g, e) ↦ ground arith
  ]

  -- The answer for `m` once the numbers `ns` are done.
  abbrev answer : List ℕ → ℕ → Dict ℕ Bytes → Option Bytes
  answer ns m keys =
      if contains ns m && not (m == k.current_generation)
      then or_else (recover_key C k code m) (lookup m keys)
      else lookup m keys

  answer-place :
      (n : ℕ) (ns : List ℕ) (m : ℕ) (keys : Dict ℕ Bytes)
      → (n == k.current_generation) ≡ false
      → answer ns m (place C k n (recover_key C k code n) keys) ≡ answer (n ∷ ns) m keys
  answer-place n ns m keys h = elim (Bool-cases (n == m)) [
    | inl e ↦ ground (
      arith,
      lookup-place n m (recover_key C k code n) keys,
      or_else_idem (recover_key C k code m) (lookup m keys),
      ap (recover_key C k code) ((==_iff n m).0 e),
    )
    | inr e ↦ ground (arith, lookup-place n m (recover_key C k code n) keys)
  ]

  lookup-recover_keys :
      (ns : List ℕ) (m : ℕ) (keys : Dict ℕ Bytes)
      → lookup m (recover_keys C k code ns keys) ≡ answer ns m keys
  unfolding recover_keys
  lookup-recover_keys [] m keys = refl
  lookup-recover_keys (n ∷ ns) m keys = elim (Bool-cases (n == k.current_generation)) [
    | inl e ↦ ground (arith, lookup-recover_keys ns m keys, ==_iff n m)
    | inr e ↦
        let placed = place C k n (recover_key C k code n) keys in
        ground (arith, lookup-recover_keys ns m placed, answer-place n ns m keys e)
  ]

  -- Where the recovery code opens the current generation, it returns for each generation of the
  -- keyring exactly what the code opens of it, and for any other number nothing.
  pub lookup-unwrap_generations_with_recovery_code :
      (keys : Dict ℕ Bytes) (m : ℕ)
      → unwrap_generations_with_recovery_code C k code ≡ ok keys
      → lookup m keys ≡ recover_key C k code m
  unfolding unwrap_generations_with_recovery_code
  lookup-unwrap_generations_with_recovery_code keys m h =
      elim (Result-cases (unwrap_current C k code)) [
        | inr (e, p) ↦ ground arith
        | inl (key, p) ↦
            let ns = generation_numbers k in
            let start : Dict ℕ Bytes = (k.current_generation, key) ∷ [] in
            let made : recover_keys C k code ns start ≡ keys = ground (arith, h, p) in
            ap (lookup m) (sym made)
            ∙ lookup-recover_keys ns m start
            ∙ ground (
              arith,
              lookup-singleton k.current_generation m key,
              recover_key-current key p,
              recover_key-absent m,
              ==_iff k.current_generation m,
              ==_iff m k.current_generation,
            )
      ]
