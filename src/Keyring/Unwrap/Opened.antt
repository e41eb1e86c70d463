-- ===== src/Keyring/Unwrap/Opened.antt =====
-- What `UnwrapGenerations` returns (internal/keyring/keyring.go).
use mathlib.Core.List.{Memᴰ}
use reinstate.Base.{
  ℕ, ◌≡◌, ◌≢◌, refl, sym, ap, ◌∙◌, subst, inl, inr, false, none, some, List, [], ◌∷◌, ◌==◌, ==_iff,
  nat_eq, bytes_eq, ok, arith, if◌then◌else◌, Bool-cases, Option-cases, Result-cases,
}
use reinstate.Base.Dict.{Dict, lookup, insert, lookup-insert}
use reinstate.Keyring.Model.{Bytes, Text, Generation, Keyring, find_generation, generation, current}
use reinstate.Keyring.Crypto.{Crypto}
use reinstate.Keyring.Generations.{find_generation-number}
use reinstate.Keyring.Wraps.{root_recipient, unwrap_device}
use reinstate.Keyring.Wraps.Opening.{unwrap_device_sound}
use reinstate.Keyring.Enrol.{binding_for}
use reinstate.Keyring.Unwrap.{
  number_of_recipient, unwrap_for_device, generation_of, place_keys, unwrap_generations,
}

find_generation-Memᴰ :
    (n : ℕ) (gs : List Generation) (g : Generation) → find_generation n gs ≡ some g → Memᴰ g gs
unfolding find_generation
find_generation-Memᴰ n [] g h = absurd (ground arith)
find_generation-Memᴰ n (x ∷ gs) g h = elim (Bool-cases (x.number == n)) [
  | inl e ↦ Memᴰ.head (ground arith)
  | inr e ↦ Memᴰ.tail (find_generation-Memᴰ n gs g (ground arith))
]

module _ (C : Crypto) (k : Keyring) where
  -- The key derives the recipient that a generation of that number records.
  pub record IsKeyOf (n : ℕ) (key : Bytes) : Type 0 where
    pub into : Generation
    pub listed : Memᴰ into k.generations
    pub numbered : into.number ≡ n
    pub derived : root_recipient C key ≡ some into.recipient

  -- Every key stands under the number of its generation.
  abbrev pub AreKeys : Dict ℕ Bytes → Type 0
  AreKeys keys = (n : ℕ) (key : Bytes) → lookup n keys ≡ some key → IsKeyOf n key

  number_of_recipient-found :
      (r : Text) (gs : List Generation)
      → (number_of_recipient r gs == 0) ≡ false
      → (g : Generation) × Memᴰ g gs × (g.number ≡ number_of_recipient r gs) × (g.recipient ≡ r)
  unfolding number_of_recipient
  number_of_recipient-found r [] h = absurd (ground arith)
  number_of_recipient-found r (x ∷ gs) h = elim (Bool-cases (x.recipient == r)) [
    | inl e ↦ (x, Memᴰ.head refl, ground arith, (==_iff x.recipient r).0 e)
    | inr e ↦
        let found = number_of_recipient-found r gs (ground arith) in
        (found.0, Memᴰ.tail found.1, ground (arith, found.2), found.3)
  ]

  generation_of-IsKeyOf :
      (key : Bytes) → (generation_of C k key == 0) ≡ false → IsKeyOf (generation_of C k key) key
  unfolding generation_of
  generation_of-IsKeyOf key h = elim (Option-cases (root_recipient C key)) [
    | inl e ↦ absurd (ground arith)
    | inr (r, e) ↦
        let (g, listed, numbered, same) =
          number_of_recipient-found r k.generations (ground arith) in
        record {
          into = g;
          listed = listed;
          numbered = ground arith;
          derived = e ∙ ap some (sym same);
        }
  ]

  insert-AreKeys :
      (n : ℕ) (key : Bytes) (keys : Dict ℕ Bytes)
      → IsKeyOf n key
      → AreKeys keys
      → AreKeys (insert n key keys)
  insert-AreKeys n key keys new old m key' h = elim (Bool-cases (n == m)) [
    | inl e ↦
        let same : key ≡ key' = ground (arith, lookup-insert n m key keys) in
        subst (λ x. IsKeyOf m x) same (subst (λ x. IsKeyOf x key) ((==_iff n m).0 e) new)
    | inr e ↦ old m key' (ground (arith, lookup-insert n m key keys))
  ]

  -- The map after one key.
  abbrev after : Dict ℕ Bytes → Bytes → Dict ℕ Bytes
  after keys key =
      if generation_of C k key == 0 then keys else insert (generation_of C k key) key keys

  after-AreKeys : (keys : Dict ℕ Bytes) (key : Bytes) → AreKeys keys → AreKeys (after keys key)
  after-AreKeys keys key a n key' h = elim (Bool-cases (generation_of C k key == 0)) [
    | inl e ↦ a n key' (ground (arith, h, e))
    | inr e ↦
        insert-AreKeys (generation_of C k key) key keys (generation_of-IsKeyOf key e) a n key'
          (ground (arith, h, e))
  ]

  place_keys-AreKeys :
      (keys : Dict ℕ Bytes) (earlier : List Bytes)
      → AreKeys keys
      → AreKeys (place_keys C k keys earlier)
  unfolding place_keys
  place_keys-AreKeys keys [] a = a
  place_keys-AreKeys keys (key ∷ rest) a =
      place_keys-AreKeys (after keys key) rest (after-AreKeys keys key a)

  after-present :
      (m : ℕ) (keys : Dict ℕ Bytes) (key : Bytes)
      → lookup m keys ≢ none
      → lookup m (after keys key) ≢ none
  after-present m keys key h = ground (arith, lookup-insert (generation_of C k key) m key keys)

  place_keys-present :
      (m : ℕ) (keys : Dict ℕ Bytes) (earlier : List Bytes)
      → lookup m keys ≢ none
      → lookup m (place_keys C k keys earlier) ≢ none
  unfolding place_keys
  place_keys-present m keys [] h = h
  place_keys-present m keys (key ∷ rest) h =
      place_keys-present m (after keys key) rest (after-present m keys key h)

  -- The map before the earlier keys.
  abbrev first_keys : Bytes → Dict ℕ Bytes
  first_keys key = (k.current_generation, key) ∷ []

  first_keys-AreKeys : (key : Bytes) → IsKeyOf k.current_generation key → AreKeys (first_keys key)
  unfolding lookup
  first_keys-AreKeys key new m key' h =
      let same : key ≡ key' = ground arith in
      let number : k.current_generation ≡ m = ground (arith, ==_iff k.current_generation m) in
      subst (λ x. IsKeyOf m x) same (subst (λ x. IsKeyOf x key) number new)

  first_keys-present : (key : Bytes) → lookup k.current_generation (first_keys key) ≢ none
  unfolding lookup
  first_keys-present key = ground arith

  unwrap_for_device-current :
      (id device : Text) (key : Bytes) (earlier : List Bytes)
      → unwrap_for_device C k id device ≡ ok (key, earlier)
      → IsKeyOf k.current_generation key
  unfolding unwrap_for_device current generation
  unwrap_for_device-current id device key earlier h =
      let n = k.current_generation in
      elim (Option-cases (find_generation n k.generations)) [
        | inl e ↦ absurd (ground arith)
        | inr (g, e) ↦
            let opened : unwrap_device C g id device (binding_for k g) ≡ ok key = ground arith in
            record {
              into = g;
              listed = find_generation-Memᴰ n k.generations g e;
              numbered = find_generation-number n k.generations g e;
              derived = (unwrap_device_sound C g id device (binding_for k g) key opened).0;
            }
      ]

  -- Each key that comes back stands under the number of a generation whose recipient it derives, so
  -- a key is never taken for another generation's; and the current generation's key is among them.
  pub unwrap_generations_sound :
      (id device : Text) (keys : Dict ℕ Bytes)
      → unwrap_generations C k id device ≡ ok keys
      → AreKeys keys × (lookup k.current_generation keys ≢ none)
  unfolding unwrap_generations
  unwrap_generations_sound id device keys h =
      elim (Result-cases (unwrap_for_device C k id device)) [
        | inr (e, p) ↦ absurd (ground arith)
        | inl ((key, earlier), p) ↦
            let made : place_keys C k (first_keys key) earlier ≡ keys = ground (arith, h, p) in
            let current_key = unwrap_for_device-current id device key earlier p in
            (
              subst AreKeys made (
                  place_keys-AreKeys (first_keys key) earlier (first_keys-AreKeys key current_key)),
              subst (λ d. lookup k.current_generation d ≢ none) made
                  (place_keys-present k.current_generation (first_keys key) earlier
                    (first_keys-present key)),
            )
      ]
