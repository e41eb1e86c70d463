-- ===== src/Keyring/Verify/Signed.antt =====
-- What a successful verification shows (internal/keyring/keyring.go, `VerifyGenerations`).
use reinstate.Base.{
  ℕ, ◌<◌, ◌≡◌, refl, ◌≢◌, ◌↔◌, ◌⊎◌, inl, inr, true, none, some, List, [], ◌∷◌, map, length, All,
  nat_eq, ==_iff, contains, bytes_eq, ok, arith, Option-cases, ◌∙◌,
}
use reinstate.Base.Sorting.{contains-sort_ints, All-contains}
use reinstate.Keyring.Model.{Bytes, Text, Generation, Keyring, generation, find_generation}
use reinstate.Keyring.Crypto.{Crypto}
use reinstate.Keyring.Message.{generation_message}
use reinstate.Keyring.Verify.{
  generation_numbers, previous, parse_account_public_key, verify_signature, verify_number,
  verify_numbers, verify_generations,
}

pub contains-find_generation :
    (n : ℕ) (gs : List Generation) (h : Generation)
    → find_generation n gs ≡ some h
    → contains (map (λ (g : Generation). g.number) gs) n ≡ true
unfolding find_generation
contains-find_generation n [] h e = cc
contains-find_generation n (g ∷ gs) h e = ground (arith, contains-find_generation n gs h)

module _ (C : Crypto) where
  verify_numbers-ok_iff :
      (public : Bytes) (k : Keyring) (ns : List ℕ)
      → (verify_numbers C public k ns ≡ ok tt) ↔ All (λ n. verify_number C public k n ≡ true) ns
  unfolding verify_numbers
  verify_numbers-ok_iff public k [] = (λ h. tt, λ h. refl)
  verify_numbers-ok_iff public k (n ∷ ns) = ground (arith, verify_numbers-ok_iff public k ns)

  -- A generation's signature, checked against the bytes it covers and the generation it follows.
  pub record Signed (public : Bytes) (k : Keyring) (n : ℕ) (g : Generation) : Type 0 where
    pub signature : Bytes
    pub decoded : C.base64_decode g.signature ≡ some signature
    pub sized : length signature ≡ 64
    pub verified : C.verify public (generation_message C k g (previous k n)) signature ≡ true
    pub follows : (n < 2) ⊎ (previous k n ≢ none)

  verify_signature-decoded :
      (public message : Bytes) (text : Text)
      → verify_signature C public message text ≡ true
      → (sig : Bytes) × (C.base64_decode text ≡ some sig)
        × (length sig ≡ 64)
        × (C.verify public message sig ≡ true)
  unfolding verify_signature
  verify_signature-decoded public message text h = elim (Option-cases (C.base64_decode text)) [
    | inl e ↦ ground arith
    | inr (sig, e) ↦ (sig, e, ground arith, ground arith)
  ]

  verify_number-Signed :
      (public : Bytes) (k : Keyring) (n : ℕ) (g : Generation)
      → generation k n ≡ some g
      → verify_number C public k n ≡ true
      → Signed public k n g
  unfolding verify_number
  verify_number-Signed public k n g e h =
      let v =
        verify_signature-decoded public (generation_message C k g (previous k n)) g.signature
          (ground arith) in
      record { signature = v.0; decoded = v.1; sized = v.2; verified = v.3; follows = ground arith }

  -- When verification succeeds, the published account key decodes to a public key, the pinned key
  -- (where there is one) is that published key, and every generation that can be looked up carries
  -- a signature by that key over its own header, and follows another generation unless it is the
  -- first.
  pub verify_generations_sound :
      (pinned : Text) (k : Keyring) (n : ℕ) (g : Generation)
      → verify_generations C pinned k ≡ ok tt
      → generation k n ≡ some g
      → (public : Bytes) × (parse_account_public_key C k.account_key ≡ some public)
        × ((pinned ≡ []) ⊎ (pinned ≡ k.account_key))
        × Signed public k n g
  unfolding verify_generations generation_numbers generation
  verify_generations_sound pinned k n g h e =
      elim (Option-cases (parse_account_public_key C k.account_key)) [
        | inl p ↦ ground arith
        | inr (public, p) ↦ (
          public,
          p,
          ground (arith, ==_iff pinned [], ==_iff pinned k.account_key),
          verify_number-Signed public k n g e (
              All-contains (λ m. verify_number C public k m ≡ true) (generation_numbers k) n
                ((verify_numbers-ok_iff public k (generation_numbers k)).0 (ground arith))
                (contains-sort_ints n (map (λ (h : Generation). h.number) k.generations)
                  ∙ contains-find_generation n k.generations g e)),
        )
      ]
