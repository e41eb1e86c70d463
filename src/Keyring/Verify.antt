-- ===== src/Keyring/Verify.antt =====
-- internal/keyring/keyring.go, `VerifyGenerations`, and signing.go: every generation is signed by
-- the account key.
pub mod Signed
use reinstate.Base.{
  ℕ, suc, ◌-◌, Bool, true, false, not, ◌&&◌, ◌||◌, Option, none, some, List, [], ◌∷◌, map, length,
  ◌==◌, nat_eq, bytes_eq, ltb, if◌then◌else◌, Result, ok, err, ◌>>=◌, ◌>>◌,
}
use reinstate.Base.Sorting.{sort_ints}
use reinstate.Keyring.Model.{
  Bytes, Text, Generation, Keyring, KeyringError, unauthenticated_generation, account_key_mismatch,
  generation_absent, generation,
}
use reinstate.Keyring.Crypto.{Crypto}
use reinstate.Keyring.Message.{generation_message}

abbrev ed25519_public_key_size : ℕ
ed25519_public_key_size = 32

abbrev pub ed25519_signature_size : ℕ
ed25519_signature_size = 64

unfoldable pub generation_numbers : Keyring → List ℕ
generation_numbers k = sort_ints (map (λ g. g.number) k.generations)

-- `k.generation(n - 1)`, which finds nothing below 1.
unfoldable pub previous : Keyring → ℕ → Option Generation
previous k n = if n == 0 then none else generation k (n - 1)

abbrev absent : Option Generation → Bool
absent none = true
absent (some _) = false

module _ (C : Crypto) where
  unfoldable pub parse_account_public_key : Text → Option Bytes
  parse_account_public_key encoded =
      if encoded == [] then none else elim (C.base64_decode encoded) [
        | none ↦ none
        | some raw ↦ if not (length raw == ed25519_public_key_size) then none else some raw
      ]

  unfoldable pub verify_signature : Bytes → Bytes → Text → Bool
  verify_signature public message signature = elim (C.base64_decode signature) [
    | none ↦ false
    | some sig ↦ length sig == ed25519_signature_size && C.verify public message sig
  ]

  -- The body of the loop. A number of the list always finds its generation.
  unfoldable pub verify_number : Bytes → Keyring → ℕ → Bool
  verify_number public k n = elim (generation k n) [
    | none ↦ false
    | some g ↦
        let prev = previous k n in
        if ltb 1 n && absent prev
        then false
        else verify_signature public (generation_message C k g prev) g.signature
  ]

  unfoldable pub verify_numbers : Bytes → Keyring → List ℕ → Result KeyringError (Unit {0})
  verify_numbers public k [] = ok tt
  verify_numbers public k (n ∷ ns) =
      let rest = verify_numbers public k ns in
      if verify_number public k n then rest else err unauthenticated_generation

  -- `pinned` is empty where the caller trusts no key yet.
  unfoldable pub verify_generations : Text → Keyring → Result KeyringError (Unit {0})
  verify_generations pinned k = elim (parse_account_public_key k.account_key) [
    | none ↦ err unauthenticated_generation
    | some public ↦
        if not (pinned == []) && not (pinned == k.account_key)
        then err account_key_mismatch
        else verify_numbers public k (generation_numbers k)
  ]
