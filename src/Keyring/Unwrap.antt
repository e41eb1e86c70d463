-- ===== src/Keyring/Unwrap.antt =====
-- internal/keyring/keyring.go: the root keys that a device or the recovery code opens, generation by
-- generation, and what a keyring tells of its generations. A map of keys is a dictionary; wiping a
-- key is not seen.
pub mod Opened
pub mod Recovered
use reinstate.Base.{
  ℕ, Bool, true, false, not, ◌&&◌, ◌||◌, Option, none, some, List, [], ◌∷◌, ◌++◌, ◌==◌, nat_eq,
  bytes_eq, any, if◌then◌else◌, Result, ok, err, ◌>>=◌,
}
use reinstate.Base.Dict.{Dict, insert}
use reinstate.Keyring.Model.{
  Bytes, Text, Revocation, Generation, Keyring, KeyringError, no_current_generation, generation,
  current,
}
use reinstate.Keyring.Crypto.{Crypto}
use reinstate.Keyring.Verify.{generation_numbers}
use reinstate.Keyring.Wraps.{
  root_recipient, is_not_enrolled, unwrap_device, unwrap_with_recovery_code,
}
use reinstate.Keyring.Enrol.{binding_for, has_device}

-- Empty where there is no such generation.
abbrev recipient_or_empty : Option Generation → Text
recipient_or_empty none = []
recipient_or_empty (some g) = g.recipient

unfoldable pub generation_recipient : Keyring → ℕ → Text
generation_recipient k number = recipient_or_empty (generation k number)

unfoldable pub current_recipient : Keyring → Text
current_recipient k = recipient_or_empty (current k)

-- A number of the list always finds its generation.
unfoldable pub revocations_of : Keyring → List ℕ → List Revocation
revocations_of k [] = []
revocations_of k (n ∷ ns) = elim (generation k n) [
  | none ↦ revocations_of k ns
  | some g ↦ g.revoked ++ revocations_of k ns
]

unfoldable pub revocations : Keyring → List Revocation
revocations k = revocations_of k (generation_numbers k)

unfoldable pub revoked_device : Keyring → Text → Bool
revoked_device k device_id =
    if has_device k device_id then false else any (λ r. r.device_id == device_id) (revocations k)

-- The first generation with that recipient.
unfoldable pub number_of_recipient : Text → List Generation → ℕ
number_of_recipient recipient [] = 0
number_of_recipient recipient (g ∷ gs) =
    if g.recipient == recipient then g.number else number_of_recipient recipient gs

module _ (C : Crypto) (k : Keyring) where
  unfoldable pub unwrap_current : Text → Result KeyringError Bytes
  unwrap_current recovery_code = elim (current k) [
    | none ↦ err no_current_generation
    | some g ↦ unwrap_with_recovery_code C g.recovery recovery_code (binding_for k g)
  ]

  -- What the loop does with the answer for one generation.
  unfoldable pub take_earlier :
      List Bytes → Result KeyringError Bytes → Result KeyringError (List Bytes)
  take_earlier earlier (ok key) = ok (earlier ++ (key ∷ []))
  take_earlier earlier (err e) = if is_not_enrolled e then ok earlier else err e

  -- The loop from the last number to the first. A number of the list always finds its generation.
  unfoldable pub unwrap_earlier : Text → Text → List ℕ → Result KeyringError (List Bytes)
  unwrap_earlier device_id device [] = ok []
  unwrap_earlier device_id device (n ∷ ns) = unwrap_earlier device_id device ns >>= λ earlier.
      if n == k.current_generation then ok earlier else elim (generation k n) [
        | none ↦ ok earlier
        | some g ↦ take_earlier earlier (unwrap_device C g device_id device (binding_for k g))
      ]

  unfoldable pub unwrap_for_device : Text → Text → Result KeyringError (Bytes × List Bytes)
  unwrap_for_device device_id device = elim (current k) [
    | none ↦ err no_current_generation
    | some g ↦ unwrap_device C g device_id device (binding_for k g) >>= λ key.
        unwrap_earlier device_id device (generation_numbers k) >>= λ earlier. ok (key, earlier)
  ]

  unfoldable pub generation_of : Bytes → ℕ
  generation_of root_key = elim (root_recipient C root_key) [
    | none ↦ 0
    | some recipient ↦ number_of_recipient recipient k.generations
  ]

  -- The loop over the earlier keys.
  unfoldable pub place_keys : Dict ℕ Bytes → List Bytes → Dict ℕ Bytes
  place_keys keys [] = keys
  place_keys keys (key ∷ rest) =
      let n = generation_of key in place_keys (if n == 0 then keys else insert n key keys) rest

  unfoldable pub unwrap_generations : Text → Text → Result KeyringError (Dict ℕ Bytes)
  unwrap_generations device_id device = do
    (key, earlier) ← unwrap_for_device device_id device
    ok (place_keys ((k.current_generation, key) ∷ []) earlier)

  -- The body of the loop over the generations.
  unfoldable pub recover_key : Text → ℕ → Option Bytes
  recover_key recovery_code n = elim (generation k n) [
    | none ↦ none
    | some g ↦ elim (unwrap_with_recovery_code C g.recovery recovery_code (binding_for k g)) [
      | err e ↦ none
      | ok key ↦ some key
    ]
  ]

  abbrev pub place : ℕ → Option Bytes → Dict ℕ Bytes → Dict ℕ Bytes
  place n none keys = keys
  place n (some key) keys = insert n key keys

  unfoldable pub recover_keys : Text → List ℕ → Dict ℕ Bytes → Dict ℕ Bytes
  recover_keys recovery_code [] keys = keys
  recover_keys recovery_code (n ∷ ns) keys =
      recover_keys recovery_code ns
        (if n == k.current_generation then keys else place n (recover_key recovery_code n) keys)

  unfoldable pub unwrap_generations_with_recovery_code : Text → Result KeyringError (Dict ℕ Bytes)
  unwrap_generations_with_recovery_code recovery_code = unwrap_current recovery_code >>= λ key.
      ok (recover_keys recovery_code (generation_numbers k) ((k.current_generation, key) ∷ []))
