-- ===== src/Keyring/Message.antt =====
-- internal/keyring/keyring.go, `generationMessage`: the bytes that a generation's signature covers.
pub mod Injective
use reinstate.Base.{
  ℕ, ◌+◌, ◌/◌, ◌%◌, ◌^◌, Option, none, some, List, [], ◌∷◌, ◌++◌, length, codes, Bool,
}
use reinstate.Keyring.Model.{Bytes, Text, Revocation, RecoveryWrap, Generation, Keyring}
use reinstate.Keyring.Crypto.{Crypto}

abbrev generation_signature_info : Text
generation_signature_info = codes "reinstate/keyring/generation/v1"

-- `binary.BigEndian.PutUint64`
unfoldable pub put_uint64 : ℕ → Bytes
put_uint64 n =
    n / 2 ^ 56 % 256
    ∷ n / 2 ^ 48 % 256
    ∷ n / 2 ^ 40 % 256
    ∷ n / 2 ^ 32 % 256
    ∷ n / 2 ^ 24 % 256
    ∷ n / 2 ^ 16 % 256
    ∷ n / 2 ^ 8 % 256
    ∷ n % 256
    ∷ []

-- The local `write`: each field behind its length.
unfoldable pub write : List Text → Bytes
write [] = []
write (f ∷ fs) = put_uint64 (length f) ++ (f ++ write fs)

unfoldable pub revocation_fields : List Revocation → List Text
revocation_fields [] = []
revocation_fields (r ∷ rs) = r.device_id ∷ r.revoked_at ∷ r.revoked_by ∷ revocation_fields rs

abbrev previous_number : Option Generation → ℕ
previous_number none = 0
previous_number (some g) = g.number

abbrev previous_recipient : Option Generation → Text
previous_recipient none = []
previous_recipient (some g) = g.recipient

module _ (C : Crypto) where
  open C use {itoa}

  unfoldable pub recovery_fields : RecoveryWrap → List Text
  recovery_fields w =
      w.kdf
      ∷ itoa w.time
      ∷ itoa w.memory_kib
      ∷ itoa w.threads
      ∷ itoa w.format
      ∷ w.salt
      ∷ w.wrap
      ∷ []

  unfoldable pub message_fields : Keyring → Generation → Option Generation → List Text
  message_fields k g prev =
      generation_signature_info
      ∷ k.profile_id
      ∷ k.account_key
      ∷ itoa g.number
      ∷ g.created_at
      ∷ g.recipient
      ∷ itoa (previous_number prev)
      ∷ previous_recipient prev
      ∷ itoa (length g.revoked)
      ∷ (revocation_fields g.revoked ++ recovery_fields g.recovery)

  -- Three calls of `write` on one buffer are one call on all the fields.
  unfoldable pub generation_message : Keyring → Generation → Option Generation → Bytes
  generation_message k g prev = write (message_fields k g prev)
