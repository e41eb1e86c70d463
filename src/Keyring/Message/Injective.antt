-- ===== src/Keyring/Message/Injective.antt =====
-- No two different generation headers give the same bytes to sign (internal/keyring/keyring.go,
-- `generationMessage`).
use reinstate.Base.{ℕ, ◌^◌, ◌<◌, ◌≡◌, refl, Option, List, [], ◌∷◌, ◌++◌, length, All, arith}
use reinstate.Keyring.Model.{Bytes, Text, Revocation, RecoveryWrap, Generation, Keyring}
use reinstate.Keyring.Crypto.{Crypto, IsLawful}
use reinstate.Keyring.Message.{
  put_uint64, write, revocation_fields, recovery_fields, message_fields, generation_message,
  previous_number, previous_recipient,
}

put_uint64-injective : (m n : ℕ) → m < 2 ^ 64 → n < 2 ^ 64 → put_uint64 m ≡ put_uint64 n → m ≡ n
unfolding put_uint64
put_uint64-injective m n p q h = ground arith

append_cancel :
    (xs ys s t : Bytes) → length xs ≡ length ys → xs ++ s ≡ ys ++ t → (xs ≡ ys) × (s ≡ t)
append_cancel [] [] s t l h = (refl, h)
append_cancel [] (y ∷ ys) s t l h = absurd (omega arith)
append_cancel (x ∷ xs) [] s t l h = absurd (omega arith)
append_cancel (x ∷ xs) (y ∷ ys) s t l h = ground (arith, append_cancel xs ys s t)

put_uint64-append :
    (m n : ℕ) (s t : Bytes)
    → m < 2 ^ 64
    → n < 2 ^ 64
    → put_uint64 m ++ s ≡ put_uint64 n ++ t
    → (m ≡ n) × (s ≡ t)
put_uint64-append m n s t p q h =
    let c = append_cancel (put_uint64 m) (put_uint64 n) s t (unfold put_uint64 in refl) h in
    (put_uint64-injective m n p q c.0, c.1)

abbrev pub Fits : List Text → Type 0
Fits = All (λ f. length f < 2 ^ 64)

write-injective : (xs ys : List Text) → Fits xs → Fits ys → write xs ≡ write ys → xs ≡ ys
write-injective [] [] p q h = refl
write-injective [] (y ∷ ys) p q h = unfold write put_uint64 in cc
write-injective (x ∷ xs) [] p q h = unfold write put_uint64 in cc
write-injective (x ∷ xs) (y ∷ ys) p q h =
    let c =
      put_uint64-append (length x) (length y) (x ++ write xs) (y ++ write ys) p.0 q.0
        (unfold write in h) in
    let e = append_cancel x y (write xs) (write ys) c.0 c.1 in
    cc (e.0, write-injective xs ys p.1 q.1 e.1)

revocation_fields-cancel :
    (rs rs' : List Revocation) (s t : List Text)
    → length rs ≡ length rs'
    → revocation_fields rs ++ s ≡ revocation_fields rs' ++ t
    → (rs ≡ rs') × (s ≡ t)
unfolding revocation_fields
revocation_fields-cancel [] [] s t l h = (refl, h)
revocation_fields-cancel [] (r' ∷ rs') s t l h = absurd (omega arith)
revocation_fields-cancel (r ∷ rs) [] s t l h = absurd (omega arith)
revocation_fields-cancel (r ∷ rs) (r' ∷ rs') s t l h =
    ground (arith, revocation_fields-cancel rs rs' s t)

-- What a signature covers of a generation: all of it but the device wraps and the signature, with
-- the profile, the account key, and the generation that it follows.
pub record Header : Type 0 where
  pub profile_id : Text
  pub account_key : Text
  pub number : ℕ
  pub created_at : Text
  pub recipient : Text
  pub previous_number : ℕ
  pub previous_recipient : Text
  pub revoked : List Revocation
  pub recovery : RecoveryWrap

unfoldable pub header : Keyring → Generation → Option Generation → Header
header k g prev = record {
  profile_id = k.profile_id;
  account_key = k.account_key;
  number = g.number;
  created_at = g.created_at;
  recipient = g.recipient;
  previous_number = previous_number prev;
  previous_recipient = previous_recipient prev;
  revoked = g.revoked;
  recovery = g.recovery;
}

module _ (C : Crypto) (L : IsLawful C) where
  recovery_fields-injective :
      (v w : RecoveryWrap) → recovery_fields C v ≡ recovery_fields C w → v ≡ w
  unfolding recovery_fields
  recovery_fields-injective v w h = ground (
    arith,
    L.itoa_injective v.time w.time,
    L.itoa_injective v.memory_kib w.memory_kib,
    L.itoa_injective v.threads w.threads,
    L.itoa_injective v.format w.format,
  )

  -- Two generations whose signed bytes agree have the same header: every field, the whole recovery
  -- wrap and every revocation. Each field is shorter than 2^64 bytes.
  pub generation_message-injective :
      (k k' : Keyring) (g g' : Generation) (prev prev' : Option Generation)
      → Fits (message_fields C k g prev)
      → Fits (message_fields C k' g' prev')
      → generation_message C k g prev ≡ generation_message C k' g' prev'
      → header k g prev ≡ header k' g' prev'
  unfolding generation_message message_fields header
  generation_message-injective k k' g g' prev prev' p q h =
      let e = write-injective (message_fields C k g prev) (message_fields C k' g' prev') p q h in
      ground (
        arith,
        e,
        L.itoa_injective g.number g'.number,
        L.itoa_injective (previous_number prev) (previous_number prev'),
        L.itoa_injective (length g.revoked) (length g'.revoked),
        revocation_fields-cancel g.revoked g'.revoked (recovery_fields C g.recovery)
            (recovery_fields C g'.recovery),
        recovery_fields-injective g.recovery g'.recovery,
      )
