-- ===== src/Keyring/New/Verified.antt =====
-- A new keyring verifies (internal/keyring/keyring.go, `New` and `VerifyGenerations`).
use reinstate.Base.{
  ◌≡◌, ◌∙◌, ap, true, Option, none, some, [], arith, ==_iff, ==_refl, nat_eq, bytes_eq, ok,
  Result-cases, Option-cases, inl, inr,
}
use reinstate.Base.Sorting.{sort_ints}
use reinstate.Keyring.Model.{
  Bytes, Text, Generation, RecoveryWrap, DeviceWrap, Keyring, Binding, generation, find_generation,
}
use reinstate.Keyring.Crypto.{Crypto, IsLawful}
use reinstate.Keyring.Message.{generation_message, message_fields}
use reinstate.Keyring.Wraps.{root_recipient, wrap_for_device, wrap_under_recovery_code}
use reinstate.Keyring.Verify.{
  parse_account_public_key, verify_signature, verify_number, verify_numbers, verify_generations,
  generation_numbers, previous,
}
use reinstate.Keyring.Rollover.{Randomness, derive_account_key, account_public, account_sign}
use reinstate.Keyring.New.{first_generation, keyring_of, sign_first, new_keyring}

module _ (C : Crypto) (L : IsLawful C) where
  parse_account_public_key-account_public :
      (seed : Bytes) → parse_account_public_key C (account_public C seed) ≡ some (C.public_key seed)
  unfolding parse_account_public_key account_public
  parse_account_public_key-account_public seed =
      let key = C.public_key seed in
      ground (
        arith,
        ==_iff (C.base64_encode key) [],
        L.base64_empty key,
        L.base64_round_trip key,
        L.public_key_size seed,
      )

  verify_signature-account_sign :
      (seed message : Bytes)
      → verify_signature C (C.public_key seed) message (account_sign C seed message) ≡ true
  unfolding verify_signature account_sign
  verify_signature-account_sign seed message = ground (
    arith,
    L.base64_round_trip (C.sign seed message),
    L.signature_size seed message,
    L.verify-sign seed message,
  )

  verify_generations-sign_first :
      (profile_id seed recipient now : Text) (recovery : RecoveryWrap) (wrap : DeviceWrap)
      → let k = sign_first C profile_id seed (first_generation C recipient recovery wrap now) in
        verify_generations C (account_public C seed) k ≡ ok tt
  unfolding verify_generations sign_first keyring_of first_generation generation_numbers sort_ints
      verify_numbers verify_number generation find_generation previous generation_message
      message_fields
  verify_generations-sign_first profile_id seed recipient now recovery wrap =
      let g = first_generation C recipient recovery wrap now in
      let message = generation_message C (keyring_of C profile_id seed g) g none in
      ground (
        arith,
        parse_account_public_key-account_public seed,
        ==_refl (account_public C seed),
        verify_signature-account_sign seed message,
      )

  account_key-sign_first :
      (profile_id seed : Text) (g : Generation) (k : Keyring)
      → k ≡ sign_first C profile_id seed g
      → k.account_key ≡ account_public C seed
  unfolding sign_first keyring_of
  account_key-sign_first profile_id seed g k h = ap (λ (k : Keyring). k.account_key) h

  -- A keyring that `New` makes verifies under the account key that the recovery code derives, which
  -- it publishes.
  pub verify_generations-new_keyring :
      (r : Randomness) (profile_id root_key code device_id : Text) (device : Option Text)
      (now : Text) (k : Keyring)
      → new_keyring C r profile_id root_key code device_id device now ≡ ok k
      → (seed : Bytes) × (derive_account_key C profile_id code ≡ ok seed)
        × (k.account_key ≡ account_public C seed)
        × (verify_generations C k.account_key k ≡ ok tt)
  unfolding new_keyring
  verify_generations-new_keyring r profile_id root_key code device_id none now k h =
      absurd (ground arith)
  verify_generations-new_keyring r profile_id root_key code device_id (some device) now k h =
      let bind : Binding = record { profile_id = profile_id; generation = 1 } in
      let public = C.identity_recipient device in
      elim (Option-cases (root_recipient C root_key)) [
        | inl e ↦ absurd (ground arith)
        | inr (recipient, e) ↦
            elim (Result-cases (wrap_under_recovery_code C r.salt r.nonce root_key code bind)) [
              | inr (x, p) ↦ absurd (ground arith)
              | inl (recovery, p) ↦
                  elim (Result-cases
                    (wrap_for_device C r.wraps root_key device_id public now bind)) [
                      | inr (x, q) ↦ absurd (ground arith)
                      | inl (wrap, q) ↦ elim (Result-cases (derive_account_key C profile_id code)) [
                        | inr (x, d) ↦ absurd (ground arith)
                        | inl (seed, d) ↦
                            let made : k
                                ≡ sign_first C profile_id seed
                                    (first_generation C recipient recovery wrap now) =
                              ground arith in
                            let published : k.account_key ≡ account_public C seed =
                              account_key-sign_first profile_id seed
                                (first_generation C recipient recovery wrap now) k made in
                            (
                              seed,
                              d,
                              published,
                              ap (λ pinned. verify_generations C pinned k) published
                                  ∙ ap (verify_generations C (account_public C seed)) made
                                  ∙ verify_generations-sign_first profile_id seed recipient now
                                      recovery wrap,
                            )
                      ]
                    ]
            ]
      ]
