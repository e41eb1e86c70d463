-- ===== src/Keyring/Enrol/Signatures.antt =====
-- Enrolling and taking out devices leaves every signature valid (internal/keyring/keyring.go: the
-- signed bytes leave the device wraps out).
use reinstate.Base.{
  ℕ, ◌-◌, ◌≡◌, refl, ap, some, List, [], ◌∷◌, arith, nat_eq, bytes_eq, Option-cases, inl, inr,
}
use reinstate.Base.Sorting.{sort_ints}
use reinstate.Keyring.Model.{Bytes, Text, DeviceWrap, Generation, Keyring, generation, with_devices}
use reinstate.Keyring.Crypto.{Crypto}
use reinstate.Keyring.Message.{message_fields, generation_message}
use reinstate.Keyring.Verify.{
  generation_numbers, previous, parse_account_public_key, verify_number, verify_numbers,
  verify_generations,
}
use reinstate.Keyring.Generations.{
  generation-with_devices, find_generation-number, numbers-replace_generation,
}

module _ (C : Crypto) (n : ℕ) (g : Generation) (devices : List DeviceWrap) (k : Keyring) where
  generation_numbers-with_devices :
      generation k n ≡ some g
      → generation_numbers (with_devices n g devices k) ≡ generation_numbers k
  unfolding generation_numbers with_devices generation
  generation_numbers-with_devices h = ap sort_ints (
      numbers-replace_generation n (record g { devices = devices }) k.generations
        (find_generation-number n k.generations g h))

  verify_number-with_devices :
      (public : Bytes) (m : ℕ)
      → generation k n ≡ some g
      → verify_number C public (with_devices n g devices k) m ≡ verify_number C public k m
  unfolding verify_number previous generation_message message_fields with_devices
  verify_number-with_devices public m h = ground (
    arith,
    generation-with_devices n m g devices k h,
    generation-with_devices n (m - 1) g devices k h,
  )

  verify_numbers-with_devices :
      (public : Bytes) (ns : List ℕ)
      → generation k n ≡ some g
      → verify_numbers C public (with_devices n g devices k) ns ≡ verify_numbers C public k ns
  unfolding verify_numbers
  verify_numbers-with_devices public [] h = refl
  verify_numbers-with_devices public (m ∷ ns) h =
      ground (arith, verify_number-with_devices public m h, verify_numbers-with_devices public ns h)

  account_key-with_devices : (with_devices n g devices k).account_key ≡ k.account_key
  unfolding with_devices
  account_key-with_devices = refl

  pub verify_generations-with_devices :
      (pinned : Text)
      → generation k n ≡ some g
      → verify_generations C pinned (with_devices n g devices k) ≡ verify_generations C pinned k
  unfolding verify_generations
  verify_generations-with_devices pinned h =
      let e = account_key-with_devices in
      elim (Option-cases (parse_account_public_key C k.account_key)) [
        | inl p ↦ ground (arith, e)
        | inr (public, p) ↦ ground (
          arith,
          e,
          generation_numbers-with_devices h,
          verify_numbers-with_devices public (generation_numbers k) h,
        )
      ]
