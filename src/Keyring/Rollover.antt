-- ===== src/Keyring/Rollover.antt =====
-- internal/keyring/keyring.go, `Rollover`, and signing.go: a new key generation without the revoked
-- devices, signed by the account key that the recovery code derives.
pub mod Revoked
pub mod Recorded
use reinstate.Base.{
  ℕ, zero, suc, ◌+◌, Bool, true, false, not, ◌&&◌, ◌||◌, Option, none, some, List, [], ◌∷◌, ◌++◌,
  length, ◌==◌, nat_eq, bytes_eq, ltb, contains, codes, if◌then◌else◌, Result, ok, err, ◌>>=◌, ◌>>◌,
}
use reinstate.Keyring.Model.{
  Bytes, Text, Revocation, RecoveryWrap, DeviceWrap, Generation, Keyring, Binding, schema_version,
  KeyringError, stale_root_key, already_revoked, self_revoke, device_not_enrolled,
  account_key_mismatch, no_current_generation, arguments_required, nothing_to_revoke,
  root_key_invalid, malformed_public_key, random_failed, recovery_code_invalid, current,
}
use reinstate.Keyring.Crypto.{Crypto}
use reinstate.Keyring.Message.{generation_message}
use reinstate.Keyring.Recovery.{normalize_recovery_code}
use reinstate.Keyring.Wraps.{
  root_recipient, wrap_for_device, wrap_under_recovery_code, unwrap_with_recovery_code, argon2_time,
  argon2_memory, argon2_threads,
}
use reinstate.Keyring.Enrol.{binding_for, has_device, check_root_key}

abbrev ed25519_seed_size : ℕ
ed25519_seed_size = 32

unfoldable pub max_of : ℕ → List Generation → ℕ
max_of n [] = n
max_of n (g ∷ gs) = max_of (if ltb n g.number then g.number else n) gs

unfoldable pub max_generation : Keyring → ℕ
unfolding max_of
max_generation k = max_of 0 k.generations

-- What `crypto/rand` gives a rollover: the new root key, the salt and the nonce of its recovery
-- wrap (none for a failed read), and the randomness of each device's wrap, by its place.
pub record Randomness : Type 0 where
  pub root_key : Option Bytes
  pub salt : Option Bytes
  pub nonce : Option Bytes
  pub wraps : ℕ

unfoldable pub check_revoke : Keyring → Text → List Text → Result KeyringError (Unit {0})
check_revoke k revoked_by [] = ok tt
check_revoke k revoked_by (id ∷ ids) =
    let rest = check_revoke k revoked_by ids in
    if id == revoked_by
    then err self_revoke
    else if not (has_device k id)
    then err already_revoked
    else rest

-- The devices and the revocations of the new generation.
pub record Carried : Type 0 where
  pub devices : List DeviceWrap
  pub revoked : List Revocation

unfoldable pub add_revocation : Text → Text → Text → Carried → Carried
add_revocation id now revoked_by c = record c {
  revoked = (record { device_id = id; revoked_at = now; revoked_by = revoked_by }) ∷ c.revoked;
}

unfoldable pub add_device : DeviceWrap → Carried → Carried
add_device wrap c = record c { devices = wrap ∷ c.devices }

abbrev require : Bool → KeyringError → Result KeyringError (Unit {0})
require true e = ok tt
require false e = err e

module _ (C : Crypto) where
  -- The seed of the account key pair; its public half is `account_public seed`.
  unfoldable pub derive_account_key : Text → Text → Result KeyringError Bytes
  derive_account_key profile_id code =
      if profile_id == [] then err arguments_required else elim (normalize_recovery_code C code) [
        | none ↦ err recovery_code_invalid
        | some canonical ↦ ok (
            C.argon2_id_key canonical
              (C.sha256 (codes "reinstate/keyring/account-signing-key/v1" ++ (0 ∷ profile_id)))
              argon2_time argon2_memory argon2_threads ed25519_seed_size)
      ]

  unfoldable pub account_public : Bytes → Text
  account_public seed = C.base64_encode (C.public_key seed)

  -- `(*AccountKey).sign`
  unfoldable pub account_sign : Bytes → Bytes → Text
  account_sign seed message = C.base64_encode (C.sign seed message)

  -- The wrap that a device that stays gets: a new one, with its old enrolment time.
  unfoldable pub carry_wrap :
      ℕ → Bytes → Text → Binding → DeviceWrap → Result KeyringError DeviceWrap
  carry_wrap entropy root_key now bind d = elim (C.parse_recipient d.public_key) [
    | none ↦ err malformed_public_key
    | some recipient ↦ wrap_for_device C entropy root_key d.device_id recipient now bind >>= λ wrap.
        ok (record wrap { enrolled_at = d.enrolled_at })
  ]

  -- The loop over the devices of the current generation.
  unfoldable pub carry_devices :
      ℕ → Bytes → List Text → Text → Text → Binding → List DeviceWrap → Result KeyringError Carried
  carry_devices entropy root_key revoke revoked_by now bind [] =
      ok (record { devices = []; revoked = [] })
  carry_devices entropy root_key revoke revoked_by now bind (d ∷ ds) =
      let rest = carry_devices (suc entropy) root_key revoke revoked_by now bind ds in
      if contains revoke d.device_id
      then (rest >>= λ c. ok (add_revocation d.device_id now revoked_by c))
      else (carry_wrap entropy root_key now bind d >>= λ wrap. rest >>= λ c. ok (add_device wrap c))

  -- The part of `Rollover` that makes the generation, from the new root key on.
  unfoldable pub next_generation :
      Randomness
      → Bytes
      → Text
      → Bytes
      → List Text
      → Text
      → Text
      → Keyring
      → Generation
      → Result KeyringError Generation
  next_generation r root_key code seed revoke revoked_by now k g =
      let number = max_generation k + 1 in
      let bind : Binding = record { profile_id = k.profile_id; generation = number } in
      elim (root_recipient C root_key) [
        | none ↦ err root_key_invalid
        | some recipient ↦ do
          recovery ← wrap_under_recovery_code C r.salt r.nonce root_key code bind
          c ← carry_devices r.wraps root_key revoke revoked_by now bind g.devices
          let next : Generation = record {
            number = number;
            created_at = now;
            recipient = recipient;
            recovery = recovery;
            devices = c.devices;
            revoked = c.revoked;
            signature = [];
          }
          ok (record next { signature = account_sign seed (generation_message C k next (some g)) })
      ]

  -- The part of `Rollover` before the new root key: its guards, and the account key of the code.
  unfoldable pub check_rollover :
      Bytes → Text → List Text → Text → Keyring → Generation → Result KeyringError Bytes
  check_rollover current_root_key code revoke revoked_by k g = do
    require (not (length revoke == 0)) nothing_to_revoke
    check_root_key C current_root_key g.recipient stale_root_key
    opened ← unwrap_with_recovery_code C g.recovery code (binding_for k g)
    seed ← derive_account_key k.profile_id code
    require (account_public seed == k.account_key) account_key_mismatch
    check_revoke k revoked_by revoke
    require (revoked_by == [] || has_device k revoked_by) device_not_enrolled
    ok seed

  unfoldable pub rollover :
      Randomness
      → Bytes
      → Text
      → List Text
      → Text
      → Text
      → Keyring
      → Result KeyringError (Keyring × Bytes)
  rollover r current_root_key code revoke revoked_by now k = elim (current k) [
    | none ↦ err no_current_generation
    | some g ↦ check_rollover current_root_key code revoke revoked_by k g >>= λ seed.
        elim r.root_key [
          | none ↦ err random_failed
          | some root_key ↦
              next_generation r root_key code seed revoke revoked_by now k g >>= λ next. ok (
                record k {
                  generations = k.generations ++ (next ∷ []);
                  current_generation = next.number;
                  schema_version = schema_version;
                },
                root_key,
              )
        ]
  ]
