-- ===== src/Keyring/New.antt =====
-- internal/keyring/keyring.go, `New`: the keyring of a new account.
pub mod Verified
use reinstate.Base.{
  ℕ, ◌||◌, Option, none, some, List, [], ◌∷◌, ◌==◌, bytes_eq, if◌then◌else◌, Result, ok, err, ◌>>=◌,
}
use reinstate.Keyring.Model.{
  Bytes, Text, RecoveryWrap, DeviceWrap, Generation, Keyring, Binding, schema_version, KeyringError,
  arguments_required, root_key_invalid,
}
use reinstate.Keyring.Crypto.{Crypto}
use reinstate.Keyring.Message.{generation_message}
use reinstate.Keyring.Wraps.{root_recipient, wrap_for_device, wrap_under_recovery_code}
use reinstate.Keyring.Rollover.{Randomness, derive_account_key, account_public, account_sign}

module _ (C : Crypto) where
  -- The first generation before it is signed, and the keyring around a first generation.
  unfoldable pub first_generation : Text → RecoveryWrap → DeviceWrap → Text → Generation
  first_generation recipient recovery wrap now = record {
    number = 1;
    created_at = now;
    recipient = recipient;
    recovery = recovery;
    devices = wrap ∷ [];
    revoked = [];
    signature = [];
  }

  unfoldable pub keyring_of : Text → Bytes → Generation → Keyring
  keyring_of profile_id seed g = record {
    schema_version = schema_version;
    profile_id = profile_id;
    current_generation = 1;
    account_key = account_public C seed;
    generations = g ∷ [];
  }

  unfoldable pub sign_first : Text → Bytes → Generation → Keyring
  sign_first profile_id seed g = keyring_of profile_id seed (record g {
    signature = account_sign C seed (generation_message C (keyring_of profile_id seed g) g none);
  })

  -- The device's identity is none for nil.
  unfoldable pub new_keyring :
      Randomness → Text → Bytes → Text → Text → Option Text → Text → Result KeyringError Keyring
  new_keyring r profile_id root_key code device_id none now = err arguments_required
  new_keyring r profile_id root_key code device_id (some device) now =
      let bind : Binding = record { profile_id = profile_id; generation = 1 } in
      if profile_id == [] || device_id == []
      then err arguments_required
      else elim (root_recipient C root_key) [
        | none ↦ err root_key_invalid
        | some recipient ↦
            wrap_under_recovery_code C r.salt r.nonce root_key code bind >>= λ recovery.
            wrap_for_device C r.wraps root_key device_id (C.identity_recipient device) now bind
            >>= λ wrap. derive_account_key C profile_id code >>= λ seed.
                ok (sign_first profile_id seed (first_generation recipient recovery wrap now))
      ]
