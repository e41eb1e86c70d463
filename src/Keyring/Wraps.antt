-- ===== src/Keyring/Wraps.antt =====
-- internal/keyring/keyring.go: how a root key is wrapped for a device and under the recovery code,
-- and opened again; internal/crypto/rootkey.go, the recipient that a root key derives.
pub mod Opening
use reinstate.Base.{
  ℕ, ◌+◌, ◌*◌, Bool, true, false, not, ◌&&◌, ◌||◌, Option, none, some, List, [], ◌∷◌, ◌++◌, length,
  take, drop, ◌==◌, nat_eq, bytes_eq, ltb, codes, if◌then◌else◌, Result, ok, err, ◌>>=◌, ◌>>◌,
}
use reinstate.Keyring.Model.{
  Bytes, Text, RecoveryWrap, DeviceWrap, Generation, Keyring, Binding, wrap_format_bound,
  KeyringError, device_not_enrolled, device_key_mismatch, recovery_mismatch,
  recovery_wrap_malformed, unknown_wrap_format, root_key_invalid, wrap_failed, unwrap_failed,
  random_failed, recovery_code_invalid, find_device,
}
use reinstate.Keyring.Crypto.{Crypto}
use reinstate.Keyring.Recovery.{normalize_recovery_code}

abbrev pub root_key_size : ℕ
root_key_size = 32

abbrev pub argon2_time : ℕ
argon2_time = 3

abbrev pub argon2_memory : ℕ
argon2_memory = 64 * 1024

abbrev pub argon2_threads : ℕ
argon2_threads = 4

abbrev nonce_size : ℕ
nonce_size = 24

abbrev key_size : ℕ
key_size = 32

abbrev pub recovery_kdf_name : Text
recovery_kdf_name = codes "argon2id"

-- The errors that match `ErrDeviceNotEnrolled`.
abbrev pub is_not_enrolled : KeyringError → Bool
is_not_enrolled device_not_enrolled = true
is_not_enrolled device_key_mismatch = true
is_not_enrolled _ = false

module _ (C : Crypto) where
  -- `RootKeyIdentity(rootKey)` and its `Recipient().String()`
  unfoldable pub root_recipient : Bytes → Option Text
  root_recipient root_key =
      if not (length root_key == root_key_size) then none else elim (C.derive_identity root_key) [
        | none ↦ none
        | some identity ↦ some (C.identity_recipient identity)
      ]

  unfoldable pub device_prefix : Binding → Bytes
  device_prefix b =
      codes "reinstate/keyring/device-wrap/v2"
      ++ (0 ∷ (b.profile_id ++ (0 ∷ (C.itoa b.generation ++ (0 ∷ [])))))

  unfoldable pub recovery_aad : Binding → Bytes
  recovery_aad b =
      codes "reinstate/keyring/recovery-wrap/v2"
      ++ (0 ∷ (b.profile_id ++ (0 ∷ C.itoa b.generation)))

  -- The payload must be the prefix and a root key of this generation, and nothing else. The reader
  -- is limited to one byte more than that, so a longer payload is refused for its length too.
  unfoldable pub open_payload : Generation → Binding → Bytes → Result KeyringError Bytes
  open_payload g bind payload =
      let prefix = device_prefix bind in
      if not (length payload == length prefix + root_key_size)
      then err unwrap_failed
      else if not (take (length prefix) payload == prefix)
      then err unwrap_failed
      else let key = drop (length prefix) payload in
        elim (root_recipient key) [
          | none ↦ err root_key_invalid
          | some recipient ↦ if not (recipient == g.recipient) then err unwrap_failed else ok key
        ]

  unfoldable pub open_wrap : Generation → DeviceWrap → Text → Binding → Result KeyringError Bytes
  open_wrap g d device bind =
      if not (d.public_key == C.identity_recipient device)
      then err device_key_mismatch
      else if not (d.format == wrap_format_bound)
      then err unknown_wrap_format
      else elim (C.base64_decode d.wrap) [
        | none ↦ err unwrap_failed
        | some cipher ↦ elim (C.decrypt device cipher) [
          | none ↦ err unwrap_failed
          | some payload ↦ open_payload g bind payload
        ]
      ]

  -- The loop stops at the first wrap of the device.
  unfoldable pub unwrap_device : Generation → Text → Text → Binding → Result KeyringError Bytes
  unwrap_device g device_id device bind = elim (find_device device_id g.devices) [
    | none ↦ err device_not_enrolled
    | some d ↦ open_wrap g d device bind
  ]

  unfoldable pub wrap_for_device :
      ℕ → Bytes → Text → Text → Text → Binding → Result KeyringError DeviceWrap
  wrap_for_device entropy root_key device_id recipient now bind =
      elim (C.encrypt entropy recipient (device_prefix bind ++ root_key)) [
        | none ↦ err wrap_failed
        | some cipher ↦ ok (record {
          device_id = device_id;
          public_key = recipient;
          enrolled_at = now;
          wrap = C.base64_encode cipher;
          format = wrap_format_bound;
        })
      ]

  unfoldable pub derive_recovery_key : Text → Bytes → RecoveryWrap → Bytes
  derive_recovery_key code salt w = C.argon2_id_key code salt w.time w.memory_kib w.threads key_size

  -- `salt` and `nonce` are what `crypto/rand` gave, none for a failed read. The code is checked in
  -- any form and then used as it was given.
  unfoldable pub wrap_under_recovery_code :
      Option Bytes → Option Bytes → Bytes → Text → Binding → Result KeyringError RecoveryWrap
  wrap_under_recovery_code salt nonce root_key code bind = elim (normalize_recovery_code C code) [
    | none ↦ err recovery_code_invalid
    | some canonical ↦ elim salt [
      | none ↦ err random_failed
      | some s ↦
          let w : RecoveryWrap = record {
            kdf = recovery_kdf_name;
            time = argon2_time;
            memory_kib = argon2_memory;
            threads = argon2_threads;
            salt = C.base64_encode s;
            wrap = [];
            format = wrap_format_bound;
          } in
          elim nonce [
            | none ↦ err random_failed
            | some n ↦ ok (record w {
              wrap =
                  C.base64_encode
                    (n ++ C.seal (derive_recovery_key code s w) n root_key (recovery_aad bind));
            })
          ]
    ]
  ]

  unfoldable pub open_recovery :
      RecoveryWrap → Text → Bytes → Bytes → Binding → Result KeyringError Bytes
  open_recovery w canonical salt cipher bind =
      if ltb (length cipher) nonce_size
      then err recovery_wrap_malformed
      else elim (C.open_sealed (derive_recovery_key canonical salt w) (take nonce_size cipher)
          (drop nonce_size cipher) (recovery_aad bind)) [
            | none ↦ err recovery_mismatch
            | some root_key ↦
                if not (length root_key == root_key_size)
                then err recovery_wrap_malformed
                else ok root_key
          ]

  unfoldable pub unwrap_with_recovery_code :
      RecoveryWrap → Text → Binding → Result KeyringError Bytes
  unwrap_with_recovery_code w code bind = elim (normalize_recovery_code C code) [
    | none ↦ err recovery_code_invalid
    | some canonical ↦
        if not (w.kdf == recovery_kdf_name)
        then err recovery_wrap_malformed
        else if not (w.format == wrap_format_bound)
        then err recovery_wrap_malformed
        else elim (C.base64_decode w.salt) [
          | none ↦ err recovery_wrap_malformed
          | some salt ↦ elim (C.base64_decode w.wrap) [
            | none ↦ err recovery_wrap_malformed
            | some cipher ↦ open_recovery w canonical salt cipher bind
          ]
        ]
  ]
