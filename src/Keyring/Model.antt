-- ===== src/Keyring/Model.antt =====
-- internal/keyring/keyring.go: the data of the keyring object. Texts and byte slices are lists of
-- bytes. A Go int is a number, where a negative one is entered as 0: the code accepts neither as a
-- generation. An error is named for the return that makes it, its message left out.
use reinstate.Base.{ℕ, List, [], ◌∷◌, Option, none, some, nat_eq, bytes_eq, ◌==◌, if◌then◌else◌}

abbrev pub Bytes : Type 0
Bytes = List ℕ

abbrev pub Text : Type 0
Text = List ℕ

pub record Revocation : Type 0 where
  pub device_id : Text
  pub revoked_at : Text
  pub revoked_by : Text

pub record RecoveryWrap : Type 0 where
  pub kdf : Text
  pub time : ℕ  -- uint32
  pub memory_kib : ℕ  -- uint32
  pub threads : ℕ  -- uint8
  pub salt : Text
  pub wrap : Text
  pub format : ℕ

pub record DeviceWrap : Type 0 where
  pub device_id : Text
  pub public_key : Text
  pub enrolled_at : Text
  pub wrap : Text
  pub format : ℕ

pub record Generation : Type 0 where
  pub number : ℕ
  pub created_at : Text
  pub recipient : Text
  pub recovery : RecoveryWrap
  pub devices : List DeviceWrap
  pub revoked : List Revocation
  pub signature : Text

pub record Keyring : Type 0 where
  pub schema_version : ℕ
  pub profile_id : Text
  pub current_generation : ℕ
  pub account_key : Text
  pub generations : List Generation

-- What a bound wrap is tied to.
pub record Binding : Type 0 where
  pub profile_id : Text
  pub generation : ℕ

abbrev pub schema_version : ℕ
schema_version = 5

abbrev pub wrap_format_bound : ℕ
wrap_format_bound = 2

pub data KeyringError : Type 0 where
  device_not_enrolled device_key_mismatch recovery_mismatch recovery_wrap_malformed : KeyringError
  device_exists stale_root_key already_revoked self_revoke : KeyringError
  unauthenticated_generation account_key_mismatch : KeyringError
  invalid_object unsupported_schema incomplete generation_not_positive : KeyringError
  generation_repeated device_without_id device_repeated unknown_wrap_format : KeyringError
  generation_missing current_missing no_current_generation generation_absent : KeyringError
  arguments_required nothing_to_revoke root_key_invalid wrong_generation_key : KeyringError
  malformed_public_key wrap_failed unwrap_failed random_failed recovery_code_invalid : KeyringError
  not_found too_large object_too_large conflict already_present backend_failed : KeyringError

unfoldable pub find_generation : ℕ → List Generation → Option Generation
find_generation n [] = none
find_generation n (g ∷ gs) = if g.number == n then some g else find_generation n gs

-- `(*Keyring).generation`, for reading.
unfoldable pub generation : Keyring → ℕ → Option Generation
unfolding find_generation
generation k n = find_generation n k.generations

unfoldable pub current : Keyring → Option Generation
unfolding generation
current k = generation k k.current_generation

-- A write through the pointer that `(*Keyring).generation` returns: the first generation of that
-- number is replaced.
unfoldable pub replace_generation : ℕ → Generation → List Generation → List Generation
replace_generation n g' [] = []
replace_generation n g' (g ∷ gs) = if g.number == n then g' ∷ gs else g ∷ replace_generation n g' gs

unfoldable pub with_devices : ℕ → Generation → List DeviceWrap → Keyring → Keyring
unfolding replace_generation
with_devices n g devices k = record k {
  generations = replace_generation n (record g { devices = devices }) k.generations;
}

unfoldable pub find_device : Text → List DeviceWrap → Option DeviceWrap
find_device id [] = none
find_device id (d ∷ ds) = if d.device_id == id then some d else find_device id ds
