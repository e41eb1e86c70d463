-- ===== src/Keyring/Parse.antt =====
-- internal/keyring/keyring.go, `Parse` and `Marshal`: the checks between a stored object and a
-- keyring in memory. encoding/json is a parameter.
pub mod Accepted
use reinstate.Base.{
  ℕ, zero, suc, Bool, true, false, not, Option, none, some, List, [], ◌∷◌, ◌++◌, map, length, ◌==◌,
  nat_eq, bytes_eq, contains, ◌||◌, if◌then◌else◌, Result, ok, err, ◌>>=◌, ◌>>◌,
}
use reinstate.Keyring.Model.{
  Bytes, Text, DeviceWrap, Generation, Keyring, KeyringError, invalid_object, unsupported_schema,
  incomplete, generation_not_positive, generation_repeated, device_without_id, device_repeated,
  unknown_wrap_format, generation_missing, current_missing, unauthenticated_generation,
  schema_version, wrap_format_bound, current,
}
use reinstate.Keyring.Crypto.{Crypto}
use reinstate.Keyring.Verify.{verify_generations, ed25519_signature_size}

-- `json.Unmarshal` into a keyring and `json.MarshalIndent` of one.
pub record Codec : Type 0 where
  pub unmarshal : Bytes → Option Keyring
  pub marshal_indent : Keyring → Option Bytes

unfoldable pub check_devices : List Text → List DeviceWrap → Result KeyringError (Unit {0})
check_devices seen [] = ok tt
check_devices seen (d ∷ ds) =
    let rest = check_devices (d.device_id ∷ seen) ds in
    if d.device_id == []
    then err device_without_id
    else if contains seen d.device_id
    then err device_repeated
    else rest

unfoldable pub device_formats : List DeviceWrap → List ℕ
device_formats [] = []
device_formats (d ∷ ds) = d.format ∷ device_formats ds

unfoldable pub check_formats : List ℕ → Result KeyringError (Unit {0})
check_formats [] = ok tt
check_formats (w ∷ ws) =
    let rest = check_formats ws in
    if not (w == wrap_format_bound) then err unknown_wrap_format else rest

-- The loop over 1..n, from its end down: `m` numbers are left, and the next is `i`.
unfoldable pub check_gaps : ℕ → ℕ → List ℕ → Result KeyringError (Unit {0})
check_gaps zero i seen = ok tt
check_gaps (suc m) i seen =
    let rest = check_gaps m (suc i) seen in
    if not (contains seen i) then err generation_missing else rest

unfoldable pub check_current : Keyring → Result KeyringError (Unit {0})
check_current k = elim (current k) [ none ↦ err current_missing | some _ ↦ ok tt ]

module _ (C : Crypto) where
  unfoldable pub check_signature_shape : Generation → Result KeyringError (Unit {0})
  check_signature_shape g = elim (C.base64_decode g.signature) [
    | none ↦ err unauthenticated_generation
    | some sig ↦
        if not (length sig == ed25519_signature_size) then err unauthenticated_generation else ok tt
  ]

  -- The body of the loop over the generations.
  unfoldable pub check_generation : List ℕ → Generation → Result KeyringError (Unit {0})
  check_generation seen g =
      if g.number == 0
      then err generation_not_positive
      else if contains seen g.number
      then err generation_repeated
      else (check_devices [] g.devices
          >> (check_formats (g.recovery.format ∷ device_formats g.devices)
              >> check_signature_shape g))

  -- The loop, which returns the numbers it has seen.
  unfoldable pub check_generations : List ℕ → List Generation → Result KeyringError (List ℕ)
  check_generations seen [] = ok seen
  check_generations seen (g ∷ gs) =
      check_generation seen g >> check_generations (g.number ∷ seen) gs

  -- `Parse` after the decoding.
  unfoldable pub validate : Keyring → Result KeyringError Keyring
  validate k =
      if not (k.schema_version == schema_version)
      then err unsupported_schema
      else if k.profile_id == [] || length k.generations == 0
      then err incomplete
      else (check_generations [] k.generations >>= λ seen.
          check_gaps (length k.generations) 1 seen
          >> (check_current k >> (verify_generations C [] k >> ok k)))

  unfoldable pub parse : Codec → Bytes → Result KeyringError Keyring
  parse codec raw = elim (codec.unmarshal raw) [ none ↦ err invalid_object | some k ↦ validate k ]

-- The keyring as `Marshal` leaves it.
abbrev pub stamped : Keyring → Keyring
stamped k = record k { schema_version = schema_version }

unfoldable pub marshal : Codec → Keyring → Result KeyringError Bytes
marshal codec k = elim (codec.marshal_indent (stamped k)) [
  | none ↦ err invalid_object
  | some raw ↦ ok (raw ++ (10 ∷ []))
]
