-- ===== src/Keyring/Enrol.antt =====
-- internal/keyring/keyring.go: who is enrolled, and how a device is enrolled and taken out again. A
-- method that changes the keyring returns the new one. A recipient that may be nil is a text, empty
-- for nil.
pub mod Signatures
pub mod Devices
pub mod Everywhere
use reinstate.Base.{
  ℕ, Bool, true, false, not, ◌&&◌, ◌||◌, Option, none, some, List, [], ◌∷◌, ◌++◌, map, length, ◌==◌,
  nat_eq, bytes_eq, leb, if◌then◌else◌, Result, ok, err, ◌>>=◌, ◌>>◌,
}
use reinstate.Base.Dict.{Dict, lookup}
use reinstate.Base.Sorting.{sort_ints}
use reinstate.Keyring.Model.{
  Bytes, Text, DeviceWrap, Generation, Keyring, Binding, KeyringError, device_exists,
  stale_root_key, no_current_generation, generation_absent, arguments_required, root_key_invalid,
  wrong_generation_key, generation, current, with_devices, find_device,
}
use reinstate.Keyring.Crypto.{Crypto}
use reinstate.Keyring.Wraps.{root_recipient, wrap_for_device}

abbrev pub binding_for : Keyring → Generation → Binding
binding_for k g = record { profile_id = k.profile_id; generation = g.number }

abbrev pub is_listed : Option DeviceWrap → Bool
is_listed none = false
is_listed (some _) = true

unfoldable pub has_device : Keyring → Text → Bool
has_device k device_id = elim (current k) [
  | none ↦ false
  | some g ↦ is_listed (find_device device_id g.devices)
]

-- Empty where the device is not enrolled.
abbrev public_key_of : Option DeviceWrap → Text
public_key_of none = []
public_key_of (some d) = d.public_key

unfoldable pub device_public_key : Keyring → Text → Text
device_public_key k device_id = elim (current k) [
  | none ↦ []
  | some g ↦ public_key_of (find_device device_id g.devices)
]

unfoldable pub device_count : Keyring → ℕ
device_count k = elim (current k) [ none ↦ 0 | some g ↦ length g.devices ]

pub data Membership : Type 0 where
  not_listed enrolled key_mismatch key_gone : Membership

module _ (C : Crypto) where
  -- `device` is none where the machine holds no key for the id.
  unfoldable pub device_membership : Keyring → Text → Option Text → Membership
  device_membership k device_id device =
      let listed = device_public_key k device_id in
      if listed == [] then not_listed else elim device [
        | none ↦ key_gone
        | some identity ↦
            if not (listed == C.identity_recipient identity) then key_mismatch else enrolled
      ]

  -- That the root key derives the recipient, or `otherwise`.
  unfoldable pub check_root_key : Bytes → Text → KeyringError → Result KeyringError (Unit {0})
  check_root_key root_key recipient otherwise = elim (root_recipient C root_key) [
    | none ↦ err root_key_invalid
    | some derived ↦ if not (derived == recipient) then err otherwise else ok tt
  ]

  unfoldable pub enrol : ℕ → Bytes → Text → Text → Text → Keyring → Result KeyringError Keyring
  enrol entropy root_key device_id recipient now k = elim (current k) [
    | none ↦ err no_current_generation
    | some g ↦ if device_id == [] || recipient == [] then err arguments_required else do
      check_root_key root_key g.recipient stale_root_key
      if has_device k device_id then err device_exists else ok tt
      wrap ← wrap_for_device C entropy root_key device_id recipient now (binding_for k g)
      ok (with_devices k.current_generation g (g.devices ++ (wrap ∷ [])) k)
  ]

  -- The loop over the devices: the first wrap of the device is kept if it is for the same public
  -- key and replaced if not; without one the new wrap is appended.
  unfoldable pub place_wrap : DeviceWrap → List DeviceWrap → List DeviceWrap
  place_wrap wrap [] = wrap ∷ []
  place_wrap wrap (d ∷ ds) =
      let rest = place_wrap wrap ds in
      if not (d.device_id == wrap.device_id)
      then d ∷ rest
      else if d.public_key == wrap.public_key
      then d ∷ ds
      else wrap ∷ ds

  unfoldable pub enrol_into :
      ℕ → ℕ → Bytes → Text → Text → Text → Keyring → Result KeyringError Keyring
  enrol_into entropy number root_key device_id recipient now k = elim (generation k number) [
    | none ↦ err generation_absent
    | some g ↦
        if number == k.current_generation
        then enrol entropy root_key device_id recipient now k
        else if device_id == [] || recipient == []
        then err arguments_required
        else do
          check_root_key root_key g.recipient wrong_generation_key
          wrap ← wrap_for_device C entropy root_key device_id recipient now (binding_for k g)
          ok (with_devices number g (place_wrap wrap g.devices) k)
  ]

pub record AppendedWrap : Type 0 where
  pub generation : ℕ
  pub wrap : Text

-- `(*Keyring).deviceWrap`
unfoldable pub device_wrap : Keyring → ℕ → Text → Option DeviceWrap
device_wrap k number device_id = elim (generation k number) [
  | none ↦ none
  | some g ↦ find_device device_id g.devices
]

abbrev wrap_text : Option DeviceWrap → Text
wrap_text none = []
wrap_text (some d) = d.wrap

-- `sort.Slice(appended, …)` by generation.
unfoldable pub insert_appended : AppendedWrap → List AppendedWrap → List AppendedWrap
insert_appended a [] = a ∷ []
insert_appended a (b ∷ bs) =
    if leb a.generation b.generation then a ∷ b ∷ bs else b ∷ insert_appended a bs

unfoldable pub sort_appended : List AppendedWrap → List AppendedWrap
unfolding insert_appended
sort_appended [] = []
sort_appended (a ∷ rest) = insert_appended a (sort_appended rest)

abbrev without : ℕ → List ℕ → List ℕ
without n [] = []
without n (m ∷ ms) = if m == n then without n ms else m ∷ without n ms

abbrev key_or_nil : Option Bytes → Bytes
key_or_nil none = []
key_or_nil (some key) = key

-- What `EnrolAll` leaves: the keyring as far as it was changed, the wraps it reports, and its error.
pub record EnrolAllResult : Type 0 where
  pub keyring : Keyring
  pub appended : List AppendedWrap
  pub error : Option KeyringError

module _ (C : Crypto) where
  -- The loop over the earlier generations. `entropy` gives the randomness of each one's wrap.
  unfoldable pub enrol_earlier :
      (ℕ → ℕ)
      → Dict ℕ Bytes
      → Text
      → Text
      → Text
      → List ℕ
      → List AppendedWrap
      → Keyring
      → EnrolAllResult
  enrol_earlier entropy keys device_id recipient now [] appended k = record {
    keyring = k;
    appended = sort_appended appended;
    error = none;
  }
  enrol_earlier entropy keys device_id recipient now (n ∷ ns) appended k =
      let before = wrap_text (device_wrap k n device_id) in
      elim (enrol_into C (entropy n) n (key_or_nil (lookup n keys)) device_id recipient now k) [
        | err e ↦ record { keyring = k; appended = appended; error = some e }
        | ok k' ↦ elim (device_wrap k' n device_id) [
          | none ↦ enrol_earlier entropy keys device_id recipient now ns appended k'
          | some after ↦
              enrol_earlier entropy keys device_id recipient now ns
                (if not (after.wrap == before)
                  then appended ++ (record { generation = n; wrap = after.wrap } ∷ [])
                  else appended)
                k'
        ]
      ]

  unfoldable pub enrol_all : (ℕ → ℕ) → Dict ℕ Bytes → Text → Text → Text → Keyring → EnrolAllResult
  enrol_all entropy keys device_id recipient now k =
      let c = k.current_generation in
      elim (lookup c keys) [
        | none ↦ record { keyring = k; appended = []; error = some stale_root_key }
        | some root_key ↦ elim (enrol C (entropy c) root_key device_id recipient now k) [
          | err e ↦ record { keyring = k; appended = []; error = some e }
          | ok k' ↦
              enrol_earlier entropy keys device_id recipient now
                (sort_ints (without c (map (λ (n, _). n) keys)))
                (record { generation = c; wrap = wrap_text (device_wrap k' c device_id) } ∷ []) k'
        ]
      ]

-- The first wrap of the device with that ciphertext is removed; none where there is none.
unfoldable pub remove_wrap : Text → Text → List DeviceWrap → Option (List DeviceWrap)
remove_wrap device_id wrap [] = none
remove_wrap device_id wrap (d ∷ ds) =
    let rest = remove_wrap device_id wrap ds in
    if d.device_id == device_id && d.wrap == wrap
    then some ds
    else elim rest [ none ↦ none | some ds' ↦ some (d ∷ ds') ]

unfoldable pub unenrol_appended : Text → List AppendedWrap → Keyring → Keyring × Bool
unenrol_appended device_id [] k = (k, false)
unenrol_appended device_id (a ∷ rest) k = elim (generation k a.generation) [
  | none ↦ unenrol_appended device_id rest k
  | some g ↦
      if a.wrap == []
      then unenrol_appended device_id rest k
      else elim (remove_wrap device_id a.wrap g.devices) [
        | none ↦ unenrol_appended device_id rest k
        | some devices ↦
            let (k', removed) =
              unenrol_appended device_id rest (with_devices a.generation g devices k) in
            (k', true)
      ]
]
