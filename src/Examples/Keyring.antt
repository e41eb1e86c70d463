-- ===== src/Examples/Keyring.antt =====
-- A keyring with one generation and one device, over the stand-in cryptography (internal/keyring).
use reinstate.Base.{
  ◌≡◌, refl, none, some, [], ◌∷◌, ◌++◌, length, arith, All, bytes_eq, nat_eq, codes, ◌⊎◌, ok,
}
use reinstate.Base.Sorting.{sort_ints}
use reinstate.Keyring.Model.{
  Bytes, Text, RecoveryWrap, DeviceWrap, Generation, Keyring, Binding, generation, find_device,
}
use reinstate.Keyring.Message.{message_fields, recovery_fields, revocation_fields}
use reinstate.Keyring.Message.Injective.{generation_message-injective, header, Fits}
use reinstate.Keyring.Verify.{
  verify_generations, parse_account_public_key, verify_numbers, verify_number, verify_signature,
  generation_numbers,
}
use reinstate.Keyring.Verify.Signed.{Signed, verify_generations_sound}
use reinstate.Keyring.Recovery.{encode_crockford, normalize_recovery_code, generate_recovery_code}
use reinstate.Keyring.Recovery.Canonical.{normalize_idem, IsCrockford}
use reinstate.Keyring.Recovery.Generated.{encode_crockford-length, normalize-generate}
use reinstate.Keyring.Wraps.{
  root_recipient, device_prefix, wrap_for_device, unwrap_device, wrap_under_recovery_code,
  unwrap_with_recovery_code,
}
use reinstate.Keyring.Wraps.Opening.{
  unwrap_device_sound, unwrap-wrap_for_device, unwrap-wrap_under_recovery_code,
}
use reinstate.Examples.Toy.{toy, toy-IsLawful, thirty_two, sixty_four}

abbrev pub laptop : Text
laptop = 100 ∷ []

abbrev pub laptop_identity : Text
laptop_identity = 7 ∷ []

abbrev pub profile : Text
profile = 112 ∷ []

abbrev pub first : Binding
first = record { profile_id = profile; generation = 1 }

abbrev pub code : Text
code = generate_recovery_code toy thirty_two

pub normalized : normalize_recovery_code toy code ≡ some code
normalized = normalize-generate toy toy-IsLawful thirty_two

abbrev pub nonce : Bytes
nonce =
    1 ∷ 2 ∷ 3 ∷ 4 ∷ 5 ∷ 6 ∷ 7 ∷ 8 ∷ 1 ∷ 2 ∷ 3 ∷ 4 ∷ 5 ∷ 6 ∷ 7 ∷ 8 ∷ 1 ∷ 2 ∷ 3 ∷ 4 ∷ 5 ∷ 6 ∷ 7 ∷ 8
    ∷ []

abbrev pub recovery : RecoveryWrap
recovery = record {
  kdf = codes "argon2id";
  time = 3;
  memory_kib = 65536;
  threads = 4;
  salt = thirty_two;
  wrap = nonce ++ thirty_two;
  format = 2;
}

abbrev pub laptop_wrap : DeviceWrap
laptop_wrap = record {
  device_id = laptop;
  public_key = laptop_identity;
  enrolled_at = [];
  wrap = device_prefix toy first ++ thirty_two;
  format = 2;
}

abbrev pub generation_one : Generation
generation_one = record {
  number = 1;
  created_at = [];
  recipient = 1 ∷ [];
  recovery = recovery;
  devices = laptop_wrap ∷ [];
  revoked = [];
  signature = sixty_four;
}

abbrev pub account : Keyring
account = record {
  schema_version = 5;
  profile_id = profile;
  current_generation = 1;
  account_key = thirty_two;
  generations = generation_one ∷ [];
}

abbrev pub unpinned : Text
unpinned = []

normalize-generate_example : normalize_recovery_code toy code ≡ some code
normalize-generate_example = normalize-generate toy toy-IsLawful thirty_two

normalize_idem_example : normalize_recovery_code toy code ≡ some code
normalize_idem_example = normalize_idem toy toy-IsLawful code code normalized

encode_crockford-length_example :
    All IsCrockford (encode_crockford thirty_two 52)
    × (length (encode_crockford thirty_two 52) ≡ 52)
encode_crockford-length_example = encode_crockford-length thirty_two 52

pub verified : verify_generations toy [] account ≡ ok tt
unfolding verify_generations parse_account_public_key verify_numbers verify_number verify_signature
    generation_numbers generation sort_ints
verified = refl

pub found : generation account 1 ≡ some generation_one
unfolding generation
found = refl

verify_generations_sound_example :
    (public : Bytes) × (parse_account_public_key toy account.account_key ≡ some public)
    × ((unpinned ≡ []) ⊎ (unpinned ≡ account.account_key))
    × Signed toy public account 1 generation_one
verify_generations_sound_example =
    verify_generations_sound toy unpinned account 1 generation_one verified found

short : Fits (message_fields toy account generation_one none)
unfolding message_fields recovery_fields revocation_fields
short = ground arith

generation_message-injective_example :
    header account generation_one none ≡ header account generation_one none
generation_message-injective_example =
    generation_message-injective toy toy-IsLawful account account generation_one generation_one none
      none short short refl

keyed : root_recipient toy thirty_two ≡ some (1 ∷ [])
unfolding root_recipient
keyed = refl

unwrap-wrap_for_device_example :
    unwrap_device toy generation_one laptop laptop_identity first ≡ ok thirty_two
unfolding wrap_for_device find_device
unwrap-wrap_for_device_example =
    unwrap-wrap_for_device toy toy-IsLawful generation_one 0 thirty_two laptop laptop_identity []
      first laptop_wrap keyed refl refl

pub opened : unwrap_device toy generation_one laptop laptop_identity first ≡ ok thirty_two
unfolding wrap_for_device find_device
opened =
    unwrap-wrap_for_device toy toy-IsLawful generation_one 0 thirty_two laptop laptop_identity []
      first laptop_wrap keyed refl refl

unwrap_device_sound_example : root_recipient toy thirty_two ≡ some generation_one.recipient
unwrap_device_sound_example =
    (unwrap_device_sound toy generation_one laptop laptop_identity first thirty_two opened).0

wrapped :
    wrap_under_recovery_code toy (some thirty_two) (some nonce) thirty_two code first ≡ ok recovery
unfolding wrap_under_recovery_code
wrapped = ground (arith, normalized)

unwrap-wrap_under_recovery_code_example :
    unwrap_with_recovery_code toy recovery code first ≡ ok thirty_two
unwrap-wrap_under_recovery_code_example =
    unwrap-wrap_under_recovery_code toy toy-IsLawful thirty_two thirty_two nonce code code first
      recovery normalized normalized refl refl wrapped
