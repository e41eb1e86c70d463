-- ===== src/Examples/Account.antt =====
-- An enrolment, a rollover, and a stored keyring (internal/keyring).
use reinstate.Base.{
  ℕ, ◌≡◌, ◌≢◌, refl, ap, true, none, ◌&&◌, false, some, [], ◌∷◌, arith, bytes_eq, nat_eq, string_eq,
  ok,
}
use reinstate.Keyring.Model.{
  Bytes, Text, Generation, Keyring, Binding, generation, current, find_device,
}
use reinstate.Keyring.Wraps.{
  root_recipient, wrap_for_device, unwrap_device, unwrap_with_recovery_code,
  wrap_under_recovery_code,
}
use reinstate.Keyring.Wraps.Opening.{unwrap-wrap_under_recovery_code}
use reinstate.Keyring.Verify.{generation_numbers, verify_generations}
use reinstate.Keyring.Enrol.{
  binding_for, has_device, check_root_key, enrol, enrol_all, unenrol_appended,
}
use reinstate.Keyring.Enrol.Everywhere.{
  verify_generations-enrol_all, verify_generations-unenrol_appended,
}
use reinstate.Keyring.Enrol.Devices.{unwrap_device-enrol}
use reinstate.Keyring.Rollover.{
  Randomness, rollover, check_rollover, derive_account_key, account_public, check_revoke,
  next_generation, carry_devices, add_revocation, account_sign, max_generation, max_of,
}
use reinstate.Keyring.New.{new_keyring, sign_first, keyring_of, first_generation}
use reinstate.Keyring.New.Verified.{verify_generations-new_keyring}
use reinstate.Base.Sorting.{sort_ints, insert_sorted}
use reinstate.Base.Dict.{Dict, lookup, insert}
use reinstate.Keyring.Unwrap.{
  place, recover_key, recover_keys, revoked_device, unwrap_current, unwrap_earlier,
  unwrap_for_device, unwrap_generations, place_keys, unwrap_generations_with_recovery_code,
}
use reinstate.Keyring.Unwrap.Opened.{AreKeys, unwrap_generations_sound}
use reinstate.Keyring.Unwrap.Recovered.{lookup-unwrap_generations_with_recovery_code}
use reinstate.Keyring.Rollover.Recorded.{revoked_device-rollover}
use reinstate.Keyring.Rollover.Revoked.{has_device-rollover, generation-rollover}
use reinstate.Examples.Toy.{toy, toy-IsLawful, thirty_two, sixty_four}
use reinstate.Examples.Keyring.{
  laptop, laptop_identity, profile, first, code, normalized, nonce, recovery, generation_one,
  laptop_wrap, account, unpinned, found, opened,
}

abbrev phone : Text
phone = 200 ∷ []

abbrev phone_identity : Text
phone_identity = 9 ∷ []

enrolled : (k : Keyring) × (enrol toy 0 thirty_two phone phone_identity [] account ≡ ok k)
unfolding enrol current generation check_root_key root_recipient has_device wrap_for_device
    find_device
enrolled = (_, refl)

unwrap_device-enrol_example :
    (g : Generation) × (current enrolled.0 ≡ some g)
    × (unwrap_device toy g phone phone_identity (binding_for enrolled.0 g) ≡ ok thirty_two)
unwrap_device-enrol_example =
    unwrap_device-enrol toy toy-IsLawful 0 thirty_two phone phone_identity [] account enrolled.0
      enrolled.1

abbrev random : Randomness
random = record {
  root_key = some thirty_two;
  salt = some thirty_two;
  nonce = some nonce;
  wraps = 0;
}

opens :
    unwrap_with_recovery_code toy recovery code (binding_for account generation_one) ≡ ok thirty_two
unfolding wrap_under_recovery_code
opens =
    unwrap-wrap_under_recovery_code toy toy-IsLawful thirty_two thirty_two nonce code code first
      recovery normalized normalized refl refl (ground (arith, normalized))

seeds : derive_account_key toy profile code ≡ ok thirty_two
unfolding derive_account_key
seeds = ground (arith, normalized)

checks : check_rollover toy thirty_two code (laptop ∷ []) [] account generation_one ≡ ok thirty_two
unfolding check_rollover check_root_key root_recipient account_public check_revoke has_device
    current generation find_device
checks = rw opens (rw seeds refl)

abbrev generation_two : Generation
generation_two = record {
  number = 2;
  created_at = [];
  recipient = 1 ∷ [];
  recovery = recovery;
  devices = [];
  revoked = (record { device_id = laptop; revoked_at = []; revoked_by = [] }) ∷ [];
  signature = sixty_four;
}

abbrev second : Binding
second = record { profile_id = profile; generation = 2 }

rewrapped :
    wrap_under_recovery_code toy (some thirty_two) (some nonce) thirty_two code second ≡ ok recovery
unfolding wrap_under_recovery_code
rewrapped = ground (arith, normalized)

made :
    next_generation toy random thirty_two code thirty_two (laptop ∷ []) [] [] account generation_one
    ≡ ok generation_two
unfolding next_generation root_recipient max_generation max_of carry_devices add_revocation
    account_sign
made = rw rewrapped refl

abbrev account_two : Keyring
account_two = record account {
  generations = generation_one ∷ generation_two ∷ [];
  current_generation = 2;
}

rolled :
    rollover toy random thirty_two code (laptop ∷ []) [] [] account ≡ ok (account_two, thirty_two)
unfolding rollover current generation
rolled = rw checks (rw made refl)

has_device-rollover_example : has_device account_two laptop ≡ (has_device account laptop && false)
has_device-rollover_example =
    has_device-rollover toy random thirty_two code (laptop ∷ []) [] [] account account_two
      thirty_two laptop rolled

generation-rollover_example : generation account_two 1 ≡ some generation_one
generation-rollover_example =
    (generation-rollover toy random thirty_two code (laptop ∷ []) [] [] account account_two
        thirty_two rolled).0
      1 generation_one found

wrapped_first :
    wrap_under_recovery_code toy (some thirty_two) (some nonce) thirty_two code first ≡ ok recovery
unfolding wrap_under_recovery_code
wrapped_first = ground (arith, normalized)

founded :
    new_keyring toy random profile thirty_two code laptop (some laptop_identity) [] ≡ ok account
unfolding new_keyring root_recipient wrap_for_device sign_first keyring_of first_generation
    account_public account_sign
founded = rw wrapped_first (rw seeds refl)

verify_generations-new_keyring_example :
    (seed : Bytes) × (derive_account_key toy profile code ≡ ok seed)
    × (account.account_key ≡ account_public toy seed)
    × (verify_generations toy account.account_key account ≡ ok tt)
verify_generations-new_keyring_example =
    verify_generations-new_keyring toy toy-IsLawful random profile thirty_two code laptop
      (some laptop_identity) [] account founded

revoked_device-rollover_example : revoked_device account_two laptop ≡ true
revoked_device-rollover_example =
    revoked_device-rollover toy random thirty_two code (laptop ∷ []) [] [] account account_two
      thirty_two laptop rolled refl

opens_second :
    unwrap_with_recovery_code toy recovery code (binding_for account_two generation_two)
    ≡ ok thirty_two
unfolding wrap_under_recovery_code
opens_second =
    unwrap-wrap_under_recovery_code toy toy-IsLawful thirty_two thirty_two nonce code code second
      recovery normalized normalized refl refl rewrapped

abbrev both : Dict ℕ Bytes
both = (2, thirty_two) ∷ (1, thirty_two) ∷ []

first_key : recover_key toy account_two code 1 ≡ some thirty_two
unfolding recover_key generation
first_key = rw (opens, recover_key) refl

second_key : unwrap_current toy account_two code ≡ ok thirty_two
unfolding unwrap_current current generation
second_key = rw opens_second refl

recovered : unwrap_generations_with_recovery_code toy account_two code ≡ ok both
unfolding unwrap_generations_with_recovery_code recover_keys generation_numbers sort_ints
    insert_sorted insert
recovered =
    rw second_key (ap (λ o. ok (place toy account_two 1 o ((2, thirty_two) ∷ []))) first_key)

lookup-unwrap_generations_with_recovery_code_example :
    lookup 1 both ≡ recover_key toy account_two code 1
lookup-unwrap_generations_with_recovery_code_example =
    lookup-unwrap_generations_with_recovery_code toy account_two code both 1 recovered

abbrev only : Dict ℕ Bytes
only = (1, thirty_two) ∷ []

opened_all : unwrap_generations toy account laptop laptop_identity ≡ ok only
unfolding unwrap_generations unwrap_for_device unwrap_earlier place_keys current generation
    generation_numbers sort_ints
opened_all = rw opened refl

unwrap_generations_sound_example : AreKeys toy account only × (lookup 1 only ≢ none)
unwrap_generations_sound_example =
    unwrap_generations_sound toy account laptop laptop_identity only opened_all

-- The phone into both generations, with the root key of each.
verify_generations-enrol_all_example :
    verify_generations toy unpinned
      (enrol_all toy (λ n. n) both phone phone_identity [] account_two).keyring
    ≡ verify_generations toy unpinned account_two
verify_generations-enrol_all_example =
    verify_generations-enrol_all toy unpinned (λ n. n) both phone phone_identity [] account_two

verify_generations-unenrol_appended_example :
    verify_generations toy unpinned
      (unenrol_appended laptop (record { generation = 1; wrap = laptop_wrap.wrap } ∷ []) account).0
    ≡ verify_generations toy unpinned account
verify_generations-unenrol_appended_example =
    verify_generations-unenrol_appended toy unpinned laptop
      (record { generation = 1; wrap = laptop_wrap.wrap } ∷ []) account
