-- ===== src/Examples/Storage.antt =====
-- A stored keyring that is read, created and updated (internal/keyring/store.go).
use reinstate.Base.{
  ℕ, ◌≡◌, refl, ◌≢◌, some, String, [], ◌∷◌, arith, bytes_eq, nat_eq, string_eq, ==_iff, ok, err,
}
use reinstate.Base.Dict.{lookup, insert}
use reinstate.Backend.{Storage, Bytes, BackendError}
use reinstate.Backend.Memory.{memory, put, get}
use reinstate.Backend.Memory.Conditional.{
  memory-HasConditionalPut, new_store, new_store-IsValid, IsValidStore,
}
use reinstate.Backend.Interference.{Interfered}
use reinstate.Keyring.Model.{nothing_to_revoke, generation, current}
use reinstate.Keyring.Parse.{
  Codec, parse, marshal, validate, check_generations, check_generation, check_devices,
  check_formats, device_formats, check_signature_shape, check_gaps, check_current,
}
use reinstate.Keyring.Parse.Accepted.{parse-Accepted, Accepted}
use reinstate.Keyring.Store.{
  written_form, check_write_size, load, create, prepare, update, update_loop, create_options,
  update_options,
}
use reinstate.Keyring.Store.Updates.{update-Written, Written}
use reinstate.Keyring.Store.Reads.{load-create, update_failed}
use reinstate.Examples.Toy.{toy}
use reinstate.Examples.Keyring.{account, verified}
use reinstate.Examples.Backend.{one_tag}

abbrev codec : Codec
codec = record { unmarshal = λ raw. some account; marshal_indent = λ k. some [] }

parsed : parse toy codec (10 ∷ []) ≡ ok account
unfolding parse validate check_generations check_generation check_devices check_formats
    device_formats check_signature_shape check_gaps check_current current generation
parsed = rw verified refl

parse-Accepted_example : (some account ≡ some account) × Accepted toy account
parse-Accepted_example = parse-Accepted toy codec (10 ∷ []) account parsed

tagged : (b : Bytes) → one_tag b ≢ ""
tagged b h = ground (arith, ==_iff {A = String} "e1" "")

abbrev key : String
key = "keyring.v1.json"

abbrev remote : Storage
remote = memory one_tag

abbrev empty : remote.State
empty = new_store one_tag

created : (s : remote.State) × (create toy codec remote key account empty ≡ (s, ok tt))
unfolding new_store create written_form check_write_size marshal memory put insert lookup
created = (_, refl)

load-create_example : remote.get key empty ≡ err BackendError.not_found
load-create_example =
    (load-create toy codec remote (memory-HasConditionalPut one_tag tagged) key account empty
      created.0 created.1).0

abbrev quiet : ℕ → remote.State → remote.State
quiet n s = s

loaded : load toy codec remote key created.0 ≡ ok (account, "e1")
unfolding created new_store create written_form check_write_size marshal memory put get insert
    lookup load
loaded = rw parsed refl

prepared : prepare toy codec remote (λ k. ok k) key created.0 ≡ ok (account, 10 ∷ [], "e1")
unfolding prepare written_form check_write_size marshal
prepared = rw loaded refl

updated :
    update toy codec remote quiet key (λ k. ok k) created.0
    ≡ ((remote.put key (10 ∷ []) (update_options "e1") created.0).0, ok account)
unfolding created new_store memory put insert lookup update update_loop written_form marshal
    check_write_size
updated = ground (arith, prepared)

valid : IsValidStore one_tag created.0
unfolding created create written_form marshal check_write_size
valid =
    (memory-HasConditionalPut one_tag tagged).valid-put key (10 ∷ []) create_options empty
      (new_store-IsValid one_tag)

update-Written_example :
    Written toy codec remote quiet 8 key
      (λ k. ok k)
      created.0
      (remote.put key (10 ∷ []) (update_options "e1") created.0).0
      account
update-Written_example =
    update-Written toy codec remote (memory-HasConditionalPut one_tag tagged) quiet (λ n s v. v) key
      (λ k. ok k) created.0 (remote.put key (10 ∷ []) (update_options "e1") created.0).0 account
      valid updated

refused :
    prepare toy codec remote (λ k. err nothing_to_revoke) key created.0 ≡ err nothing_to_revoke
unfolding prepare
refused = rw loaded refl

failed :
    update toy codec remote quiet key (λ k. err nothing_to_revoke) created.0
    ≡ (created.0, err nothing_to_revoke)
unfolding update update_loop
failed = ground (arith, refused)

update_failed_example : Interfered quiet 8 created.0 created.0
update_failed_example =
    update_failed toy codec remote (memory-HasConditionalPut one_tag tagged) quiet key
      (λ k. err nothing_to_revoke) created.0 created.0 nothing_to_revoke (λ h. ground arith) failed
