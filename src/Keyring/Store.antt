-- ===== src/Keyring/Store.antt =====
-- internal/keyring/store.go: the keyring object in remote storage. Storage is the interface
-- `Backend`; other devices write to it between the read and the write of an update, which `others`
-- stands for, by the attempts that are left.
pub mod Updates
pub mod Reads
use reinstate.Base.{
  ℕ, zero, suc, ◌*◌, Bool, true, false, Option, none, some, String, List, [], ◌∷◌, length, leb, ltb,
  not, ◌==◌, if◌then◌else◌, Result, ok, err, ◌>>=◌, ◌>>◌,
}
use reinstate.Backend.{Storage, PutOptions, ObjectMeta, BackendError, is_contended}
use reinstate.Keyring.Model.{
  Bytes, Keyring, KeyringError, not_found, too_large, object_too_large, conflict, already_present,
  backend_failed,
}
use reinstate.Keyring.Crypto.{Crypto}
use reinstate.Keyring.Parse.{Codec, parse, marshal, stamped}

abbrev pub max_object_bytes : ℕ
max_object_bytes = 1048576

abbrev pub max_write_bytes : ℕ
max_write_bytes = 786432

abbrev pub max_update_retries : ℕ
max_update_retries = 8

unfoldable pub check_write_size : Bytes → Result KeyringError (Unit {0})
check_write_size raw = if leb (length raw) max_write_bytes then ok tt else err too_large

-- The bytes that `Create` and `Update` write.
unfoldable pub written_form : Codec → Keyring → Result KeyringError Bytes
written_form codec k = marshal codec k >>= λ raw. check_write_size raw >> ok raw

-- The error that `Load` makes of one of `Get`.
abbrev pub load_error : BackendError → KeyringError
load_error BackendError.not_found = not_found
load_error _ = backend_failed

abbrev pub create_options : PutOptions
create_options = record { if_match = ""; if_none_match = true }

-- How `Create` reads the answer of its put.
abbrev pub settle_create : Result BackendError ObjectMeta → Result KeyringError (Unit {0})
settle_create (ok m) = ok tt
settle_create (err e) = if is_contended e then err already_present else err backend_failed

abbrev pub update_options : String → PutOptions
update_options etag = record { if_match = etag; if_none_match = false }

-- The answer of the put of an attempt: none where the loop goes on.
abbrev pub settle_update :
    Keyring → Result BackendError ObjectMeta → Option (Result KeyringError Keyring)
settle_update k (ok m) = some (ok k)
settle_update k (err e) = if is_contended e then none else some (err backend_failed)

module _ (C : Crypto) (codec : Codec) (S : Storage) where
  unfoldable pub load : String → S.State → Result KeyringError (Keyring × String)
  load key s = elim (S.get key s) [
    | err e ↦ err (load_error e)
    | ok (raw, m) ↦
        if ltb max_object_bytes (length raw)
        then err object_too_large
        else (parse C codec raw >>= λ k. ok (k, m.etag))
  ]

  unfoldable pub create : String → Keyring → S.State → S.State × Result KeyringError (Unit {0})
  create key k s = elim (written_form codec k) [
    | err e ↦ (s, err e)
    | ok raw ↦ let (s', answer) = S.put key raw create_options s in (s', settle_create answer)
  ]

  -- An attempt of `Update` up to the write: the new keyring, its bytes and the etag it replaces.
  unfoldable pub prepare :
      (Keyring → Result KeyringError Keyring)
      → String
      → S.State
      → Result KeyringError (Keyring × Bytes × String)
  prepare mutate key s = do
    (k, etag) ← load key s
    k' ← mutate k
    raw ← written_form codec k'
    ok (stamped k', raw, etag)

  -- `others n` is what the other devices do to the storage during the attempt that has `n` after it.
  unfoldable pub update_loop :
      (ℕ → S.State → S.State)
      → ℕ
      → String
      → (Keyring → Result KeyringError Keyring)
      → S.State
      → S.State × Result KeyringError Keyring
  update_loop others zero key mutate s = (s, err conflict)
  update_loop others (suc n) key mutate s = elim (prepare mutate key s) [
    | err e ↦ (s, err e)
    | ok (k, raw, etag) ↦
        let (s', answer) = S.put key raw (update_options etag) (others n s) in
        elim (settle_update k answer) [
          | none ↦ update_loop others n key mutate s'
          | some result ↦ (s', result)
        ]
  ]

  unfoldable pub update :
      (ℕ → S.State → S.State)
      → String
      → (Keyring → Result KeyringError Keyring)
      → S.State
      → S.State × Result KeyringError Keyring
  update others key mutate s = update_loop others max_update_retries key mutate s
