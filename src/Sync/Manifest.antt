-- ===== src/Sync/Manifest.antt =====
-- `loadManifest`, `saveManifest` and `updateManifest` (internal/sync/push.go): the head of a session moves by a
-- conditional write. Other devices write to the storage between the read and the write of an attempt, which
-- `others` stands for, by the attempts that are left.
pub mod Advanced
pub mod Kept
use reinstate.Base.{
  ℕ, zero, suc, Bool, true, false, not, Option, none, some, String, List, length, ltb, ◌==◌,
  string_eq, nat_eq, if◌then◌else◌, Result, ok, err, ◌>>=◌, ◌>>◌,
}
use reinstate.Base.Dict.{Dict, lookup, insert}
use reinstate.Backend.{Storage, Bytes, PutOptions, ObjectMeta, BackendError, is_contended}
use reinstate.Sync.Model.{
  Manifest, ManifestSession, SyncError, conflict, remote_profile_not_found, backend_failed,
  undecryptable, too_large, invalid_manifest, unsupported_version, not_encodable, not_encryptable,
  Codec, new_manifest, manifest_schema_version, max_manifest_bytes, max_manifest_retries,
}

abbrev pub or_fail {ℓ} : {A : Type ℓ} → Option A → SyncError → Result SyncError A
or_fail none problem = err problem
or_fail (some a) problem = ok a

abbrev pub require : Bool → SyncError → Result SyncError (Unit {0})
require true problem = ok tt
require false problem = err problem

-- What `loadManifest` makes of an error of `Get`.
unfoldable pub load_failed : Bool → BackendError → Result SyncError (Manifest × String)
load_failed allow_missing BackendError.not_found =
    if allow_missing then ok (new_manifest "", "") else err remote_profile_not_found
load_failed allow_missing e = err (backend_failed e)

-- The snapshot at the head of a session, where there is one.
unfoldable pub head_of : Option ManifestSession → String
head_of none = ""
head_of (some session) = session.snapshot_id

-- The manifest with the new head.
unfoldable pub advance : String → ManifestSession → String → Manifest → Manifest
advance session_key entry now manifest = record manifest {
  sessions = insert session_key entry manifest.sessions;
  revision = entry.snapshot_id;
  updated_at = now;
}

unfoldable pub save_options : String → PutOptions
save_options if_match =
    if if_match == ""
    then record { if_match = ""; if_none_match = true }
    else record { if_match = if_match; if_none_match = false }

-- The answer of the write: none where the loop goes on.
abbrev pub settle : Result BackendError ObjectMeta → Option (Result SyncError (Unit {0}))
settle (ok m) = some (ok tt)
settle (err e) = if is_contended e then none else some (err (backend_failed e))

module _ (codec : Codec) where
  unfoldable pub decode_manifest : Bytes → Result SyncError Manifest
  decode_manifest body = do
    raw ← or_fail (codec.decrypt body) undecryptable
    require (not (ltb max_manifest_bytes (length raw))) too_large
    manifest ← or_fail (codec.unmarshal raw) invalid_manifest
    require (manifest.schema_version == manifest_schema_version) unsupported_version
    ok manifest

  -- The bytes that `saveManifest` writes.
  unfoldable pub encode_manifest : ℕ → Manifest → Result SyncError Bytes
  encode_manifest entropy manifest = do
    raw ← or_fail (codec.marshal manifest) not_encodable
    or_fail (codec.encrypt entropy raw) not_encryptable

  module _ (S : Storage) (key : String) where
    unfoldable pub load_manifest : Bool → S.State → Result SyncError (Manifest × String)
    load_manifest allow_missing s = elim (S.get key s) [
      | err e ↦ load_failed allow_missing e
      | ok (body, m) ↦ (decode_manifest body >>= λ manifest. ok (manifest, m.etag))
    ]

    -- An attempt up to the write: the new manifest, its bytes, and the etag that it replaces.
    unfoldable pub prepare :
        Bool
        → String
        → ManifestSession
        → String
        → String
        → ℕ
        → S.State
        → Result SyncError (Bytes × String)
    prepare allow_missing session_key entry expected_parent now entropy s = do
      (manifest, etag) ← load_manifest allow_missing s
      require (head_of (lookup session_key manifest.sessions) == expected_parent) conflict
      body ← encode_manifest entropy (advance session_key entry now manifest)
      ok (body, etag)

    -- `clock n` is the time that the attempt with `n` after it reads.
    unfoldable pub update_loop :
        (ℕ → S.State → S.State)
        → (ℕ → String)
        → Bool
        → String
        → ManifestSession
        → String
        → ℕ
        → S.State
        → S.State × Result SyncError (Unit {0})
    update_loop others clock allow_missing session_key entry expected_parent zero s =
        (s, err conflict)
    update_loop others clock allow_missing session_key entry expected_parent (suc n) s =
        elim (prepare allow_missing session_key entry expected_parent (clock n) n s) [
          | err e ↦ (s, err e)
          | ok (body, etag) ↦
              let (s', answer) = S.put key body (save_options etag) (others n s) in
              elim (settle answer) [
                | none ↦
                    update_loop others clock allow_missing session_key entry expected_parent n s'
                | some result ↦ (s', result)
              ]
        ]

    unfoldable pub update_manifest :
        (ℕ → S.State → S.State)
        → (ℕ → String)
        → Bool
        → String
        → ManifestSession
        → String
        → S.State
        → S.State × Result SyncError (Unit {0})
    update_manifest others clock allow_missing session_key entry expected_parent s =
        update_loop others clock allow_missing session_key entry expected_parent
          max_manifest_retries s
