-- ===== src/Sync/Push.antt =====
-- `PushSession` (internal/sync/push.go): an immutable snapshot first, then the head of the session. What the
-- temporary file on the way to the storage can fail with is left out.
pub mod Pushed
use reinstate.Base.{
  ℕ, Bool, true, false, not, ◌&&◌, ◌||◌, Option, none, some, String, List, [], ◌∷◌, length, ltb,
  ◌==◌, string_eq, bytes_eq, nat_eq, if◌then◌else◌, Result, ok, err, ◌>>=◌, ◌>>◌,
}
use Prim.Native.String.{◌++◌}
use reinstate.Base.Dict.{lookup}
use reinstate.SafeText.{Runes}
use reinstate.Backend.{Storage, Bytes, PutOptions, ObjectMeta, BackendError}
use reinstate.Sync.Model.{
  Manifest, ManifestSession, SyncError, conflict, backend_failed, not_encodable, not_encryptable,
  with_metadata, missing_identity, hard_excluded, unreadable, payload_too_large, Codec, Envelope,
  EnvelopeFile, PushItem, envelope_schema_version, envelope_kind,
}
use reinstate.Sync.Plan.{session_key}
use reinstate.Sync.Paths.{PathLibrary, is_credential_name, contains_hard_excluded_path}
use reinstate.Sync.Manifest.{or_fail, require, head_of, load_manifest, update_manifest}

-- The settings of an engine, and what it takes from elsewhere: the key of an object under the
-- prefix, the hash of a file, and encoding/json on an envelope.
pub record Engine : Type 0 where
  pub codec : Codec
  pub paths : PathLibrary
  pub key : String → String
  pub platform : String
  pub max_payload_size : ℕ
  pub require_remote_manifest : Bool
  pub sha256_of : Bytes → String
  pub marshal_envelope : Envelope → Option Bytes

-- What `PushSession` returns: the id of the snapshot and the error, one of which may be absent.
pub record PushResult : Type 0 where
  pub snapshot_id : String
  pub problem : Option SyncError

abbrev pub create_only : PutOptions
create_only = record { if_match = ""; if_none_match = true }

abbrev failed {ℓ} : {State : Type ℓ} → State → SyncError → State × PushResult
failed s problem = (s, record { snapshot_id = ""; problem = some problem })

-- The result of the update of the manifest, with the snapshot that stays in any case.
unfoldable pub report_update : String → Result SyncError (Unit {0}) → PushResult
report_update id (ok done) = record { snapshot_id = id; problem = none }
report_update id (err problem) = record { snapshot_id = id; problem = some problem }

module _ (E : Engine) (S : Storage) where
  unfoldable pub manifest_key : String
  manifest_key = E.key "manifest.age"

  unfoldable pub snapshot_key : String → String
  snapshot_key id = E.key ("snapshots/" ++ (id ++ ".age"))

  -- The tests on the item and its file.
  unfoldable pub check_item : PushItem → Option Bytes → Result SyncError Bytes
  check_item item source = do
    require (not (item.agent == "" || item.session_id == "" || item.local_path == []))
        missing_identity
    require
        (not (
          is_credential_name E.paths (E.paths.base item.local_path)
          || contains_hard_excluded_path E.paths item.relative_path
          || contains_hard_excluded_path E.paths item.local_path))
        hard_excluded
    payload ← or_fail source unreadable
    require (not (ltb E.max_payload_size (length payload))) payload_too_large
    ok payload

  -- The head that the push replaces.
  unfoldable pub find_parent : PushItem → S.State → Result SyncError String
  find_parent item s = do
    (current, etag) ← load_manifest E.codec S manifest_key (not E.require_remote_manifest) s
    let parent = head_of (lookup (session_key item.agent item.session_id) current.sessions) in
        (require (not (item.base_known && not (parent == item.base_revision))) conflict
          >> ok parent)

  unfoldable pub envelope_of : PushItem → String → String → String → Bytes → Envelope
  envelope_of item id parent now payload = record {
    schema_version = envelope_schema_version;
    kind = envelope_kind;
    snapshot_id = id;
    parent_revision = parent;
    agent = item.agent;
    source_platform = E.platform;
    project_id = item.project_id;
    session_id = item.session_id;
    created_at = now;
    files =
        record {
          path = E.paths.to_slash (
              if item.relative_path == []
              then E.paths.base item.local_path
              else item.relative_path);
          size = length payload;
          sha256 = E.sha256_of payload;
        }
        ∷ [];
  }

  unfoldable pub entry_of : PushItem → String → String → ManifestSession
  entry_of item id now = record {
    agent = item.agent;
    session_id = item.session_id;
    snapshot_id = id;
    project_id = item.project_id;
    updated_at = now;
  }

  -- What is pushed: the payload, the head that it replaces, and the sealed snapshot, which a dry run
  -- does not make.
  unfoldable pub prepare_push :
      PushItem → Option Bytes → S.State → Result SyncError (Bytes × String)
  prepare_push item source s = do
    payload ← check_item item source
    parent ← find_parent item s
    ok (payload, parent)

  -- From the write of the snapshot on.
  unfoldable pub upload :
      (ℕ → S.State → S.State)
      → (ℕ → String)
      → PushItem
      → String
      → String
      → Bytes
      → S.State
      → S.State × PushResult
  upload others clock item id parent cipher s =
      let (stored, answer) = S.put (snapshot_key id) cipher create_only s in
      elim answer [
        | err e ↦ failed stored (backend_failed e)
        | ok m ↦
            let (s', done) =
              update_manifest E.codec S manifest_key others clock (not E.require_remote_manifest)
                (session_key item.agent item.session_id) (entry_of item id (clock 4)) parent
                stored in
            (s', report_update id done)
      ]

  -- `others 5` is what the other devices do before the snapshot is written; `clock` gives the times.
  unfoldable pub push_session :
      (ℕ → S.State → S.State)
      → (ℕ → String)
      → String
      → PushItem
      → Option Bytes
      → Bool
      → S.State
      → S.State × PushResult
  push_session others clock id item source dry_run s = elim (prepare_push item source s) [
    | err problem ↦ failed s problem
    | ok (payload, parent) ↦
        elim (E.marshal_envelope (envelope_of item id parent (clock 5) payload)) [
          | none ↦ failed s not_encodable
          | some metadata ↦ elim dry_run [
            | true ↦ (s, record { snapshot_id = id; problem = none })
            | false ↦ elim (E.codec.encrypt 5 (with_metadata metadata payload)) [
              | none ↦ failed s not_encryptable
              | some cipher ↦ upload others clock item id parent cipher (others 5 s)
            ]
          ]
        ]
  ]
