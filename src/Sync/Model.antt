-- ===== src/Sync/Model.antt =====
-- internal/schema/manifest.go, and the errors and settings of internal/sync/push.go. The map of the sessions is
-- an association list, where Go's nil map is the empty one.
use reinstate.Base.{ℕ, Bool, String, Option, List, [], ◌∷◌, ◌++◌}
use reinstate.Base.Dict.{Dict}
use reinstate.SafeText.{Runes}
use reinstate.Backend.{Bytes, BackendError}

abbrev pub manifest_schema_version : ℕ
manifest_schema_version = 1

abbrev pub max_manifest_bytes : ℕ
max_manifest_bytes = 4194304

abbrev pub max_manifest_retries : ℕ
max_manifest_retries = 4

pub record ManifestSession : Type 0 where
  pub agent : String
  pub session_id : String
  pub snapshot_id : String
  pub project_id : String
  pub updated_at : String

pub record Manifest : Type 0 where
  pub schema_version : ℕ
  pub revision : String
  pub sessions : Dict String ManifestSession
  pub updated_at : String

unfoldable pub new_manifest : String → Manifest
new_manifest revision = record {
  schema_version = manifest_schema_version;
  revision = revision;
  sessions = [];
  updated_at = "";
}

pub data SyncError : Type 0 where
  conflict remote_profile_not_found : SyncError
  backend_failed : BackendError → SyncError
  undecryptable too_large invalid_manifest unsupported_version : SyncError
  not_encodable not_encryptable : SyncError
  missing_identity hard_excluded unreadable payload_too_large : SyncError

-- encoding/json on a manifest, and the codec of the engine with its keys. An encryption takes what
-- it needs of randomness, given by a number.
pub record Codec : Type 0 where
  pub marshal : Manifest → Option Bytes
  pub unmarshal : Bytes → Option Manifest
  pub encrypt : ℕ → Bytes → Option Bytes
  pub decrypt : Bytes → Option Bytes

abbrev pub envelope_schema_version : ℕ
envelope_schema_version = 1

abbrev pub envelope_kind : String
envelope_kind = "reinstate-session-snapshot"

-- internal/schema/envelope.go: one file of a snapshot, and the metadata in front of it. The mode is
-- always 0600.
pub record EnvelopeFile : Type 0 where
  pub path : Runes
  pub size : ℕ
  pub sha256 : String

pub record Envelope : Type 0 where
  pub schema_version : ℕ
  pub kind : String
  pub snapshot_id : String
  pub parent_revision : String
  pub agent : String
  pub source_platform : String
  pub project_id : String
  pub session_id : String
  pub created_at : String
  pub files : List EnvelopeFile

abbrev pub newline : ℕ
newline = 0x0a

-- The content of a snapshot: a line with the metadata, and the payload.
abbrev pub with_metadata : Bytes → Bytes → Bytes
with_metadata metadata payload = metadata ++ newline ∷ payload

-- internal/sync/plan.go
pub record PushItem : Type 0 where
  pub agent : String
  pub session_id : String
  pub project_id : String
  pub local_path : Runes
  pub relative_path : Runes
  pub base_known : Bool
  pub base_revision : String

pub record PullItem : Type 0 where
  pub agent : String
  pub session_id : String
  pub snapshot_id : String
  pub project_id : String
