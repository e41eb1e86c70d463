-- ===== src/Examples/Pull.antt =====
-- A pull of a stored snapshot (internal/sync).
use reinstate.Base.{◌≡◌, refl, false, some, Option, [], ◌∷◌, ok, codes, ◌==◌, string_eq}
use reinstate.Base.Dict.{lookup}
use reinstate.SafeText.{Runes}
use reinstate.Backend.{Storage, Bytes, ObjectMeta}
use reinstate.Backend.Memory.{Store, put, get}
use reinstate.Sync.Model.{Envelope, EnvelopeFile, PullItem}
use reinstate.Sync.Paths.{
  starts_with, contains_hard_excluded_path, contains_credential_path, is_credential_name, parts_of,
  parts_after, close_part,
}
use reinstate.Sync.Push.{snapshot_key}
use reinstate.Sync.Pull.{
  Reader, split_line, read_line, demand, only_file, is_unsafe_path, validate_file,
  validate_envelope, validate_payload, deliver, pull_artifact,
}
use reinstate.Sync.Pull.Received.{IsTrusted, IsPayload, pull_artifact_sound}
use reinstate.Examples.Sync.{engine}
use reinstate.Examples.Backend.{one_tag}
use reinstate.Examples.Toy.{thirty_two}

abbrev file : EnvelopeFile
file = record { path = codes "a"; size = 1; sha256 = "hash" }

abbrev received : Envelope
received = record {
  schema_version = 1;
  kind = "reinstate-session-snapshot";
  snapshot_id = "v1";
  parent_revision = "";
  agent = "claude";
  source_platform = "linux";
  project_id = "p";
  session_id = "1";
  created_at = "now";
  files = file ∷ [];
}

abbrev reader : Reader
reader = record {
  unmarshal = λ line. some received;
  clean = λ p. p;
  is_abs = λ p. false;
  separator = 0x2f;
  hex_decode = λ t. some thirty_two;
  same_hash = λ a b. a == b;
  from_slash = λ p. p;
  join = λ d p. p;
}

abbrev snapshot : Bytes
snapshot = 0x0a ∷ 7 ∷ []

abbrev stored : Store
stored = ("snapshots/v1.age", record { content = snapshot; etag = "e1" }) ∷ []

abbrev local : Storage
local = record {
  State = Store;
  put = λ key body opts s. put one_tag key (ok body) opts s;
  get = get;
}

abbrev wanted : PullItem
wanted = record { agent = "claude"; session_id = ""; snapshot_id = "v1"; project_id = "" }

abbrev here : Runes
here = codes "here"

abbrev written : Option (Runes × Bytes)
written = some (codes "a", 7 ∷ [])

pulled : pull_artifact engine reader local wanted here false stored ≡ ok (received, written)
unfolding pull_artifact get lookup snapshot_key read_line split_line validate_envelope validate_file
    demand only_file is_unsafe_path validate_payload deliver contains_hard_excluded_path
    contains_credential_path is_credential_name parts_of parts_after close_part starts_with
pulled = refl

pull_artifact_sound_example :
    (cipher : Bytes) × (meta : ObjectMeta) × (plain : Bytes) × (line : Bytes) × (rest : Bytes)
    × (f : EnvelopeFile) × (payload : Bytes) × (local.get (snapshot_key engine local "v1") stored
        ≡ ok (cipher, meta))
    × (engine.codec.decrypt cipher ≡ some plain)
    × (split_line plain ≡ some (line, rest))
    × (reader.unmarshal line ≡ some received)
    × IsTrusted engine reader wanted received f
    × IsPayload engine reader payload f
    × (written ≡ some (reader.join here (engine.paths.base (reader.from_slash f.path)), payload))
pull_artifact_sound_example =
    pull_artifact_sound engine reader local wanted here false stored received written pulled
