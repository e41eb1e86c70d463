-- ===== src/Examples/Sync.antt =====
-- The first push of a session to an empty store (internal/sync).
use reinstate.Base.{
  ℕ, ◌≡◌, ◌≢◌, refl, true, false, none, some, String, [], ◌∷◌, arith, ok, err, inl, inr, map, leb,
  ◌&&◌, ◌+◌, ◌==◌, ==_iff, bytes_eq, string_eq, codes, if◌then◌else◌,
}
use reinstate.Base.Dict.{lookup, insert}
use reinstate.Backend.{Storage, Bytes}
use reinstate.Backend.Interference.{Interfered, still}
use reinstate.Backend.Memory.{memory, put, get}
use reinstate.Backend.Memory.Conditional.{memory-HasConditionalPut, new_store, new_store-IsValid}
use reinstate.Sync.Model.{Manifest, ManifestSession, conflict, Codec, PushItem, new_manifest}
use reinstate.Sync.Plan.{session_key}
use reinstate.Sync.Paths.{
  PathLibrary, contains_hard_excluded_path, contains_credential_path, is_credential_name,
  starts_with, parts_of, parts_after, close_part,
}
use reinstate.Sync.Paths.Excluded.{contains_hard_excluded_path_iff}
use reinstate.Sync.Manifest.{
  head_of, advance, save_options, encode_manifest, load_failed, load_manifest, prepare, update_loop,
  update_manifest,
}
use reinstate.Sync.Manifest.Advanced.{Advanced, update_manifest-Advanced}
use reinstate.Sync.Manifest.Kept.{load_manifest-Advanced, update_manifest_failed}
use reinstate.Sync.Push.{
  Engine, report_update, manifest_key, snapshot_key, check_item, find_parent, envelope_of, entry_of,
  prepare_push, upload, push_session,
}
use reinstate.Sync.Push.Pushed.{Published, push_session-Published}
use reinstate.Examples.Backend.{one_tag}

abbrev remote : Storage
remote = memory one_tag

abbrev empty : remote.State
empty = new_store one_tag

tagged : (b : Bytes) → one_tag b ≢ ""
tagged b h = ground (arith, ==_iff {A = String} "e1" "")

abbrev clock : ℕ → String
clock n = "now"

abbrev quiet : ℕ → remote.State → remote.State
quiet n s = s

abbrev session : ManifestSession
session = record {
  agent = "claude";
  session_id = "1";
  snapshot_id = "v1";
  project_id = "p";
  updated_at = "now";
}

abbrev pushed : Manifest
pushed = record {
  schema_version = 1;
  revision = "v1";
  sessions = ("claude:1", session) ∷ [];
  updated_at = "now";
}

abbrev codec : Codec
codec = record {
  marshal = λ m. some (1 ∷ []);
  unmarshal = λ raw. some pushed;
  encrypt = λ n raw. some raw;
  decrypt = λ cipher. some cipher;
}

abbrev paths : PathLibrary
paths = record { to_lower = λ t. t; equal_fold = λ a b. a == b; to_slash = λ t. t; base = λ t. t }

abbrev lowering : PathLibrary
lowering = record paths { to_lower = map (λ c. if leb 0x41 c && leb c 0x5a then c + 0x20 else c) }

abbrev pub engine : Engine
engine = record {
  codec = codec;
  paths = paths;
  key = λ k. k;
  platform = "linux";
  max_payload_size = 1000;
  require_remote_manifest = false;
  sha256_of = λ b. "hash";
  marshal_envelope = λ e. some [];
}

abbrev item : PushItem
item = record {
  agent = "claude";
  session_id = "1";
  project_id = "p";
  local_path = codes "/home/a.jsonl";
  relative_path = codes "a.jsonl";
  base_known = true;
  base_revision = "";
}

moved :
    (s : remote.State) × (update_manifest codec remote "manifest.age" quiet clock true "claude:1"
        session "" empty
      ≡ (s, ok tt))
unfolding new_store update_manifest update_loop prepare load_manifest load_failed new_manifest
    head_of advance encode_manifest save_options memory put get insert lookup
moved = (_, refl)

update_manifest-Advanced_example :
    Advanced codec remote "manifest.age" true "claude:1" session "" quiet clock 4 empty moved.0
update_manifest-Advanced_example =
    update_manifest-Advanced codec remote "manifest.age" true "claude:1" session ""
      (memory-HasConditionalPut one_tag tagged) quiet clock (λ n s v. v) empty moved.0
      (new_store-IsValid one_tag) moved.1

-- The store after that update.
abbrev manifest_only : remote.State
manifest_only = moved.0

by_hand :
    Advanced codec remote "manifest.age" true "claude:1" session "" quiet clock 4 empty
      manifest_only
unfolding moved new_store load_manifest load_failed new_manifest head_of advance encode_manifest
    memory put get insert lookup
by_hand = record {
  read = empty;
  left = 3;
  old = new_manifest "";
  etag = "";
  body = 1 ∷ [];
  meta = record { key = "manifest.age"; etag = "e1"; size = 1 };
  reached = still 4 empty;
  loaded = refl;
  parent = refl;
  encoded = refl;
  unchanged = inl refl;
  stored = refl;
  elsewhere = λ j d. ground (arith, ==_iff "manifest.age" j);
}

decoded : codec.unmarshal (1 ∷ []) ≡ some (advance "claude:1" session "now" by_hand.old)
unfolding by_hand new_manifest advance insert
decoded = refl

load_manifest-Advanced_example :
    (m : Manifest) × (etag : String) × (load_manifest codec remote "manifest.age" true manifest_only
      ≡ ok (m, etag))
    × ((j : String)
        → lookup j m.sessions
          ≡ (if "claude:1" == j then some session else lookup j by_hand.old.sessions))
unfolding by_hand
load_manifest-Advanced_example =
    load_manifest-Advanced codec remote "manifest.age" true "claude:1" session "" quiet clock 4
      empty manifest_only by_hand (1 ∷ []) refl decoded (omega arith)

stale :
    update_manifest codec remote "manifest.age" quiet clock true "claude:1" session "v0" empty
    ≡ (empty, err conflict)
unfolding new_store update_manifest update_loop prepare load_manifest load_failed new_manifest
    head_of memory get lookup
stale = refl

update_manifest_failed_example : Interfered quiet 4 empty empty
update_manifest_failed_example =
    update_manifest_failed codec remote "manifest.age" true "claude:1" session "v0" quiet clock
      (memory-HasConditionalPut one_tag tagged) empty empty conflict (λ x h. ground arith) stale

published :
    (s : remote.State) × (push_session engine remote quiet clock "v1" item
        (some (7 ∷ 8 ∷ []))
        false
        empty
      ≡ (s, record { snapshot_id = "v1"; problem = none }))
unfolding new_store push_session prepare_push check_item find_parent upload report_update
    manifest_key snapshot_key envelope_of entry_of session_key contains_hard_excluded_path
    contains_credential_path is_credential_name starts_with parts_of parts_after close_part
    update_manifest update_loop prepare load_manifest load_failed new_manifest head_of advance
    encode_manifest save_options memory put get insert lookup
published = (_, refl)

push_session-Published_example :
    Published engine remote item
      (memory-HasConditionalPut one_tag tagged)
      quiet
      clock
      (λ n s v. v)
      "v1"
      (some (7 ∷ 8 ∷ []))
      empty
      published.0
push_session-Published_example =
    push_session-Published engine remote item (memory-HasConditionalPut one_tag tagged) quiet clock
      (λ n s v. v) "v1" (some (7 ∷ 8 ∷ [])) empty published.0
      (record { snapshot_id = "v1"; problem = none }) (new_store-IsValid one_tag) published.1 refl

contains_hard_excluded_path_iff_example :
    contains_hard_excluded_path lowering (codes "a/.ENV") ≡ true
contains_hard_excluded_path_iff_example =
    (contains_hard_excluded_path_iff lowering (codes "a/.ENV")).1
      (codes ".ENV", refl, inr (inr (inl (codes "a", refl))), inl refl)
