-- ===== src/Sync/Plan.antt =====
-- internal/sync/plan.go.
pub mod Diverged
use reinstate.Base.{
  Bool, true, false, not, ◌&&◌, ◌||◌, String, Option, none, if◌then◌else◌, ◌==◌, string_eq,
}
use reinstate.Base.Dict.{lookup}
use Prim.Native.String.{◌++◌}
use reinstate.Sync.Model.{Manifest, ManifestSession}

unfoldable pub session_key : String → String → String
session_key agent session_id = agent ++ (":" ++ session_id)

unfoldable pub detect_conflict : String → String → String → Bool
detect_conflict local_rev remote_rev base_rev =
    if remote_rev == "" || local_rev == ""
    then false
    else if local_rev == remote_rev
    then false
    else if not (base_rev == "") && not (local_rev == base_rev) && not (remote_rev == base_rev)
    then true
    else not (local_rev == remote_rev)

unfoldable pub manifest_session_lookup : Manifest → String → String → Option ManifestSession
manifest_session_lookup m agent session_id = lookup (session_key agent session_id) m.sessions
