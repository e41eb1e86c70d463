-- ===== src/Sync/Plan/Diverged.antt =====
-- What `DetectConflict` (internal/sync/plan.go) reports.
use reinstate.Base.{◌≡◌, ◌≢◌, ◌↔◌, true, String, ==_iff, string_eq, arith}
use reinstate.Sync.Plan.{detect_conflict}

-- Two revisions are in conflict exactly when both exist and they differ, whatever the base: a side
-- that still stands at the base is in conflict too.
pub detect_conflict_iff :
    (local_rev remote_rev base_rev : String)
    → (detect_conflict local_rev remote_rev base_rev ≡ true)
      ↔ ((local_rev ≢ "") × (remote_rev ≢ "") × (local_rev ≢ remote_rev))
unfolding detect_conflict
detect_conflict_iff l r b =
    ground (arith, ==_iff l "", ==_iff r "", ==_iff l r, ==_iff l b, ==_iff r b, ==_iff b "")
