-- ===== src/Examples/Daemon.antt =====
-- A daemon with the default intervals and what it meets (internal/daemon).
use reinstate.Base.{
  ◌≡◌, refl, ◌≤◌, ◌^◌, ◌*◌, ◌&&◌, true, false, Option, none, some, [], ◌∷◌, arith, contains,
  string_eq,
}
use reinstate.Daemon.Model.{Options, Loop, PendingApproval, SyncError}
use reinstate.Daemon.Settings.{fill, second}
use reinstate.Daemon.Backoff.{backoff}
use reinstate.Daemon.Backoff.Bounds.{backoff-eq}
use reinstate.Daemon.Actions.{Readings, CallResult, returned, guard, mark_dirty}
use reinstate.Daemon.Approvals.{listed, settle_approvals, approval_request}
use reinstate.Daemon.Approvals.Notices.{settle_approvals-seen}
use reinstate.Daemon.Run.{Daemon, Boot, start, step, handle, new_loop, debounce_fired}
use reinstate.Daemon.Run.Schedule.{IsScheduled}
use reinstate.Daemon.Run.Reach.{begin, Reach-IsScheduled}
use reinstate.Daemon.Run.Pending.{step-dirty}

abbrev given : Options
given = record {
  home = "/home/a";
  has_syncer = true;
  has_account = true;
  has_notifier = true;
  has_observer = false;
  has_events = true;
  debounce = 0;
  max_debounce = 0;
  pull_every = 0;
  approvals_every = 0;
  backoff_min = 0;
  backoff_max = 0;
  watch = "";
  roots = [];
  backend = "hop";
}

abbrev at_once : Readings
at_once = record { began = 1; finished = 1; written = 1; armed = 1 }

abbrev fine : CallResult
fine = returned "nothing to do" none

abbrev boot : Boot
boot = record {
  pid = 42;
  now = 1;
  written = 1;
  pull_at = at_once;
  pulled = fine;
  approvals_at = at_once;
  approved = listed [] [] [];
  debounce_armed = 1;
  heartbeat_armed = 1;
}

abbrev ended : Option Daemon → Daemon → Daemon
ended none d = d
ended (some d) _ = d

started : (d : Daemon) × (start given boot ≡ some d)
unfolding start fill
started = (_, refl)

least_small : (fill given).backoff_min ≤ 2 ^ 62
unfolding fill
least_small = omega arith

greatest_small : (fill given).backoff_max ≤ 2 ^ 62
unfolding fill
greatest_small = omega arith

Reach-IsScheduled_example : IsScheduled started.0
Reach-IsScheduled_example =
    Reach-IsScheduled given boot started.0 least_small greatest_small (begin started.1)

abbrev later : Readings
later = record {
  began = 5 * second;
  finished = 5 * second;
  written = 5 * second;
  armed = 5 * second;
}

abbrev refused : SyncError
refused = record { text = "no route"; is_conflict = false; is_locked = false }

pushed :
    (d : Daemon) × (step (debounce_fired (4 * second) later (returned "" (some refused))) started.0
      ≡ some d)
unfolding started start fill step handle
pushed = (_, refl)

step-dirty_example : pushed.0.loop.dirty ≡ (started.0.loop.dirty && true)
unfolding guard
step-dirty_example =
    step-dirty (debounce_fired (4 * second) later (returned "" (some refused))) started.0 pushed.0
      pushed.1

still_dirty : started.0.loop.dirty ≡ true
unfolding started start fill mark_dirty
still_dirty = refl

backoff-eq_example : backoff (fill given) 3 ≡ 20 * second
unfolding fill
backoff-eq_example = backoff-eq (fill given) 3 least_small greatest_small

abbrev joining : PendingApproval
joining = record {
  request_id = "r1";
  device_id = "d2";
  device_name = "";
  platform = "linux";
  expires_at = 0;
}

abbrev fresh : Loop
fresh = new_loop given 42 1

settle_approvals-seen_example :
    contains (settle_approvals later (listed (joining ∷ []) [] []) fresh).seen "pair:r1" ≡ true
unfolding approval_request
settle_approvals-seen_example = settle_approvals-seen later (joining ∷ []) [] [] fresh "pair:r1"
