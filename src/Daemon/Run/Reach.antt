-- ===== src/Daemon/Run/Reach.antt =====
-- The daemon over all its turns (internal/daemon/loop.go, `Run`): whatever the `select` chooses and
-- whatever the environment answers.
use reinstate.Base.{◌^◌, ◌≤◌, ◌≡◌, none, some, arith}
use reinstate.Daemon.Model.{Options}
use reinstate.Daemon.Settings.{fill, fill-IsFilled}
use reinstate.Daemon.Actions.{observe, write_status, mark_dirty, pull}
use reinstate.Daemon.Run.{
  Daemon, Input, stop, watcher_closed, change, debounce_fired, pull_fired, approvals_fired,
  heartbeat_fired, handle, idle, step, idle, Boot, start, new_loop,
}
use reinstate.Daemon.Run.Frame.{
  armed, observe-Keeps, write_status-Keeps, pull-Keeps, approvals-Keeps, approvals-armed,
}
use reinstate.Daemon.Run.Schedule.{
  IsScheduled, InOrder, idle-IsScheduled, on_change-IsScheduled, on_debounce-IsScheduled,
  on_pull-IsScheduled, on_approvals-IsScheduled, on_heartbeat-IsScheduled, on_stop-IsScheduled,
}

pub data Reach (o : Options) (b : Boot) : Daemon → Type 0 where
  begin : {d : Daemon} → start o b ≡ some d → Reach o b d
  turn :
      {d d' : Daemon} (input : Input)
      → Reach o b d
      → InOrder input
      → step input d ≡ some d'
      → Reach o b d'

start-IsScheduled :
    (o : Options) (b : Boot) {d : Daemon}
    → (fill o).backoff_min ≤ 2 ^ 62
    → (fill o).backoff_max ≤ 2 ^ 62
    → start o b ≡ some d
    → IsScheduled d
unfolding start mark_dirty
start-IsScheduled o b {d} p q h =
    let l = new_loop (fill o) b.pid b.now in
    let l' = write_status b.written l in
    let l0 = observe "start" none l' in
    let l1 = (pull b.pull_at b.pulled l0).0 in
    ground (
      arith,
      fill-IsFilled o,
      write_status-Keeps b.written l,
      observe-Keeps "start" none l',
      pull-Keeps b.pull_at b.pulled l0,
      approvals-Keeps b.approvals_at b.approved l1,
      approvals-armed b.approvals_at b.approved l1,
    )

handle-IsScheduled :
    (input : Input) {d d' : Daemon}
    → IsScheduled d
    → InOrder input
    → handle input d ≡ some d'
    → IsScheduled d'
unfolding handle
handle-IsScheduled (stop now) v o h = ground (arith, on_stop-IsScheduled v now)
handle-IsScheduled watcher_closed v o h = ground arith
handle-IsScheduled (change now armed) v o h = ground (arith, on_change-IsScheduled v now armed o)
handle-IsScheduled (debounce_fired now t result) v o h =
    ground (arith, on_debounce-IsScheduled v t result)
handle-IsScheduled (pull_fired now t result) v o h = ground (arith, on_pull-IsScheduled v t result)
handle-IsScheduled (approvals_fired now t result) v o h =
    ground (arith, on_approvals-IsScheduled v t result)
handle-IsScheduled (heartbeat_fired now armed written) v o h =
    ground (arith, on_heartbeat-IsScheduled v armed written)

step-eq-handle :
    (input : Input) (d d' : Daemon) → step input d ≡ some d' → handle input (idle d) ≡ some d'
unfolding step
step-eq-handle input d d' h = ground arith

step-IsScheduled :
    (input : Input) (d d' : Daemon)
    → IsScheduled d
    → InOrder input
    → step input d ≡ some d'
    → IsScheduled d'
step-IsScheduled input d d' v o h =
    handle-IsScheduled input (idle-IsScheduled v) o (step-eq-handle input d d' h)

-- Between two turns, however the daemon got there: a change that is not pushed has a push ahead
-- of it, no push is due before the backoff of the last failure is over, and the pull, the heartbeat
-- and (with an account) the poll of approvals stay scheduled. The retry bounds are at most 2^62
-- nanoseconds and the clock does not run backwards within a turn.
pub Reach-IsScheduled :
    (o : Options) (b : Boot) (d : Daemon)
    → (fill o).backoff_min ≤ 2 ^ 62
    → (fill o).backoff_max ≤ 2 ^ 62
    → Reach o b d
    → IsScheduled d
Reach-IsScheduled o b d p q (begin h) = start-IsScheduled o b p q h
Reach-IsScheduled o b d' p q (turn {d} input r ordered h) =
    step-IsScheduled input d d' (Reach-IsScheduled o b d p q r) ordered h
