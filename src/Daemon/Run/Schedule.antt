-- ===== src/Daemon/Run/Schedule.antt =====
-- The timers of the event loop (internal/daemon/loop.go, `Run`): what holds between two turns.
use reinstate.Base.{◌≤◌, ◌≡◌, Bool, true, Option, none, some, arith, leb}
use reinstate.Daemon.Model.{Time}
use reinstate.Daemon.Actions.{Readings, CallResult, write_status, observe, mark_dirty, push_delay}
use reinstate.Daemon.Approvals.{AccountResult}
use reinstate.Daemon.Run.Frame.{
  armed, IsSound, observe-Keeps, write_status-Keeps, pull-Keeps, approvals-Keeps, approvals-armed,
  push-BacksOff,
}
use reinstate.Daemon.Run.{
  Daemon, Input, change, debounce_fired, on_change, on_debounce, on_pull, on_approvals,
  on_heartbeat, on_stop,
}

-- The timer does not fire before the instant.
abbrev pub not_earlier : Time → Option Time → Bool
not_earlier t none = true
not_earlier t (some deadline) = leb t deadline

pub record IsScheduled (d : Daemon) : Type 0 where
  pub sound : IsSound d.loop.opts
  -- a change that is not pushed has a push ahead of it
  pub dirty_armed : d.loop.dirty ≡ true → armed d.debounce_t ≡ true
  -- and no push comes before the backoff is over
  pub backed_off : not_earlier d.loop.not_before d.debounce_t ≡ true
  pub pull_armed : armed d.pull_t ≡ true
  pub heartbeat_armed : armed d.heartbeat_t ≡ true
  pub approvals_armed : armed d.approvals_t ≡ d.loop.opts.has_account

-- The clock does not run backwards within a turn.
abbrev pub InOrder : Input → Type 0
InOrder (change now armed) = now ≤ armed
InOrder (debounce_fired now t result) =
    (now ≤ t.began) × (t.began ≤ t.finished) × (t.finished ≤ t.written) × (t.written ≤ t.armed)
InOrder _ = Unit

module _ {d : Daemon} (v : IsScheduled d) where
  pub idle-IsScheduled : IsScheduled (record d { loop = observe "idle" none d.loop })
  idle-IsScheduled = ground (arith, observe-Keeps "idle" none d.loop)

  pub on_change-IsScheduled : (now armed : Time) → now ≤ armed → IsScheduled (on_change now armed d)
  unfolding on_change mark_dirty push_delay
  on_change-IsScheduled now armed h =
      ground (arith, observe-Keeps "change" none (mark_dirty now d.loop))

  pub on_debounce-IsScheduled :
      (t : Readings) (result : CallResult)
      → t.finished ≤ t.armed
      → IsScheduled (on_debounce t result d)
  unfolding on_debounce
  on_debounce-IsScheduled t result h = ground (arith, push-BacksOff t result d.loop v.sound)

  pub on_pull-IsScheduled : (t : Readings) (result : CallResult) → IsScheduled (on_pull t result d)
  unfolding on_pull
  on_pull-IsScheduled t result = ground (arith, pull-Keeps t result d.loop)

  pub on_approvals-IsScheduled :
      (t : Readings) (result : AccountResult) → IsScheduled (on_approvals t result d)
  unfolding on_approvals
  on_approvals-IsScheduled t result =
      ground (arith, approvals-Keeps t result d.loop, approvals-armed t result d.loop)

  pub on_heartbeat-IsScheduled : (armed written : Time) → IsScheduled (on_heartbeat armed written d)
  unfolding on_heartbeat
  on_heartbeat-IsScheduled armed written = ground (
    arith,
    write_status-Keeps written d.loop,
    observe-Keeps "heartbeat" none (write_status written d.loop),
  )

  pub on_stop-IsScheduled : (now : Time) → IsScheduled (on_stop now d)
  unfolding on_stop
  on_stop-IsScheduled now = ground (
    arith,
    write_status-Keeps now
        (record d.loop { status = record d.loop.status { updated_at = now; pid = 0 } }),
  )
