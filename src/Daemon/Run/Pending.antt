-- ===== src/Daemon/Run/Pending.antt =====
-- Which turns make and which clear the pending change (internal/daemon/loop.go, `Run`).
use reinstate.Base.{
  ◌≡◌, Bool, true, false, not, ◌&&◌, ◌||◌, Option, none, some, arith, String, ◌+◌, if◌then◌else◌,
}
use reinstate.Daemon.Model.{Time, SyncError, Loop}
use reinstate.Daemon.Backoff.{backoff}
use reinstate.Daemon.Actions.{
  Readings, CallResult, returned, guard, write_status, observe, mark_dirty, push, settle_push,
}
use reinstate.Daemon.Run.{
  Daemon, Input, stop, watcher_closed, change, debounce_fired, pull_fired, approvals_fired,
  heartbeat_fired, idle, on_debounce, handle, step, retry_timer,
}
use reinstate.Daemon.Run.Frame.{observe-Keeps, write_status-Keeps, pull-Keeps, approvals-Keeps}

-- The answers of a push that leave nothing to retry: success, or a recorded conflict.
abbrev settled : Option SyncError → Bool
settled none = true
settled (some err) = err.is_conflict

abbrev pub settles : Input → Bool
settles (debounce_fired now t result) = settled (guard result).1
settles _ = false

abbrev pub is_change : Input → Bool
is_change (change now armed) = true
is_change _ = false

settle_push-dirty :
    (err : Option SyncError) (summary : String) (now : Time) (l : Loop)
    → (settle_push err summary now l).0.dirty ≡ (l.dirty && not (settled err))
unfolding settle_push
settle_push-dirty none summary now l = ground arith
settle_push-dirty (some err) summary now l = ground arith

push-dirty :
    (t : Readings) (result : CallResult) (l : Loop)
    → (push t result l).0.dirty ≡ (l.dirty && not (settled (guard result).1))
unfolding push write_status observe
push-dirty t result l = ground (
  arith,
  settle_push-dirty (guard result).1 (guard result).0 t.finished
      (record l { first_dirty = t.began }),
)

handle-dirty :
    (input : Input) (d d' : Daemon)
    → handle input d ≡ some d'
    → d'.loop.dirty ≡ (is_change input || d.loop.dirty && not (settles input))
unfolding handle mark_dirty
handle-dirty (stop now) d d' h = ground (
  arith,
  write_status-Keeps now
      (record d.loop { status = record d.loop.status { updated_at = now; pid = 0 } }),
)
handle-dirty watcher_closed d d' h = ground arith
handle-dirty (change now armed) d d' h =
    ground (arith, observe-Keeps "change" none (mark_dirty now d.loop))
handle-dirty (debounce_fired now t result) d d' h = ground (arith, push-dirty t result d.loop)
handle-dirty (pull_fired now t result) d d' h = ground (arith, pull-Keeps t result d.loop)
handle-dirty (approvals_fired now t result) d d' h = ground (arith, approvals-Keeps t result d.loop)
handle-dirty (heartbeat_fired now armed written) d d' h = ground (
  arith,
  write_status-Keeps written d.loop,
  observe-Keeps "heartbeat" none (write_status written d.loop),
)

-- A change is pending after a turn exactly when the turn took a change from the watcher, or it was
-- pending before and the turn did not run a push that succeeded or recorded a conflict.
pub step-dirty :
    (input : Input) (d d' : Daemon)
    → step input d ≡ some d'
    → d'.loop.dirty ≡ (is_change input || d.loop.dirty && not (settles input))
unfolding step
step-dirty input d d' h =
    ground (arith, handle-dirty input (idle d) d', observe-Keeps "idle" none d.loop)

-- A debounce turn with a pending change whose push fails for another reason than a conflict: the
-- change stays pending, one more failure is counted, the last success is kept in the status, and
-- the next attempt is due after the least delay if another process holds the lock, and otherwise
-- after the backoff for the failures so far, counted from when the next timer is armed.
pub on_debounce_failed :
    (t : Readings) (summary : String) (err : SyncError) (d : Daemon)
    → d.loop.dirty ≡ true
    → err.is_conflict ≡ false
    → let d' = on_debounce t (returned summary (some err)) d in
      let delay =
        if err.is_locked
        then d.loop.opts.backoff_min
        else backoff d.loop.opts (d.loop.push_fails + 1) in
      (d'.loop.dirty ≡ true)
      × (d'.loop.push_fails ≡ d.loop.push_fails + 1)
      × (d'.loop.status.push.last_ok ≡ d.loop.status.push.last_ok)
      × (d'.loop.status.push.error ≡ err.text)
      × (d'.loop.not_before ≡ t.finished + delay)
      × (d'.debounce_t ≡ retry_timer t.armed delay)
unfolding on_debounce push settle_push guard write_status observe
on_debounce_failed t summary err d p q = ground arith
