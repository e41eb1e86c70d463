-- ===== src/Daemon/Run.antt =====
-- internal/daemon/loop.go, `Run`: the event loop. A timer is the instant at which it fires, and
-- `none` is a nil timer, which never fires. One turn of the `select` is a `step` at the case that
-- it chose; it is none where that case was not ready.
mod Frame
pub mod Schedule
pub mod Reach
pub mod Pending
use reinstate.Base.{
  ℕ, ◌+◌, Bool, true, false, not, Option, none, some, [], ltb, leb, nat_eq, if◌then◌else◌,
}
use reinstate.Daemon.Model.{Time, Outcome, Status, Options, Loop}
use reinstate.Daemon.Settings.{fill, heartbeat_every}
use reinstate.Daemon.Actions.{
  Readings, CallResult, write_status, observe, mark_dirty, push_delay, push, pull,
}
use reinstate.Daemon.Approvals.{AccountResult, approvals}

pub record Daemon : Type 0 where
  pub loop : Loop
  pub debounce_t : Option Time
  pub pull_t : Option Time
  pub approvals_t : Option Time
  pub heartbeat_t : Option Time
  pub watching : Bool
  pub running : Bool

pub data Input : Type 0 where
  stop : Time → Input
  watcher_closed : Input
  -- when the change is handled, and when its timer is armed
  change : Time → Time → Input
  debounce_fired : Time → Readings → CallResult → Input
  pull_fired : Time → Readings → CallResult → Input
  approvals_fired : Time → Readings → AccountResult → Input
  -- when the timer fires, when the next is armed, and when the status is written
  heartbeat_fired : Time → Time → Time → Input

abbrev pub due : Option Time → Time → Bool
due none now = false
due (some deadline) now = leb deadline now

-- `if retry := l.push(ctx); retry > 0 { debounceT = NewTimer(retry) }`
abbrev retry_timer : Time → ℕ → Option Time
retry_timer armed retry = if ltb 0 retry then some (armed + retry) else none

pub on_change : Time → Time → Daemon → Daemon
on_change now armed d =
    let l = mark_dirty now d.loop in
    record d { loop = observe "change" none l; debounce_t = some (armed + push_delay now l) }

pub on_debounce : Readings → CallResult → Daemon → Daemon
on_debounce t result d =
    if not d.loop.dirty
    then record d { debounce_t = none }
    else let (l, retry) = push t result d.loop in
      record d { loop = l; debounce_t = retry_timer t.armed retry }

pub on_pull : Readings → CallResult → Daemon → Daemon
on_pull t result d =
    let (l, next) = pull t result d.loop in record d { loop = l; pull_t = some next }

pub on_approvals : Readings → AccountResult → Daemon → Daemon
on_approvals t result d =
    let (l, next) = approvals t result d.loop in record d { loop = l; approvals_t = next }

pub on_heartbeat : Time → Time → Daemon → Daemon
on_heartbeat armed written d = record d {
  loop = observe "heartbeat" none (write_status written d.loop);
  heartbeat_t = some (armed + heartbeat_every);
}

-- The final status carries no process id.
pub on_stop : Time → Daemon → Daemon
on_stop now d =
    let l = d.loop in
    record d {
      loop = write_status now (record l { status = record l.status { updated_at = now; pid = 0 } });
      running = false;
    }

unfoldable pub handle : Input → Daemon → Option Daemon
unfolding on_change on_debounce on_pull on_approvals on_heartbeat on_stop
handle (stop now) d = some (on_stop now d)
handle watcher_closed d = if d.watching then some (record d { watching = false }) else none
handle (change now armed) d = if d.watching then some (on_change now armed d) else none
handle (debounce_fired now t result) d =
    if due d.debounce_t now then some (on_debounce t result d) else none
handle (pull_fired now t result) d = if due d.pull_t now then some (on_pull t result d) else none
handle (approvals_fired now t result) d =
    if due d.approvals_t now then some (on_approvals t result d) else none
handle (heartbeat_fired now armed written) d =
    if due d.heartbeat_t now then some (on_heartbeat armed written d) else none

abbrev pub idle : Daemon → Daemon
idle d = record d { loop = observe "idle" none d.loop }

-- Each turn first observes that the loop is idle.
unfoldable pub step : Input → Daemon → Option Daemon
step input d = if d.running then handle input (idle d) else none

-- What the environment answers while the daemon starts.
pub record Boot : Type 0 where
  pub pid : ℕ
  pub now : Time
  pub written : Time
  pub pull_at : Readings
  pub pulled : CallResult
  pub approvals_at : Readings
  pub approved : AccountResult
  pub debounce_armed : Time
  pub heartbeat_armed : Time

abbrev no_outcome : Outcome
no_outcome = record { at = 0; ok = false; summary = ""; error = ""; conflict = false; last_ok = 0 }

abbrev status_version : ℕ
status_version = 2

abbrev new_status : Options → ℕ → Time → Status
new_status o pid now = record {
  version = status_version;
  pid = pid;
  started_at = now;
  updated_at = now;
  watch = o.watch;
  roots = o.roots;
  backend = o.backend;
  push = no_outcome;
  pull = no_outcome;
  pending = [];
  pending_revocations = [];
  devices = [];
  approvals_error = "";
  approvals_at = 0;
}

abbrev pub new_loop : Options → ℕ → Time → Loop
new_loop o pid now = record {
  opts = o;
  status = new_status o pid now;
  dirty = false;
  first_dirty = 0;
  not_before = 0;
  push_fails = 0;
  pull_fails = 0;
  seen = [];
  effects = [];
}

-- The part of `Run` above its loop; none is the error of a missing syncer.
unfoldable pub start : Options → Boot → Option Daemon
start given b =
    let o = fill given in
    if not o.has_syncer
    then none
    else let l0 = observe "start" none (write_status b.written (new_loop o b.pid b.now)) in
      let (l1, pull_t) = pull b.pull_at b.pulled l0 in
      let (l2, approvals_t) = approvals b.approvals_at b.approved l1 in
      some (record {
        loop = mark_dirty b.now l2;
        debounce_t = some (b.debounce_armed + o.debounce);
        pull_t = some pull_t;
        approvals_t = approvals_t;
        heartbeat_t = some (b.heartbeat_armed + heartbeat_every);
        watching = o.has_events;
        running = true;
      })
