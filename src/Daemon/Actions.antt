-- ===== src/Daemon/Actions.antt =====
-- internal/daemon/loop.go: the push and the pull of the loop, with the status that they record.
-- The clock is read several times in a handler: a `Readings` holds what it says each time.
use Prim.Native.String.{◌++◌ as ◌<>◌}
use reinstate.Base.{
  ℕ, ◌+◌, ◌-◌, true, false, not, String, Option, none, some, ltb, leb, ◌==◌, string_eq,
  if◌then◌else◌,
}
use reinstate.Daemon.Model.{Time, SyncError, wrote, observed, Loop, emit}
use reinstate.Daemon.Backoff.{backoff}

-- `began` when the handler starts, `finished` when the call returns, `written` when the status is
-- written, `armed` when the next timer is made.
pub record Readings : Type 0 where
  pub began : Time
  pub finished : Time
  pub written : Time
  pub armed : Time

-- How a call of a `Syncer` ends; a panic carries the text of `recovered: %v`.
pub data CallResult : Type 0 where
  returned : String → Option SyncError → CallResult
  panicked : String → CallResult

-- `(*loop).guard`: a panic becomes an error, with the named result `summary` still empty.
unfoldable pub guard : CallResult → String × Option SyncError
guard (returned summary err) = (summary, err)
guard (panicked what) =
    ("", some (record { text = "recovered: " <> what; is_conflict = false; is_locked = false }))

unfoldable pub write_status : Time → Loop → Loop
write_status now l =
    let l' = record l { status = record l.status { updated_at = now } } in
    if l'.opts.home == "" then l' else emit (wrote l'.status) l'

unfoldable pub observe : String → Option SyncError → Loop → Loop
observe kind err l = if l.opts.has_observer then emit (observed kind err) l else l

unfoldable pub mark_dirty : Time → Loop → Loop
mark_dirty now l = record l {
  first_dirty = if not l.dirty then now else l.first_dirty;
  dirty = true;
}

-- `now.Sub(t) >= d` is `t + d ≤ now`, and `t.Sub(now) > d` is `now + d < t`.
unfoldable pub push_delay : Time → Loop → ℕ
push_delay now l =
    let delay = if leb (l.first_dirty + l.opts.max_debounce) now then 0 else l.opts.debounce in
    if ltb (now + delay) l.not_before then l.not_before - now else delay

-- What the push records, by the error that it met; with the delay before a retry, 0 for none.
unfoldable pub settle_push : Option SyncError → String → Time → Loop → Loop × ℕ
settle_push none summary now l = (
  record l {
    dirty = false;
    push_fails = 0;
    not_before = 0;
    status = record l.status {
      push = record {
        at = now;
        ok = true;
        summary = summary;
        error = "";
        conflict = false;
        last_ok = now;
      };
    };
  },
  0,
)
settle_push (some err) summary now l =
    if err.is_conflict
    then (
      record l {
        dirty = false;
        push_fails = 0;
        not_before = 0;
        status = record l.status {
          push = record {
            at = now;
            ok = false;
            summary = summary;
            error = err.text;
            conflict = true;
            last_ok = l.status.push.last_ok;
          };
        };
      },
      0,
    )
    else let fails = l.push_fails + 1 in
      let delay = if err.is_locked then l.opts.backoff_min else backoff l.opts fails in
      (
        record l {
          push_fails = fails;
          not_before = now + delay;
          status = record l.status {
            push = record {
              at = now;
              ok = false;
              summary = "";
              error = err.text;
              conflict = false;
              last_ok = l.status.push.last_ok;
            };
          };
        },
        delay,
      )

unfoldable pub push : Readings → CallResult → Loop → Loop × ℕ
push t result l =
    let (summary, err) = guard result in
    let (l', retry) = settle_push err summary t.finished (record l { first_dirty = t.began }) in
    (observe "push" err (write_status t.written l'), retry)

-- What the pull records, with the delay before the next one.
unfoldable pub settle_pull : Option SyncError → String → Time → Loop → Loop × ℕ
settle_pull none summary now l = (
  record l {
    pull_fails = 0;
    status = record l.status {
      pull = record {
        at = now;
        ok = true;
        summary = summary;
        error = "";
        conflict = false;
        last_ok = now;
      };
    };
  },
  l.opts.pull_every,
)
settle_pull (some err) summary now l =
    if err.is_conflict
    then (
      record l {
        pull_fails = 0;
        status = record l.status {
          pull = record {
            at = now;
            ok = false;
            summary = summary;
            error = err.text;
            conflict = true;
            last_ok = l.status.pull.last_ok;
          };
        };
      },
      l.opts.pull_every,
    )
    else let fails = l.pull_fails + 1 in
      let delay = if err.is_locked then l.opts.backoff_min else backoff l.opts fails in
      (
        record l {
          pull_fails = fails;
          status = record l.status {
            pull = record {
              at = now;
              ok = false;
              summary = "";
              error = err.text;
              conflict = false;
              last_ok = l.status.pull.last_ok;
            };
          };
        },
        delay,
      )

-- Returns the deadline of the next pull's timer.
unfoldable pub pull : Readings → CallResult → Loop → Loop × Time
pull t result l =
    let (summary, err) = guard result in
    let (l', next) = settle_pull err summary t.finished l in
    (observe "pull" err (write_status t.written l'), t.armed + next)
