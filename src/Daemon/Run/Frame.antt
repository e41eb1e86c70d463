-- ===== src/Daemon/Run/Frame.antt =====
-- What each handler of the loop leaves alone, and what a push does to the backoff
-- (internal/daemon/loop.go).
use reinstate.Base.{
  ℕ, ◌+◌, ◌^◌, ◌≤◌, ◌<◌, ◌≡◌, ◌∙◌, ◌⊎◌, String, Bool, true, false, Option, none, some, List, [],
  ◌∷◌, arith,
}
use reinstate.Daemon.Model.{Time, SyncError, Options, Loop}
use reinstate.Daemon.Backoff.Bounds.{backoff_bounds}
use reinstate.Daemon.Actions.{
  Readings, CallResult, guard, write_status, observe, settle_push, push, settle_pull, pull,
}
use reinstate.Daemon.Approvals.{
  Request, AccountResult, listed, failed, notify, announce, settle_approvals, approvals, requests,
}

abbrev pub armed : Option Time → Bool
armed none = false
armed (some t) = true

-- Options whose retry delays do not overflow and are not zero.
pub record IsSound (o : Options) : Type 0 where
  pub min_pos : 0 < o.backoff_min
  pub max_pos : 0 < o.backoff_max
  pub min_small : o.backoff_min ≤ 2 ^ 62
  pub max_small : o.backoff_max ≤ 2 ^ 62

-- The options, the flag and the backoff are kept.
pub record Keeps (l l' : Loop) : Type 0 where
  pub opts : l'.opts ≡ l.opts
  pub dirty : l'.dirty ≡ l.dirty
  pub not_before : l'.not_before ≡ l.not_before

Keeps-trans : (l l' l'' : Loop) → Keeps l l' → Keeps l' l'' → Keeps l l''
Keeps-trans l l' l'' k k' = record {
  opts = k'.opts ∙ k.opts;
  dirty = k'.dirty ∙ k.dirty;
  not_before = k'.not_before ∙ k.not_before;
}

pub write_status-Keeps : (now : Time) (l : Loop) → Keeps l (write_status now l)
unfolding write_status
write_status-Keeps now l = ground arith

pub observe-Keeps :
    (kind : String) (err : Option SyncError) (l : Loop) → Keeps l (observe kind err l)
unfolding observe
observe-Keeps kind err l = ground arith

notify-Keeps : (r : Request) (l : Loop) → Keeps l (notify r l)
unfolding notify observe
notify-Keeps r l = ground arith

announce-Keeps : (rs : List Request) (l : Loop) → Keeps l (announce rs l)
unfolding announce
announce-Keeps [] l = ground arith
announce-Keeps (r ∷ rs) l =
    let l' = record l { seen = r.key ∷ l.seen } in
    ground (arith, announce-Keeps rs l, announce-Keeps rs (notify r l'), notify-Keeps r l')

settle_approvals-Keeps :
    (t : Readings) (result : AccountResult) (l : Loop) → Keeps l (settle_approvals t result l)
unfolding settle_approvals write_status observe
settle_approvals-Keeps t (failed err) l = ground arith
settle_approvals-Keeps t (listed pending revocations devices) l = ground (
  arith,
  announce-Keeps (requests pending revocations) (record l {
    status = record l.status {
      approvals_at = t.finished;
      approvals_error = "";
      pending = pending;
      pending_revocations = revocations;
      devices = devices;
    };
  }),
)

pub approvals-Keeps :
    (t : Readings) (result : AccountResult) (l : Loop) → Keeps l (approvals t result l).0
unfolding approvals
approvals-Keeps t result l = ground (arith, settle_approvals-Keeps t result l)

pub approvals-armed :
    (t : Readings) (result : AccountResult) (l : Loop)
    → armed (approvals t result l).1 ≡ l.opts.has_account
unfolding approvals
approvals-armed t result l = ground arith

settle_pull-Keeps :
    (err : Option SyncError) (summary : String) (now : Time) (l : Loop)
    → Keeps l (settle_pull err summary now l).0
unfolding settle_pull
settle_pull-Keeps none summary now l = ground arith
settle_pull-Keeps (some err) summary now l = ground arith

pub pull-Keeps : (t : Readings) (result : CallResult) (l : Loop) → Keeps l (pull t result l).0
unfolding pull write_status observe
pull-Keeps t result l =
    ground (arith, settle_pull-Keeps (guard result).1 (guard result).0 t.finished l)

-- A push ends clean with no retry, or keeps the change with a retry at the end of its backoff.
pub record BacksOff (finished : Time) (l l' : Loop) (retry : ℕ) : Type 0 where
  pub opts : l'.opts ≡ l.opts
  pub outcome :
      ((l'.dirty ≡ false) × (l'.not_before ≡ 0) × (retry ≡ 0))
      ⊎ ((l'.dirty ≡ l.dirty) × (l'.not_before ≡ finished + retry) × (0 < retry))

settle_push-BacksOff :
    (err : Option SyncError) (summary : String) (now : Time) (l : Loop)
    → IsSound l.opts
    → BacksOff now l (settle_push err summary now l).0 (settle_push err summary now l).1
unfolding settle_push
settle_push-BacksOff none summary now l s = ground arith
settle_push-BacksOff (some err) summary now l s =
    ground (arith, backoff_bounds l.opts (l.push_fails + 1) s.min_small s.max_small)

pub push-BacksOff :
    (t : Readings) (result : CallResult) (l : Loop)
    → IsSound l.opts
    → BacksOff t.finished l (push t result l).0 (push t result l).1
unfolding push write_status observe
push-BacksOff t result l s = ground (
  arith,
  settle_push-BacksOff (guard result).1 (guard result).0 t.finished
      (record l { first_dirty = t.began }) s,
)
