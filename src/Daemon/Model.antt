-- ===== src/Daemon/Model.antt =====
-- internal/daemon/loop.go and status.go: the data of the loop. An instant is a number of
-- nanoseconds, 0 for the zero time; a duration is a number of nanoseconds. What the loop hands to
-- its environment (status writes, notifications, observed events) is appended to `effects` in order;
-- log lines are left out.
use reinstate.Base.{ℕ, Bool, String, Option, List, [], ◌∷◌, ◌++◌}

abbrev pub Time : Type 0
Time = ℕ

-- What a `Syncer` or an `Account` reports: the text of the error and what `errors.Is` says of it.
pub record SyncError : Type 0 where
  pub text : String
  pub is_conflict : Bool
  pub is_locked : Bool

pub record Outcome : Type 0 where
  pub at : Time
  pub ok : Bool
  pub summary : String
  pub error : String
  pub conflict : Bool
  pub last_ok : Time

pub record PendingApproval : Type 0 where
  pub request_id : String
  pub device_id : String
  pub device_name : String
  pub platform : String
  pub expires_at : Time

pub record PendingRevocation : Type 0 where
  pub request_id : String
  pub device_id : String
  pub device_name : String
  pub platform : String
  pub requested_generation : ℕ
  pub requested_at : Time

pub record Device : Type 0 where
  pub id : String
  pub name : String
  pub platform : String
  pub this : Bool

pub record Status : Type 0 where
  pub version : ℕ
  pub pid : ℕ
  pub started_at : Time
  pub updated_at : Time
  pub watch : String
  pub roots : List String
  pub backend : String
  pub push : Outcome
  pub pull : Outcome
  pub pending : List PendingApproval
  pub pending_revocations : List PendingRevocation
  pub devices : List Device
  pub approvals_error : String
  pub approvals_at : Time

-- The interfaces `Account` and `Notifier` that may be nil are flags: what they answer is an
-- argument of the step that calls them; so is the channel `Events`. A negative duration is entered as 0, which `fill` treats
-- alike.
pub record Options : Type 0 where
  pub home : String
  pub has_syncer : Bool
  pub has_account : Bool
  pub has_notifier : Bool
  pub has_observer : Bool
  pub has_events : Bool
  pub debounce : ℕ
  pub max_debounce : ℕ
  pub pull_every : ℕ
  pub approvals_every : ℕ
  pub backoff_min : ℕ
  pub backoff_max : ℕ
  pub watch : String
  pub roots : List String
  pub backend : String

pub data Effect : Type 0 where
  wrote : Status → Effect
  notified : String → String → Effect
  observed : String → Option SyncError → Effect

pub record Loop : Type 0 where
  pub opts : Options
  pub status : Status
  pub dirty : Bool
  pub first_dirty : Time
  pub not_before : Time
  pub push_fails : ℕ
  pub pull_fails : ℕ
  pub seen : List String
  pub effects : List Effect

abbrev pub emit : Effect → Loop → Loop
emit e l = record l { effects = l.effects ++ (e ∷ []) }
