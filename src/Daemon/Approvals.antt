-- ===== src/Daemon/Approvals.antt =====
-- internal/daemon/loop.go, `(*loop).approvals`: the poll of the control plane, which notifies once
-- for each new request.
pub mod Notices
use Prim.Native.String.{◌++◌ as ◌<>◌}
use reinstate.Base.{
  ◌+◌, not, String, Option, none, some, List, [], ◌∷◌, ◌++◌, map, ◌==◌, string_eq, contains,
  if◌then◌else◌,
}
use reinstate.Daemon.Model.{
  Time, PendingApproval, PendingRevocation, Device, SyncError, notified, Loop, emit,
}
use reinstate.Daemon.Actions.{Readings, write_status, observe}

-- What the two loops of `approvals` read of a request: its key in `seen`, and the notification.
pub record Request : Type 0 where
  pub key : String
  pub title : String
  pub body : String

abbrev name_or_id : String → String → String
name_or_id name id = if name == "" then id else name

unfoldable pub approval_request : PendingApproval → Request
approval_request p = record {
  key = "pair:" <> p.request_id;
  title = "Reinstate: device wants to join";
  body =
      name_or_id p.device_name p.device_id
      <> " wants to join your account. Run: rein devices approve";
}

unfoldable pub revocation_request : PendingRevocation → Request
revocation_request r = record {
  key = "revoke:" <> r.request_id;
  title = "Reinstate: device revocation requested";
  body =
      "Revoke "
      <> (name_or_id r.device_name r.device_id
          <> (" safely by running: rein devices revoke " <> r.device_id));
}

-- A failure of the notifier is only logged, so its answer is not read.
unfoldable pub notify : Request → Loop → Loop
notify r l =
    if l.opts.has_notifier then observe "notify" none (emit (notified r.title r.body) l) else l

-- The body of both loops: `seen` gains the key, and a key that it held is passed over.
unfoldable pub announce : List Request → Loop → Loop
announce [] l = l
announce (r ∷ rs) l =
    announce rs (if contains l.seen r.key then l else notify r (record l { seen = r.key ∷ l.seen }))

-- `for id := range l.seen { if !current[id] { delete(l.seen, id) } }`
unfoldable pub retain : List String → List String → List String
retain current [] = []
retain current (id ∷ ids) =
    let rest = retain current ids in if contains current id then id ∷ rest else rest

-- How the guarded call of the control plane ends; a panic is a failure.
pub data AccountResult : Type 0 where
  listed : List PendingApproval → List PendingRevocation → List Device → AccountResult
  failed : SyncError → AccountResult

abbrev pub requests : List PendingApproval → List PendingRevocation → List Request
requests pending revocations = map approval_request pending ++ map revocation_request revocations

abbrev pub keys : List Request → List String
keys = map (λ r. r.key)

unfoldable pub settle_approvals : Readings → AccountResult → Loop → Loop
settle_approvals t (failed err) l = observe "approvals" (some err) (
    write_status t.written (record l {
      status = record l.status { approvals_at = t.finished; approvals_error = err.text };
    }))
settle_approvals t (listed pending revocations devices) l =
    let l' = record l {
      status = record l.status {
        approvals_at = t.finished;
        approvals_error = "";
        pending = pending;
        pending_revocations = revocations;
        devices = devices;
      };
    } in
    let l'' = announce (requests pending revocations) l' in
    observe "approvals" none (
      write_status t.written
        (record l'' { seen = retain (keys (requests pending revocations)) l''.seen }))

-- Returns the deadline of the next poll's timer, none without an account.
unfoldable pub approvals : Readings → AccountResult → Loop → Loop × Option Time
approvals t result l =
    if not l.opts.has_account
    then (l, none)
    else (settle_approvals t result l, some (t.armed + l.opts.approvals_every))
