-- ===== src/Workspace/NewCheck.antt =====
-- internal/workspace/compare.go: how a comparison fills in a `Check`.
use reinstate.Base.{String}
use reinstate.Workspace.Model.{Provenance, Status, Severity, Value, nil, Check}

-- A check with the fields that `Check{…}` leaves at their zero value.
abbrev pub new_check : String → Provenance → Value → Check
new_check id provenance actual = record {
  id = id;
  status = Status.other "";
  severity = Severity.other "";
  expected = nil;
  actual = actual;
  provenance = provenance;
  message = "";
  repair = "";
}

-- `check.Status, check.Severity, check.Message, check.Repair = …; return check`.
abbrev pub conclude : Check → Status → Severity → String → String → Check
conclude check status severity message repair = record check {
  status = status;
  severity = severity;
  message = message;
  repair = repair;
}
