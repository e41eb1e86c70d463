-- ===== src/Preflight/Report.antt =====
-- The checks of a report (internal/preflight/policy.go): `validateReport` and what it calls.
pub mod Canonical
use reinstate.Base.{
  ℕ, Bool, true, false, not, ◌&&◌, ◌||◌, List, [], ◌∷◌, length, all, leb, ltb, if◌then◌else◌, ◌==◌,
  nat_eq, bytes_eq, codes, contains, Result, ok, err, ◌>>◌,
}
use reinstate.SafeText.{Runes, Unicode, clean_text, trim_space}
use reinstate.Workspace.Model.{
  Provenance, Status, Severity, WorkingTreeState, clean, modified, unavailable,
}
use reinstate.Preflight.Model.{
  Decision, Value, nil, bool, text, state, texts, foreign, Check, Report, schema_version,
  same_checks, same_decision,
}
use reinstate.Preflight.Normalize.{is_block, is_error, normalize_checks}
use reinstate.Preflight.Aggregate.{aggregate}
use reinstate.Preflight.ExitCode

pub data ReportError : Type 0 where
  contract invalid_id duplicate_id invalid_check inconsistent_exit unsafe_data : ReportError
  wrong_order inconsistent_decision : ReportError

-- internal/environment/model.go
abbrev pub max_session_reference_runes : ℕ
max_session_reference_runes = 4160

-- The text that a state is.
unfoldable pub state_text : WorkingTreeState → Runes
state_text clean = codes "clean"
state_text modified = codes "modified"
state_text unavailable = codes "unavailable"
state_text (WorkingTreeState.other s) = codes s

unfoldable pub valid_status : Status → Bool
valid_status (Status.other s) = false
valid_status _ = true

unfoldable pub valid_severity : Severity → Bool
valid_severity (Severity.other s) = false
valid_severity _ = true

unfoldable pub valid_provenance : Provenance → Bool
valid_provenance (Provenance.other s) = false
valid_provenance _ = true

-- The cases of the switch.
unfoldable pub allows_exit : Severity → Status → ℕ → Bool
allows_exit Severity.info status code = code == ExitCode.ok
allows_exit Severity.warning status code = code == ExitCode.safety
allows_exit Severity.block status code =
    (code == ExitCode.runtime || code == ExitCode.compatibility || code == ExitCode.safety)
    && (not (is_error status) || code == ExitCode.runtime)
allows_exit (Severity.other s) status code = false

unfoldable pub valid_check_exit : Check → Bool
valid_check_exit check = allows_exit check.severity check.status check.exit_code

-- `.` at the start, at the end, or twice in a row.
abbrev pub dot : ℕ
dot = 0x2e

unfoldable pub misplaced_dot_after : Bool → Runes → Bool
misplaced_dot_after after_dot [] = after_dot
misplaced_dot_after after_dot (c ∷ cs) = c == dot && after_dot || misplaced_dot_after (c == dot) cs

abbrev pub is_id_rune : ℕ → Bool
is_id_rune c =
    leb 0x61 c && leb c 0x7a || leb 0x30 c && leb c 0x39 || c == dot || c == 0x5f || c == 0x2d

-- The length is in bytes, which are as many as the runes where every rune is one of these.
unfoldable pub valid_check_id : Runes → Bool
valid_check_id [] = false
valid_check_id (c ∷ cs) =
    leb (length (c ∷ cs)) 256 && not (misplaced_dot_after true (c ∷ cs)) && all is_id_rune (c ∷ cs)

unfoldable pub require : Bool → ReportError → Result ReportError (Unit {0})
require true problem = ok tt
require false problem = err problem

module _ (U : Unicode) where
  unfoldable pub valid_report_text : Runes → ℕ → Bool
  valid_report_text value maximum = leb (length value) maximum && clean_text U value 0 == value

  unfoldable pub valid_report_value : Value → Bool
  valid_report_value nil = true
  valid_report_value (bool b) = true
  valid_report_value (text value) = valid_report_text value 4096
  valid_report_value (state s) = valid_report_text (state_text s) 64
  valid_report_value (texts values) =
      leb (length values) 512 && all (λ value. valid_report_text value 4096) values
  valid_report_value (foreign type) = false

  -- The body of the loop behind the test for a duplicate.
  unfoldable pub check_valid : Check → Result ReportError (Unit {0})
  check_valid check =
      require
        (valid_status check.status
          && valid_severity check.severity
          && valid_provenance check.provenance)
        ReportError.invalid_check
      >> require (valid_check_exit check) ReportError.inconsistent_exit
      >> require
          (valid_report_text check.message 1024
            && valid_report_text check.repair 1024
            && valid_report_value check.expected
            && valid_report_value check.actual)
          ReportError.unsafe_data

  unfoldable pub checks_valid : List Runes → List Check → Result ReportError (Unit {0})
  checks_valid seen [] = ok tt
  checks_valid seen (check ∷ checks) =
      require (valid_check_id check.id) ReportError.invalid_id
      >> require (not (contains seen check.id)) ReportError.duplicate_id
      >> check_valid check
      >> checks_valid (check.id ∷ seen) checks

  unfoldable pub validate_report : Report → Result ReportError (Unit {0})
  validate_report report =
      require
        (report.schema_version == schema_version
          && trim_space U report.session_ref == report.session_ref
          && valid_report_text report.session_ref max_session_reference_runes
          && not (report.session_ref == [])
          && not (length report.checks == 0)
          && leb (length report.checks) 2048)
        ReportError.contract
      >> checks_valid [] report.checks
      >> require (same_checks (normalize_checks report.checks) report.checks)
          ReportError.wrong_order
      >> require
          (same_decision (aggregate report.checks).0 report.decision
            && (aggregate report.checks).1 == report.block_exit_code)
          ReportError.inconsistent_decision
