-- ===== src/Preflight/Checks.antt =====
-- The checks that `Verify` derives from its observations (internal/preflight/verify.go), but for those of
-- the capabilities.
pub mod Ids
pub mod Agent
pub mod Runtimes
pub mod Capabilities
pub mod Gather
use reinstate.Base.{
  ℕ, Bool, true, false, not, ◌&&◌, ◌||◌, Option, none, some, List, [], ◌∷◌, ◌++◌, map,
  if◌then◌else◌, leb, ◌==◌, nat_eq, bytes_eq, codes, contains,
}
use reinstate.SafeText.{Runes, Unicode, trim_space}
use reinstate.Workspace.Model as Workspace
use reinstate.Workspace.Model.{Provenance, Status, Severity}
use reinstate.Preflight.Model.{Value, nil, bool, text, state, texts, Check, zero_check}
use reinstate.Preflight.Normalize.{is_block, is_warning, is_error}
use reinstate.Preflight.Observed.{
  Library, AgentStatus, AgentResult, RuntimeStatus, RuntimeResult, Runtime, Baseline, Input,
}
use reinstate.Preflight.ExitCode

unfoldable pub source_freshness_check : Bool → Check
source_freshness_check true = record zero_check {
  id = codes "source.fresh";
  status = Status.match;
  severity = Severity.info;
  actual = bool true;
  provenance = Provenance.current_observation;
  message = codes "the selected vendor source was refreshed successfully";
}
source_freshness_check false = record zero_check {
  id = codes "source.fresh";
  status = Status.changed;
  severity = Severity.block;
  actual = bool false;
  provenance = Provenance.unavailable;
  message = codes "the selected vendor source could not be refreshed safely";
  repair = codes "resolve the source scan failure and retry before launching";
  exit_code = ExitCode.safety;
}

-- The check on the baseline, in `Verify`.
unfoldable pub baseline_check : Option Baseline → Check
baseline_check none = record zero_check {
  id = codes "baseline.unavailable";
  status = Status.unknown;
  severity = Severity.warning;
  provenance = Provenance.unavailable;
  message = codes "no previous Reinstate prelaunch baseline exists for this session";
  repair = codes "review the current environment before authorizing this first verified launch";
  exit_code = ExitCode.safety;
}
baseline_check (some baseline) = record zero_check {
  id = codes "baseline.available";
  status = Status.present;
  severity = Severity.info;
  provenance = Provenance.reinstate_prelaunch_observed;
  message = codes "a previous successful prelaunch observation is available";
}

unfoldable pub workspace_exit_code : Check → ℕ
workspace_exit_code check =
    if is_warning check.severity
    then ExitCode.safety
    else if not (is_block check.severity)
    then 0
    else if is_error check.status
        || contains (codes "git.probe" ∷ codes "git.status" ∷ codes "git.shallow" ∷ []) check.id
    then ExitCode.runtime
    else if contains (codes "workspace.available" ∷ codes "git.available" ∷ []) check.id
    then ExitCode.compatibility
    else ExitCode.safety

-- An `any` field keeps its dynamic type.
unfoldable pub translate_value : Workspace.Value → Value
translate_value Workspace.Value.nil = Value.nil
translate_value (Workspace.Value.bool b) = bool b
translate_value (Workspace.Value.text s) = text (codes s)
translate_value (Workspace.Value.state s) = state s
translate_value (Workspace.Value.texts ss) = texts (map codes ss)

abbrev with_workspace_exit : Check → Check
with_workspace_exit check = record check { exit_code = workspace_exit_code check }

-- A check of the workspace, and a diagnostic, without an exit code.
abbrev pub untagged : Workspace.Check → Check
untagged current = record {
  id = codes current.id;
  status = current.status;
  severity = current.severity;
  expected = translate_value current.expected;
  actual = translate_value current.actual;
  provenance = current.provenance;
  message = codes current.message;
  repair = codes current.repair;
  exit_code = 0;
}

abbrev pub untagged_diagnostic : Workspace.Diagnostic → Check
untagged_diagnostic diagnostic = record zero_check {
  id = codes diagnostic.id;
  status = diagnostic.status;
  severity = diagnostic.severity;
  provenance = Provenance.current_observation;
  message = codes diagnostic.message;
}

-- The bodies of the two loops of `translateWorkspaceChecks`.
unfoldable pub translate_check : Workspace.Check → Check
translate_check current = with_workspace_exit (untagged current)

unfoldable pub translate_diagnostic : Workspace.Diagnostic → Check
translate_diagnostic diagnostic = with_workspace_exit (untagged_diagnostic diagnostic)

unfoldable pub translate_workspace_checks :
    Workspace.Comparison → List Workspace.Diagnostic → List Check
translate_workspace_checks comparison diagnostics =
    map translate_check comparison.checks ++ map translate_diagnostic diagnostics
