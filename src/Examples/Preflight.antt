-- ===== src/Examples/Preflight.antt =====
-- The first verified launch of a session (internal/preflight).
use reinstate.Base.{
  ◌≡◌, refl, ◌↔◌, ◌≤◌, ◌&&◌, true, false, none, List, [], ◌∷◌, length, all, arith, ok, ◌==◌,
  bytes_eq, codes, contains,
}
use reinstate.SafeText.{
  Runes, clean_text, keep_left, next_state, strip_from, strip_terminal_sequences, trim_left,
  trim_right, trim_space, turn, write_from, writes_rune,
}
use reinstate.Workspace.Model as Workspace
use reinstate.Preflight.Model.{Check, Report}
use reinstate.Preflight.Normalize.{normalize_checks}
use reinstate.Preflight.Normalize.Trust.{find_check}
use reinstate.Preflight.Observed.{Library, AgentStatus, AgentResult, Input}
use reinstate.Preflight.Aggregate.Worst.{worst_decision, worst_exit}
use reinstate.Preflight.Report.{
  validate_report, misplaced_dot_after, valid_check_id, valid_report_text, valid_report_value,
}
use reinstate.Preflight.Report.Canonical.{is_plain, IsCanonical, validate_report-ok_iff}
use reinstate.Preflight.Authorize.{authorize, is_blocked, current_warnings, sort_texts}
use reinstate.Preflight.Authorize.Exact.{are_distinct, trimmed}
use reinstate.Preflight.Authorize.Policy.{authorize-allowed_iff}
use reinstate.Preflight.Authorize.Verdict.{IsVerdict, authorize-IsVerdict}
use reinstate.Preflight.Normalize.Kept.{IsKept, normalize_checks-IsKept}
use reinstate.Preflight.Checks.{source_freshness_check, baseline_check, translate_workspace_checks}
use reinstate.Preflight.Checks.Gather.{Observations, gathered, assemble, active_checks}
use reinstate.Preflight.Checks.Gather.Verified.{assemble-eq-worst, validate_report-assemble}
use reinstate.Examples.Text.{latin1, latin1-IsStandard}
use reinstate.SafeText.Clean.{is_clean, is_clean_after}
use reinstate.Preflight.Checks.Agent.{
  agent_checks, executable_check, layout_check, version_check, version_finding,
}
use reinstate.Preflight.Checks.Capabilities.{
  all_keys, capability_checks, current_items, expected_capabilities, filter_capabilities,
  keep_diagnostics, keep_items, key_checks, new_keys,
}
use reinstate.Preflight.Checks.Runtimes.{
  baseline_runtimes, missing_runtimes, observed_runtimes, runtime_checks,
}

abbrev library : Library
library = record {
  to_lower = λ t. t;
  equal_fold = λ a b. a == b;
  quoted = λ t. t;
  short_digest = λ t. codes "00";
}

abbrev claude : AgentResult
claude = record {
  executable_present = true;
  layout = codes "projects";
  layout_recognized = true;
  version = codes "2.0";
  status = AgentStatus.supported;
  message = [];
  timed_out = false;
}

abbrev input : Input
input = record {
  session_ref = codes "claude:1";
  agent = codes "claude";
  workspace = codes "/w";
  recorded = record { repository_id = []; branch = []; git_head = []; requirements = [] };
  baseline = none;
  source_fresh = true;
  read_only = false;
}

abbrev seen : Observations
seen = record {
  comparison = record { decision = Workspace.ready; checks = [] };
  diagnostics = [];
  agent = claude;
  active = none;
  inventory = record { items = []; diagnostics = [] };
  runtimes = [];
}

abbrev first_launch : Report
first_launch = assemble latin1 library input seen

normalize_checks-IsKept_example :
    IsKept
      (codes "source.fresh")
      (source_freshness_check false ∷ source_freshness_check true ∷ [])
      (find_check
        (codes "source.fresh")
        (normalize_checks (source_freshness_check false ∷ source_freshness_check true ∷ [])))
normalize_checks-IsKept_example =
    normalize_checks-IsKept (codes "source.fresh")
      (source_freshness_check false ∷ source_freshness_check true ∷ [])

validate_report-ok_iff_example :
    (validate_report latin1 first_launch ≡ ok tt) ↔ IsCanonical latin1 first_launch
validate_report-ok_iff_example = validate_report-ok_iff latin1 latin1-IsStandard first_launch

abbrev acknowledged : List Runes
acknowledged = codes " baseline.unavailable" ∷ []

authorize-allowed_iff_example : ((authorize latin1 first_launch acknowledged).0.allowed ≡ true) ↔ (
    (validate_report latin1 first_launch ≡ ok tt)
    × (is_blocked first_launch.decision ≡ false)
    × (are_distinct [] (trimmed latin1 acknowledged) ≡ true)
    × ((i : Runes)
        → contains (trimmed latin1 acknowledged) i
          ≡ contains (current_warnings first_launch.checks) i))
authorize-allowed_iff_example =
    authorize-allowed_iff latin1 latin1-IsStandard first_launch acknowledged

authorize-IsVerdict_example : IsVerdict latin1 first_launch [] (authorize latin1 first_launch []).0
authorize-IsVerdict_example = authorize-IsVerdict latin1 first_launch [] latin1-IsStandard

assemble-eq-worst_example :
    (first_launch.decision ≡ worst_decision (gathered latin1 library input seen))
    × (first_launch.block_exit_code ≡ worst_exit (gathered latin1 library input seen))
assemble-eq-worst_example = assemble-eq-worst latin1 library input seen refl refl

ids_valid : all (λ (c : Check). valid_check_id c.id) (gathered latin1 library input seen) ≡ true
unfolding gathered source_freshness_check baseline_check translate_workspace_checks agent_checks
    executable_check layout_check version_check version_finding active_checks capability_checks
    filter_capabilities keep_items keep_diagnostics current_items expected_capabilities all_keys
    new_keys key_checks sort_texts runtime_checks baseline_runtimes observed_runtimes
    missing_runtimes trim_space trim_left trim_right keep_left valid_check_id misplaced_dot_after
ids_valid = refl

few : length (gathered latin1 library input seen) ≤ 2048
unfolding gathered source_freshness_check baseline_check translate_workspace_checks agent_checks
    executable_check layout_check version_check version_finding active_checks capability_checks
    filter_capabilities keep_items keep_diagnostics current_items expected_capabilities all_keys
    new_keys key_checks sort_texts runtime_checks baseline_runtimes observed_runtimes
    missing_runtimes trim_space trim_left trim_right keep_left
few = omega arith

shown :
    all
      (λ (c : Check).
        is_plain latin1 c.message 1024
        && is_plain latin1 c.repair 1024
        && valid_report_value latin1 c.expected
        && valid_report_value latin1 c.actual)
      (gathered latin1 library input seen)
    ≡ true
unfolding gathered source_freshness_check baseline_check translate_workspace_checks agent_checks
    executable_check layout_check version_check version_finding active_checks capability_checks
    filter_capabilities keep_items keep_diagnostics current_items expected_capabilities all_keys
    new_keys key_checks sort_texts runtime_checks baseline_runtimes observed_runtimes
    missing_runtimes trim_space trim_left trim_right keep_left clean_text write_from turn
    strip_terminal_sequences strip_from next_state writes_rune is_clean is_clean_after
    valid_report_value valid_report_text
shown = refl

plain_name : is_plain latin1 (codes "claude:1") 4160 ≡ true
unfolding is_clean is_clean_after
plain_name = refl

validate_report-assemble_example : validate_report latin1 first_launch ≡ ok tt
validate_report-assemble_example =
    validate_report-assemble latin1 latin1-IsStandard library input seen (λ h. ground arith)
      plain_name refl refl few ids_valid shown
