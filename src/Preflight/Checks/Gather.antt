-- ===== src/Preflight/Checks/Gather.antt =====
-- The report that `Verify` (internal/preflight/verify.go) makes of its observations.
pub mod Regular
pub mod Probes
pub mod Gathered
pub mod Verified
use reinstate.Base.{ℕ, Bool, Option, none, some, List, [], ◌∷◌, ◌++◌}
use reinstate.SafeText.{Runes, Unicode}
use reinstate.Workspace.Model as Workspace
use reinstate.Preflight.Model.{Check, Report, schema_version}
use reinstate.Preflight.Normalize.{normalize_checks}
use reinstate.Preflight.Aggregate.{aggregate}
use reinstate.Preflight.Observed.{Library, AgentResult, Inventory, RuntimeResult, Input}
use reinstate.Preflight.Checks.{source_freshness_check, baseline_check, translate_workspace_checks}
use reinstate.Preflight.Checks.Agent.{agent_checks, Activity, active_session_check}
use reinstate.Preflight.Checks.Runtimes.{runtime_checks}
use reinstate.Preflight.Checks.Capabilities.{filter_capabilities, capability_checks}

-- The answers of the probes; `active` is absent where the session was not probed.
pub record Observations : Type 0 where
  pub comparison : Workspace.Comparison
  pub diagnostics : List Workspace.Diagnostic
  pub agent : AgentResult
  pub active : Option Activity
  pub inventory : Inventory
  pub runtimes : List RuntimeResult

unfoldable pub active_checks : Runes → Option Activity → List Check
active_checks agent none = []
active_checks agent (some activity) = active_session_check agent activity ∷ []

module _ (U : Unicode) (library : Library) where
  -- The checks in the order in which they are appended.
  unfoldable pub gathered : Input → Observations → List Check
  gathered input seen =
      source_freshness_check input.source_fresh
      ∷ baseline_check input.baseline
      ∷ (translate_workspace_checks seen.comparison seen.diagnostics
          ++ agent_checks U seen.agent input.read_only
          ++ active_checks input.agent seen.active
          ++ capability_checks U library input (filter_capabilities seen.inventory input.agent)
          ++ runtime_checks U library input seen.runtimes)

  unfoldable pub assemble : Input → Observations → Report
  assemble input seen =
      let checks = normalize_checks (gathered input seen) in
      let decided = aggregate checks in
      record {
        schema_version = schema_version;
        session_ref = input.session_ref;
        decision = decided.0;
        block_exit_code = decided.1;
        checks = checks;
      }
