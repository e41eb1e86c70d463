-- ===== src/Preflight/Checks/Runtimes.antt =====
-- `runtimeChecks` and `runtimeIdentity` (internal/preflight/verify.go). The loop over the map of the baseline
-- has no order in Go; here it has the order of the entries.
use reinstate.Base.{
  Bool, true, false, not, ◌&&◌, Option, none, some, List, [], ◌∷◌, ◌++◌, map, if◌then◌else◌, ◌==◌,
  bytes_eq, codes, contains,
}
use reinstate.Base.Dict.{Dict, lookup, insert}
use reinstate.SafeText.{Runes, Unicode}
use reinstate.Workspace.Model.{Provenance, Status, Severity}
use reinstate.Preflight.Model.{text, Check, zero_check}
use reinstate.Preflight.Observed.{Library, RuntimeStatus, RuntimeResult, Runtime, Baseline, Input}
use reinstate.Preflight.Checks.Ids.{safe_id_part}
use reinstate.Preflight.ExitCode

-- The map by name: a later entry replaces an earlier one.
unfoldable pub runtimes_by_name : List Runtime → Dict Runes Runtime → Dict Runes Runtime
runtimes_by_name [] d = d
runtimes_by_name (r ∷ rs) d = runtimes_by_name rs (insert r.name r d)

unfoldable pub baseline_runtimes : Option Baseline → Dict Runes Runtime
baseline_runtimes none = []
baseline_runtimes (some baseline) = runtimes_by_name baseline.runtimes []

abbrev is_some {ℓ} : {A : Type ℓ} → Option A → Bool
is_some none = false
is_some (some a) = true

unfoldable pub runtime_identity : Runes → Runes → Runes → Runes
runtime_identity source_kind declared version =
    source_kind ++ codes ":declared=" ++ declared ++ codes ":actual=" ++ version

abbrev identity_of : Runtime → Runes
identity_of prior = runtime_identity prior.source_kind prior.declared prior.version

abbrev observed_identity : RuntimeResult → Runes
observed_identity result = runtime_identity result.source_kind result.declared result.actual

abbrev warns_with : Check → Status → Runes → Check
warns_with check status repair = record check {
  status = status;
  severity = Severity.warning;
  exit_code = ExitCode.safety;
  repair = repair;
}

-- The switch on the status.
unfoldable pub runtime_finding : RuntimeStatus → Check → Check
runtime_finding RuntimeStatus.match check = record check {
  status = Status.match;
  severity = Severity.info;
}
runtime_finding RuntimeStatus.error check = record check {
  status = Status.error;
  severity = Severity.block;
  exit_code = ExitCode.runtime;
  repair = codes "resolve the bounded runtime probe failure before continuing";
}
runtime_finding RuntimeStatus.changed check =
    warns_with check Status.changed
      (codes "use a compatible runtime or acknowledge this exact warning")
runtime_finding RuntimeStatus.missing check =
    warns_with check Status.missing
      (codes "install a compatible runtime or acknowledge this exact warning")
runtime_finding _ check =
    warns_with check Status.unknown
      (codes "review the unrecognized runtime declaration before continuing")

module _ (U : Unicode) (library : Library) where
  abbrev runtime_id : Runes → Runes → Runes
  runtime_id name suffix = codes "runtime." ++ safe_id_part U library name ++ suffix

  unfoldable pub declaration_check : RuntimeResult → Check
  declaration_check result = runtime_finding result.status (record zero_check {
    id = runtime_id result.name (codes ".declaration");
    expected = text result.declared;
    actual = text result.actual;
    provenance = Provenance.current_observation;
    message = result.message;
  })

  unfoldable pub runtime_baseline_check : RuntimeResult → Runtime → Check
  runtime_baseline_check result prior =
      let check = record zero_check {
        id = runtime_id result.name (codes ".baseline");
        expected = text (identity_of prior);
        actual = text (observed_identity result);
        provenance = Provenance.reinstate_prelaunch_observed;
      } in
      if not (prior.version == [])
        && prior.version == result.actual
        && prior.declared == result.declared
        && prior.source_kind == result.source_kind
      then record check {
        status = Status.match;
        severity = Severity.info;
        message = codes "the runtime matches the previous prelaunch observation";
      }
      else record (warns_with check Status.changed
          (codes "review the runtime change or acknowledge this exact warning")) {
            message = codes "the runtime differs from the previous prelaunch observation";
          }

  unfoldable pub new_runtime_check : RuntimeResult → Check
  new_runtime_check result =
      record (warns_with zero_check Status.changed
        (codes "review the runtime change or acknowledge this exact warning")) {
          id = runtime_id result.name (codes ".baseline");
          actual = text (observed_identity result);
          provenance = Provenance.reinstate_prelaunch_observed;
          message =
              codes "a new runtime declaration is present since the previous prelaunch observation";
        }

  -- What follows the check of the declaration in the first loop.
  unfoldable pub since_baseline : Bool → RuntimeResult → Option Runtime → List Check
  since_baseline has_baseline result (some prior) = runtime_baseline_check result prior ∷ []
  since_baseline true result none = new_runtime_check result ∷ []
  since_baseline false result none = []

  unfoldable pub observed_runtimes : Bool → Dict Runes Runtime → List RuntimeResult → List Check
  observed_runtimes has_baseline baseline [] = []
  observed_runtimes has_baseline baseline (result ∷ results) =
      declaration_check result
      ∷ (since_baseline has_baseline result (lookup result.name baseline)
          ++ observed_runtimes has_baseline baseline results)

  unfoldable pub missing_runtime_check : Runes × Runtime → Check
  missing_runtime_check (name, prior) =
      record (warns_with zero_check Status.missing
        (codes "restore the runtime declaration or acknowledge this exact warning")) {
          id = runtime_id name (codes ".baseline");
          expected = text (identity_of prior);
          provenance = Provenance.reinstate_prelaunch_observed;
          message = codes "a previously observed runtime declaration is missing";
        }

  -- The second loop.
  unfoldable pub missing_runtimes : List Runes → Dict Runes Runtime → List Check
  missing_runtimes seen [] = []
  missing_runtimes seen (entry ∷ entries) =
      let rest = missing_runtimes seen entries in
      if contains seen entry.0 then rest else missing_runtime_check entry ∷ rest

  unfoldable pub runtime_checks : Input → List RuntimeResult → List Check
  runtime_checks input results =
      let baseline = baseline_runtimes input.baseline in
      observed_runtimes (is_some input.baseline) baseline results
      ++ missing_runtimes (map (λ (r : RuntimeResult). r.name) results) baseline
