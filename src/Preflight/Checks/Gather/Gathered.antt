-- ===== src/Preflight/Checks/Gather/Gathered.antt =====
-- All checks that `Verify` gathers (internal/preflight/verify.go) are regular.
use reinstate.Base.{
  ◌≡◌, refl, ◌⊎◌, inl, inr, Bool, true, false, not, ◌&&◌, ◌||◌, List, [], ◌∷◌, ◌++◌, map, all,
  if◌then◌else◌, ◌==◌, nat_eq, bytes_eq, codes, contains, arith,
}
use reinstate.SafeText.{Unicode}
use reinstate.Workspace.Model as Workspace
use reinstate.Workspace.Model.{Provenance, Status, Severity}
use reinstate.Preflight.Model.{Check}
use reinstate.Preflight.ExitCode
use reinstate.Preflight.Normalize.{is_error}
use reinstate.Preflight.Report.{
  valid_status, valid_severity, valid_provenance, allows_exit, valid_check_exit,
}
use reinstate.Preflight.Observed.{Library, Input}
use reinstate.Preflight.Checks.{
  workspace_exit_code, untagged, untagged_diagnostic, translate_check, translate_diagnostic,
  translate_workspace_checks,
}
use reinstate.Preflight.Checks.Agent.{agent_checks}
use reinstate.Preflight.Checks.Runtimes.{runtime_checks}
use reinstate.Preflight.Checks.Capabilities.{filter_capabilities, capability_checks}
use reinstate.Preflight.Checks.Gather.{active_checks, gathered, Observations}
use reinstate.Preflight.Checks.Gather.Regular.{
  is_regular, all-append, source_freshness_check-regular, baseline_check-regular,
  agent_checks-regular, active_checks-regular, current-valid,
}
use reinstate.Preflight.Checks.Gather.Probes.{capability_checks-regular, runtime_checks-regular}

-- What the workspace reports has known values.
abbrev pub is_known_check : Workspace.Check → Bool
is_known_check c =
    valid_status c.status && valid_severity c.severity && valid_provenance c.provenance

abbrev pub is_known_diagnostic : Workspace.Diagnostic → Bool
is_known_diagnostic d = valid_status d.status && valid_severity d.severity

-- The exit code of a blocker, from the tests that choose it.
block_exit :
    (e g w : Bool)
    → (let code =
          if e || g
          then ExitCode.runtime
          else if w
          then ExitCode.compatibility
          else ExitCode.safety in
        (code == ExitCode.runtime || code == ExitCode.compatibility || code == ExitCode.safety)
        && (not e || code == ExitCode.runtime))
      ≡ true
block_exit true g w = refl
block_exit false true w = refl
block_exit false false true = refl
block_exit false false false = refl

severity-cases :
    (s : Severity)
    → valid_severity s ≡ true
    → (s ≡ Severity.info) ⊎ ((s ≡ Severity.warning) ⊎ (s ≡ Severity.block))
unfolding valid_severity
severity-cases Severity.info h = inl refl
severity-cases Severity.warning h = inr (inl refl)
severity-cases Severity.block h = inr (inr refl)
severity-cases (Severity.other s) h = absurd (ground arith)

workspace_exit_code-allowed :
    (c : Check)
    → valid_severity c.severity ≡ true
    → allows_exit c.severity c.status (workspace_exit_code c) ≡ true
unfolding workspace_exit_code allows_exit
workspace_exit_code-allowed c h = elim (severity-cases c.severity h) [
  | inl e ↦ rw e refl
  | inr (inl e) ↦ rw e refl
  | inr (inr e) ↦ rw e (
      block_exit (is_error c.status)
        (contains (codes "git.probe" ∷ codes "git.status" ∷ codes "git.shallow" ∷ []) c.id)
        (contains (codes "workspace.available" ∷ codes "git.available" ∷ []) c.id))
]

translate_check-regular :
    (c : Workspace.Check) → is_known_check c ≡ true → is_regular (translate_check c) ≡ true
unfolding translate_check valid_check_exit
translate_check-regular c h =
    let e = workspace_exit_code-allowed (untagged c) (ground arith) in ground arith

translate_diagnostic-regular :
    (d : Workspace.Diagnostic)
    → is_known_diagnostic d ≡ true
    → is_regular (translate_diagnostic d) ≡ true
unfolding translate_diagnostic valid_check_exit
translate_diagnostic-regular d h =
    let e = workspace_exit_code-allowed (untagged_diagnostic d) (ground arith) in
    ground (arith, current-valid)

all-translate :
    (cs : List Workspace.Check)
    → all is_known_check cs ≡ true
    → all is_regular (map translate_check cs) ≡ true
all-translate [] h = refl
all-translate (c ∷ cs) h = ground (arith, translate_check-regular c, all-translate cs)

all-translate_diagnostic :
    (ds : List Workspace.Diagnostic)
    → all is_known_diagnostic ds ≡ true
    → all is_regular (map translate_diagnostic ds) ≡ true
all-translate_diagnostic [] h = refl
all-translate_diagnostic (d ∷ ds) h =
    ground (arith, translate_diagnostic-regular d, all-translate_diagnostic ds)

-- Every check that `Verify` gathers is regular: a known status, severity and provenance, and an exit
-- code that its severity allows. The workspace reports known values.
pub gathered-regular :
    (U : Unicode) (library : Library) (input : Input) (seen : Observations)
    → all is_known_check seen.comparison.checks ≡ true
    → all is_known_diagnostic seen.diagnostics ≡ true
    → all is_regular (gathered U library input seen) ≡ true
unfolding gathered translate_workspace_checks
gathered-regular U library input seen h k =
    let inventory = filter_capabilities seen.inventory input.agent in
    let w =
      map translate_check seen.comparison.checks ++ map translate_diagnostic seen.diagnostics in
    let a = agent_checks U seen.agent input.read_only in
    let v = active_checks input.agent seen.active in
    let c = capability_checks U library input inventory in
    let r = runtime_checks U library input seen.runtimes in
    rw (source_freshness_check-regular input.source_fresh, baseline_check-regular input.baseline)
      (all-append (w ++ a ++ v ++ c) r
        (all-append (w ++ a ++ v) c
          (all-append (w ++ a) v
            (all-append w a
              (all-append (map translate_check seen.comparison.checks)
                (map translate_diagnostic seen.diagnostics) (all-translate seen.comparison.checks h)
                (all-translate_diagnostic seen.diagnostics k))
              (agent_checks-regular U seen.agent input.read_only))
            (active_checks-regular input.agent seen.active))
          (capability_checks-regular U library input inventory))
        (runtime_checks-regular U library input seen.runtimes))
