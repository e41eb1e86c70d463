-- ===== src/Preflight/Checks/Gather/Regular.antt =====
-- The checks that `Verify` derives (internal/preflight/verify.go) are regular: a known status, severity and
-- provenance, and an exit code that the severity allows.
use reinstate.Base.{
  ◌≡◌, refl, inl, inr, Bool, true, false, not, ◌&&◌, ◌||◌, Option, none, some, List, [], ◌∷◌, ◌++◌,
  map, all, if◌then◌else◌, ◌==◌, nat_eq, bytes_eq, codes, arith, Bool-cases,
}
use reinstate.SafeText.{Runes, Unicode, trim_space}
use reinstate.Workspace.Model.{Provenance, Status, Severity}
use reinstate.Preflight.Model.{Check}
use reinstate.Preflight.Report.{
  valid_status, valid_severity, valid_provenance, allows_exit, valid_check_exit,
}
use reinstate.Preflight.Observed.{AgentStatus, AgentResult, RuntimeStatus, Baseline}
use reinstate.Preflight.Checks.{source_freshness_check, baseline_check}
use reinstate.Preflight.Checks.Agent.{
  source_only_agent, executable_check, layout_check, version_problem, version_finding,
  version_check, agent_checks, Activity, active_session_check,
}
use reinstate.Preflight.Checks.Runtimes.{runtime_finding}
use reinstate.Preflight.Checks.Gather.{active_checks}

abbrev pub is_regular : Check → Bool
is_regular c =
    valid_status c.status
    && valid_severity c.severity
    && valid_provenance c.provenance
    && valid_check_exit c

pub all-append :
    (cs ds : List Check)
    → all is_regular cs ≡ true
    → all is_regular ds ≡ true
    → all is_regular (cs ++ ds) ≡ true
all-append [] ds h k = k
all-append (c ∷ cs) ds h k = ground (arith, all-append cs ds)

pub all-map :
    {A : Type 0} (f : A → Check)
    → ((a : A) → is_regular (f a) ≡ true)
    → (xs : List A) → all is_regular (map f xs) ≡ true
all-map f h [] = refl
all-map f h (x ∷ xs) = ground (arith, h x, all-map f h xs)

pub source_freshness_check-regular :
    (fresh : Bool) → is_regular (source_freshness_check fresh) ≡ true
unfolding source_freshness_check valid_status valid_severity valid_provenance valid_check_exit
    allows_exit
source_freshness_check-regular true = refl
source_freshness_check-regular false = refl

pub baseline_check-regular : (b : Option Baseline) → is_regular (baseline_check b) ≡ true
unfolding baseline_check valid_status valid_severity valid_provenance valid_check_exit allows_exit
baseline_check-regular none = refl
baseline_check-regular (some b) = refl

pub if-regular :
    (b : Bool) (c d : Check)
    → is_regular c ≡ true
    → is_regular d ≡ true
    → is_regular (if b then c else d) ≡ true
if-regular true c d h k = h
if-regular false c d h k = k

active_session_check-regular :
    (agent : Runes) (a : Activity) → is_regular (active_session_check agent a) ≡ true
unfolding active_session_check valid_status valid_severity valid_provenance valid_check_exit
    allows_exit
active_session_check-regular agent a = elim (Bool-cases (a.failed || a.deadline)) [
  | inl p ↦ rw p refl
  | inr p ↦ elim (Bool-cases a.busy) [ inl q ↦ rw (p, q) refl | inr q ↦ rw (p, q) refl ]
]

module _ (U : Unicode) where
  executable_check-regular :
      (r : AgentResult) (read_only : Bool) → is_regular (executable_check U r read_only) ≡ true
  unfolding executable_check valid_status valid_severity valid_provenance valid_check_exit
      allows_exit
  executable_check-regular r read_only = ground arith

  layout_check-regular :
      (r : AgentResult) (read_only : Bool) → is_regular (layout_check U r read_only) ≡ true
  unfolding layout_check valid_status valid_severity valid_provenance valid_check_exit allows_exit
  layout_check-regular r read_only = ground arith

  module _ (c : Check) (p : valid_provenance c.provenance ≡ true) (z : c.exit_code ≡ 0) where
    version_problem-regular :
        (s : AgentStatus) (r : AgentResult) → is_regular (version_problem U s r c) ≡ true
    unfolding version_problem valid_status valid_severity valid_provenance valid_check_exit
        allows_exit
    version_problem-regular AgentStatus.supported r = rw p refl
    version_problem-regular AgentStatus.untested r = rw p refl
    version_problem-regular AgentStatus.not_installed r = rw p refl
    version_problem-regular AgentStatus.error r = elim (Bool-cases r.timed_out) [
      | inl q ↦ rw (q, p) refl
      | inr q ↦ rw (q, p) refl
    ]
    version_problem-regular (AgentStatus.other t) r = rw p refl

    or_source_only-regular :
        (r : AgentResult) (b : Bool)
        → is_regular (
            if b && source_only_agent U r
            then record c {
              status = Status.unknown;
              severity = Severity.info;
              message = codes "source-only agents have no native verified-resume version range";
            }
            else version_problem U r.status r c)
          ≡ true
    unfolding valid_status valid_severity valid_provenance valid_check_exit allows_exit
    or_source_only-regular r b =
        if-regular (b && source_only_agent U r) _ _ (rw (p, z) refl)
          (version_problem-regular r.status r)

    version_finding-regular :
        (s : AgentStatus) (r : AgentResult) (read_only : Bool)
        → is_regular (version_finding U s r read_only c) ≡ true
    unfolding version_finding valid_status valid_severity valid_provenance valid_check_exit
        allows_exit
    version_finding-regular AgentStatus.supported r b =
        if-regular (not (trim_space U r.version == [])) _ _ (rw (p, z) refl) (rw (p, z) refl)
    version_finding-regular AgentStatus.untested r b = or_source_only-regular r b
    version_finding-regular AgentStatus.not_installed r b =
        if-regular b _ _ (rw (p, z) refl) (or_source_only-regular r b)
    version_finding-regular AgentStatus.error r b = or_source_only-regular r b
    version_finding-regular (AgentStatus.other t) r b = or_source_only-regular r b

module _ (c : Check) (p : valid_provenance c.provenance ≡ true) (z : c.exit_code ≡ 0) where
  pub runtime_finding-regular : (s : RuntimeStatus) → is_regular (runtime_finding s c) ≡ true
  unfolding runtime_finding valid_status valid_severity valid_provenance valid_check_exit
      allows_exit
  runtime_finding-regular RuntimeStatus.match = rw (p, z) refl
  runtime_finding-regular RuntimeStatus.error = rw p refl
  runtime_finding-regular RuntimeStatus.changed = rw p refl
  runtime_finding-regular RuntimeStatus.missing = rw p refl
  runtime_finding-regular RuntimeStatus.unknown = rw p refl
  runtime_finding-regular (RuntimeStatus.other t) = rw p refl

pub current-valid : valid_provenance Provenance.current_observation ≡ true
unfolding valid_provenance
current-valid = refl

module _ (U : Unicode) where
  version_check-regular : (r : AgentResult) (b : Bool) → is_regular (version_check U r b) ≡ true
  unfolding version_check
  version_check-regular r b = version_finding-regular U _ current-valid refl r.status r b

  pub agent_checks-regular :
      (r : AgentResult) (b : Bool) → all is_regular (agent_checks U r b) ≡ true
  unfolding agent_checks
  agent_checks-regular r b =
      rw (executable_check-regular U r b, layout_check-regular U r b, version_check-regular r b)
        refl

pub active_checks-regular :
    (agent : Runes) (o : Option Activity) → all is_regular (active_checks agent o) ≡ true
unfolding active_checks
active_checks-regular agent none = refl
active_checks-regular agent (some a) = rw (active_session_check-regular agent a) refl
