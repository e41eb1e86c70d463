-- ===== src/Workspace/Compare/Decisions.antt =====
-- What the decision over a list of checks says (internal/workspace/compare.go, `aggregateDecision`).
use reinstate.Base.{
  ◌≡◌, refl, Bool, true, false, ◌||◌, ◌&&◌, not, all, ◌↔◌, Option, none, some, List, [], ◌∷◌, ◌++◌,
  map, any, any-append, arith, if◌then◌else◌,
}
use reinstate.Workspace.Model.{
  Severity, Decision, ready, confirmation_required, blocked, Diagnostic, Check,
}
use reinstate.Workspace.Compare.{decide_checks, decide_diagnostics, aggregate_decision}

abbrev pub is_block : Severity → Bool
is_block Severity.block = true
is_block _ = false

abbrev pub is_warning : Severity → Bool
is_warning Severity.warning = true
is_warning _ = false

abbrev pub harmless : Severity → Bool
harmless s = not (is_block s) && not (is_warning s)

-- The decision that the worst of the severities asks for.
abbrev pub worst : List Severity → Decision
worst severities =
    if any is_block severities
    then blocked
    else if any is_warning severities
    then confirmation_required
    else ready

-- The scan from a decision that no blocker has stopped.
abbrev scan : Bool → List Severity → Option Decision
scan warned severities =
    if any is_block severities
    then none
    else some (if warned || any is_warning severities then confirmation_required else ready)

abbrev so_far : Bool → Decision
so_far warned = if warned then confirmation_required else ready

decide_checks-eq-scan :
    (checks : List Check) (warned : Bool)
    → decide_checks checks (so_far warned) ≡ scan warned (map (λ c. c.severity) checks)
unfolding decide_checks
decide_checks-eq-scan [] warned = ground arith
decide_checks-eq-scan (check ∷ checks) warned =
    ground (arith, decide_checks-eq-scan checks warned, decide_checks-eq-scan checks true)

decide_diagnostics-eq-scan :
    (rest : List Diagnostic) (warned : Bool)
    → decide_diagnostics rest (so_far warned) ≡ scan warned (map (λ d. d.severity) rest)
unfolding decide_diagnostics
decide_diagnostics-eq-scan [] warned = ground arith
decide_diagnostics-eq-scan (diagnostic ∷ rest) warned =
    ground (arith, decide_diagnostics-eq-scan rest warned, decide_diagnostics-eq-scan rest true)

-- The decision is blocked exactly when some check or diagnostic blocks, asks for confirmation
-- exactly when none blocks and some warns, and is ready otherwise, whatever their order.
pub aggregate_decision-eq-worst :
    (checks : List Check) (diagnostics : List Diagnostic)
    → aggregate_decision checks diagnostics
      ≡ worst (map (λ c. c.severity) checks ++ map (λ d. d.severity) diagnostics)
unfolding aggregate_decision
aggregate_decision-eq-worst checks diagnostics =
    let ss = map (λ (c : Check). c.severity) checks in
    let ds = map (λ (d : Diagnostic). d.severity) diagnostics in
    ground (
      arith,
      decide_checks-eq-scan checks false,
      decide_diagnostics-eq-scan diagnostics false,
      decide_diagnostics-eq-scan diagnostics true,
      any-append is_block ss ds,
      any-append is_warning ss ds,
    )

any-all : (ss : List Severity) → (any is_block ss || any is_warning ss) ≡ not (all harmless ss)
any-all [] = refl
any-all (s ∷ ss) = ground (arith, any-all ss)

pub worst-ready_iff : (ss : List Severity) → (worst ss ≡ ready) ↔ (all harmless ss ≡ true)
worst-ready_iff ss = ground (arith, any-all ss)

pub worst-blocked_iff : (ss : List Severity) → (worst ss ≡ blocked) ↔ (any is_block ss ≡ true)
worst-blocked_iff ss = ground arith
