-- ===== src/Preflight/Aggregate/Worst.antt =====
-- What `aggregate` (internal/preflight/verify.go) says of the checks, and that `normalizeChecks` takes
-- nothing from it.
use reinstate.Base.{
  ℕ, ◌≡◌, refl, ap, ◌∙◌, ◌⊎◌, inl, inr, Bool, true, not, ◌&&◌, ◌||◌, List, [], ◌∷◌, if◌then◌else◌,
  any, all, ◌==◌, nat_eq, bytes_eq, arith, Bool-cases,
}
use reinstate.Preflight.Model.{Decision, ready, confirmation_required, blocked, Check}
use reinstate.Preflight.Normalize.{is_block, is_warning}
use reinstate.Preflight.Aggregate.{
  block_rank, preferred_block_exit, absorb, aggregate_from, aggregate,
}
use reinstate.Preflight.ExitCode

abbrev pub blocks : Check → Bool
blocks c = is_block c.severity

abbrev pub warns : Check → Bool
warns c = is_warning c.severity

abbrev pub blocks_with : ℕ → Check → Bool
blocks_with code c = blocks c && c.exit_code == code

-- A blocker has one of the three exit codes that the policy knows.
abbrev pub has_block_exit : Check → Bool
has_block_exit c =
    not (blocks c)
    || (c.exit_code == ExitCode.runtime
        || c.exit_code == ExitCode.safety
        || c.exit_code == ExitCode.compatibility)

-- The decision that the worst severity asks for.
abbrev pub worst_decision : List Check → Decision
worst_decision cs =
    if any blocks cs then blocked else if any warns cs then confirmation_required else ready

-- The exit code of the blocker that takes precedence.
abbrev pub worst_exit : List Check → ℕ
worst_exit cs =
    if any (blocks_with ExitCode.runtime) cs
    then ExitCode.runtime
    else if any (blocks_with ExitCode.safety) cs
    then ExitCode.safety
    else if any blocks cs
    then ExitCode.compatibility
    else ExitCode.ok

-- The same with a decision and an exit code in hand.
abbrev decision_after : Decision → List Check → Decision
decision_after ready cs = worst_decision cs
decision_after confirmation_required cs = if any blocks cs then blocked else confirmation_required
decision_after blocked cs = blocked
decision_after (Decision.other s) cs = if any blocks cs then blocked else Decision.other s

abbrev exit_after : ℕ → List Check → ℕ
exit_after e cs =
    if e == 1 || any (blocks_with 1) cs
    then 1
    else if e == 7 || any (blocks_with 7) cs
    then 7
    else if e == 5 || any blocks cs
    then 5
    else 0

decision_after-absorb :
    (d : Decision) (e : ℕ) (c : Check) (cs : List Check)
    → decision_after (absorb (d, e) c).0 cs ≡ decision_after d (c ∷ cs)
unfolding absorb
decision_after-absorb ready e c cs = elim (Bool-cases (blocks c)) [
  | inl p ↦ ground arith
  | inr p ↦ elim (Bool-cases (warns c)) [ inl q ↦ ground arith | inr q ↦ ground arith ]
]
decision_after-absorb confirmation_required e c cs = ground arith
decision_after-absorb blocked e c cs = ground arith
decision_after-absorb (Decision.other s) e c cs = ground arith

abbrev Known : ℕ → Type 0
Known e = (e ≡ 0) ⊎ ((e ≡ 1) ⊎ ((e ≡ 5) ⊎ (e ≡ 7)))

abbrev preferred : ℕ → ℕ → ℕ
preferred e code = if e == 1 || code == 1 then 1 else if e == 7 || code == 7 then 7 else 5

preferred_block_exit-Known :
    (e code : ℕ)
    → Known e
    → code == ExitCode.runtime || code == ExitCode.safety || code == ExitCode.compatibility ≡ true
    → preferred_block_exit e code ≡ preferred e code
unfolding preferred_block_exit block_rank
preferred_block_exit-Known e code (inl k) h = rw k (ground arith)
preferred_block_exit-Known e code (inr (inl k)) h = rw k (ground arith)
preferred_block_exit-Known e code (inr (inr (inl k))) h = rw k (ground arith)
preferred_block_exit-Known e code (inr (inr (inr k))) h = rw k (ground arith)

exit_after-absorb :
    (d : Decision) (e : ℕ) (c : Check) (cs : List Check)
    → has_block_exit c ≡ true
    → Known e
    → (exit_after (absorb (d, e) c).1 cs ≡ exit_after e (c ∷ cs)) × Known (absorb (d, e) c).1
unfolding absorb
exit_after-absorb d e c cs h k = elim (Bool-cases (blocks c)) [
  | inl p ↦
      let q = preferred_block_exit-Known e c.exit_code k (ground arith) in
      rw (p, q) (ground arith, ground arith)
  | inr p ↦ elim (Bool-cases (warns c)) [
    | inl q ↦ (ground arith, ground arith)
    | inr q ↦ (ground arith, ground arith)
  ]
]

decision_after-none : (d : Decision) → d ≡ decision_after d []
decision_after-none ready = refl
decision_after-none confirmation_required = refl
decision_after-none blocked = refl
decision_after-none (Decision.other s) = refl

exit_after-none : (e : ℕ) → Known e → e ≡ exit_after e []
exit_after-none e k = ground arith

aggregate_from-eq :
    (d : Decision) (e : ℕ) (cs : List Check)
    → all has_block_exit cs ≡ true
    → Known e
    → aggregate_from (d, e) cs ≡ (decision_after d cs, exit_after e cs)
unfolding aggregate_from
aggregate_from-eq d e [] h k =
    ap (λ t. (t, e)) (decision_after-none d)
    ∙ ap (λ t. (decision_after d [], t)) (exit_after-none e k)
aggregate_from-eq d e (c ∷ cs) h k =
    let x = exit_after-absorb d e c cs (ground arith) k in
    aggregate_from-eq (absorb (d, e) c).0 (absorb (d, e) c).1 cs (ground arith) x.1
    ∙ ap (λ t. (t, exit_after (absorb (d, e) c).1 cs)) (decision_after-absorb d e c cs)
    ∙ ap (λ t. (decision_after d (c ∷ cs), t)) x.0

-- Where every blocker has one of the exit codes of a blocker, `aggregate` gives the decision of the
-- worst severity and, when it blocks, the exit code that takes precedence: a failure of the
-- verifier (1) before a safety mismatch (7) before an incompatibility (5), whatever the order.
pub aggregate-eq-worst :
    (cs : List Check)
    → all has_block_exit cs ≡ true
    → aggregate cs ≡ (worst_decision cs, worst_exit cs)
unfolding aggregate
aggregate-eq-worst cs h = aggregate_from-eq ready 0 cs h (inl refl)
