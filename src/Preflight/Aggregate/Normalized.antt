-- ===== src/Preflight/Aggregate/Normalized.antt =====
-- `normalizeChecks` takes nothing from what `aggregate` says (internal/preflight/verify.go).
use reinstate.Base.{
  ◌+◌, ◌≡◌, ◌≤◌, refl, ◌∙◌, inl, inr, Bool, true, false, ◌&&◌, ◌||◌, List, [], ◌∷◌, if◌then◌else◌,
  ltb, any, all, ◌==◌, nat_eq, bytes_eq, arith, Bool-cases,
}
use reinstate.Workspace.Model.{Severity}
use reinstate.Preflight.Model.{Check}
use reinstate.Preflight.Normalize.{
  is_block, is_warning, is_error, severity_rank, insert_check, sort_checks, check_trust_rank,
  more_trusted, keep_most_trusted, unique_checks, normalize_checks,
}
use reinstate.Preflight.Aggregate.{aggregate}
use reinstate.Preflight.ExitCode
use reinstate.Preflight.Aggregate.Worst.{
  blocks, warns, blocks_with, has_block_exit, worst_decision, worst_exit, aggregate-eq-worst,
}

-- A property that a check of at least the same rank keeps.
abbrev IsUpward : (Check → Bool) → Type 0
IsUpward p = (a b : Check) → p a ≡ true → check_trust_rank a ≤ check_trust_rank b → p b ≡ true

module _ (p : Check → Bool) (up : IsUpward p) where
  any-more_trusted : (a b : Check) → p (more_trusted a b) ≡ p a || p b
  any-more_trusted a b = elim (Bool-cases (ltb (check_trust_rank a) (check_trust_rank b))) [
    | inl h ↦ rw h (ground (arith, up a b))
    | inr h ↦ rw h (ground (arith, up b a))
  ]

  any-keep_most_trusted :
      (last : Check) (cs : List Check) → any p (keep_most_trusted last cs) ≡ p last || any p cs
  unfolding keep_most_trusted
  any-keep_most_trusted last [] = refl
  any-keep_most_trusted last (c ∷ cs) = elim (Bool-cases (last.id == c.id)) [
    | inl q ↦
        rw (q, any-keep_most_trusted (more_trusted last c) cs, any-more_trusted last c)
          (ground arith)
    | inr q ↦ rw (q, any-keep_most_trusted c cs) refl
  ]

  any-insert_check : (c : Check) (cs : List Check) → any p (insert_check c cs) ≡ p c || any p cs
  unfolding insert_check
  any-insert_check c [] = refl
  any-insert_check c (d ∷ cs) = ground (arith, any-insert_check c cs)

  any-sort_checks : (cs : List Check) → any p (sort_checks cs) ≡ any p cs
  unfolding sort_checks
  any-sort_checks [] = refl
  any-sort_checks (c ∷ cs) = ground (arith, any-insert_check c (sort_checks cs), any-sort_checks cs)

  any-unique_checks : (cs : List Check) → any p (unique_checks cs) ≡ any p cs
  unfolding unique_checks
  any-unique_checks [] = refl
  any-unique_checks (c ∷ cs) = any-keep_most_trusted c cs

  any-normalize_checks : (cs : List Check) → any p (normalize_checks cs) ≡ any p cs
  unfolding normalize_checks
  any-normalize_checks cs = any-unique_checks (sort_checks cs) ∙ any-sort_checks cs

severity_rank-eq :
    (s : Severity) → severity_rank s ≡ (if is_block s then 3 else if is_warning s then 2 else 1)
unfolding severity_rank
severity_rank-eq Severity.info = refl
severity_rank-eq Severity.warning = refl
severity_rank-eq Severity.block = refl
severity_rank-eq (Severity.other s) = refl

block_not_warning : (s : Severity) → is_block s ≡ true → is_warning s ≡ false
block_not_warning Severity.block h = refl
block_not_warning Severity.info h = absurd (ground arith)
block_not_warning Severity.warning h = absurd (ground arith)
block_not_warning (Severity.other s) h = absurd (ground arith)

-- Where the ranks of blockers, of warnings and of the exit codes begin.
check_trust_rank-eq :
    (c : Check)
    → check_trust_rank c
      ≡ (if blocks c
          then 300
            + (if c.exit_code == 1
                then 30
                else if c.exit_code == 7
                then 20
                else if c.exit_code == 5
                then 10
                else 0)
          else if warns c
          then 200
          else 100)
        + (if is_error c.status then 1 else 0)
unfolding check_trust_rank
check_trust_rank-eq c = ground (arith, severity_rank-eq c.severity)

abbrev blocks_or_warns : Check → Bool
blocks_or_warns c = blocks c || warns c

abbrev blocks_over_compatibility : Check → Bool
blocks_over_compatibility c = blocks_with ExitCode.runtime c || blocks_with ExitCode.safety c

blocks-IsUpward : IsUpward blocks
blocks-IsUpward a b h le = ground (arith, check_trust_rank-eq a, check_trust_rank-eq b)

blocks_or_warns-IsUpward : IsUpward blocks_or_warns
blocks_or_warns-IsUpward a b h le = ground (arith, check_trust_rank-eq a, check_trust_rank-eq b)

blocks_with-runtime-IsUpward : IsUpward (blocks_with ExitCode.runtime)
blocks_with-runtime-IsUpward a b h le = ground (arith, check_trust_rank-eq a, check_trust_rank-eq b)

blocks_over_compatibility-IsUpward : IsUpward blocks_over_compatibility
blocks_over_compatibility-IsUpward a b h le =
    ground (arith, check_trust_rank-eq a, check_trust_rank-eq b)

any-or : (p q : Check → Bool) (cs : List Check) → any (λ c. p c || q c) cs ≡ any p cs || any q cs
any-or p q [] = refl
any-or p q (c ∷ cs) = ground (arith, any-or p q cs)

-- A property of every check stays one of every check that is left.
module _ (p : Check → Bool) where
  all-more_trusted : (a b : Check) → p a ≡ true → p b ≡ true → p (more_trusted a b) ≡ true
  all-more_trusted a b h k = elim (Bool-cases (ltb (check_trust_rank a) (check_trust_rank b))) [
    | inl e ↦ rw e k
    | inr e ↦ rw e h
  ]

  all-keep_most_trusted :
      (last : Check) (cs : List Check)
      → p last ≡ true
      → all p cs ≡ true
      → all p (keep_most_trusted last cs) ≡ true
  unfolding keep_most_trusted
  all-keep_most_trusted last [] h k = ground arith
  all-keep_most_trusted last (c ∷ cs) h k = elim (Bool-cases (last.id == c.id)) [
    | inl q ↦ rw q (
        all-keep_most_trusted (more_trusted last c) cs (all-more_trusted last c h (ground arith))
          (ground arith))
    | inr q ↦ rw (q, h) (all-keep_most_trusted c cs (ground arith) (ground arith))
  ]

  all-insert_check : (c : Check) (cs : List Check) → all p (insert_check c cs) ≡ p c && all p cs
  unfolding insert_check
  all-insert_check c [] = refl
  all-insert_check c (d ∷ cs) = ground (arith, all-insert_check c cs)

  all-sort_checks : (cs : List Check) → all p (sort_checks cs) ≡ all p cs
  unfolding sort_checks
  all-sort_checks [] = refl
  all-sort_checks (c ∷ cs) = ground (arith, all-insert_check c (sort_checks cs), all-sort_checks cs)

  all-unique_checks : (cs : List Check) → all p cs ≡ true → all p (unique_checks cs) ≡ true
  unfolding unique_checks
  all-unique_checks [] h = refl
  all-unique_checks (c ∷ cs) h = all-keep_most_trusted c cs (ground arith) (ground arith)

  pub all-normalize_checks :
      (cs : List Check) → all p cs ≡ true → all p (normalize_checks cs) ≡ true
  unfolding normalize_checks
  all-normalize_checks cs h = all-unique_checks (sort_checks cs) (all-sort_checks cs ∙ h)

-- The decision and the exit code over what `normalizeChecks` leaves are those of the worst of all
-- the checks gathered: of the checks with one id, the one that stays hides no worse one. Every
-- blocker has one of the exit codes of a blocker.
pub aggregate-normalize_checks :
    (cs : List Check)
    → all has_block_exit cs ≡ true
    → aggregate (normalize_checks cs) ≡ (worst_decision cs, worst_exit cs)
aggregate-normalize_checks cs h =
    rw (aggregate-eq-worst (normalize_checks cs) (all-normalize_checks has_block_exit cs h)) (
      ground (
        arith,
        any-normalize_checks blocks blocks-IsUpward cs,
        any-normalize_checks blocks_or_warns blocks_or_warns-IsUpward cs,
        any-normalize_checks (blocks_with ExitCode.runtime) blocks_with-runtime-IsUpward cs,
        any-normalize_checks blocks_over_compatibility blocks_over_compatibility-IsUpward cs,
        any-or blocks warns cs,
        any-or blocks warns (normalize_checks cs),
        any-or (blocks_with ExitCode.runtime) (blocks_with ExitCode.safety) cs,
        any-or (blocks_with ExitCode.runtime) (blocks_with ExitCode.safety) (normalize_checks cs),
      ))
