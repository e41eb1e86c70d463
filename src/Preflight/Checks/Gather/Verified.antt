-- ===== src/Preflight/Checks/Gather/Verified.antt =====
-- The report that `Verify` makes (internal/preflight/verify.go).
use reinstate.Base.{
  suc, ◌≡◌, refl, ap, inl, inr, Bool, true, ◌&&◌, List, [], ◌∷◌, all, ◌==◌, nat_eq, bytes_eq, arith,
  Bool-cases,
}
use reinstate.SafeText.{Unicode}
use reinstate.Preflight.Model.{Check}
use reinstate.Preflight.Observed.{Library, Input}
use reinstate.Preflight.Checks.Gather.{gathered, Observations}
use reinstate.Preflight.Checks.Gather.Regular.{is_regular}
use reinstate.Preflight.Checks.Gather.{assemble}
use reinstate.Preflight.Report.Canonical.{
  is_plain, is_sound_check, valid_check_exit-has_block_exit, validate_report-ok_iff,
}
use reinstate.Preflight.Report.{
  validate_report, valid_check_id, valid_report_value, max_session_reference_runes,
}
use reinstate.SafeText.{IsStandard}
use reinstate.Base.{length, ◌≢◌, ◌≤◌, ok}
use reinstate.Preflight.Aggregate.Worst.{
  has_block_exit, worst_decision, worst_exit, aggregate-eq-worst,
}
use reinstate.Preflight.Aggregate.Normalized.{aggregate-normalize_checks, all-normalize_checks}
use reinstate.Preflight.Normalize.{
  normalize_checks, insert_check, sort_checks, more_trusted, keep_most_trusted, unique_checks,
}
use reinstate.Preflight.Normalize.Unique.{normalize_checks-ordered}
use reinstate.Preflight.Checks.Gather.Gathered.{
  is_known_check, is_known_diagnostic, gathered-regular,
}

regular-has_block_exit : (cs : List Check) → all is_regular cs ≡ true → all has_block_exit cs ≡ true
regular-has_block_exit [] h = refl
regular-has_block_exit (c ∷ cs) h =
    ground (arith, valid_check_exit-has_block_exit c, regular-has_block_exit cs)

-- The decision of the report that `Verify` makes, and its exit code, are those of the worst of the
-- checks gathered: sorting them and keeping one for each id hides no blocker and no warning. The
-- workspace reports known values.
pub assemble-eq-worst :
    (U : Unicode) (library : Library) (input : Input) (seen : Observations)
    → all is_known_check seen.comparison.checks ≡ true
    → all is_known_diagnostic seen.diagnostics ≡ true
    → ((assemble U library input seen).decision ≡ worst_decision (gathered U library input seen))
      × ((assemble U library input seen).block_exit_code
          ≡ worst_exit (gathered U library input seen))
unfolding assemble
assemble-eq-worst U library input seen h k =
    let e = aggregate-normalize_checks (gathered U library input seen) (
      regular-has_block_exit (gathered U library input seen)
        (gathered-regular U library input seen h k)) in
    (ap (λ t. t.0) e, ap (λ t. t.1) e)

length-insert_check : (c : Check) (cs : List Check) → length (insert_check c cs) ≡ suc (length cs)
unfolding insert_check
length-insert_check c [] = refl
length-insert_check c (d ∷ cs) = ground (arith, length-insert_check c cs)

length-sort_checks : (cs : List Check) → length (sort_checks cs) ≡ length cs
unfolding sort_checks
length-sort_checks [] = refl
length-sort_checks (c ∷ cs) =
    ground (arith, length-insert_check c (sort_checks cs), length-sort_checks cs)

length-keep_most_trusted :
    (last : Check) (cs : List Check)
    → (length (keep_most_trusted last cs) ≢ 0)
      × (length (keep_most_trusted last cs) ≤ suc (length cs))
unfolding keep_most_trusted
length-keep_most_trusted last [] = (ground arith, ground arith)
length-keep_most_trusted last (c ∷ cs) = elim (Bool-cases (last.id == c.id)) [
  | inl q ↦
      let r = length-keep_most_trusted (more_trusted last c) cs in rw q (r.0, omega (arith, r.1))
  | inr q ↦ let r = length-keep_most_trusted c cs in rw q (ground arith, omega (arith, r.1))
]

length-unique_checks :
    (cs : List Check)
    → length cs ≢ 0
    → (length (unique_checks cs) ≢ 0) × (length (unique_checks cs) ≤ length cs)
unfolding unique_checks
length-unique_checks [] h = absurd (h refl)
length-unique_checks (c ∷ cs) h = length-keep_most_trusted c cs

length-normalize_checks :
    (cs : List Check)
    → length cs ≢ 0
    → (length (normalize_checks cs) ≢ 0) × (length (normalize_checks cs) ≤ length cs)
unfolding normalize_checks
length-normalize_checks cs h =
    let same = length-sort_checks cs in
    let r = length-unique_checks (sort_checks cs) (ground arith) in (r.0, omega (arith, r.1))

gathered-some :
    (U : Unicode) (library : Library) (input : Input) (seen : Observations)
    → length (gathered U library input seen) ≢ 0
unfolding gathered
gathered-some U library input seen = ground arith

-- The texts and the values of a check may be shown.
abbrev pub is_showable : Unicode → Check → Bool
is_showable U c =
    is_plain U c.message 1024
    && is_plain U c.repair 1024
    && valid_report_value U c.expected
    && valid_report_value U c.actual

showable_sound :
    (U : Unicode) (cs : List Check)
    → all is_regular cs ≡ true
    → all (is_showable U) cs ≡ true
    → all (is_sound_check U) cs ≡ true
showable_sound U [] h k = refl
showable_sound U (c ∷ cs) h k = ground (arith, showable_sound U cs)

-- The report that `Verify` makes passes `ValidateReport`, if the session has a short plain name, at
-- most 2048 checks are gathered, their ids are valid and their texts and values may be shown, and the
-- workspace reports known values: the order, the ids without repetition, the exit codes and the
-- decision hold by construction.
pub validate_report-assemble :
    (U : Unicode) (std : IsStandard U) (library : Library) (input : Input) (seen : Observations)
    → input.session_ref ≢ []
    → is_plain U input.session_ref max_session_reference_runes ≡ true
    → all is_known_check seen.comparison.checks ≡ true
    → all is_known_diagnostic seen.diagnostics ≡ true
    → length (gathered U library input seen) ≤ 2048
    → all (λ (c : Check). valid_check_id c.id) (gathered U library input seen) ≡ true
    → all (is_showable U) (gathered U library input seen) ≡ true
    → validate_report U (assemble U library input seen) ≡ ok tt
unfolding assemble
validate_report-assemble U std library input seen named plain h k few ids shown =
    let cs = gathered U library input seen in
    let regular = gathered-regular U library input seen h k in
    let sizes = length-normalize_checks cs (gathered-some U library input seen) in
    let exits = regular-has_block_exit cs regular in
    let worst =
      aggregate-eq-worst (normalize_checks cs) (all-normalize_checks has_block_exit cs exits) in
    (validate_report-ok_iff U std (assemble U library input seen)).1 (record {
      version = refl;
      named = named;
      plainly_named = plain;
      some_checks = sizes.0;
      few_checks = omega (arith, sizes.1);
      identified = all-normalize_checks (λ (c : Check). valid_check_id c.id) cs ids;
      sound = all-normalize_checks (is_sound_check U) cs (showable_sound U cs regular shown);
      ordered = normalize_checks-ordered cs;
      decided = ap (λ t. t.0) worst;
      exits = ap (λ t. t.1) worst;
    })
