-- ===== src/Preflight/Report/Canonical.antt =====
-- The reports that `validateReport` (internal/preflight/policy.go) accepts.
use reinstate.Base.{
  ℕ, ◌≡◌, ◌≢◌, ◌≤◌, refl, ap, sym, ◌∙◌, ◌↔◌, inl, inr, Bool, true, false, not, ◌&&◌, ◌||◌, List, [],
  ◌∷◌, length, all, leb, ◌==◌, ==_iff, nat_eq, bytes_eq, contains, ok, arith, Result-cases, All,
}
use reinstate.SafeText.{Runes, Unicode, IsStandard, clean_text, trim_space}
use reinstate.SafeText.Clean.{is_clean, trim_space-clean}
use reinstate.SafeText.Kept.{clean_text-fixed_iff}
use reinstate.Workspace.Model.{Severity, Status}
use reinstate.Preflight.Model.{Check, Report, schema_version, same_checks_iff, same_decision_iff}
use reinstate.Preflight.Normalize.{is_block, comes_before, normalize_checks}
use reinstate.Preflight.Normalize.Order.{comes_before_irreflexive, comes_before_transitive}
use reinstate.Preflight.Normalize.Unique.{
  is_ordered, is_ordered_from, normalize_checks-fixed_iff, normalize_checks-fixed,
}
use reinstate.Preflight.Aggregate.{aggregate}
use reinstate.Preflight.Aggregate.Worst.{
  has_block_exit, worst_decision, worst_exit, aggregate-eq-worst,
}
use reinstate.Preflight.Report.{
  max_session_reference_runes, valid_status, valid_severity, valid_provenance, allows_exit,
  valid_check_exit, valid_check_id, valid_report_text, valid_report_value, require, check_valid,
  checks_valid, validate_report,
}
use reinstate.Preflight.ExitCode

allows_exit-block :
    (s : Severity) (st : Status) (code : ℕ)
    → allows_exit s st code ≡ true
    → not (is_block s)
        || (code == ExitCode.runtime || code == ExitCode.safety || code == ExitCode.compatibility)
      ≡ true
unfolding allows_exit
allows_exit-block Severity.info st code h = refl
allows_exit-block Severity.warning st code h = refl
allows_exit-block Severity.block st code h = ground arith
allows_exit-block (Severity.other s) st code h = refl

pub valid_check_exit-has_block_exit :
    (c : Check) → valid_check_exit c ≡ true → has_block_exit c ≡ true
unfolding valid_check_exit
valid_check_exit-has_block_exit c h = allows_exit-block c.severity c.status c.exit_code h

-- No id of an ordered list has stood before.
abbrev AreBefore : Runes → List Runes → Type 0
AreBefore i seen = All (λ j. comes_before j i ≡ true) seen

AreBefore-trans :
    (i k : Runes) (seen : List Runes)
    → comes_before i k ≡ true
    → AreBefore i seen
    → AreBefore k seen
AreBefore-trans i k [] h a = tt
AreBefore-trans i k (j ∷ seen) h a =
    (comes_before_transitive j i k a.0 h, AreBefore-trans i k seen h a.1)

AreBefore-unseen : (i : Runes) (seen : List Runes) → AreBefore i seen → contains seen i ≡ false
AreBefore-unseen i [] a = refl
AreBefore-unseen i (j ∷ seen) a =
    ground (arith, ==_iff j i, a.0, comes_before_irreflexive i, AreBefore-unseen i seen a.1)

module _ (U : Unicode) where
  -- A text without terminal sequences, controls and needless spaces, within a bound.
  abbrev pub is_plain : Runes → ℕ → Bool
  is_plain value maximum = leb (length value) maximum && is_clean U value

  abbrev pub is_sound_check : Check → Bool
  is_sound_check c =
      valid_status c.status
      && valid_severity c.severity
      && valid_provenance c.provenance
      && valid_check_exit c
      && is_plain c.message 1024
      && is_plain c.repair 1024
      && valid_report_value U c.expected
      && valid_report_value U c.actual

  pub record IsCanonical (report : Report) : Type 0 where
    pub version : report.schema_version ≡ schema_version
    pub named : report.session_ref ≢ []
    pub plainly_named : is_plain report.session_ref max_session_reference_runes ≡ true
    pub some_checks : length report.checks ≢ 0
    pub few_checks : length report.checks ≤ 2048
    pub identified : all (λ (c : Check). valid_check_id c.id) report.checks ≡ true
    pub sound : all is_sound_check report.checks ≡ true
    pub ordered : is_ordered report.checks ≡ true
    pub decided : report.decision ≡ worst_decision report.checks
    pub exits : report.block_exit_code ≡ worst_exit report.checks

  module _ (std : IsStandard U) where
    valid_report_text-eq : (v : Runes) (m : ℕ) → valid_report_text U v m ≡ is_plain v m
    unfolding valid_report_text
    valid_report_text-eq v m =
        ground (arith, clean_text-fixed_iff U std v, ==_iff (clean_text U v 0) v)

    check_valid_iff : (c : Check) → (check_valid U c ≡ ok tt) ↔ (is_sound_check c ≡ true)
    unfolding check_valid require
    check_valid_iff c =
        ground (arith, valid_report_text-eq c.message 1024, valid_report_text-eq c.repair 1024)

    checks_valid_sound :
        (seen : List Runes) (cs : List Check)
        → checks_valid U seen cs ≡ ok tt
        → (all (λ (c : Check). valid_check_id c.id) cs ≡ true) × (all is_sound_check cs ≡ true)
    unfolding checks_valid require
    checks_valid_sound seen [] h = (refl, refl)
    checks_valid_sound seen (c ∷ cs) h = elim (Result-cases (check_valid U c)) [
      | inr (e, p) ↦ absurd (ground arith)
      | inl (t, p) ↦
          let r = checks_valid_sound (c.id ∷ seen) cs (ground arith) in
          (ground arith, ground (arith, check_valid_iff c))
    ]

    checks_valid-ordered :
        (i : Runes) (seen : List Runes) (cs : List Check)
        → AreBefore i seen
        → is_ordered_from i cs ≡ true
        → all (λ (c : Check). valid_check_id c.id) cs ≡ true
        → all is_sound_check cs ≡ true
        → checks_valid U (i ∷ seen) cs ≡ ok tt
    unfolding checks_valid require is_ordered_from
    checks_valid-ordered i seen [] a o v s = refl
    checks_valid-ordered i seen (c ∷ cs) a o v s =
        let before : AreBefore c.id (i ∷ seen) =
          (ground arith, AreBefore-trans i c.id seen (ground arith) a) in
        let new = AreBefore-unseen c.id (i ∷ seen) before in
        let valid = (check_valid_iff c).1 (ground arith) in
        let rest =
          checks_valid-ordered c.id (i ∷ seen) cs before (ground arith) (ground arith)
            (ground arith) in
        ground arith

    checks_valid-canonical :
        (cs : List Check)
        → is_ordered cs ≡ true
        → all (λ (c : Check). valid_check_id c.id) cs ≡ true
        → all is_sound_check cs ≡ true
        → checks_valid U [] cs ≡ ok tt
    unfolding checks_valid require is_ordered
    checks_valid-canonical [] o v s = refl
    checks_valid-canonical (c ∷ cs) o v s =
        let valid = (check_valid_iff c).1 (ground arith) in
        let rest = checks_valid-ordered c.id [] cs tt o (ground arith) (ground arith) in
        ground arith

    sound-has_block_exit :
        (cs : List Check) → all is_sound_check cs ≡ true → all has_block_exit cs ≡ true
    sound-has_block_exit [] h = refl
    sound-has_block_exit (c ∷ cs) h =
        let r = sound-has_block_exit cs (ground arith) in
        let e = valid_check_exit-has_block_exit c (ground arith) in ground arith

    pub validate_report-IsCanonical : (r : Report) → validate_report U r ≡ ok tt → IsCanonical r
    unfolding validate_report require
    validate_report-IsCanonical r h = elim (Result-cases (checks_valid U [] r.checks)) [
      | inr (e, p) ↦ absurd (ground arith)
      | inl (t, p) ↦
          let v = checks_valid_sound [] r.checks (ground arith) in
          let worst = aggregate-eq-worst r.checks (sound-has_block_exit r.checks v.1) in
          record {
            version = ground (arith, ==_iff r.schema_version schema_version);
            named = ground (arith, ==_iff r.session_ref []);
            plainly_named = ground (arith, valid_report_text-eq r.session_ref 4160);
            some_checks = ground (arith, ==_iff (length r.checks) 0);
            few_checks = ground arith;
            identified = v.0;
            sound = v.1;
            ordered =
                (normalize_checks-fixed_iff r.checks).0.0
                  (ground (arith, same_checks_iff (normalize_checks r.checks) r.checks));
            decided =
                sym ((same_decision_iff (aggregate r.checks).0 r.decision).0 (ground arith))
                ∙ ap (λ t. t.0) worst;
            exits =
                sym ((==_iff (aggregate r.checks).1 r.block_exit_code).0 (ground arith))
                ∙ ap (λ t. t.1) worst;
          }
    ]

    IsCanonical-validate_report : (r : Report) → IsCanonical r → validate_report U r ≡ ok tt
    unfolding validate_report require
    IsCanonical-validate_report r c =
        let v = checks_valid-canonical r.checks c.ordered c.identified c.sound in
        let worst = aggregate-eq-worst r.checks (sound-has_block_exit r.checks c.sound) in
        let trimmed =
          (==_iff (trim_space U r.session_ref) r.session_ref).1
            (trim_space-clean U std r.session_ref (ground (arith, c.plainly_named))) in
        let decided =
          (same_decision_iff (aggregate r.checks).0 r.decision).1
            (ap (λ t. t.0) worst ∙ sym c.decided) in
        let exits =
          (==_iff (aggregate r.checks).1 r.block_exit_code).1 (ap (λ t. t.1) worst ∙ sym c.exits) in
        let kept =
          (same_checks_iff (normalize_checks r.checks) r.checks).1
            (normalize_checks-fixed r.checks c.ordered) in
        let text_valid = valid_report_text-eq r.session_ref 4160 in
        let version = (==_iff r.schema_version schema_version).1 c.version in
        let first : (r.schema_version == schema_version
              && trim_space U r.session_ref == r.session_ref
              && valid_report_text U r.session_ref max_session_reference_runes
              && not (r.session_ref == [])
              && not (length r.checks == 0)
              && leb (length r.checks) 2048)
            ≡ true =
          ground (
            arith,
            ==_iff r.session_ref [],
            c.named,
            c.plainly_named,
            c.some_checks,
            c.few_checks,
          ) in
        ground (arith, first, v, kept, decided, exits)

    -- A report is accepted exactly when it is canonical: of this schema version, named by a short
    -- plain text, with 1 to 2048 checks whose ids are valid and stand in the strict order of
    -- display, each with known values, plain texts and an exit code that its severity allows; and
    -- its decision and exit code are those of the worst check.
    pub validate_report-ok_iff : (r : Report) → (validate_report U r ≡ ok tt) ↔ IsCanonical r
    validate_report-ok_iff r = (validate_report-IsCanonical r, IsCanonical-validate_report r)
