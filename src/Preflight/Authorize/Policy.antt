-- ===== src/Preflight/Authorize/Policy.antt =====
-- What `Authorize` (internal/preflight/policy.go) promises the launch.
use reinstate.Base.{
  ℕ, ◌≡◌, refl, ap, sym, subst, ◌∙◌, ◌↔◌, inl, inr, Bool, true, false, not, List, [], ◌∷◌,
  if◌then◌else◌, ◌==◌, ==_iff, ==_refl, nat_eq, bytes_eq, contains, ok, err, arith, Bool-cases,
  Result, Result-cases,
}
use reinstate.SafeText.{Runes, Unicode, IsStandard}
use reinstate.Preflight.Model.{Decision, blocked, Check, Report, Authorization}
use reinstate.Preflight.Aggregate.Worst.{worst_decision, worst_exit}
use reinstate.Preflight.Report.{ReportError, validate_report}
use reinstate.Preflight.Report.Canonical.{validate_report-ok_iff}
use reinstate.Preflight.Authorize.{
  sort_texts, current_warnings, is_blocked, confirm, authorize_valid, authorize,
}
use reinstate.Preflight.Authorize.Exact.{
  contains-sort_texts, contains-unseen, are_distinct, are_warnings, trimmed, are_exact,
  unconfirmed_warnings, authorize-open, authorize-misused,
}
use reinstate.Preflight.ExitCode

abbrev pub is_empty : List Runes → Bool
is_empty [] = true
is_empty (i ∷ is) = false

abbrev pub is_accepted : Result ReportError (Unit {0}) → Bool
is_accepted (ok done) = true
is_accepted (err problem) = false

are_warnings-contains :
    (warnings ids : List Runes) (i : Runes)
    → are_warnings warnings ids ≡ true
    → contains ids i ≡ true
    → contains warnings i ≡ true
are_warnings-contains warnings [] i h c = absurd (ground arith)
are_warnings-contains warnings (j ∷ ids) i h c =
    ground (arith, are_warnings-contains warnings ids i, ==_iff j i)

contains-are_warnings :
    (warnings ids : List Runes)
    → ((i : Runes) → contains ids i ≡ true → contains warnings i ≡ true)
    → are_warnings warnings ids ≡ true
contains-are_warnings warnings [] h = refl
contains-are_warnings warnings (j ∷ ids) h =
    let here = h j (ground (arith, ==_refl j)) in
    let rest = contains-are_warnings warnings ids (λ i c. h i (ground arith)) in ground arith

contains-none : (ids : List Runes) → ((i : Runes) → contains ids i ≡ false) → ids ≡ []
contains-none [] h = refl
contains-none (j ∷ ids) h = absurd (ground (arith, h j, ==_refl j))

is_blocked-eq : (d : Decision) → is_blocked d ≡ true → d ≡ blocked
is_blocked-eq Decision.blocked h = refl
is_blocked-eq Decision.ready h = absurd (ground arith)
is_blocked-eq Decision.confirmation_required h = absurd (ground arith)
is_blocked-eq (Decision.other s) h = absurd (ground arith)

worst_exit-blocked :
    (cs : List Check) → is_blocked (worst_decision cs) ≡ true → (worst_exit cs == 0) ≡ false
worst_exit-blocked cs h = ground arith

module _ (U : Unicode) where
  abbrev outcome : Authorization → ℕ × List Runes
  outcome a = (a.exit_code, a.warnings)

  outcome-confirm :
      (ids : List Runes)
      → outcome (confirm U ids).0 ≡ (if is_empty ids then ExitCode.ok else ExitCode.safety, ids)
  unfolding confirm
  outcome-confirm [] = refl
  outcome-confirm (i ∷ is) = refl

  -- The exit code and the warnings that belong to a report and its acknowledgements.
  abbrev pub verdict : Report → List Runes → ℕ × List Runes
  verdict r allowed =
      let missing = sort_texts (unconfirmed_warnings U r allowed) in
      if not (is_accepted (validate_report U r))
      then (ExitCode.runtime, [])
      else if is_blocked r.decision
      then (worst_exit r.checks, [])
      else if not (are_exact U r allowed)
      then (ExitCode.usage, [])
      else (if is_empty missing then ExitCode.ok else ExitCode.safety, missing)

  module _ (std : IsStandard U) where
    rejected :
        (r : Report) (allowed : List Runes) (e : ReportError)
        → validate_report U r ≡ err e
        → ((authorize U r allowed).0.allowed ≡ false)
          × (outcome (authorize U r allowed).0 ≡ (ExitCode.runtime, []))
    unfolding authorize authorize_valid
    rejected r allowed e v = rw v (refl, refl)

    stopped :
        (r : Report) (allowed : List Runes)
        → validate_report U r ≡ ok tt
        → is_blocked r.decision ≡ true
        → ((authorize U r allowed).0.allowed ≡ false)
          × (outcome (authorize U r allowed).0 ≡ (worst_exit r.checks, []))
    unfolding authorize authorize_valid
    stopped r allowed v b =
        let c = (validate_report-ok_iff U std r).0 v in
        let some_exit =
          worst_exit-blocked r.checks (subst (λ d. is_blocked d ≡ true) c.decided b) in
        rw (v, b, c.exits, some_exit) (refl, refl)

    -- The exit code and the warnings, in terms of the code's own `unseen` and `sort_texts`.
    pub authorize-eq-verdict :
        (r : Report) (allowed : List Runes)
        → ((authorize U r allowed).0.exit_code, (authorize U r allowed).0.warnings)
          ≡ verdict r allowed
    authorize-eq-verdict r allowed = elim (Result-cases (validate_report U r)) [
      | inr (e, v) ↦ rw v (rejected r allowed e v).1
      | inl (t, v) ↦ elim (Bool-cases (is_blocked r.decision)) [
        | inl b ↦ rw (v, b) (stopped r allowed v b).1
        | inr b ↦ elim (Bool-cases (are_exact U r allowed)) [
          | inl x ↦
              rw (v, b, x, authorize-open U std r allowed v b x)
                (outcome-confirm (sort_texts (unconfirmed_warnings U r allowed)))
          | inr x ↦ let m = authorize-misused U std r allowed v b x in rw (v, b, x, m.1, m.2) refl
        ]
      ]
    ]

    allowed-confirm : (ids : List Runes) → (confirm U ids).0.allowed ≡ is_empty ids
    unfolding confirm
    allowed-confirm [] = refl
    allowed-confirm (i ∷ is) = refl

    authorize-Exact :
        (r : Report) (allowed : List Runes)
        → (authorize U r allowed).0.allowed ≡ true
        → (validate_report U r ≡ ok tt)
          × (is_blocked r.decision ≡ false)
          × (are_exact U r allowed ≡ true)
          × (is_empty (sort_texts (unconfirmed_warnings U r allowed)) ≡ true)
    authorize-Exact r allowed h = elim (Result-cases (validate_report U r)) [
      | inr (e, v) ↦ absurd (ground (arith, rejected r allowed e v))
      | inl (t, v) ↦ elim (Bool-cases (is_blocked r.decision)) [
        | inl b ↦ absurd (ground (arith, stopped r allowed v b))
        | inr b ↦ elim (Bool-cases (are_exact U r allowed)) [
          | inl x ↦
              let o = authorize-open U std r allowed v b x in
              (
                v,
                b,
                x,
                sym (allowed-confirm (sort_texts (unconfirmed_warnings U r allowed)))
                    ∙ sym (ap (λ t. t.0.allowed) o)
                    ∙ h,
              )
          | inr x ↦ absurd (ground (arith, authorize-misused U std r allowed v b x))
        ]
      ]
    ]

    is_empty-contains :
        (ids : List Runes) (i : Runes) → is_empty ids ≡ true → contains ids i ≡ false
    is_empty-contains [] i h = refl
    is_empty-contains (j ∷ ids) i h = absurd (ground arith)

    -- The warnings of the report are what is acknowledged.
    same_warnings :
        (r : Report) (allowed : List Runes)
        → are_exact U r allowed ≡ true
        → is_empty (sort_texts (unconfirmed_warnings U r allowed)) ≡ true
        → (i : Runes) → contains (trimmed U allowed) i ≡ contains (current_warnings r.checks) i
    same_warnings r allowed x e i =
        let none_there = is_empty-contains (sort_texts (unconfirmed_warnings U r allowed)) i e in
        ground (
          arith,
          contains-sort_texts i (unconfirmed_warnings U r allowed),
          contains-unseen (trimmed U allowed) i (current_warnings r.checks),
          are_warnings-contains (current_warnings r.checks) (trimmed U allowed) i (ground arith),
        )

    none_unconfirmed :
        (r : Report) (allowed : List Runes)
        → ((i : Runes) → contains (trimmed U allowed) i ≡ contains (current_warnings r.checks) i)
        → sort_texts (unconfirmed_warnings U r allowed) ≡ []
    none_unconfirmed r allowed same =
        contains-none (sort_texts (unconfirmed_warnings U r allowed)) (λ i. ground (
          arith,
          contains-sort_texts i (unconfirmed_warnings U r allowed),
          contains-unseen (trimmed U allowed) i (current_warnings r.checks),
          same i,
        ))

    -- A launch is allowed exactly when the report is accepted and not blocked, and the
    -- acknowledgements, but for the space around them, are the report's warnings, each once.
    pub authorize-allowed_iff :
        (r : Report) (allowed : List Runes)
        → ((authorize U r allowed).0.allowed ≡ true) ↔ (
            (validate_report U r ≡ ok tt)
            × (is_blocked r.decision ≡ false)
            × (are_distinct [] (trimmed U allowed) ≡ true)
            × ((i : Runes)
                → contains (trimmed U allowed) i ≡ contains (current_warnings r.checks) i))
    authorize-allowed_iff r allowed = (
      λ h.
          let a = authorize-Exact r allowed h in
          (a.0, a.1, ground arith, same_warnings r allowed a.2 a.3),
      λ h.
          let listed =
            contains-are_warnings (current_warnings r.checks) (trimmed U allowed)
              (λ i c. ground (arith, h.3 i)) in
          let o = authorize-open U std r allowed h.0 h.1 (ground arith) in
          ap (λ t. t.0.allowed) o
          ∙ allowed-confirm (sort_texts (unconfirmed_warnings U r allowed))
          ∙ ap is_empty (none_unconfirmed r allowed h.3),
    )
