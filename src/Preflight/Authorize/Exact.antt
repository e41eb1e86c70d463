-- ===== src/Preflight/Authorize/Exact.antt =====
-- When `Authorize` (internal/preflight/policy.go) allows a launch, and with which exit code it refuses.
use reinstate.Base.{
  ℕ, ◌≡◌, refl, inl, inr, Bool, true, false, not, ◌&&◌, ◌||◌, List, [], ◌∷◌, map, all, ◌==◌, ==_iff,
  nat_eq, bytes_eq, codes, contains, ok, err, arith, Result-cases,
}
use reinstate.SafeText.{Runes, Unicode, IsStandard, trim_space}
use reinstate.Preflight.Model.{Check, Report}
use reinstate.Preflight.Report.{is_id_rune, valid_check_id, validate_report}
use reinstate.Preflight.Report.Canonical.{IsCanonical, validate_report-ok_iff}
use reinstate.Preflight.Authorize.{
  Refusal, insert_text, sort_texts, current_warnings, has_wildcard, refuse_when, is_blocked, unseen,
  read_allowed, confirm, confirm_read, authorize_valid, authorize,
}
use reinstate.Preflight.ExitCode

contains-insert_text :
    (t i : Runes) (ts : List Runes) → contains (insert_text t ts) i ≡ t == i || contains ts i
unfolding insert_text
contains-insert_text t i [] = refl
contains-insert_text t i (u ∷ ts) = ground (arith, contains-insert_text t i ts)

pub contains-sort_texts : (i : Runes) (ts : List Runes) → contains (sort_texts ts) i ≡ contains ts i
unfolding sort_texts
contains-sort_texts i [] = refl
contains-sort_texts i (t ∷ ts) =
    ground (arith, contains-insert_text t i (sort_texts ts), contains-sort_texts i ts)

pub contains-unseen :
    (seen : List Runes) (i : Runes) (ids : List Runes)
    → contains (unseen seen ids) i ≡ contains ids i && not (contains seen i)
unfolding unseen
contains-unseen seen i [] = refl
contains-unseen seen i (id ∷ ids) = ground (arith, contains-unseen seen i ids, ==_iff id i)

-- An id of a check is not empty and has no wildcard.
id_rune-no_wildcard : (c : ℕ) → is_id_rune c ≡ true → contains (codes "*?[]") c ≡ false
id_rune-no_wildcard c h = ground arith

all-has_wildcard : (id : Runes) → all is_id_rune id ≡ true → has_wildcard id ≡ false
all-has_wildcard [] h = refl
all-has_wildcard (c ∷ id) h =
    let one = id_rune-no_wildcard c (ground arith) in
    let rest = all-has_wildcard id (ground arith) in ground arith

valid_check_id-no_wildcard :
    (id : Runes) → valid_check_id id ≡ true → id == [] || has_wildcard id ≡ false
unfolding valid_check_id
valid_check_id-no_wildcard [] h = absurd (ground arith)
valid_check_id-no_wildcard (c ∷ id) h = ground (arith, all-has_wildcard (c ∷ id))

current_warnings-valid :
    (id : Runes) (cs : List Check)
    → all (λ (c : Check). valid_check_id c.id) cs ≡ true
    → contains (current_warnings cs) id ≡ true
    → valid_check_id id ≡ true
unfolding current_warnings
current_warnings-valid id [] v h = absurd (ground arith)
current_warnings-valid id (c ∷ cs) v h =
    ground (arith, current_warnings-valid id cs, ==_iff c.id id)

-- No text stands twice, or among those seen.
unfoldable pub are_distinct : List Runes → List Runes → Bool
are_distinct seen [] = true
are_distinct seen (i ∷ is) = not (contains seen i) && are_distinct (i ∷ seen) is

-- What the loop accepts, and what it has then seen.
abbrev pub are_warnings : List Runes → List Runes → Bool
are_warnings warnings ids = all (λ i. contains warnings i) ids

module _ (U : Unicode) where
  abbrev pub trimmed : List Runes → List Runes
  trimmed allowed = map (trim_space U) allowed

  module _ (warnings : List Runes)
      (plain : (i : Runes) → contains warnings i ≡ true → i == [] || has_wildcard i ≡ false) where
    read_allowed-accepts :
        (seen allowed : List Runes)
        → are_distinct seen (trimmed allowed) && are_warnings warnings (trimmed allowed) ≡ true
        → (all_seen : List Runes) × (read_allowed U warnings seen allowed ≡ ok all_seen)
          × ((i : Runes) → contains all_seen i ≡ contains seen i || contains (trimmed allowed) i)
    unfolding read_allowed refuse_when are_distinct
    read_allowed-accepts seen [] h = (seen, refl, λ i. ground arith)
    read_allowed-accepts seen (raw ∷ allowed) h =
        let id = trim_space U raw in
        let r = read_allowed-accepts (id ∷ seen) allowed (ground arith) in
        (r.0, ground (arith, plain id, r.1), λ i. ground (arith, r.2 i))

    read_allowed-ok :
        (seen allowed all_seen : List Runes)
        → read_allowed U warnings seen allowed ≡ ok all_seen
        → are_distinct seen (trimmed allowed) && are_warnings warnings (trimmed allowed) ≡ true
    unfolding read_allowed refuse_when are_distinct
    read_allowed-ok seen [] all_seen h = refl
    read_allowed-ok seen (raw ∷ allowed) all_seen h =
        ground (arith, read_allowed-ok (trim_space U raw ∷ seen) allowed all_seen)

    read_allowed-refuses :
        (seen allowed : List Runes)
        → are_distinct seen (trimmed allowed) && are_warnings warnings (trimmed allowed) ≡ false
        → (problem : Refusal) × (read_allowed U warnings seen allowed ≡ err problem)
    read_allowed-refuses seen allowed h =
        elim (Result-cases (read_allowed U warnings seen allowed)) [
          | inl (all_seen, p) ↦ absurd (ground (arith, read_allowed-ok seen allowed all_seen p))
          | inr (problem, p) ↦ (problem, p)
        ]

  -- The acknowledgements, each but for the space around it: distinct, and warnings of the report.
  abbrev pub are_exact : Report → List Runes → Bool
  are_exact r allowed =
      are_distinct [] (trimmed allowed)
      && are_warnings (current_warnings r.checks) (trimmed allowed)

  -- The warnings that no acknowledgement names.
  abbrev pub unconfirmed_warnings : Report → List Runes → List Runes
  unconfirmed_warnings r allowed = unseen (trimmed allowed) (current_warnings r.checks)

  unseen-same :
      (xs ys ids : List Runes)
      → ((i : Runes) → contains xs i ≡ contains ys i)
      → unseen xs ids ≡ unseen ys ids
  unfolding unseen
  unseen-same xs ys [] h = refl
  unseen-same xs ys (id ∷ ids) h = ground (arith, h id, unseen-same xs ys ids h)

  plain_warnings :
      (r : Report) (std : IsStandard U)
      → IsCanonical U r
      → (i : Runes) → contains (current_warnings r.checks) i ≡ true
      → i == [] || has_wildcard i ≡ false
  plain_warnings r std c i h =
      valid_check_id-no_wildcard i (current_warnings-valid i r.checks c.identified h)

  -- `Authorize` on a report that is accepted and not blocked.
  pub authorize-open :
      (std : IsStandard U) (r : Report) (allowed : List Runes)
      → validate_report U r ≡ ok tt
      → is_blocked r.decision ≡ false
      → are_exact r allowed ≡ true
      → authorize U r allowed ≡ confirm U (sort_texts (unconfirmed_warnings r allowed))
  unfolding authorize authorize_valid confirm_read
  authorize-open std r allowed v b e =
      let c = (validate_report-ok_iff U std r).0 v in
      let a =
        read_allowed-accepts (current_warnings r.checks) (plain_warnings r std c) [] allowed e in
      rw (v, b, a.1, unseen-same a.0 (trimmed allowed) (current_warnings r.checks) a.2) refl

  pub authorize-misused :
      (std : IsStandard U) (r : Report) (allowed : List Runes)
      → validate_report U r ≡ ok tt
      → is_blocked r.decision ≡ false
      → are_exact r allowed ≡ false
      → ((authorize U r allowed).0.allowed ≡ false)
        × ((authorize U r allowed).0.exit_code ≡ ExitCode.usage)
        × ((authorize U r allowed).0.warnings ≡ [])
  unfolding authorize authorize_valid confirm_read
  authorize-misused std r allowed v b e =
      let c = (validate_report-ok_iff U std r).0 v in
      let a =
        read_allowed-refuses (current_warnings r.checks) (plain_warnings r std c) [] allowed e in
      rw (v, b, a.1) (refl, refl, refl)
