-- ===== src/Preflight/Authorize/Verdict.antt =====
-- The exit code and the warnings that `Authorize` (internal/preflight/policy.go) answers with, told from
-- the report and the acknowledgements.
use reinstate.Base.{
  ℕ, suc, ◌≡◌, refl, ap, ◌∙◌, Bool, true, false, not, ◌&&◌, ◌||◌, List, [], ◌∷◌, any, all, leb,
  if◌then◌else◌, ◌==◌, ==_iff, nat_eq, bytes_eq, contains, arith,
}
use reinstate.SafeText.{Runes, Unicode, IsStandard}
use reinstate.Workspace.Model.{Severity}
use reinstate.Preflight.Model.{Check, Report, Authorization}
use reinstate.Preflight.Normalize.{is_warning, precedes}
use reinstate.Preflight.Aggregate.Worst.{worst_exit}
use reinstate.Preflight.Report.{validate_report}
use reinstate.Preflight.Authorize.{
  insert_text, sort_texts, current_warnings, is_blocked, unseen, authorize,
}
use reinstate.Preflight.Authorize.Exact.{are_distinct, are_warnings, trimmed, are_exact}
use reinstate.Preflight.Authorize.Policy.{is_empty, is_accepted, verdict, authorize-eq-verdict}
use reinstate.Preflight.ExitCode

-- The dictionary order on texts.
unfoldable pub text_le : Runes → Runes → Bool
text_le [] u = true
text_le (c ∷ t) [] = false
text_le (c ∷ t) (d ∷ u) = let rest = text_le t u in if c == d then rest else leb c d

unfoldable pub is_ascending_after : Runes → List Runes → Bool
is_ascending_after t [] = true
is_ascending_after t (u ∷ us) = text_le t u && is_ascending_after u us

unfoldable pub is_ascending : List Runes → Bool
is_ascending [] = true
is_ascending (t ∷ ts) = is_ascending_after t ts

-- How often a text stands in a list.
unfoldable pub count : Runes → List Runes → ℕ
count i [] = 0
count i (j ∷ is) = let rest = count i is in if j == i then suc rest else rest

abbrev pub asks : Severity → Bool
asks Severity.warning = true
asks _ = false

-- How many warnings of the checks have the id.
unfoldable pub count_warned : Runes → List Check → ℕ
count_warned i [] = 0
count_warned i (c ∷ cs) =
    let rest = count_warned i cs in if asks c.severity && c.id == i then suc rest else rest

abbrev pub is_warned : List Check → Runes → Bool
is_warned cs i = any (λ c. asks c.severity && c.id == i) cs

is_warning-eq : (s : Severity) → is_warning s ≡ asks s
is_warning-eq Severity.info = refl
is_warning-eq Severity.warning = refl
is_warning-eq Severity.block = refl
is_warning-eq (Severity.other s) = refl

text_le-total : (t u : Runes) → text_le t u ≡ false → text_le u t ≡ true
unfolding text_le
text_le-total [] u h = absurd (ground arith)
text_le-total (c ∷ t) [] h = refl
text_le-total (c ∷ t) (d ∷ u) h = ground (arith, text_le-total t u)

not-precedes : (t u : Runes) → not (precedes u t) ≡ text_le t u
unfolding precedes text_le
not-precedes [] [] = refl
not-precedes [] (d ∷ u) = refl
not-precedes (c ∷ t) [] = refl
not-precedes (c ∷ t) (d ∷ u) = ground (arith, not-precedes t u)

insert_text-is_ascending_after :
    (u t : Runes) (ts : List Runes)
    → text_le u t ≡ true
    → is_ascending_after u ts ≡ true
    → is_ascending_after u (insert_text t ts) ≡ true
unfolding is_ascending_after insert_text
insert_text-is_ascending_after u t [] p h = ground arith
insert_text-is_ascending_after u t (v ∷ vs) p h =
    ground (arith, not-precedes t v, text_le-total t v, insert_text-is_ascending_after v t vs)

insert_text-is_ascending :
    (t : Runes) (ts : List Runes) → is_ascending ts ≡ true → is_ascending (insert_text t ts) ≡ true
unfolding is_ascending is_ascending_after insert_text
insert_text-is_ascending t [] h = refl
insert_text-is_ascending t (v ∷ vs) h =
    ground (arith, not-precedes t v, text_le-total t v, insert_text-is_ascending_after v t vs)

sort_texts-is_ascending : (ts : List Runes) → is_ascending (sort_texts ts) ≡ true
unfolding sort_texts is_ascending
sort_texts-is_ascending [] = refl
sort_texts-is_ascending (t ∷ ts) =
    insert_text-is_ascending t (sort_texts ts) (sort_texts-is_ascending ts)

count-insert_text : (i t : Runes) (ts : List Runes) → count i (insert_text t ts) ≡ count i (t ∷ ts)
unfolding count insert_text
count-insert_text i t [] = refl
count-insert_text i t (u ∷ ts) = ground (arith, count-insert_text i t ts)

count-sort_texts : (i : Runes) (ts : List Runes) → count i (sort_texts ts) ≡ count i ts
unfolding count sort_texts
count-sort_texts i [] = refl
count-sort_texts i (t ∷ ts) =
    ground (arith, count-insert_text i t (sort_texts ts), count-sort_texts i ts)

count-unseen :
    (i : Runes) (seen : List Runes) (cs : List Check)
    → count i (unseen seen (current_warnings cs))
      ≡ (if contains seen i then 0 else count_warned i cs)
unfolding count unseen current_warnings count_warned
count-unseen i seen [] = ground arith
count-unseen i seen (c ∷ cs) =
    ground (arith, count-unseen i seen cs, is_warning-eq c.severity, ==_iff c.id i)

contains-current_warnings :
    (cs : List Check) (i : Runes) → contains (current_warnings cs) i ≡ is_warned cs i
unfolding current_warnings
contains-current_warnings [] i = refl
contains-current_warnings (c ∷ cs) i =
    ground (arith, contains-current_warnings cs i, is_warning-eq c.severity)

are_warnings-eq :
    (cs : List Check) (ids : List Runes)
    → are_warnings (current_warnings cs) ids ≡ all (is_warned cs) ids
are_warnings-eq cs [] = refl
are_warnings-eq cs (i ∷ ids) =
    ground (arith, are_warnings-eq cs ids, contains-current_warnings cs i)

-- Every warning of the checks is among the ids.
abbrev pub is_confirmed_by : List Runes → List Check → Bool
is_confirmed_by ids cs = all (λ c. not (asks c.severity) || contains ids c.id) cs

is_empty-insert_text : (t : Runes) (ts : List Runes) → is_empty (insert_text t ts) ≡ false
unfolding insert_text
is_empty-insert_text t [] = refl
is_empty-insert_text t (u ∷ us) = ground arith

is_empty-sort_texts : (ts : List Runes) → is_empty (sort_texts ts) ≡ is_empty ts
unfolding sort_texts
is_empty-sort_texts [] = refl
is_empty-sort_texts (t ∷ ts) = is_empty-insert_text t (sort_texts ts)

is_empty-unseen :
    (seen : List Runes) (cs : List Check)
    → is_empty (unseen seen (current_warnings cs)) ≡ is_confirmed_by seen cs
unfolding unseen current_warnings
is_empty-unseen seen [] = refl
is_empty-unseen seen (c ∷ cs) = ground (arith, is_empty-unseen seen cs, is_warning-eq c.severity)

module _ (U : Unicode) where
  -- The acknowledgements, but for the space around them, are distinct warnings of the report.
  abbrev pub are_proper : Report → List Runes → Bool
  are_proper r allowed =
      are_distinct [] (trimmed U allowed) && all (is_warned r.checks) (trimmed U allowed)

  abbrev pub exit_of : Report → List Runes → ℕ
  exit_of r allowed =
      if not (is_accepted (validate_report U r))
      then ExitCode.runtime
      else if is_blocked r.decision
      then worst_exit r.checks
      else if not (are_proper r allowed)
      then ExitCode.usage
      else if is_confirmed_by (trimmed U allowed) r.checks
      then ExitCode.ok
      else ExitCode.safety

  -- Whether the warnings decide.
  abbrev pub is_open : Report → List Runes → Bool
  is_open r allowed =
      is_accepted (validate_report U r) && not (is_blocked r.decision) && are_proper r allowed

  -- What an authorization tells of its report and acknowledgements.
  pub record IsVerdict (r : Report) (allowed : List Runes) (a : Authorization) : Type 0 where
    pub exit : a.exit_code ≡ exit_of r allowed
    pub listed :
        (i : Runes)
        → count i a.warnings ≡ (
            if is_open r allowed && not (contains (trimmed U allowed) i)
            then count_warned i r.checks
            else 0)
    pub ascending : is_ascending a.warnings ≡ true

  are_exact-eq : (r : Report) (allowed : List Runes) → are_exact U r allowed ≡ are_proper r allowed
  are_exact-eq r allowed = ground (arith, are_warnings-eq r.checks (trimmed U allowed))

  -- The warnings that no acknowledgement names, as `Authorize` sorts them.
  abbrev missing : Report → List Runes → List Runes
  missing r allowed = sort_texts (unseen (trimmed U allowed) (current_warnings r.checks))

  verdict-exit : (r : Report) (allowed : List Runes) → (verdict U r allowed).0 ≡ exit_of r allowed
  verdict-exit r allowed = ground (
    arith,
    are_exact-eq r allowed,
    is_empty-sort_texts (unseen (trimmed U allowed) (current_warnings r.checks)),
    is_empty-unseen (trimmed U allowed) r.checks,
  )

  verdict-warnings :
      (r : Report) (allowed : List Runes)
      → (verdict U r allowed).1 ≡ (if is_open r allowed then missing r allowed else [])
  verdict-warnings r allowed = ground (arith, are_exact-eq r allowed)

  listed-verdict :
      (r : Report) (allowed : List Runes) (i : Runes)
      → count i (verdict U r allowed).1 ≡ (
          if is_open r allowed && not (contains (trimmed U allowed) i)
          then count_warned i r.checks
          else 0)
  unfolding count
  listed-verdict r allowed i =
      ap (count i) (verdict-warnings r allowed)
      ∙ ground (
        arith,
        count-sort_texts i (unseen (trimmed U allowed) (current_warnings r.checks)),
        count-unseen i (trimmed U allowed) r.checks,
      )

  ascending-verdict :
      (r : Report) (allowed : List Runes) → is_ascending (verdict U r allowed).1 ≡ true
  unfolding is_ascending
  ascending-verdict r allowed =
      ap is_ascending (verdict-warnings r allowed)
      ∙ ground
          (arith, sort_texts-is_ascending (unseen (trimmed U allowed) (current_warnings r.checks)))

  -- The exit code of `Authorize` is 1 for a report that is not accepted; else, for a blocked one,
  -- the exit code of the blocker that takes precedence; else 2 unless the acknowledgements, but
  -- for the space around them, are distinct warnings of the report; else 0 where they name every
  -- warning and 7 where they do not. The warnings that it returns are in ascending order, and are
  -- those that no acknowledgement names, as often as the report has them, where the report is
  -- accepted, not blocked and properly acknowledged; else there is none.
  pub authorize-IsVerdict :
      (r : Report) (allowed : List Runes)
      → IsStandard U
      → IsVerdict r allowed (authorize U r allowed).0
  authorize-IsVerdict r allowed std =
      let v = authorize-eq-verdict U std r allowed in
      record {
        exit = ap (λ o. o.0) v ∙ verdict-exit r allowed;
        listed = λ i. ap (λ o. count i o.1) v ∙ listed-verdict r allowed i;
        ascending = ap (λ o. is_ascending o.1) v ∙ ascending-verdict r allowed;
      }
