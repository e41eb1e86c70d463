-- ===== src/Preflight/Authorize.antt =====
-- `Authorize` and `WarningIDs` (internal/preflight/policy.go): the acknowledgements of one launch.
-- Both of Go's results are returned: the authorization, and the error where there is one.
pub mod Exact
pub mod Policy
pub mod Verdict
use reinstate.Base.{
  ℕ, Bool, true, false, not, ◌&&◌, ◌||◌, Option, none, some, List, [], ◌∷◌, any, if◌then◌else◌,
  ◌==◌, nat_eq, bytes_eq, codes, contains, Result, ok, err, ◌>>◌,
}
use reinstate.SafeText.{Runes, Unicode, trim_space}
use reinstate.Preflight.Model.{Decision, blocked, Check, Report, Authorization}
use reinstate.Preflight.Normalize.{is_warning, precedes}
use reinstate.Preflight.Report.{ReportError, validate_report}
use reinstate.Preflight.ExitCode

pub data Refusal : Type 0 where
  invalid_report : ReportError → Refusal
  launch_blocked : Refusal
  invalid_id duplicate_id not_a_warning : Runes → Refusal
  unconfirmed : List Runes → Refusal

-- `sort.Strings`
unfoldable pub insert_text : Runes → List Runes → List Runes
insert_text t [] = t ∷ []
insert_text t (u ∷ us) =
    let rest = insert_text t us in if precedes u t then u ∷ rest else t ∷ u ∷ us

unfoldable pub sort_texts : List Runes → List Runes
sort_texts [] = []
sort_texts (t ∷ ts) = insert_text t (sort_texts ts)

-- The keys of the map `warnings`.
unfoldable pub current_warnings : List Check → List Runes
current_warnings [] = []
current_warnings (c ∷ cs) =
    let rest = current_warnings cs in if is_warning c.severity then c.id ∷ rest else rest

unfoldable pub warning_ids : Report → List Runes
warning_ids report = sort_texts (current_warnings report.checks)

-- `strings.ContainsAny(id, "*?[]")`
abbrev pub has_wildcard : Runes → Bool
has_wildcard id = any (λ c. contains (codes "*?[]") c) id

unfoldable pub refuse_when : Bool → Refusal → Result Refusal (Unit {0})
refuse_when true problem = err problem
refuse_when false problem = ok tt

abbrev pub is_blocked : Decision → Bool
is_blocked blocked = true
is_blocked _ = false

-- The ids that no acknowledgement names.
unfoldable pub unseen : List Runes → List Runes → List Runes
unseen seen [] = []
unseen seen (id ∷ ids) = let rest = unseen seen ids in if contains seen id then rest else id ∷ rest

abbrev refused : ℕ → List Runes → Refusal → Authorization × Option Refusal
refused code warnings problem =
    (record { allowed = false; exit_code = code; warnings = warnings }, some problem)

module _ (U : Unicode) where
  -- The loop over the acknowledgements, up to the set `seen`.
  unfoldable pub read_allowed : List Runes → List Runes → List Runes → Result Refusal (List Runes)
  read_allowed warnings seen [] = ok seen
  read_allowed warnings seen (raw ∷ rest) =
      let id = trim_space U raw in
      refuse_when (id == [] || has_wildcard id) (Refusal.invalid_id id)
      >> refuse_when (contains seen id) (Refusal.duplicate_id id)
      >> refuse_when (not (contains warnings id)) (Refusal.not_a_warning id)
      >> read_allowed warnings (id ∷ seen) rest

  -- From the missing warnings on.
  unfoldable pub confirm : List Runes → Authorization × Option Refusal
  confirm [] = (record { allowed = true; exit_code = ExitCode.ok; warnings = [] }, none)
  confirm (id ∷ ids) = refused ExitCode.safety (id ∷ ids) (Refusal.unconfirmed (id ∷ ids))

  unfoldable pub confirm_read :
      List Runes → Result Refusal (List Runes) → Authorization × Option Refusal
  confirm_read warnings (err problem) = refused ExitCode.usage [] problem
  confirm_read warnings (ok seen) = confirm (sort_texts (unseen seen warnings))

  unfoldable pub authorize_valid :
      Report → List Runes → Result ReportError (Unit {0}) → Authorization × Option Refusal
  authorize_valid report allowed (err problem) =
      refused ExitCode.runtime [] (Refusal.invalid_report problem)
  authorize_valid report allowed (ok done) =
      let warnings = current_warnings report.checks in
      if is_blocked report.decision
      then refused
          (if report.block_exit_code == 0 then ExitCode.runtime else report.block_exit_code) []
          Refusal.launch_blocked
      else confirm_read warnings (read_allowed warnings [] allowed)

  unfoldable pub authorize : Report → List Runes → Authorization × Option Refusal
  authorize report allowed = authorize_valid report allowed (validate_report U report)
