-- ===== src/Preflight/Normalize.antt =====
-- `normalizeChecks`, `checkTrustRank` and `severityRank` (internal/preflight/verify.go): the checks
-- in their order of display, one for each id.
pub mod Order
pub mod Unique
pub mod Trust
pub mod Kept
use reinstate.Base.{
  ℕ, ◌+◌, ◌*◌, Bool, true, false, not, ◌&&◌, ◌||◌, Option, none, some, List, [], ◌∷◌, ltb,
  if◌then◌else◌, ◌==◌, nat_eq, bytes_eq, codes,
}
use reinstate.Base.Dict.{Dict, lookup}
use reinstate.SafeText.{Runes}
use reinstate.Workspace.Model.{Status, Severity}
use reinstate.Preflight.Model.{Check}
use reinstate.Preflight.ExitCode

abbrev pub priority : Dict Runes ℕ
priority =
    (codes "source.fresh", 0)
    ∷ (codes "baseline.unavailable", 1)
    ∷ (codes "baseline.available", 1)
    ∷ (codes "workspace.available", 2)
    ∷ (codes "git.available", 3)
    ∷ (codes "git.probe", 4)
    ∷ (codes "git.status", 5)
    ∷ (codes "git.repository", 6)
    ∷ (codes "git.branch", 7)
    ∷ (codes "git.head", 8)
    ∷ (codes "git.working_tree", 9)
    ∷ (codes "agent.executable", 10)
    ∷ (codes "agent.layout", 11)
    ∷ (codes "agent.version", 12)
    ∷ []

-- Go's `<` on texts.
unfoldable pub precedes : Runes → Runes → Bool
precedes [] [] = false
precedes [] (d ∷ ds) = true
precedes (c ∷ cs) [] = false
precedes (c ∷ cs) (d ∷ ds) = ltb c d || c == d && precedes cs ds

-- The comparison of `sort.SliceStable`, on the answers of the table.
unfoldable pub comes_before_at : Option ℕ → Option ℕ → Runes → Runes → Bool
comes_before_at none none i j = precedes i j
comes_before_at none (some right) i j = false
comes_before_at (some left) none i j = true
comes_before_at (some left) (some right) i j =
    if not (left == right) then ltb left right else precedes i j

unfoldable pub comes_before : Runes → Runes → Bool
comes_before i j = comes_before_at (lookup i priority) (lookup j priority) i j

-- A stable sort: a check passes only those that come before it.
unfoldable pub insert_check : Check → List Check → List Check
insert_check check [] = check ∷ []
insert_check check (c ∷ cs) =
    let rest = insert_check check cs in
    if comes_before c.id check.id then c ∷ rest else check ∷ c ∷ cs

unfoldable pub sort_checks : List Check → List Check
sort_checks [] = []
sort_checks (c ∷ cs) = insert_check c (sort_checks cs)

unfoldable pub severity_rank : Severity → ℕ
severity_rank Severity.block = 3
severity_rank Severity.warning = 2
severity_rank _ = 1

abbrev pub is_block : Severity → Bool
is_block Severity.block = true
is_block _ = false

abbrev pub is_warning : Severity → Bool
is_warning Severity.warning = true
is_warning _ = false

abbrev pub is_error : Status → Bool
is_error Status.error = true
is_error _ = false

unfoldable pub check_trust_rank : Check → ℕ
check_trust_rank check =
    severity_rank check.severity * 100
    + (if is_block check.severity
        then (if check.exit_code == ExitCode.runtime
            then 30
            else if check.exit_code == ExitCode.safety
            then 20
            else if check.exit_code == ExitCode.compatibility
            then 10
            else 0)
        else 0)
    + (if is_error check.status then 1 else 0)

-- Which of two checks with one id stays.
abbrev pub more_trusted : Check → Check → Check
more_trusted last check =
    if ltb (check_trust_rank last) (check_trust_rank check) then check else last

-- The loop after the sort, from the last check of the result on.
unfoldable pub keep_most_trusted : Check → List Check → List Check
keep_most_trusted last [] = last ∷ []
keep_most_trusted last (check ∷ checks) =
    let repeated = last.id == check.id in
    let rest = keep_most_trusted (if repeated then more_trusted last check else check) checks in
    if repeated then rest else last ∷ rest

unfoldable pub unique_checks : List Check → List Check
unique_checks [] = []
unique_checks (check ∷ checks) = keep_most_trusted check checks

unfoldable pub normalize_checks : List Check → List Check
normalize_checks checks = unique_checks (sort_checks checks)
