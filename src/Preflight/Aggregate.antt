-- ===== src/Preflight/Aggregate.antt =====
-- `aggregate` and `preferredBlockExit` (internal/preflight/verify.go): the decision over the checks,
-- and the exit code that a blocked launch has.
pub mod Worst
pub mod Normalized
use reinstate.Base.{
  ℕ, Bool, true, false, ◌&&◌, List, [], ◌∷◌, ◌||◌, ltb, if◌then◌else◌, ◌==◌, nat_eq,
}
use reinstate.Preflight.Model.{Decision, ready, confirmation_required, blocked, Check}
use reinstate.Preflight.Normalize.{is_block, is_warning}
use reinstate.Preflight.ExitCode

abbrev is_ready : Decision → Bool
is_ready ready = true
is_ready _ = false

-- The table `rank`, with 0 for the codes that it does not have.
unfoldable pub block_rank : ℕ → ℕ
block_rank code =
    if code == ExitCode.compatibility
    then 1
    else if code == ExitCode.safety
    then 2
    else if code == ExitCode.runtime
    then 3
    else 0

unfoldable pub preferred_block_exit : ℕ → ℕ → ℕ
preferred_block_exit current candidate =
    let candidate' = if candidate == 0 then ExitCode.runtime else candidate in
    if current == 0 || ltb (block_rank current) (block_rank candidate') then candidate' else current

-- One turn of the loop.
unfoldable pub absorb : Decision × ℕ → Check → Decision × ℕ
absorb (decision, exit) check =
    if is_block check.severity
    then (blocked, preferred_block_exit exit check.exit_code)
    else if is_warning check.severity && is_ready decision
    then (confirmation_required, exit)
    else (decision, exit)

unfoldable pub aggregate_from : Decision × ℕ → List Check → Decision × ℕ
aggregate_from state [] = state
aggregate_from state (check ∷ checks) = aggregate_from (absorb state check) checks

unfoldable pub aggregate : List Check → Decision × ℕ
aggregate checks = aggregate_from (ready, 0) checks
