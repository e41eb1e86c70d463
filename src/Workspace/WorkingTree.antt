-- ===== src/Workspace/WorkingTree.antt =====
-- internal/workspace/compare.go, `compareWorkingTree`: the check on local modifications.
use reinstate.Base.{
  Bool, true, false, not, String, Option, none, some, ◌==◌, string_eq, if◌then◌else◌,
}
use reinstate.Workspace.Model.{
  Status, Severity, WorkingTreeState, modified, ExpectedString, ExpectedBool,
  WorkingTreeFingerprint, GitFingerprint, bool, text, state, Check,
}
use reinstate.Workspace.Provenance.{working_tree_provenance, baseline, baseline_bool}
use reinstate.Workspace.NewCheck.{new_check, conclude}

abbrev pub is_modified : WorkingTreeState → Bool
is_modified modified = true
is_modified _ = false

abbrev pub is_unavailable : WorkingTreeState → Bool
is_unavailable WorkingTreeState.unavailable = true
is_unavailable _ = false

-- The branch `actual.State == WorkingTreeUnavailable`.
compare_unavailable : Option Bool → Option String → Check → Check
compare_unavailable none none check =
    conclude check Status.unknown Severity.warning
      "the current working tree is unavailable and no historical tree baseline exists"
      "review warning git.working_tree before continuing"
compare_unavailable _ _ check =
    conclude check Status.missing Severity.block
      "the recorded working-tree baseline cannot be verified outside a Git repository"
      "restore the recorded Git repository before continuing"

-- The branch with a trusted digest.
compare_digest : String → WorkingTreeFingerprint → Check → Check
compare_digest value actual check =
    let check' = record check { expected = text value; actual = text actual.digest } in
    if value == actual.digest
    then conclude check' Status.match Severity.info
        "the current working tree matches the recorded digest" ""
    else conclude check' Status.changed Severity.warning
        "the current working tree differs from the recorded digest"
        "review local modifications or acknowledge warning git.working_tree"

bool_beq : Bool → Bool → Bool
bool_beq true b = b
bool_beq false b = not b

-- The rest: a trusted flag, or no trusted baseline at all.
compare_dirty : Option Bool → WorkingTreeFingerprint → Check → Check
unfolding bool_beq
compare_dirty none actual check =
    if is_modified actual.state
    then conclude check Status.unknown Severity.warning
        "the current working tree is modified; no historical tree baseline exists"
        "review local modifications or acknowledge warning git.working_tree"
    else conclude check Status.unknown Severity.info
        "the current working tree is clean; no historical tree baseline exists" ""
compare_dirty (some value) actual check =
    let check' = record check { expected = bool value } in
    if bool_beq value (is_modified actual.state)
    then conclude check' Status.match Severity.info
        "the current working-tree state matches the recorded baseline" ""
    else conclude check' Status.changed Severity.warning
        "the current working-tree state differs from the recorded baseline"
        "review local modifications or acknowledge warning git.working_tree"

-- The body after the check is made, on the two baselines.
unfoldable pub judge_working_tree :
    Option Bool → Option String → WorkingTreeFingerprint → Check → Check
unfolding compare_unavailable compare_digest compare_dirty
judge_working_tree flag digest actual check =
    if actual.uncertain
    then conclude check Status.unknown Severity.warning
        "the working tree could not be compared without trusting repository-controlled behavior"
        "review warning git.working_tree before continuing"
    else if is_unavailable actual.state
    then compare_unavailable flag digest check
    else elim digest [
      | some value ↦ compare_digest value actual check
      | none ↦ compare_dirty flag actual check
    ]

unfoldable pub compare_working_tree :
    Option ExpectedBool → Option ExpectedString → GitFingerprint → Check
compare_working_tree expected expected_digest git =
    judge_working_tree (baseline_bool expected) (baseline expected_digest) git.working_tree (
      new_check "git.working_tree" (working_tree_provenance expected expected_digest)
        (state git.working_tree.state))
