-- ===== src/Workspace/Compare.antt =====
-- internal/workspace/compare.go: the checks that compare a recorded expectation with the current
-- observation, and the decision over them.
pub mod Decisions
pub mod Blocking
pub mod Baselines
use reinstate.Base.{
  Bool, true, false, not, ◌&&◌, ◌||◌, String, Option, none, some, List, [], ◌∷◌, ◌==◌, string_eq,
  contains, if◌then◌else◌,
}
use reinstate.Workspace.Provenance.{expectation_provenance, working_tree_provenance, baseline}
use reinstate.Workspace.NewCheck.{new_check, conclude}
use reinstate.Workspace.WorkingTree.{compare_working_tree}
use reinstate.Workspace.Model.{
  Status, Severity, Decision, Relation, ExpectedString, Expectation, WorkspaceFingerprint,
  CommitRelation, GitFingerprint, Fingerprint, Diagnostic, nil, bool, text, Check, Comparison,
}

abbrev is_some : Option ExpectedString → Bool
is_some none = false
is_some (some _) = true

unfoldable pub compare_workspace : Option ExpectedString → WorkspaceFingerprint → Check
unfolding expectation_provenance
compare_workspace expected actual =
    let check =
      new_check "workspace.available" (expectation_provenance expected)
        (bool (actual.exists && actual.directory)) in
    let check' = if is_some expected then record check { expected = bool true } else check in
    if not actual.exists
    then conclude check' Status.missing Severity.block "the recorded workspace is missing"
        "restore or remap the recorded workspace before continuing"
    else if not actual.directory
    then conclude check' Status.missing Severity.block "the recorded workspace is not a directory"
        "restore or remap the recorded workspace before continuing"
    else conclude check' Status.present Severity.info "the recorded workspace is available" ""

unfoldable pub judge_repository : Option String → GitFingerprint → Check → Check
judge_repository none actual check =
    conclude check Status.unknown Severity.info
      "the session has no trustworthy repository identity baseline" ""
judge_repository (some value) actual check =
    let check' = record check { expected = text value } in
    if not actual.repository
    then conclude check' Status.missing Severity.block
        "the recorded workspace is not a Git repository"
        "open the session in the recorded repository"
    else if actual.repository_id == ""
    then conclude check' Status.unknown Severity.warning
        "the current repository identity cannot be compared safely"
        "verify the repository manually or configure its canonical remote"
    else if value == actual.repository_id || contains actual.repository_ids value
    then conclude check' Status.match Severity.info
        "the current repository matches the recorded repository" ""
    else conclude check' Status.changed Severity.block
        "the current repository differs from the recorded repository"
        "switch to the recorded repository before continuing"

unfoldable pub compare_repository : Option ExpectedString → GitFingerprint → Check
compare_repository expected actual =
    judge_repository (baseline expected) actual
      (new_check "git.repository" (expectation_provenance expected) (text actual.repository_id))

unfoldable pub judge_branch : Option String → GitFingerprint → Check → Check
judge_branch none actual check =
    conclude check Status.unknown Severity.info "the session has no trustworthy branch baseline" ""
judge_branch (some value) actual check =
    let check' = record check { expected = text value } in
    if not actual.repository
    then conclude check' Status.missing Severity.block
        "the recorded Git branch cannot be verified outside a Git repository"
        "restore the recorded Git repository before continuing"
    else if actual.unborn
    then conclude check' Status.unknown Severity.warning
        "the current branch cannot be compared safely"
        "restore the recorded branch or explicitly continue without it"
    else if actual.detached
    then conclude (record check' { actual = text "detached" }) Status.changed Severity.warning
        "the workspace has a detached HEAD instead of the recorded branch"
        "switch to the recorded branch or acknowledge warning git.branch"
    else if value == actual.branch
    then conclude check' Status.match Severity.info
        "the current branch matches the branch recorded by the session" ""
    else conclude check' Status.changed Severity.warning
        "the current branch differs from the branch recorded by the session"
        "switch to the recorded branch or acknowledge warning git.branch"

unfoldable pub compare_branch : Option ExpectedString → GitFingerprint → Check
compare_branch expected actual =
    judge_branch (baseline expected) actual
      (new_check "git.branch" (expectation_provenance expected) (text actual.branch))

unfoldable pub relation_message : Relation → String
relation_message Relation.ahead =
    "the current Git HEAD is ahead of the commit recorded by the session"
relation_message Relation.behind =
    "the current Git HEAD is behind the commit recorded by the session"
relation_message Relation.diverged =
    "the current Git HEAD has diverged from the commit recorded by the session"
relation_message _ = "the current Git HEAD differs from the commit recorded by the session"

unfoldable pub head_change_message : CommitRelation → String
unfolding relation_message
head_change_message relation =
    if not relation.knowable
    then "the current Git HEAD differs and its local relation to the recorded commit is unknown"
    else relation_message relation.relation

unfoldable pub judge_head : Option String → GitFingerprint → Check → Check
unfolding head_change_message
judge_head none actual check =
    conclude check Status.unknown Severity.info "the session has no trustworthy Git HEAD baseline"
      ""
judge_head (some value) actual check =
    let check' = record check { expected = text value } in
    if not actual.repository
    then conclude check' Status.missing Severity.block
        "the recorded Git HEAD cannot be verified outside a Git repository"
        "restore the recorded Git repository before continuing"
    else if actual.head == ""
    then conclude check' Status.unknown Severity.warning
        "the current Git HEAD cannot be compared safely"
        "restore the recorded commit or acknowledge warning git.head"
    else if value == actual.head
    then conclude check' Status.match Severity.info
        "the current Git HEAD matches the recorded commit" ""
    else conclude check' Status.changed Severity.warning
        (head_change_message actual.expected_head_relation)
        "review the local commit relation or acknowledge warning git.head"

unfoldable pub compare_head : Option ExpectedString → GitFingerprint → Check
compare_head expected actual =
    judge_head (baseline expected) actual
      (new_check "git.head" (expectation_provenance expected) (text actual.head))

unfoldable pub unavailable_git_checks : Expectation → List Check
unfolding expectation_provenance working_tree_provenance
unavailable_git_checks expected =
    conclude (new_check "git.repository" (expectation_provenance expected.repository_id) nil)
      Status.unknown Severity.info "repository identity was not compared because Git is unavailable"
      ""
    ∷ conclude (new_check "git.branch" (expectation_provenance expected.branch) nil) Status.unknown
        Severity.info "branch identity was not compared because Git is unavailable" ""
    ∷ conclude (new_check "git.head" (expectation_provenance expected.head) nil) Status.unknown
        Severity.info "Git HEAD was not compared because Git is unavailable" ""
    ∷ conclude
        (new_check "git.working_tree"
          (working_tree_provenance expected.dirty expected.working_tree_digest) nil)
        Status.unknown Severity.info
        "working-tree state was not compared because Git is unavailable" ""
    ∷ []

-- One step of `aggregateDecision`: none is its early `return DecisionBlocked`.
abbrev decide_severity : Severity → Decision → Option Decision
decide_severity Severity.block decision = none
decide_severity Severity.warning decision = some Decision.confirmation_required
decide_severity _ decision = some decision

unfoldable pub decide_checks : List Check → Decision → Option Decision
decide_checks [] decision = some decision
decide_checks (check ∷ checks) decision = elim (decide_severity check.severity decision) [
  | none ↦ none
  | some next ↦ decide_checks checks next
]

unfoldable pub decide_diagnostics : List Diagnostic → Decision → Option Decision
decide_diagnostics [] decision = some decision
decide_diagnostics (diagnostic ∷ rest) decision =
    elim (decide_severity diagnostic.severity decision) [
      | none ↦ none
      | some next ↦ decide_diagnostics rest next
    ]

unfoldable pub aggregate_decision : List Check → List Diagnostic → Decision
unfolding decide_checks decide_diagnostics
aggregate_decision checks diagnostics = elim (decide_checks checks Decision.ready) [
  | none ↦ Decision.blocked
  | some decision ↦ elim (decide_diagnostics diagnostics decision) [
    | none ↦ Decision.blocked
    | some final ↦ final
  ]
]

-- The checks of `Compare`.
unfoldable pub compare_checks : Expectation → Fingerprint → List Check
compare_checks expected actual =
    compare_workspace expected.workspace actual.workspace
    ∷ (if not actual.git.available
        then unavailable_git_checks expected
        else compare_repository expected.repository_id actual.git
          ∷ compare_branch expected.branch actual.git
          ∷ compare_head expected.head actual.git
          ∷ compare_working_tree expected.dirty expected.working_tree_digest actual.git
          ∷ [])

-- `Compare`, called `compare_fingerprint` here.
unfoldable pub compare_fingerprint : Expectation → Fingerprint → Comparison
compare_fingerprint expected actual =
    let checks = compare_checks expected actual in
    record { decision = aggregate_decision checks []; checks = checks }
