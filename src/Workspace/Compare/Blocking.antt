-- ===== src/Workspace/Compare/Blocking.antt =====
-- What blocks a session (internal/workspace/compare.go, `Compare`), with Git and without it.
use reinstate.Base.{
  ◌≡◌, ◌↔◌, Bool, true, false, not, ◌&&◌, ◌||◌, String, Option, none, some, arith, ◌==◌, string_eq,
  contains, if◌then◌else◌,
}
use reinstate.Workspace.Model.{
  ready, blocked, ExpectedString, Expectation, WorkspaceFingerprint, WorkingTreeFingerprint,
  GitFingerprint, Fingerprint, Check,
}
use reinstate.Workspace.Provenance.{baseline, baseline_bool}
use reinstate.Workspace.WorkingTree.{is_unavailable, compare_working_tree, judge_working_tree}
use reinstate.Workspace.Compare.{
  compare_workspace, unavailable_git_checks, compare_repository, compare_branch, compare_head,
  judge_repository, judge_branch, judge_head, compare_checks, compare_fingerprint,
}
use reinstate.Workspace.Compare.Decisions.{
  is_block, is_warning, worst-blocked_iff, aggregate_decision-eq-worst,
}
use reinstate.Workspace.Compare.Baselines.{severities, decision-eq-worst}

abbrev pub given : {A : Type 0} → Option A → Bool
given none = false
given (some _) = true

-- A trusted repository that is not the current one, or no repository at all.
abbrev pub repository_blocks : Option String → GitFingerprint → Bool
repository_blocks none g = false
repository_blocks (some v) g =
    not g.repository
    || not (g.repository_id == "") && not (v == g.repository_id || contains g.repository_ids v)

-- A trusted branch or commit outside a repository.
abbrev pub outside : Option String → GitFingerprint → Bool
outside o g = given o && not g.repository

abbrev pub tree_blocks : Option Bool → Option String → WorkingTreeFingerprint → Bool
tree_blocks flag digest t =
    not t.uncertain && is_unavailable t.state && (given flag || given digest)

judge_repository-block :
    (o : Option String) (g : GitFingerprint) (c : Check)
    → is_block (judge_repository o g c).severity ≡ repository_blocks o g
unfolding judge_repository
judge_repository-block none g c = ground arith
judge_repository-block (some v) g c = ground arith

judge_branch-block :
    (o : Option String) (g : GitFingerprint) (c : Check)
    → is_block (judge_branch o g c).severity ≡ outside o g
unfolding judge_branch
judge_branch-block none g c = ground arith
judge_branch-block (some v) g c = ground arith

judge_head-block :
    (o : Option String) (g : GitFingerprint) (c : Check)
    → is_block (judge_head o g c).severity ≡ outside o g
unfolding judge_head
judge_head-block none g c = ground arith
judge_head-block (some v) g c = ground arith

judge_working_tree-block :
    (flag : Option Bool) (digest : Option String) (t : WorkingTreeFingerprint) (c : Check)
    → is_block (judge_working_tree flag digest t c).severity ≡ tree_blocks flag digest t
unfolding judge_working_tree
judge_working_tree-block flag (some v) t c = ground arith
judge_working_tree-block (some b) none t c = ground arith
judge_working_tree-block none none t c = ground arith

module _ (e : Expectation) (g : GitFingerprint) where
  compare_repository-block :
      is_block (compare_repository e.repository_id g).severity
      ≡ repository_blocks (baseline e.repository_id) g
  unfolding compare_repository
  compare_repository-block = judge_repository-block (baseline e.repository_id) g _

  compare_branch-block :
      is_block (compare_branch e.branch g).severity ≡ outside (baseline e.branch) g
  unfolding compare_branch
  compare_branch-block = judge_branch-block (baseline e.branch) g _

  compare_head-block : is_block (compare_head e.head g).severity ≡ outside (baseline e.head) g
  unfolding compare_head
  compare_head-block = judge_head-block (baseline e.head) g _

  compare_working_tree-block :
      is_block (compare_working_tree e.dirty e.working_tree_digest g).severity
      ≡ tree_blocks (baseline_bool e.dirty) (baseline e.working_tree_digest) g.working_tree
  unfolding compare_working_tree
  compare_working_tree-block =
      judge_working_tree-block (baseline_bool e.dirty) (baseline e.working_tree_digest)
        g.working_tree _

compare_workspace-block :
    (o : Option ExpectedString) (w : WorkspaceFingerprint)
    → is_block (compare_workspace o w).severity ≡ not (w.exists && w.directory)
unfolding compare_workspace
compare_workspace-block o w = ground arith

-- With Git available, the comparison blocks exactly when the workspace is not an existing
-- directory, or a trusted repository baseline meets no repository or another known one, or a
-- trusted branch or commit baseline meets no repository, or a trusted baseline of the working tree
-- meets an unavailable tree that was observed with certainty. A differing branch, commit or tree
-- never blocks.
pub compare_fingerprint-blocked_iff :
    (e : Expectation) (a : Fingerprint)
    → a.git.available ≡ true
    → ((compare_fingerprint e a).decision ≡ blocked) ↔ (
        (not (a.workspace.exists && a.workspace.directory)
          || repository_blocks (baseline e.repository_id) a.git
          || outside (baseline e.branch) a.git
          || outside (baseline e.head) a.git
          || tree_blocks
              (baseline_bool e.dirty)
              (baseline e.working_tree_digest)
              a.git.working_tree)
        ≡ true)
compare_fingerprint-blocked_iff e a h = rw (decision-eq-worst e a h) (
    ground (
      arith,
      worst-blocked_iff (severities e a),
      compare_workspace-block e.workspace a.workspace,
      compare_repository-block e a.git,
      compare_branch-block e a.git,
      compare_head-block e a.git,
      compare_working_tree-block e a.git,
    ))

compare_workspace-warning :
    (o : Option ExpectedString) (w : WorkspaceFingerprint)
    → is_warning (compare_workspace o w).severity ≡ false
unfolding compare_workspace
compare_workspace-warning o w = ground arith

-- Without Git nothing but the workspace itself is compared: the comparison is ready where it is an
-- existing directory and blocked where it is not, whatever was recorded.
pub compare_fingerprint-without_git :
    (e : Expectation) (a : Fingerprint)
    → a.git.available ≡ false
    → (compare_fingerprint e a).decision
      ≡ (if a.workspace.exists && a.workspace.directory then ready else blocked)
unfolding compare_fingerprint compare_checks unavailable_git_checks
compare_fingerprint-without_git e a h =
    rw (aggregate_decision-eq-worst, h)
      (ground (
        arith,
        compare_workspace-block e.workspace a.workspace,
        compare_workspace-warning e.workspace a.workspace,
      ))
