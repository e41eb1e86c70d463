-- ===== src/Workspace/Compare/Baselines.antt =====
-- When the comparison lets a session continue (internal/workspace/compare.go, `Compare`): what a
-- ready decision says of the recorded baselines, and what blocks.
use reinstate.Base.{
  ◌≡◌, ◌≢◌, ◌↔◌, ◌⊎◌, Bool, true, false, String, Option, none, some, List, [], ◌∷◌, arith,
  string_eq, ==_iff, contains,
}
use reinstate.Workspace.Model.{
  Severity, ready, ExpectedString, ExpectedBool, Expectation, WorkspaceFingerprint,
  WorkingTreeFingerprint, GitFingerprint, Fingerprint, Check,
}
use reinstate.Workspace.Provenance.{baseline, baseline_bool}
use reinstate.Workspace.WorkingTree.{
  is_modified, is_unavailable, compare_working_tree, judge_working_tree,
}
use reinstate.Workspace.Compare.{
  compare_workspace, judge_repository, judge_branch, judge_head, compare_repository, compare_branch,
  compare_head, compare_checks, compare_fingerprint,
}
use reinstate.Workspace.Compare.Decisions.{
  worst, harmless, worst-ready_iff, aggregate_decision-eq-worst,
}

-- `P` of the baseline, where there is one that may be trusted.
abbrev pub Holds {ℓ} : {A : Type 0} → Option A → (A → Type ℓ) → Type ℓ
Holds none P = Unit
Holds (some a) P = P a

abbrev pub WorkspaceAgrees : WorkspaceFingerprint → Type 0
WorkspaceAgrees w = (w.exists ≡ true) × (w.directory ≡ true)

abbrev pub RepositoryAgrees : GitFingerprint → String → Type 0
RepositoryAgrees g v =
    (g.repository ≡ true)
    × (g.repository_id ≢ "")
    × ((v ≡ g.repository_id) ⊎ (contains g.repository_ids v ≡ true))

abbrev pub BranchAgrees : GitFingerprint → String → Type 0
BranchAgrees g v =
    (g.repository ≡ true) × (g.unborn ≡ false) × (g.detached ≡ false) × (v ≡ g.branch)

abbrev pub HeadAgrees : GitFingerprint → String → Type 0
HeadAgrees g v = (g.repository ≡ true) × (g.head ≢ "") × (v ≡ g.head)

-- A trusted digest decides, else a trusted flag, else the tree must be unmodified.
abbrev pub TreeMatches : Option Bool → Option String → WorkingTreeFingerprint → Type 0
TreeMatches flag (some digest) t = digest ≡ t.digest
TreeMatches (some dirty) none t = dirty ≡ is_modified t.state
TreeMatches none none t = is_modified t.state ≡ false

abbrev pub TreeAgrees : Option Bool → Option String → WorkingTreeFingerprint → Type 0
TreeAgrees flag digest t =
    (t.uncertain ≡ false) × (is_unavailable t.state ≡ false) × TreeMatches flag digest t

workspace-harmless_iff :
    (e : Option ExpectedString) (w : WorkspaceFingerprint)
    → (harmless (compare_workspace e w).severity ≡ true) ↔ WorkspaceAgrees w
unfolding compare_workspace
workspace-harmless_iff e w = ground arith

repository-harmless_iff :
    (o : Option String) (g : GitFingerprint) (c : Check)
    → (harmless (judge_repository o g c).severity ≡ true) ↔ Holds o (RepositoryAgrees g)
unfolding judge_repository
repository-harmless_iff none g c = ground arith
repository-harmless_iff (some v) g c =
    ground (arith, ==_iff g.repository_id "", ==_iff v g.repository_id)

branch-harmless_iff :
    (o : Option String) (g : GitFingerprint) (c : Check)
    → (harmless (judge_branch o g c).severity ≡ true) ↔ Holds o (BranchAgrees g)
unfolding judge_branch
branch-harmless_iff none g c = ground arith
branch-harmless_iff (some v) g c = ground (arith, ==_iff v g.branch)

head-harmless_iff :
    (o : Option String) (g : GitFingerprint) (c : Check)
    → (harmless (judge_head o g c).severity ≡ true) ↔ Holds o (HeadAgrees g)
unfolding judge_head
head-harmless_iff none g c = ground arith
head-harmless_iff (some v) g c = ground (arith, ==_iff g.head "", ==_iff v g.head)

tree-harmless_iff :
    (flag : Option Bool) (digest : Option String) (t : WorkingTreeFingerprint) (c : Check)
    → (harmless (judge_working_tree flag digest t c).severity ≡ true) ↔ TreeAgrees flag digest t
unfolding judge_working_tree
tree-harmless_iff flag (some v) t c = ground (arith, ==_iff v t.digest)
tree-harmless_iff (some b) none t c = ground arith
tree-harmless_iff none none t c = ground arith

compare_repository-harmless_iff :
    (e : Option ExpectedString) (g : GitFingerprint)
    → (harmless (compare_repository e g).severity ≡ true) ↔ Holds (baseline e) (RepositoryAgrees g)
unfolding compare_repository
compare_repository-harmless_iff e g = repository-harmless_iff (baseline e) g _

compare_branch-harmless_iff :
    (e : Option ExpectedString) (g : GitFingerprint)
    → (harmless (compare_branch e g).severity ≡ true) ↔ Holds (baseline e) (BranchAgrees g)
unfolding compare_branch
compare_branch-harmless_iff e g = branch-harmless_iff (baseline e) g _

compare_head-harmless_iff :
    (e : Option ExpectedString) (g : GitFingerprint)
    → (harmless (compare_head e g).severity ≡ true) ↔ Holds (baseline e) (HeadAgrees g)
unfolding compare_head
compare_head-harmless_iff e g = head-harmless_iff (baseline e) g _

compare_working_tree-harmless_iff :
    (e : Option ExpectedBool) (d : Option ExpectedString) (g : GitFingerprint)
    → (harmless (compare_working_tree e d g).severity ≡ true)
      ↔ TreeAgrees (baseline_bool e) (baseline d) g.working_tree
unfolding compare_working_tree
compare_working_tree-harmless_iff e d g =
    tree-harmless_iff (baseline_bool e) (baseline d) g.working_tree _

-- The severities of the five checks that `Compare` makes where Git is available.
abbrev pub severities : Expectation → Fingerprint → List Severity
severities e a =
    (compare_workspace e.workspace a.workspace).severity
    ∷ (compare_repository e.repository_id a.git).severity
    ∷ (compare_branch e.branch a.git).severity
    ∷ (compare_head e.head a.git).severity
    ∷ (compare_working_tree e.dirty e.working_tree_digest a.git).severity
    ∷ []

pub decision-eq-worst :
    (e : Expectation) (a : Fingerprint)
    → a.git.available ≡ true
    → (compare_fingerprint e a).decision ≡ worst (severities e a)
unfolding compare_fingerprint compare_checks
decision-eq-worst e a h = rw (aggregate_decision-eq-worst, h)

-- With Git available, the comparison is ready exactly when the workspace is an existing directory,
-- every trusted baseline (repository, branch, head) agrees with the current observation, and the
-- working tree was observed with certainty and matches its trusted digest, or else its trusted
-- flag, or else is unmodified.
pub compare_fingerprint-ready_iff :
    (e : Expectation) (a : Fingerprint)
    → a.git.available ≡ true
    → ((compare_fingerprint e a).decision ≡ ready) ↔ (
        WorkspaceAgrees a.workspace
        × Holds (baseline e.repository_id) (RepositoryAgrees a.git)
        × Holds (baseline e.branch) (BranchAgrees a.git)
        × Holds (baseline e.head) (HeadAgrees a.git)
        × TreeAgrees (baseline_bool e.dirty) (baseline e.working_tree_digest) a.git.working_tree)
compare_fingerprint-ready_iff e a h = rw (decision-eq-worst e a h) (
    ground (
      arith,
      worst-ready_iff (severities e a),
      workspace-harmless_iff e.workspace a.workspace,
      compare_repository-harmless_iff e.repository_id a.git,
      compare_branch-harmless_iff e.branch a.git,
      compare_head-harmless_iff e.head a.git,
      compare_working_tree-harmless_iff e.dirty e.working_tree_digest a.git,
    ))
