-- ===== src/Examples/Workspace.antt =====
-- A clean checkout and what was recorded of it (internal/workspace).
use reinstate.Base.{◌≡◌, refl, ◌↔◌, not, ◌&&◌, ◌||◌, true, false, none, some, []}
use reinstate.Workspace.Model.{
  Provenance, Expectation, GitFingerprint, Fingerprint, WorkingTreeState, Relation, ready, blocked,
  Check, Severity, Status, nil,
}
use reinstate.Workspace.Compare.{compare_fingerprint}
use reinstate.Workspace.Compare.Baselines.{
  compare_fingerprint-ready_iff, Holds, RepositoryAgrees, BranchAgrees, HeadAgrees, TreeAgrees,
  WorkspaceAgrees,
}
use reinstate.Workspace.Provenance.{baseline, baseline_bool}
use reinstate.Workspace.Compare.Blocking.{
  compare_fingerprint-blocked_iff, repository_blocks, outside, tree_blocks,
}

abbrev checkout : GitFingerprint
checkout = record {
  available = true;
  repository = true;
  repository_id = "github.com/a/b";
  branch = "main";
  detached = false;
  unborn = false;
  head = "c0ffee";
  working_tree = record {
    state = WorkingTreeState.clean;
    uncertain = false;
    digest = "";
    staged = 0;
    unstaged = 0;
    untracked = 0;
    conflicted = 0;
    submodule = 0;
  };
  expected_head_relation = record {
    relation = Relation.equal;
    ahead = 0;
    behind = 0;
    knowable = true;
    local_only = true;
  };
  repository_ids = [];
}

abbrev here : Fingerprint
here = record { workspace = record { exists = true; directory = true }; git = checkout }

abbrev without_git : Fingerprint
without_git = record here { git = record checkout { available = false } }

abbrev recorded : Expectation
recorded = record {
  workspace = none;
  repository_id =
      some (record { value = "github.com/a/b"; provenance = Provenance.vendor_recorded });
  branch = some (record { value = "main"; provenance = Provenance.vendor_recorded });
  head = some (record { value = "c0ffee"; provenance = Provenance.vendor_recorded });
  dirty = none;
  working_tree_digest = none;
}

compare_fingerprint-ready_iff_example : ((compare_fingerprint recorded here).decision ≡ ready) ↔ (
    WorkspaceAgrees here.workspace
    × Holds (baseline recorded.repository_id) (RepositoryAgrees here.git)
    × Holds (baseline recorded.branch) (BranchAgrees here.git)
    × Holds (baseline recorded.head) (HeadAgrees here.git)
    × TreeAgrees
        (baseline_bool recorded.dirty)
        (baseline recorded.working_tree_digest)
        here.git.working_tree)
compare_fingerprint-ready_iff_example = compare_fingerprint-ready_iff recorded here refl

compare_fingerprint-blocked_iff_example :
    ((compare_fingerprint recorded here).decision ≡ blocked) ↔ (
      (not (here.workspace.exists && here.workspace.directory)
        || repository_blocks (baseline recorded.repository_id) here.git
        || outside (baseline recorded.branch) here.git
        || outside (baseline recorded.head) here.git
        || tree_blocks
            (baseline_bool recorded.dirty)
            (baseline recorded.working_tree_digest)
            here.git.working_tree)
      ≡ true)
compare_fingerprint-blocked_iff_example = compare_fingerprint-blocked_iff recorded here refl

abbrev odd_check : Check
odd_check = record {
  id = "head";
  status = Status.changed;
  severity = Severity.warning;
  expected = nil;
  actual = nil;
  provenance = Provenance.vendor_recorded;
  message = "";
  repair = "";
}
