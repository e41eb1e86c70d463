-- ===== src/Workspace/Model.antt =====
-- internal/workspace/model.go. The Go string types are open: `other` stands for a text that is
-- none of the named constants (the empty text of a zero value among them). A pointer that may be
-- nil is an `Option`; an `any` field holds a `Value`.
use reinstate.Base.{ℕ, Bool, String, Option, List}

pub data Provenance : Type 0 where
  vendor_recorded reinstate_checkpoint reinstate_prelaunch_observed : Provenance
  current_observation unavailable : Provenance
  other : String → Provenance

pub data Status : Type 0 where
  match present changed missing unknown error : Status
  other : String → Status

pub data Severity : Type 0 where
  info warning block : Severity
  other : String → Severity

pub data Decision : Type 0 where
  ready confirmation_required blocked : Decision

pub data WorkingTreeState : Type 0 where
  clean modified unavailable : WorkingTreeState
  other : String → WorkingTreeState

pub data Relation : Type 0 where
  equal ahead behind diverged unknown : Relation
  other : String → Relation

pub record ExpectedString : Type 0 where
  pub value : String
  pub provenance : Provenance

pub record ExpectedBool : Type 0 where
  pub value : Bool
  pub provenance : Provenance

pub record Expectation : Type 0 where
  pub workspace : Option ExpectedString
  pub repository_id : Option ExpectedString
  pub branch : Option ExpectedString
  pub head : Option ExpectedString
  pub dirty : Option ExpectedBool
  pub working_tree_digest : Option ExpectedString

-- The path and the private identity of the directory are not read by the comparison.
pub record WorkspaceFingerprint : Type 0 where
  pub exists : Bool
  pub directory : Bool

pub record WorkingTreeFingerprint : Type 0 where
  pub state : WorkingTreeState
  pub uncertain : Bool
  pub digest : String
  pub staged : ℕ
  pub unstaged : ℕ
  pub untracked : ℕ
  pub conflicted : ℕ
  pub submodule : ℕ

pub record CommitRelation : Type 0 where
  pub relation : Relation
  pub ahead : ℕ
  pub behind : ℕ
  pub knowable : Bool
  pub local_only : Bool

pub record GitFingerprint : Type 0 where
  pub available : Bool
  pub repository : Bool
  pub repository_id : String
  pub branch : String
  pub detached : Bool
  pub unborn : Bool
  pub head : String
  pub working_tree : WorkingTreeFingerprint
  pub expected_head_relation : CommitRelation
  pub repository_ids : List String

pub record Fingerprint : Type 0 where
  pub workspace : WorkspaceFingerprint
  pub git : GitFingerprint

pub record Diagnostic : Type 0 where
  pub id : String
  pub status : Status
  pub severity : Severity
  pub message : String

-- The dynamic types that a check's `any` fields take.
pub data Value : Type 0 where
  nil : Value
  bool : Bool → Value
  text : String → Value
  state : WorkingTreeState → Value
  texts : List String → Value

pub record Check : Type 0 where
  pub id : String
  pub status : Status
  pub severity : Severity
  pub expected : Value
  pub actual : Value
  pub provenance : Provenance
  pub message : String
  pub repair : String

pub record Comparison : Type 0 where
  pub decision : Decision
  pub checks : List Check
