-- ===== src/Preflight/Observed.antt =====
-- What the probes report to internal/preflight: internal/agentcheck, internal/capability,
-- internal/runtimecheck, and the baseline and the recorded facts of internal/environment, in the fields that
-- the checks read. A Go map is a list whose first entry for a key counts.
use reinstate.Base.{Bool, ◌||◌, String, Option, List, ◌==◌, bytes_eq, codes}
use reinstate.SafeText.{Runes}
use reinstate.Workspace.Model.{WorkingTreeState}

-- What the checks use of packages strings, fmt and crypto/sha256: `ToLower`, `EqualFold`, the verb
-- `%q`, and the first eight bytes of a SHA-256 in hexadecimal.
pub record Library : Type 0 where
  pub to_lower : Runes → Runes
  pub equal_fold : Runes → Runes → Bool
  pub quoted : Runes → Runes
  pub short_digest : Runes → Runes

-- internal/agentcheck/agent.go
pub data AgentStatus : Type 0 where
  supported untested not_installed error : AgentStatus
  other : String → AgentStatus

pub record AgentResult : Type 0 where
  pub executable_present : Bool
  pub layout : Runes
  pub layout_recognized : Bool
  pub version : Runes
  pub status : AgentStatus
  pub message : Runes
  pub timed_out : Bool

-- internal/runtimecheck/runtime.go
pub data RuntimeStatus : Type 0 where
  match changed missing unknown error : RuntimeStatus
  other : String → RuntimeStatus

pub record RuntimeResult : Type 0 where
  pub name : Runes
  pub declared : Runes
  pub actual : Runes
  pub source_kind : Runes
  pub status : RuntimeStatus
  pub message : Runes

-- internal/capability/types.go, without the fields that no check reads.
pub record Item : Type 0 where
  pub agent : Runes
  pub kind : Runes
  pub name : Runes
  pub scope : Runes
  pub state : Runes
  pub transport : Runes

-- `VerifiedPresence`
unfoldable pub verified_presence : Item → Bool
verified_presence item = item.state == codes "candidate" || item.state == codes "declared"

pub record Diagnostic : Type 0 where
  pub agent : Runes
  pub kind : Runes
  pub scope : Runes
  pub code : Runes

pub record Inventory : Type 0 where
  pub items : List Item
  pub diagnostics : List Diagnostic

-- internal/environment/model.go
pub record Requirement : Type 0 where
  pub kind : Runes
  pub name : Runes

pub record Capability : Type 0 where
  pub agent : Runes
  pub kind : Runes
  pub name : Runes
  pub scope : Runes
  pub transport : Runes
  pub provenance : Runes

pub record Runtime : Type 0 where
  pub name : Runes
  pub declared : Runes
  pub version : Runes
  pub source_kind : Runes

pub record Baseline : Type 0 where
  pub session_ref : Runes
  pub repository_id : Runes
  pub branch : Runes
  pub git_head : Runes
  pub working_tree_digest : Runes
  pub working_tree_state : WorkingTreeState
  pub capabilities : List Capability
  pub runtimes : List Runtime

-- The values of the recorded fields.
pub record Recorded : Type 0 where
  pub repository_id : Runes
  pub branch : Runes
  pub git_head : Runes
  pub requirements : List Requirement

pub record Input : Type 0 where
  pub session_ref : Runes
  pub agent : Runes
  pub workspace : Runes
  pub recorded : Recorded
  pub baseline : Option Baseline
  pub source_fresh : Bool
  pub read_only : Bool
