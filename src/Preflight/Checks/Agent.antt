-- ===== src/Preflight/Checks/Agent.antt =====
-- `agentChecks`, `sourceOnlyAgent` and the check that `startActiveSessionProbe` makes
-- (internal/preflight/verify.go).
use reinstate.Base.{
  ℕ, Bool, true, false, not, ◌&&◌, ◌||◌, List, [], ◌∷◌, ◌++◌, if◌then◌else◌, ◌==◌, bytes_eq, codes,
}
use reinstate.SafeText.{Runes, Unicode, trim_space}
use reinstate.Workspace.Model.{Provenance, Status, Severity}
use reinstate.Preflight.Model.{bool, text, Check, zero_check}
use reinstate.Preflight.Observed.{AgentStatus, AgentResult}
use reinstate.Preflight.ExitCode

abbrev current_check : Check
current_check = record zero_check { provenance = Provenance.current_observation }

-- A finding that does not stop the launch, and one that blocks it.
abbrev informs : Check → Status → Runes → Check
informs check status message = record check {
  status = status;
  severity = Severity.info;
  message = message;
}

abbrev stops : Check → Status → Runes → Runes → ℕ → Check
stops check status message repair code = record check {
  status = status;
  severity = Severity.block;
  message = message;
  repair = repair;
  exit_code = code;
}

module _ (U : Unicode) where
  abbrev is_blank : Runes → Bool
  is_blank value = trim_space U value == []

  abbrev is_untested : AgentStatus → Bool
  is_untested AgentStatus.untested = true
  is_untested _ = false

  unfoldable pub source_only_agent : AgentResult → Bool
  source_only_agent result =
      is_untested result.status
      && not result.executable_present
      && not result.layout_recognized
      && is_blank result.version

  unfoldable pub executable_check : AgentResult → Bool → Check
  executable_check result read_only =
      let present = record current_check {
        id = codes "agent.executable";
        actual = bool result.executable_present;
      } in
      if result.executable_present
      then informs present Status.present (codes "the native agent executable is available")
      else if read_only && (result.layout_recognized || source_only_agent result)
      then informs present Status.missing
          (codes "the native agent executable is unavailable; the session layout is still readable")
      else stops present Status.missing (codes "the native agent executable is unavailable")
          (codes "install the supported same-vendor executable before continuing")
          ExitCode.compatibility

  unfoldable pub layout_check : AgentResult → Bool → Check
  layout_check result read_only =
      let layout = record current_check {
        id = codes "agent.layout";
        actual = text result.layout;
      } in
      if result.layout_recognized
      then informs layout Status.match (codes "the native agent session layout is recognized")
      else if read_only && source_only_agent result
      then informs layout Status.unknown
          (codes "source-only agents have no native verified-resume layout")
      else stops layout Status.missing (codes "the native agent session layout is unrecognized")
          (codes "restore a supported same-vendor session layout before continuing")
          ExitCode.compatibility

  abbrev or_failed : Runes → Runes
  or_failed message =
      if is_blank message then codes "the native agent version probe failed" else message

  abbrev unreadable : Runes
  unreadable =
      codes "the native agent version is not determinable; the session layout is still readable"

  abbrev source_only : Runes
  source_only = codes "source-only agents have no native verified-resume version range"

  -- The cases below `readOnly && sourceOnlyAgent(result)`: the status is neither supported, nor
  -- excused.
  unfoldable pub version_problem : AgentStatus → AgentResult → Check → Check
  version_problem AgentStatus.error result version =
      if result.timed_out
      then stops version Status.unknown (or_failed result.message)
          (codes "retry once the host is less busy") ExitCode.runtime
      else stops version Status.unknown (or_failed result.message)
          (codes
            "retry after the version probe succeeds, or pass --allow-untested to proceed with an untested layout")
          ExitCode.compatibility
  version_problem _ result version =
      stops version Status.unknown result.message
        (codes "install a native agent version verified by this Reinstate release")
        ExitCode.compatibility

  abbrev or_source_only : AgentResult → Bool → Check → Check
  or_source_only result read_only version =
      if read_only && source_only_agent result
      then informs version Status.unknown source_only
      else version_problem result.status result version

  -- The switch, by the status.
  unfoldable pub version_finding : AgentStatus → AgentResult → Bool → Check → Check
  version_finding AgentStatus.supported result read_only version =
      if not (is_blank result.version)
      then informs version Status.match (codes "the native agent version is in the verified range")
      else informs version Status.unknown unreadable
  version_finding AgentStatus.not_installed result read_only version =
      if read_only
      then informs version Status.unknown unreadable
      else or_source_only result read_only version
  version_finding _ result read_only version = or_source_only result read_only version

  unfoldable pub version_check : AgentResult → Bool → Check
  version_check result read_only =
      version_finding result.status result read_only
        (record current_check { id = codes "agent.version"; actual = text result.version })

  unfoldable pub agent_checks : AgentResult → Bool → List Check
  agent_checks result read_only =
      executable_check result read_only
      ∷ layout_check result read_only
      ∷ version_check result read_only
      ∷ []

-- What the probe of the running agents answered.
pub record Activity : Type 0 where
  pub busy : Bool
  pub scoped : Bool
  pub failed : Bool
  pub deadline : Bool

unfoldable pub active_session_check : Runes → Activity → Check
active_session_check agent result =
    let active = record zero_check { id = codes "agent.active" } in
    if result.failed || result.deadline
    then record active {
      status = Status.unknown;
      severity = Severity.info;
      provenance = Provenance.unavailable;
      message =
          codes "this host could not determine whether " ++ agent ++ codes " is using this session";
    }
    else if not result.busy
    then record active {
      status = Status.match;
      severity = Severity.info;
      actual = bool false;
      provenance = Provenance.current_observation;
      message = codes "no running " ++ agent ++ codes " instance is using this session";
    }
    else record active {
      status = Status.present;
      severity = Severity.warning;
      actual = bool true;
      provenance = Provenance.current_observation;
      repair =
          codes "close that session, or acknowledge with --allow-environment-warning agent.active";
      exit_code = ExitCode.safety;
      message =
          if result.scoped
          then codes "a running " ++ agent ++ codes " instance is already using this session"
          else agent
            ++ codes " appears to be running and this host cannot tell which session it is using";
    }
