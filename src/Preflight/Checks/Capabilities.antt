-- ===== src/Preflight/Checks/Capabilities.antt =====
-- `capabilityChecks` and what it calls (internal/preflight/verify.go).
use reinstate.Base.{
  Bool, true, false, not, ◌&&◌, ◌||◌, Option, none, some, List, [], ◌∷◌, ◌++◌, map, any,
  if◌then◌else◌, ◌==◌, bytes_eq, codes, contains,
}
use reinstate.Base.Dict.{Dict, lookup, insert}
use reinstate.SafeText.{Runes, Unicode}
use reinstate.Workspace.Model.{Provenance, Status, Severity}
use reinstate.Preflight.Model.{text, Check, zero_check}
use reinstate.Preflight.Authorize.{sort_texts}
use reinstate.Preflight.Observed.{
  Library, Item, verified_presence, Diagnostic, Inventory, Requirement, Capability, Baseline, Input,
}
use reinstate.Preflight.Checks.Ids.{
  safe_id_part, capability_identity, capability_check_id, capability_diagnostic_check_id,
}
use reinstate.Preflight.ExitCode

unfoldable pub keep_items : Runes → List Item → List Item
keep_items agent [] = []
keep_items agent (item ∷ items) =
    let rest = keep_items agent items in if item.agent == agent then item ∷ rest else rest

unfoldable pub keep_diagnostics : Runes → List Diagnostic → List Diagnostic
keep_diagnostics agent [] = []
keep_diagnostics agent (d ∷ ds) =
    let rest = keep_diagnostics agent ds in
    if d.agent == [] || d.agent == agent then d ∷ rest else rest

unfoldable pub filter_capabilities : Inventory → Runes → Inventory
filter_capabilities inventory agent = record {
  items = keep_items agent inventory.items;
  diagnostics = keep_diagnostics agent inventory.diagnostics;
}

unfoldable pub baseline_or_vendor_provenance : Runes → Provenance
baseline_or_vendor_provenance value =
    if value == codes "reinstate_prelaunch_observed"
    then Provenance.reinstate_prelaunch_observed
    else Provenance.vendor_recorded

abbrev informs : Check → Status → Runes → Check
informs check status message = record check {
  status = status;
  severity = Severity.info;
  message = message;
}

abbrev warns_of : Check → Status → Runes → Runes → Check
warns_of check status message repair = record check {
  status = status;
  severity = Severity.warning;
  message = message;
  repair = repair;
  exit_code = ExitCode.safety;
}

abbrev pub is_some {ℓ} : {A : Type ℓ} → Option A → Bool
is_some none = false
is_some (some a) = true

abbrev restore_it : Runes
restore_it = codes "restore the named capability or acknowledge this exact warning"

module _ (U : Unicode) (library : Library) where
  abbrev item_identity : Item → Runes
  item_identity item = capability_identity U library item.agent item.kind item.name item.scope

  -- The map `current`.
  unfoldable pub current_items : List Item → Dict Runes Item → Dict Runes Item
  current_items [] d = d
  current_items (item ∷ items) d =
      current_items items (if verified_presence item then insert (item_identity item) item d else d)

  abbrev or_word : Runes → Runes → Runes
  or_word word [] = word
  or_word word (c ∷ cs) = safe_id_part U library (c ∷ cs)

  unfoldable pub capability_diagnostic_message : Diagnostic → Runes
  capability_diagnostic_message diagnostic =
      let kind = or_word (codes "capability") diagnostic.kind in
      if diagnostic.scope == []
      then kind ++ codes " discovery was incomplete"
      else safe_id_part U library diagnostic.scope
        ++ codes " "
        ++ kind
        ++ codes " discovery was incomplete"

  unfoldable pub diagnostic_check : Diagnostic → Check
  diagnostic_check diagnostic =
      let check = record zero_check {
        id = capability_diagnostic_check_id U library diagnostic;
        actual = text diagnostic.code;
        provenance = Provenance.current_observation;
      } in
      if diagnostic.code == codes "cancelled"
      then record check {
        status = Status.error;
        severity = Severity.block;
        exit_code = ExitCode.runtime;
        message = codes "capability discovery exceeded the bounded preflight deadline";
        repair = codes "retry after reducing local capability inventory pressure";
      }
      else informs check Status.unknown (capability_diagnostic_message diagnostic)

  -- The map `expected`.
  unfoldable pub add_expected :
      Runes → List Capability → Dict Runes Capability → Dict Runes Capability
  add_expected agent [] d = d
  add_expected agent (item ∷ items) d = add_expected agent items (
      if item.agent == agent
      then insert (capability_identity U library item.agent item.kind item.name item.scope) item d
      else d)

  unfoldable pub expected_capabilities : Runes → Option Baseline → Dict Runes Capability
  expected_capabilities agent none = []
  expected_capabilities agent (some baseline) = add_expected agent baseline.capabilities []

  abbrev the_capability : Runes → Runes → Runes
  the_capability kind name = kind ++ codes " capability " ++ library.quoted name

  unfoldable pub requirement_check : Runes → Dict Runes Item → Requirement → Check
  requirement_check agent current requirement =
      let subject = codes "the recorded " ++ the_capability requirement.kind requirement.name in
      let check = record zero_check {
        id =
            capability_check_id U library agent requirement.kind requirement.name
              (codes "required");
        expected = text requirement.name;
        provenance = Provenance.vendor_recorded;
      } in
      if any
        (λ (e : Runes × Item).
          library.equal_fold e.1.kind requirement.kind
          && library.equal_fold e.1.name requirement.name)
        current
      then record (informs check Status.match (subject ++ codes " is present")) {
        actual = text requirement.name;
      }
      else warns_of check Status.missing (subject ++ codes " is missing") restore_it

  -- The keys of both maps, each once, sorted.
  unfoldable pub new_keys : Dict Runes Capability → Dict Runes Item → List Runes
  new_keys expected [] = []
  new_keys expected ((key, item) ∷ current) =
      let rest = new_keys expected current in
      if contains (map (λ (e : Runes × Capability). e.0) expected) key then rest else key ∷ rest

  unfoldable pub all_keys : Dict Runes Capability → Dict Runes Item → List Runes
  all_keys expected current =
      sort_texts (map (λ (e : Runes × Capability). e.0) expected ++ new_keys expected current)

  -- The switch on `hadPrior` and `hasActual`. A key stands in one of the maps.
  unfoldable pub capability_finding : Runes → Bool → Option Capability → Option Item → List Check
  capability_finding agent has_baseline (some prior) (some actual) =
      let subject = codes "the " ++ the_capability prior.kind prior.name in
      let check = record zero_check {
        id = capability_check_id U library agent prior.kind prior.name prior.scope;
        actual = text prior.name;
        provenance = baseline_or_vendor_provenance prior.provenance;
      } in
      (if not (prior.transport == actual.transport)
        then record (warns_of check Status.changed
            (subject ++ codes " transport differs from the previous prelaunch observation")
            (codes "review the capability transport change or acknowledge this exact warning")) {
              expected = text prior.transport;
              actual = text actual.transport;
            }
        else record (informs check Status.match (subject ++ codes " is present")) {
          expected = text prior.name;
        })
      ∷ []
  capability_finding agent has_baseline (some prior) none =
      record (warns_of zero_check Status.missing
        (codes "the previously observed "
          ++ the_capability prior.kind prior.name
          ++ codes " is missing")
        restore_it) {
          id = capability_check_id U library agent prior.kind prior.name prior.scope;
          expected = text prior.name;
          provenance = baseline_or_vendor_provenance prior.provenance;
        }
      ∷ []
  capability_finding agent has_baseline none (some actual) =
      let subject = codes "the " ++ the_capability actual.kind actual.name in
      let check = record zero_check {
        id = capability_check_id U library agent actual.kind actual.name actual.scope;
        actual = text actual.name;
        provenance = Provenance.current_observation;
      } in
      (if has_baseline
        then warns_of check Status.changed
            (subject ++ codes " is new since the previous prelaunch observation")
            (codes "review the named capability or acknowledge this exact warning")
        else informs check Status.present (subject ++ codes " is currently present"))
      ∷ []
  capability_finding agent has_baseline none none = []

  unfoldable pub key_checks :
      Runes → Bool → Dict Runes Capability → Dict Runes Item → List Runes → List Check
  key_checks agent has_baseline expected current [] = []
  key_checks agent has_baseline expected current (key ∷ keys) =
      capability_finding agent has_baseline (lookup key expected) (lookup key current)
      ++ key_checks agent has_baseline expected current keys

  unfoldable pub capability_checks : Input → Inventory → List Check
  capability_checks input inventory =
      let current = current_items inventory.items [] in
      let expected = expected_capabilities input.agent input.baseline in
      map diagnostic_check inventory.diagnostics
      ++ map (requirement_check input.agent current) input.recorded.requirements
      ++ key_checks input.agent (is_some input.baseline) expected current
          (all_keys expected current)
