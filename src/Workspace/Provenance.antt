-- ===== src/Workspace/Provenance.antt =====
-- internal/workspace/compare.go: which recorded facts a comparison may trust.
use reinstate.Base.{Bool, true, false, String, Option, none, some, if◌then◌else◌}
use reinstate.Workspace.Model.{
  Provenance, vendor_recorded, reinstate_checkpoint, reinstate_prelaunch_observed, ExpectedString,
  ExpectedBool,
}

unfoldable pub trusted_provenance : Provenance → Bool
trusted_provenance vendor_recorded = true
trusted_provenance reinstate_checkpoint = true
trusted_provenance reinstate_prelaunch_observed = true
trusted_provenance _ = false

unfoldable pub expectation_provenance : Option ExpectedString → Provenance
expectation_provenance none = Provenance.unavailable
expectation_provenance (some e) = e.provenance

unfoldable pub expectation_bool_provenance : Option ExpectedBool → Provenance
expectation_bool_provenance none = Provenance.unavailable
expectation_bool_provenance (some e) = e.provenance

unfoldable pub working_tree_provenance : Option ExpectedBool → Option ExpectedString → Provenance
unfolding expectation_bool_provenance
working_tree_provenance expected none = expectation_bool_provenance expected
working_tree_provenance expected (some digest) = digest.provenance

-- The recorded value where it may be compared: none where the code tests
-- `expected == nil || !trustedProvenance(expected.Provenance)`.
unfoldable pub baseline : Option ExpectedString → Option String
unfolding trusted_provenance
baseline none = none
baseline (some e) = if trusted_provenance e.provenance then some e.value else none

unfoldable pub baseline_bool : Option ExpectedBool → Option Bool
unfolding trusted_provenance
baseline_bool none = none
baseline_bool (some e) = if trusted_provenance e.provenance then some e.value else none
