-- ===== src/Preflight/Checks/Gather/Probes.antt =====
-- The checks of the runtimes and of the capabilities (internal/preflight/verify.go) are regular.
use reinstate.Base.{
  ◌≡◌, refl, inl, inr, Bool, true, false, not, ◌&&◌, Option, none, some, List, [], ◌∷◌, ◌++◌, map,
  any, all, ◌==◌, nat_eq, bytes_eq, codes, contains, arith, Bool-cases,
}
use reinstate.Base.Dict.{Dict, lookup}
use reinstate.SafeText.{Runes, Unicode}
use reinstate.Preflight.Report.{
  valid_status, valid_severity, valid_provenance, allows_exit, valid_check_exit,
}
use reinstate.Preflight.Observed.{
  Library, RuntimeResult, Runtime, Item, Capability, Diagnostic, Requirement, Inventory, Input,
}
use reinstate.Preflight.Checks.Runtimes.{
  declaration_check, runtime_baseline_check, new_runtime_check, since_baseline, observed_runtimes,
  missing_runtime_check, missing_runtimes, runtime_checks,
}
use reinstate.Preflight.Checks.Capabilities.{
  baseline_or_vendor_provenance, is_some, current_items, expected_capabilities, all_keys,
  diagnostic_check, requirement_check, capability_finding, key_checks, capability_checks,
}
use reinstate.Preflight.Checks.Gather.Regular.{
  is_regular, all-append, all-map, if-regular, runtime_finding-regular, current-valid,
}

module _ (U : Unicode) (library : Library) where
  declaration_check-regular :
      (r : RuntimeResult) → is_regular (declaration_check U library r) ≡ true
  unfolding declaration_check valid_provenance
  declaration_check-regular r = runtime_finding-regular _ refl refl r.status

  runtime_baseline_check-regular :
      (r : RuntimeResult) (prior : Runtime)
      → is_regular (runtime_baseline_check U library r prior) ≡ true
  unfolding runtime_baseline_check valid_status valid_severity valid_provenance valid_check_exit
      allows_exit
  runtime_baseline_check-regular r prior =
      if-regular
        (not (prior.version == [])
          && prior.version == r.actual
          && prior.declared == r.declared
          && prior.source_kind == r.source_kind)
        _ _ refl refl

  since_baseline-regular :
      (b : Bool) (r : RuntimeResult) (o : Option Runtime)
      → all is_regular (since_baseline U library b r o) ≡ true
  unfolding since_baseline new_runtime_check valid_status valid_severity valid_provenance
      valid_check_exit allows_exit
  since_baseline-regular b r (some prior) = rw (runtime_baseline_check-regular r prior) refl
  since_baseline-regular true r none = refl
  since_baseline-regular false r none = refl

  observed_runtimes-regular :
      (b : Bool) (d : Dict Runes Runtime) (rs : List RuntimeResult)
      → all is_regular (observed_runtimes U library b d rs) ≡ true
  unfolding observed_runtimes
  observed_runtimes-regular b d [] = refl
  observed_runtimes-regular b d (r ∷ rs) =
      let rest =
        all-append (since_baseline U library b r (lookup r.name d))
          (observed_runtimes U library b d rs) (since_baseline-regular b r (lookup r.name d))
          (observed_runtimes-regular b d rs) in
      rw (declaration_check-regular r) rest

  missing_runtimes-regular :
      (seen : List Runes) (d : Dict Runes Runtime)
      → all is_regular (missing_runtimes U library seen d) ≡ true
  unfolding missing_runtimes missing_runtime_check valid_status valid_severity valid_provenance
      valid_check_exit allows_exit
  missing_runtimes-regular seen [] = refl
  missing_runtimes-regular seen (e ∷ d) = elim (Bool-cases (contains seen e.0)) [
    | inl q ↦ rw q (missing_runtimes-regular seen d)
    | inr q ↦ rw (q, missing_runtimes-regular seen d) refl
  ]

  diagnostic_check-regular : (d : Diagnostic) → is_regular (diagnostic_check U library d) ≡ true
  unfolding diagnostic_check valid_status valid_severity valid_provenance valid_check_exit
      allows_exit
  diagnostic_check-regular d = elim (Bool-cases (d.code == codes "cancelled")) [
    | inl q ↦ rw q refl
    | inr q ↦ rw q refl
  ]

  requirement_check-regular :
      (agent : Runes) (current : Dict Runes Item) (r : Requirement)
      → is_regular (requirement_check U library agent current r) ≡ true
  unfolding requirement_check valid_status valid_severity valid_provenance valid_check_exit
      allows_exit
  requirement_check-regular agent current r =
      if-regular
        (any
          (λ (e : Runes × Item).
            library.equal_fold e.1.kind r.kind && library.equal_fold e.1.name r.name)
          current)
        _ _ refl refl

  baseline_or_vendor_provenance-valid :
      (t : Runes) → valid_provenance (baseline_or_vendor_provenance t) ≡ true
  unfolding baseline_or_vendor_provenance valid_provenance
  baseline_or_vendor_provenance-valid t = ground arith

  capability_finding-regular :
      (agent : Runes) (b : Bool) (e : Option Capability) (a : Option Item)
      → all is_regular (capability_finding U library agent b e a) ≡ true
  unfolding capability_finding valid_status valid_severity valid_check_exit allows_exit
  capability_finding-regular agent b (some prior) (some actual) =
      elim (Bool-cases (prior.transport == actual.transport)) [
        | inl q ↦ rw (q, baseline_or_vendor_provenance-valid prior.provenance) refl
        | inr q ↦ rw (q, baseline_or_vendor_provenance-valid prior.provenance) refl
      ]
  capability_finding-regular agent b (some prior) none =
      rw (baseline_or_vendor_provenance-valid prior.provenance) refl
  capability_finding-regular agent true none (some actual) = rw current-valid refl
  capability_finding-regular agent false none (some actual) = rw current-valid refl
  capability_finding-regular agent b none none = refl

  key_checks-regular :
      (agent : Runes) (b : Bool) (e : Dict Runes Capability) (c : Dict Runes Item) (ks : List Runes)
      → all is_regular (key_checks U library agent b e c ks) ≡ true
  unfolding key_checks
  key_checks-regular agent b e c [] = refl
  key_checks-regular agent b e c (k ∷ ks) =
      all-append (capability_finding U library agent b (lookup k e) (lookup k c))
        (key_checks U library agent b e c ks)
        (capability_finding-regular agent b (lookup k e) (lookup k c))
        (key_checks-regular agent b e c ks)

  pub capability_checks-regular :
      (input : Input) (inventory : Inventory)
      → all is_regular (capability_checks U library input inventory) ≡ true
  unfolding capability_checks
  capability_checks-regular input inventory =
      let current = current_items U library inventory.items [] in
      let expected = expected_capabilities U library input.agent input.baseline in
      let required = requirement_check U library input.agent current in
      let keyed =
        key_checks U library input.agent (is_some input.baseline) expected current
          (all_keys U library expected current) in
      let known = map (diagnostic_check U library) inventory.diagnostics in
      all-append (known ++ map required input.recorded.requirements) keyed
        (all-append known (map required input.recorded.requirements)
          (all-map (diagnostic_check U library) diagnostic_check-regular inventory.diagnostics)
          (all-map required (requirement_check-regular input.agent current)
            input.recorded.requirements))
        (key_checks-regular input.agent (is_some input.baseline) expected current
          (all_keys U library expected current))

  pub runtime_checks-regular :
      (input : Input) (rs : List RuntimeResult)
      → all is_regular (runtime_checks U library input rs) ≡ true
  unfolding runtime_checks
  runtime_checks-regular input rs =
      all-append _ _ (observed_runtimes-regular _ _ rs) (missing_runtimes-regular _ _)
