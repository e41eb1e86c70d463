-- ===== src/Keyring/Enrol/Devices.antt =====
-- Who is enrolled after an enrolment, and with what key (internal/keyring/keyring.go, `Enrol`).
use reinstate.Base.{
  ℕ, ◌≡◌, ◌∙◌, ap, false, some, [], ◌∷◌, ◌++◌, arith, ◌==◌, ==_iff, nat_eq, bytes_eq, if◌then◌else◌,
  ok, Option-cases, inl, inr, Result-cases,
}
use reinstate.Keyring.Model.{
  Bytes, Text, DeviceWrap, Generation, Keyring, KeyringError, stale_root_key, current, with_devices,
  find_device,
}
use reinstate.Keyring.Crypto.{Crypto, IsLawful}
use reinstate.Keyring.Generations.{current-with_devices, find_device-append}
use reinstate.Keyring.Verify.{verify_generations}
use reinstate.Keyring.Enrol.Signatures.{verify_generations-with_devices}
use reinstate.Keyring.Wraps.{root_recipient, wrap_for_device, unwrap_device}
use reinstate.Keyring.Wraps.Opening.{unwrap-wrap_for_device}
use reinstate.Keyring.Enrol.{
  binding_for, has_device, device_public_key, check_root_key, enrol, is_listed,
}

module _ (C : Crypto) where
  check_root_key-ok :
      (root_key recipient : Bytes) (e : KeyringError)
      → check_root_key C root_key recipient e ≡ ok tt
      → root_recipient C root_key ≡ some recipient
  unfolding check_root_key
  check_root_key-ok root_key recipient e h = elim (Option-cases (root_recipient C root_key)) [
    | inl p ↦ ground arith
    | inr (r, p) ↦ ground (arith, ==_iff r recipient)
  ]

  -- What an enrolment that succeeds has done.
  pub record Enrolled (entropy : ℕ) (root_key device_id recipient now : Text) (k k' : Keyring)
      : Type 0 where
    pub into : Generation
    pub wrap : DeviceWrap
    pub found : current k ≡ some into
    pub keyed : root_recipient C root_key ≡ some into.recipient
    pub fresh : has_device k device_id ≡ false
    pub wrapped :
        wrap_for_device C entropy root_key device_id recipient now (binding_for k into) ≡ ok wrap
    pub written : k' ≡ with_devices k.current_generation into (into.devices ++ (wrap ∷ [])) k

  pub enrol-Enrolled :
      (entropy : ℕ) (root_key device_id recipient now : Text) (k k' : Keyring)
      → enrol C entropy root_key device_id recipient now k ≡ ok k'
      → Enrolled entropy root_key device_id recipient now k k'
  unfolding enrol
  enrol-Enrolled entropy root_key device_id recipient now k k' h = elim (Option-cases (current k)) [
    | inl e ↦ absurd (ground arith)
    | inr (g, e) ↦
        elim (Result-cases
          (wrap_for_device C entropy root_key device_id recipient now (binding_for k g))) [
            | inr (x, p) ↦ absurd (ground arith)
            | inl (w, p) ↦ record {
              into = g;
              wrap = w;
              found = e;
              keyed = check_root_key-ok root_key g.recipient stale_root_key (ground arith);
              fresh = ground arith;
              wrapped = p;
              written = ground arith;
            }
          ]
  ]

  wrap_for_device-fields :
      (entropy : ℕ) (root_key id recipient now : Text) (g : Generation) (k : Keyring)
      (w : DeviceWrap)
      → wrap_for_device C entropy root_key id recipient now (binding_for k g) ≡ ok w
      → (w.device_id ≡ id) × (w.public_key ≡ recipient)
  unfolding wrap_for_device
  wrap_for_device-fields entropy root_key id recipient now g k w h = ground arith

  device_public_key-append :
      (g : Generation) (w : DeviceWrap) (k : Keyring) (j : Text)
      → current k ≡ some g
      → has_device k w.device_id ≡ false
      → device_public_key (with_devices k.current_generation g (g.devices ++ (w ∷ [])) k) j
        ≡ (if w.device_id == j then w.public_key else device_public_key k j)
  unfolding device_public_key has_device
  device_public_key-append g w k j e f = ground (
    arith,
    current-with_devices g (g.devices ++ (w ∷ [])) k e,
    find_device-append j g.devices w,
    ==_iff w.device_id j,
  )

  -- After an enrolment that succeeds, the current generation lists the new device under its public
  -- key and every other device as before.
  pub device_public_key-enrol :
      (entropy : ℕ) (root_key device_id recipient now : Text) (k k' : Keyring) (j : Text)
      → enrol C entropy root_key device_id recipient now k ≡ ok k'
      → device_public_key k' j ≡ (if device_id == j then recipient else device_public_key k j)
  device_public_key-enrol entropy root_key device_id recipient now k k' j h =
      let e = enrol-Enrolled entropy root_key device_id recipient now k k' h in
      let f =
        wrap_for_device-fields entropy root_key device_id recipient now e.into k e.wrap e.wrapped in
      ground (
        arith,
        e.written,
        e.fresh,
        f.0,
        f.1,
        device_public_key-append e.into e.wrap k j e.found (ap (has_device k) f.0 ∙ e.fresh),
      )

  -- No enrolment makes a verified keyring unverifiable, nor the other way round.
  pub verify_generations-enrol :
      (entropy : ℕ) (root_key device_id recipient now : Text) (k k' : Keyring) (pinned : Text)
      → enrol C entropy root_key device_id recipient now k ≡ ok k'
      → verify_generations C pinned k' ≡ verify_generations C pinned k
  verify_generations-enrol entropy root_key device_id recipient now k k' pinned h =
      let e = enrol-Enrolled entropy root_key device_id recipient now k k' h in
      ap (verify_generations C pinned) e.written
      ∙ verify_generations-with_devices C k.current_generation e.into
          (e.into.devices ++ (e.wrap ∷ [])) k pinned (unfold current in e.found)

module _ (C : Crypto) (L : IsLawful C) where
  -- A device that was enrolled opens the current root key with its own key: the keyring that
  -- `Enrol` returns has a current generation, and its wrap for the device gives up that key.
  pub unwrap_device-enrol :
      (entropy : ℕ) (root_key device_id device now : Text) (k k' : Keyring)
      → enrol C entropy root_key device_id (C.identity_recipient device) now k ≡ ok k'
      → (g : Generation) × (current k' ≡ some g)
        × (unwrap_device C g device_id device (binding_for k' g) ≡ ok root_key)
  unwrap_device-enrol entropy root_key device_id device now k k' h =
      let e =
        enrol-Enrolled C entropy root_key device_id (C.identity_recipient device) now k k' h in
      let ds = e.into.devices ++ (e.wrap ∷ []) in
      let g = record e.into { devices = ds } in
      let f =
        wrap_for_device-fields C entropy root_key device_id (C.identity_recipient device) now e.into
          k e.wrap e.wrapped in
      let n : is_listed (find_device device_id e.into.devices) ≡ false =
        (unfold has_device in ground (arith, e.fresh, e.found)) in
      (
        g,
        ap current e.written ∙ current-with_devices e.into ds k e.found,
        unwrap-wrap_for_device C L g entropy root_key device_id device now (binding_for k' g) e.wrap
            e.keyed (unfold with_devices in ground (arith, e.written, e.wrapped))
            (ground (
              arith,
              find_device-append device_id e.into.devices e.wrap,
              ==_iff e.wrap.device_id device_id,
              n,
              f.0,
            )),
      )
