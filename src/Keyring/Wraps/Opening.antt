-- ===== src/Keyring/Wraps/Opening.antt =====
-- What opens a wrap, and what an opened wrap holds (internal/keyring/keyring.go).
use reinstate.Base.{
  ℕ, ◌≡◌, refl, subst, some, [], ◌++◌, length, drop, take-append, drop-append, length-append,
  ==_iff, ==_refl, nat_eq, bytes_eq, arith, ok, Option-cases, inl, inr,
}
use reinstate.Keyring.Model.{
  Bytes, Text, RecoveryWrap, DeviceWrap, Generation, Binding, find_device, wrap_format_bound,
}
use reinstate.Keyring.Crypto.{Crypto, IsLawful}
use reinstate.Keyring.Recovery.{normalize_recovery_code}
use reinstate.Keyring.Wraps.{
  root_recipient, device_prefix, recovery_aad, open_payload, open_wrap, unwrap_device,
  wrap_for_device, derive_recovery_key, wrap_under_recovery_code, open_recovery,
  unwrap_with_recovery_code, recovery_kdf_name, argon2_time, argon2_memory, argon2_threads,
}

module _ (C : Crypto) where
  root_recipient-length : (key r : Text) → root_recipient C key ≡ some r → length key ≡ 32
  unfolding root_recipient
  root_recipient-length key r h = ground arith

  open_payload_sound :
      (g : Generation) (bind : Binding) (payload key : Bytes)
      → open_payload C g bind payload ≡ ok key
      → root_recipient C key ≡ some g.recipient
  unfolding open_payload
  open_payload_sound g bind payload key h =
      let k = drop (length (device_prefix C bind)) payload in
      elim (Option-cases (root_recipient C k)) [
        | inl e ↦ ground arith
        | inr (r, e) ↦ ground (arith, ==_iff r g.recipient)
      ]

  open_wrap_sound :
      (g : Generation) (d : DeviceWrap) (device : Text) (bind : Binding) (key : Bytes)
      → open_wrap C g d device bind ≡ ok key
      → (root_recipient C key ≡ some g.recipient) × (d.public_key ≡ C.identity_recipient device)
  unfolding open_wrap
  open_wrap_sound g d device bind key h = elim (Option-cases (C.base64_decode d.wrap)) [
    | inl e ↦ ground arith
    | inr (cipher, e) ↦ elim (Option-cases (C.decrypt device cipher)) [
      | inl p ↦ ground arith
      | inr (payload, p) ↦ ground (
        arith,
        open_payload_sound g bind payload key,
        ==_iff d.public_key (C.identity_recipient device),
      )
    ]
  ]

  -- A root key that a device wrap gives up derives the recipient that its generation records, so
  -- whoever adds a wrap cannot substitute another key; and the wrap was for this device's key.
  pub unwrap_device_sound :
      (g : Generation) (id device : Text) (bind : Binding) (key : Bytes)
      → unwrap_device C g id device bind ≡ ok key
      → (root_recipient C key ≡ some g.recipient)
        × (length key ≡ 32)
        × (d : DeviceWrap) × (find_device id g.devices ≡ some d)
        × (d.public_key ≡ C.identity_recipient device)
  unfolding unwrap_device
  unwrap_device_sound g id device bind key h = elim (Option-cases (find_device id g.devices)) [
    | inl e ↦ ground arith
    | inr (d, e) ↦
        let r = open_wrap_sound g d device bind key (ground arith) in
        (r.0, root_recipient-length key g.recipient r.0, d, e, r.1)
  ]

module _ (C : Crypto) (L : IsLawful C) where
  open_payload-prefix :
      (g : Generation) (bind : Binding) (key : Bytes)
      → root_recipient C key ≡ some g.recipient
      → open_payload C g bind (device_prefix C bind ++ key) ≡ ok key
  unfolding open_payload
  open_payload-prefix g bind key h =
      let p = device_prefix C bind in
      ground (
        arith,
        take-append (length p) p key refl,
        drop-append (length p) p key refl,
        length-append p key,
        root_recipient-length C key g.recipient h,
        ==_refl p,
        ==_refl g.recipient,
      )

  -- What is wrapped for a device opens with that device's key, where the generation records the
  -- recipient of the root key and this wrap is the first that it lists for the device.
  pub unwrap-wrap_for_device :
      (g : Generation) (entropy : ℕ) (key : Bytes) (id device now : Text) (bind : Binding)
      (w : DeviceWrap)
      → root_recipient C key ≡ some g.recipient
      → wrap_for_device C entropy key id (C.identity_recipient device) now bind ≡ ok w
      → find_device id g.devices ≡ some w
      → unwrap_device C g id device bind ≡ ok key
  unfolding wrap_for_device unwrap_device open_wrap
  unwrap-wrap_for_device g entropy key id device now bind w r h f =
      let plain = device_prefix C bind ++ key in
      elim (Option-cases (C.encrypt entropy (C.identity_recipient device) plain)) [
        | inl e ↦ ground arith
        | inr (cipher, e) ↦ ground (
          arith,
          L.base64_round_trip cipher,
          L.decrypt-encrypt entropy device plain cipher e,
          open_payload-prefix g bind key r,
          ==_refl (C.identity_recipient device),
        )
      ]

  open_recovery-seal :
      (w : RecoveryWrap) (code salt nonce key : Bytes) (bind : Binding)
      → length nonce ≡ 24
      → length key ≡ 32
      → open_recovery C w code salt
          (nonce ++ C.seal (derive_recovery_key C code salt w) nonce key (recovery_aad C bind))
          bind
        ≡ ok key
  unfolding open_recovery
  open_recovery-seal w code salt nonce key bind n l =
      let k = derive_recovery_key C code salt w in
      let sealed = C.seal k nonce key (recovery_aad C bind) in
      rw
        (
          take-append 24 nonce sealed n,
          drop-append 24 nonce sealed n,
          L.open_sealed-seal k nonce key (recovery_aad C bind),
        )
        (ground (arith, length-append nonce sealed))

  -- What is wrapped under a canonical recovery code opens again with every typed form of that code.
  pub unwrap-wrap_under_recovery_code :
      (key salt nonce : Bytes) (code typed : Text) (bind : Binding) (w : RecoveryWrap)
      → normalize_recovery_code C code ≡ some code
      → normalize_recovery_code C typed ≡ some code
      → length nonce ≡ 24
      → length key ≡ 32
      → wrap_under_recovery_code C (some salt) (some nonce) key code bind ≡ ok w
      → unwrap_with_recovery_code C w typed bind ≡ ok key
  unfolding wrap_under_recovery_code unwrap_with_recovery_code derive_recovery_key
  unwrap-wrap_under_recovery_code key salt nonce code typed bind w c t n l h =
      let w0 : RecoveryWrap = record {
        kdf = recovery_kdf_name;
        time = argon2_time;
        memory_kib = argon2_memory;
        threads = argon2_threads;
        salt = C.base64_encode salt;
        wrap = [];
        format = wrap_format_bound;
      } in
      let cipher =
        nonce ++ C.seal (derive_recovery_key C code salt w0) nonce key (recovery_aad C bind) in
      let w1 : RecoveryWrap = record w0 { wrap = C.base64_encode cipher } in
      let e : w1 ≡ w = ground arith in
      subst (λ v. unwrap_with_recovery_code C v typed bind ≡ ok key) e
        (ground (
          arith,
          L.base64_round_trip salt,
          L.base64_round_trip cipher,
          open_recovery-seal w1 code salt nonce key bind n l,
        ))
