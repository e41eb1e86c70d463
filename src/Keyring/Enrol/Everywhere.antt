-- ===== src/Keyring/Enrol/Everywhere.antt =====
-- Enrolling a device into every generation and taking it out again leaves every signature as valid as
-- it was (internal/keyring/keyring.go, `EnrolInto`, `EnrolAll` and `UnenrolAppended`).
use reinstate.Base.{
  ℕ, ◌≡◌, refl, ap, ◌∙◌, sym, false, not, some, List, [], ◌∷◌, ◌++◌, map, inl, inr, arith, ◌==◌,
  nat_eq, bytes_eq, if◌then◌else◌, ok, Bool-cases, Option-cases, Result-cases,
}
use reinstate.Base.Dict.{Dict, lookup}
use reinstate.Base.Sorting.{sort_ints}
use reinstate.Keyring.Model.{Bytes, Text, Generation, Keyring, generation, with_devices}
use reinstate.Keyring.Crypto.{Crypto}
use reinstate.Keyring.Verify.{verify_generations}
use reinstate.Keyring.Wraps.{wrap_for_device}
use reinstate.Keyring.Enrol.{
  AppendedWrap, binding_for, enrol, place_wrap, enrol_into, device_wrap, wrap_text, without,
  key_or_nil, enrol_earlier, enrol_all, remove_wrap, unenrol_appended,
}
use reinstate.Keyring.Enrol.Signatures.{verify_generations-with_devices}
use reinstate.Keyring.Enrol.Devices.{verify_generations-enrol}

module _ (C : Crypto) (pinned : Text) where
  -- The same answer of the verification.
  abbrev Agree : Keyring → Keyring → Type 0
  Agree k' k = verify_generations C pinned k' ≡ verify_generations C pinned k

  enrol_into-earlier :
      (entropy n : ℕ) (root_key id recipient now : Text) (k k' : Keyring) (g : Generation)
      → generation k n ≡ some g
      → (n == k.current_generation) ≡ false
      → enrol_into C entropy n root_key id recipient now k ≡ ok k'
      → Agree k' k
  unfolding enrol_into
  enrol_into-earlier entropy n root_key id recipient now k k' g e c h =
      elim (Result-cases (wrap_for_device C entropy root_key id recipient now (binding_for k g))) [
        | inr (x, p) ↦ absurd (ground arith)
        | inl (w, p) ↦
            let written : with_devices n g (place_wrap C w g.devices) k ≡ k' = ground arith in
            ap (verify_generations C pinned) (sym written)
            ∙ verify_generations-with_devices C n g (place_wrap C w g.devices) k pinned e
      ]

  verify_generations-enrol_into :
      (entropy n : ℕ) (root_key id recipient now : Text) (k k' : Keyring)
      → enrol_into C entropy n root_key id recipient now k ≡ ok k'
      → Agree k' k
  unfolding enrol_into
  verify_generations-enrol_into entropy n root_key id recipient now k k' h =
      elim (Option-cases (generation k n)) [
        | inl e ↦ absurd (ground arith)
        | inr (g, e) ↦ elim (Bool-cases (n == k.current_generation)) [
          | inl c ↦
              verify_generations-enrol C entropy root_key id recipient now k k' pinned
                (ground arith)
          | inr c ↦ enrol_into-earlier entropy n root_key id recipient now k k' g e c h
        ]
      ]

  verify_generations-enrol_earlier :
      (entropy : ℕ → ℕ) (keys : Dict ℕ Bytes) (id recipient now : Text) (ns : List ℕ)
      (appended : List AppendedWrap) (k : Keyring)
      → Agree (enrol_earlier C entropy keys id recipient now ns appended k).keyring k
  unfolding enrol_earlier
  verify_generations-enrol_earlier entropy keys id recipient now [] appended k = refl
  verify_generations-enrol_earlier entropy keys id recipient now (n ∷ ns) appended k =
      let key = key_or_nil (lookup n keys) in
      elim (Result-cases (enrol_into C (entropy n) n key id recipient now k)) [
        | inr (e, p) ↦ rw (enrol_earlier, p) refl
        | inl (k', p) ↦
            let kept = verify_generations-enrol_into (entropy n) n key id recipient now k k' p in
            elim (Option-cases (device_wrap k' n id)) [
              | inl q ↦
                  rw (enrol_earlier, p, q)
                    (verify_generations-enrol_earlier entropy keys id recipient now ns appended k'
                      ∙ kept)
              | inr (after, q) ↦
                  rw (enrol_earlier, p, q)
                    (verify_generations-enrol_earlier entropy keys id recipient now ns
                        (if not (after.wrap == wrap_text (device_wrap k n id))
                          then appended ++ (record { generation = n; wrap = after.wrap } ∷ [])
                          else appended)
                        k'
                      ∙ kept)
            ]
      ]

  -- However an enrolment into every generation ends, also where it stops halfway with an error,
  -- the keyring that it leaves verifies exactly where it did before.
  pub verify_generations-enrol_all :
      (entropy : ℕ → ℕ) (keys : Dict ℕ Bytes) (id recipient now : Text) (k : Keyring)
      → verify_generations C pinned (enrol_all C entropy keys id recipient now k).keyring
        ≡ verify_generations C pinned k
  unfolding enrol_all
  verify_generations-enrol_all entropy keys id recipient now k =
      let c = k.current_generation in
      elim (Option-cases (lookup c keys)) [
        | inl e ↦ rw (enrol_all, e) refl
        | inr (root_key, e) ↦
            elim (Result-cases (enrol C (entropy c) root_key id recipient now k)) [
              | inr (x, p) ↦ rw (enrol_all, e, p) refl
              | inl (k', p) ↦
                  rw (enrol_all, e, p)
                    (verify_generations-enrol_earlier entropy keys id recipient now
                        (sort_ints (without c (map (λ (n, _). n) keys)))
                        (record { generation = c; wrap = wrap_text (device_wrap k' c id) } ∷ []) k'
                      ∙ verify_generations-enrol C (entropy c) root_key id recipient now k k' pinned
                          p)
            ]
      ]

  -- Taking appended wraps out again leaves a keyring that verifies exactly where it did before.
  pub verify_generations-unenrol_appended :
      (id : Text) (appended : List AppendedWrap) (k : Keyring)
      → verify_generations C pinned (unenrol_appended id appended k).0
        ≡ verify_generations C pinned k
  unfolding unenrol_appended
  verify_generations-unenrol_appended id [] k = refl
  verify_generations-unenrol_appended id (a ∷ rest) k =
      elim (Option-cases (generation k a.generation)) [
        | inl e ↦ rw (unenrol_appended, e) (verify_generations-unenrol_appended id rest k)
        | inr (g, e) ↦ elim (Bool-cases (a.wrap == [])) [
          | inl b ↦ rw (unenrol_appended, e, b) (verify_generations-unenrol_appended id rest k)
          | inr b ↦ elim (Option-cases (remove_wrap id a.wrap g.devices)) [
            | inl r ↦ rw (unenrol_appended, e, b, r) (verify_generations-unenrol_appended id rest k)
            | inr (devices, r) ↦
                rw (unenrol_appended, e, b, r)
                  (verify_generations-unenrol_appended id rest
                      (with_devices a.generation g devices k)
                    ∙ verify_generations-with_devices C a.generation g devices k pinned e)
          ]
        ]
      ]
