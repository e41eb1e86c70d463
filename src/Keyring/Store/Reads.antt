-- ===== src/Keyring/Store/Reads.antt =====
-- What is written can be read back, and what fails is not written (internal/keyring/store.go).
use reinstate.Base.{
  ℕ, zero, suc, ◌≡◌, refl, ◌∙◌, ap, ◌≢◌, false, some, String, sym, subst, length, arith, ltb,
  Result, ok, err, Result-cases, Option-cases, inl, inr, ◌>>=◌,
}
use reinstate.Backend.{Storage, ObjectMeta, BackendError, Bytes, HasConditionalPut}
use reinstate.Backend.Interference.{Interfered, still, attempt}
use reinstate.Keyring.Model.{Keyring, KeyringError, backend_failed}
use reinstate.Keyring.Crypto.{Crypto}
use reinstate.Keyring.Parse.{Codec, parse, marshal}
use reinstate.Keyring.Store.{
  written_form, check_write_size, load, create, create_options, prepare, update_options,
  settle_update, update_loop, update, max_update_retries,
}
use reinstate.Keyring.Store.Updates.{settle_update-none}

written_form-fits :
    (codec : Codec) (k : Keyring) (raw : Bytes)
    → written_form codec k ≡ ok raw
    → ltb 1048576 (length raw) ≡ false
unfolding written_form check_write_size
written_form-fits codec k raw h = elim (Result-cases (marshal codec k)) [
  | inr (e, p) ↦ absurd (ground arith)
  | inl (b, p) ↦ ground arith
]

module _ (C : Crypto) (codec : Codec) (S : Storage) where
  load-written_form :
      (key : String) (k : Keyring) (raw : Bytes) (m : ObjectMeta) (s : S.State)
      → written_form codec k ≡ ok raw
      → S.get key s ≡ ok (raw, m)
      → load C codec S key s ≡ (parse C codec raw >>= λ k. ok (k, m.etag))
  unfolding load
  load-written_form key k raw m s w g = ground (arith, written_form-fits codec k raw w)

  module _ {IsValid : S.State → Type 0} (W : HasConditionalPut S IsValid) where
    -- A keyring that was created stands where nothing stood, and a read finds it: its size is
    -- within what a read accepts, so the read decodes exactly the bytes that were written.
    pub load-create :
        (key : String) (k : Keyring) (s s' : S.State)
        → create C codec S key k s ≡ (s', ok tt)
        → (S.get key s ≡ err BackendError.not_found)
          × (raw : Bytes) × (m : ObjectMeta) × (written_form codec k ≡ ok raw)
          × (load C codec S key s' ≡ (parse C codec raw >>= λ k. ok (k, m.etag)))
    unfolding create
    load-create key k s s' h = elim (Result-cases (written_form codec k)) [
      | inr (e, p) ↦ absurd (ground arith)
      | inl (raw, p) ↦ elim (Result-cases (S.put key raw create_options s).1) [
        | inr (e, q) ↦ absurd (ground arith)
        | inl (m, q) ↦
            let there : (S.put key raw create_options s).0 ≡ s' = ground arith in
            (
              W.put_absent key raw create_options m s refl q,
              raw,
              m,
              p,
              load-written_form key k raw m s' p
                  (ap (S.get key) (sym there) ∙ W.get-put_ok key raw create_options m s q),
            )
      ]
    ]

    module _ (others : ℕ → S.State → S.State) where
      settle_update-failed :
          (k : Keyring) (answer : Result BackendError ObjectMeta) (e : KeyringError)
          → settle_update k answer ≡ some (err e)
          → e ≡ backend_failed
      settle_update-failed k (ok m) e h = absurd (ground arith)
      settle_update-failed k (err x) e h = ground arith

      update_loop_failed :
          (n : ℕ) (key : String) (mutate : Keyring → Result KeyringError Keyring) (s s' : S.State)
          (e : KeyringError)
          → e ≢ backend_failed
          → update_loop C codec S others n key mutate s ≡ (s', err e)
          → Interfered others n s s'
      unfolding update_loop
      update_loop_failed zero key mutate s s' e d h =
          let there : s ≡ s' = ground arith in subst (Interfered others zero s) there (still zero s)
      update_loop_failed (suc n) key mutate s s' e d h =
          elim (Result-cases (prepare C codec S mutate key s)) [
            | inr (x, p) ↦
                let there : s ≡ s' = ground arith in
                subst (Interfered others (suc n) s) there (still (suc n) s)
            | inl ((k, raw, etag), p) ↦
                let t = others n s in
                let opts = update_options etag in
                elim (Option-cases (settle_update k (S.put key raw opts t).1)) [
                  | inl q ↦
                      let c = settle_update-none k (S.put key raw opts t).1 q in
                      let same : (S.put key raw opts t).0 ≡ t =
                        W.put_contended key raw opts c.0 t c.2 c.1 in
                      attempt n s s'
                        (update_loop_failed n key mutate t s' e d (ground (arith, same)))
                  | inr (r, q) ↦
                      let failed : r ≡ err e = ground arith in
                      absurd
                        (d (settle_update-failed k (S.put key raw opts t).1 e (q ∙ ap some failed)))
                ]
          ]

      -- An update that fails for any reason but an error of the storage has written nothing: the
      -- state is what the other devices made of it.
      pub update_failed :
          (key : String) (mutate : Keyring → Result KeyringError Keyring) (s s' : S.State)
          (e : KeyringError)
          → e ≢ backend_failed
          → update C codec S others key mutate s ≡ (s', err e)
          → Interfered others max_update_retries s s'
      unfolding update
      update_failed key mutate s s' e d h =
          update_loop_failed max_update_retries key mutate s s' e d h
