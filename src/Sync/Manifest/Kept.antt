-- ===== src/Sync/Manifest/Kept.antt =====
-- What a reader finds after `updateManifest` (internal/sync/push.go), and what a failure leaves.
use reinstate.Base.{
  ℕ, zero, suc, ◌≡◌, ◌≢◌, ◌≤◌, refl, ◌∙◌, ap, subst, Bool, true, false, inl, inr, some, String,
  arith, Result, ok, err, ◌==◌, ==_iff, string_eq, nat_eq, Result-cases, Option-cases, length,
  if◌then◌else◌,
}
use reinstate.Base.Dict.{lookup, lookup-insert}
use reinstate.Backend.{Storage, Bytes, ObjectMeta, BackendError, HasConditionalPut}
use reinstate.Backend.Interference.{Interfered, still, attempt}
use reinstate.Sync.Model.{
  Manifest, ManifestSession, SyncError, backend_failed, Codec, new_manifest,
  manifest_schema_version, max_manifest_bytes, max_manifest_retries,
}
use reinstate.Sync.Manifest.{
  advance, save_options, settle, decode_manifest, load_failed, load_manifest, prepare, update_loop,
  update_manifest,
}
use reinstate.Sync.Manifest.Advanced.{Advanced, settle-none}

load_failed-version :
    (allow_missing : Bool) (e : BackendError) (m : Manifest) (etag : String)
    → load_failed allow_missing e ≡ ok (m, etag)
    → m.schema_version ≡ manifest_schema_version
unfolding load_failed new_manifest
load_failed-version true BackendError.not_found m etag h = ground arith
load_failed-version false BackendError.not_found m etag h = absurd (ground arith)
load_failed-version a BackendError.precondition m etag h = absurd (ground arith)
load_failed-version a BackendError.already_exists m etag h = absurd (ground arith)
load_failed-version a BackendError.unauthorized m etag h = absurd (ground arith)
load_failed-version a BackendError.access_denied m etag h = absurd (ground arith)
load_failed-version a BackendError.credential_rejected m etag h = absurd (ground arith)
load_failed-version a (BackendError.refusal r) m etag h = absurd (ground arith)
load_failed-version a (BackendError.api_answer t) m etag h = absurd (ground arith)
load_failed-version a (BackendError.other t) m etag h = absurd (ground arith)

module _ (codec : Codec) where
  decode_manifest-version :
      (body : Bytes) (m : Manifest)
      → decode_manifest codec body ≡ ok m
      → m.schema_version ≡ manifest_schema_version
  unfolding decode_manifest
  decode_manifest-version body m h = elim (Option-cases (codec.decrypt body)) [
    | inl p ↦ absurd (ground arith)
    | inr (raw, p) ↦ elim (Option-cases (codec.unmarshal raw)) [
      | inl q ↦ absurd (ground arith)
      | inr (m', q) ↦ ground (arith, ==_iff m'.schema_version manifest_schema_version)
    ]
  ]

  decode_manifest-ok :
      (body raw : Bytes) (m : Manifest)
      → codec.decrypt body ≡ some raw
      → codec.unmarshal raw ≡ some m
      → m.schema_version ≡ manifest_schema_version
      → length raw ≤ max_manifest_bytes
      → decode_manifest codec body ≡ ok m
  unfolding decode_manifest
  decode_manifest-ok body raw m d u v fits =
      rw d (ground (arith, u, fits, v, ==_iff m.schema_version manifest_schema_version))

  module _ (S : Storage) (key : String) (allow_missing : Bool) where
    load_manifest-version :
        (s : S.State) (m : Manifest) (etag : String)
        → load_manifest codec S key allow_missing s ≡ ok (m, etag)
        → m.schema_version ≡ manifest_schema_version
    unfolding load_manifest
    load_manifest-version s m etag h = elim (Result-cases (S.get key s)) [
      | inr (e, p) ↦ load_failed-version allow_missing e m etag (ground arith)
      | inl ((body, o), p) ↦ elim (Result-cases (decode_manifest codec body)) [
        | inr (e, q) ↦ absurd (ground arith)
        | inl (m', q) ↦ ground (arith, decode_manifest-version body m' q)
      ]
    ]

    load_manifest-stored :
        (s : S.State) (body : Bytes) (o : ObjectMeta) (m : Manifest)
        → S.get key s ≡ ok (body, o)
        → decode_manifest codec body ≡ ok m
        → load_manifest codec S key allow_missing s ≡ ok (m, o.etag)
    unfolding load_manifest
    load_manifest-stored s body o m p q = rw (load_manifest, p, q) refl

    module _ (session_key : String) (entry : ManifestSession) (expected_parent : String)
        (others : ℕ → S.State → S.State) (clock : ℕ → String) where
      advance-schema_version :
          (now : String) (m : Manifest)
          → (advance session_key entry now m).schema_version ≡ m.schema_version
      unfolding advance
      advance-schema_version now m = refl

      lookup-advance :
          (j now : String) (m : Manifest)
          → lookup j (advance session_key entry now m).sessions
            ≡ (if session_key == j then some entry else lookup j m.sessions)
      unfolding advance
      lookup-advance j now m = lookup-insert session_key j entry m.sessions

      -- After an update that has moved a head, a reader finds the new entry under the session, and
      -- under every other session what the manifest had that the update read. What was written
      -- decrypts to an encoding of the new manifest of a size that a read accepts.
      pub load_manifest-Advanced :
          (n : ℕ) (s s' : S.State)
          → (w : Advanced codec S key allow_missing session_key entry expected_parent others clock n
              s s')
          → (raw : Bytes) → codec.decrypt w.body ≡ some raw
          → codec.unmarshal raw ≡ some (advance session_key entry (clock w.left) w.old)
          → length raw ≤ max_manifest_bytes
          → (m : Manifest) × (etag : String) × (load_manifest codec S key allow_missing s'
              ≡ ok (m, etag))
            × ((j : String)
                → lookup j m.sessions
                  ≡ (if session_key == j then some entry else lookup j w.old.sessions))
      load_manifest-Advanced n s s' w raw d u fits =
          let new = advance session_key entry (clock w.left) w.old in
          let version = load_manifest-version w.read w.old w.etag w.loaded in
          let decoded =
            decode_manifest-ok w.body raw new d u
              (advance-schema_version (clock w.left) w.old ∙ version) fits in
          (
            new,
            w.meta.etag,
            load_manifest-stored s' w.body w.meta new w.stored decoded,
            λ j. lookup-advance j (clock w.left) w.old,
          )

      settle-failed :
          (answer : Result BackendError ObjectMeta) (e : SyncError)
          → settle answer ≡ some (err e)
          → (x : BackendError) × (e ≡ backend_failed x)
      settle-failed (ok m) e h = absurd (ground arith)
      settle-failed (err x) e h = (x, ground arith)

      module _ {IsValid : S.State → Type 0} (W : HasConditionalPut S IsValid) where
        update_loop_failed :
            (n : ℕ) (s s' : S.State) (e : SyncError)
            → ((x : BackendError) → e ≢ backend_failed x)
            → update_loop codec S key others clock allow_missing session_key entry expected_parent n
                s
              ≡ (s', err e)
            → Interfered others n s s'
        unfolding update_loop
        update_loop_failed zero s s' e d h =
            let there : s ≡ s' = ground arith in
            subst (Interfered others zero s) there (still zero s)
        update_loop_failed (suc n) s s' e d h =
            elim (Result-cases
              (prepare codec S key allow_missing session_key entry expected_parent (clock n) n s)) [
                | inr (x, p) ↦
                    let there : s ≡ s' = ground arith in
                    subst (Interfered others (suc n) s) there (still (suc n) s)
                | inl ((body, etag), p) ↦
                    let t = others n s in
                    let opts = save_options etag in
                    elim (Option-cases (settle (S.put key body opts t).1)) [
                      | inl q ↦
                          let c = settle-none (S.put key body opts t).1 q in
                          let same : (S.put key body opts t).0 ≡ t =
                            W.put_contended key body opts c.0 t c.2 c.1 in
                          attempt n s s' (update_loop_failed n t s' e d (ground (arith, same)))
                      | inr (r, q) ↦
                          let failed : r ≡ err e = ground arith in
                          let f = settle-failed (S.put key body opts t).1 e (q ∙ ap some failed) in
                          absurd (d f.0 f.1)
                    ]
              ]

        -- An update of the manifest that fails for any reason but an error of the storage, a
        -- conflict among them, has written nothing: the state is what the other devices made of it
        -- during at most four attempts.
        pub update_manifest_failed :
            (s s' : S.State) (e : SyncError)
            → ((x : BackendError) → e ≢ backend_failed x)
            → update_manifest codec S key others clock allow_missing session_key entry
                expected_parent s
              ≡ (s', err e)
            → Interfered others max_manifest_retries s s'
        unfolding update_manifest
        update_manifest_failed s s' e d h = update_loop_failed max_manifest_retries s s' e d h
