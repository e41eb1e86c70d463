-- ===== src/Sync/Manifest/Advanced.antt =====
-- A head that `updateManifest` has moved (internal/sync/push.go).
use reinstate.Base.{
  sym, ℕ, zero, suc, ◌≡◌, ◌≢◌, refl, ◌∙◌, ap, Bool, true, false, ◌⊎◌, inl, inr, none, some, String,
  arith, Result, ok, err, ◌==◌, ==_iff, string_eq, Result-cases, Option-cases, Bool-cases, nat_eq,
}
use reinstate.Base.Dict.{lookup}
use reinstate.Backend.{Storage, Bytes, ObjectMeta, BackendError, HasConditionalPut, is_contended}
use reinstate.Backend.Interference.{Interfered, still, attempt}
use reinstate.Sync.Model.{Manifest, ManifestSession, SyncError, Codec, max_manifest_retries}
use reinstate.Sync.Manifest.{
  head_of, advance, save_options, settle, encode_manifest, load_manifest, prepare, update_loop,
  update_manifest, require,
}

settle-ok :
    (answer : Result BackendError ObjectMeta)
    → settle answer ≡ some (ok tt)
    → (m : ObjectMeta) × (answer ≡ ok m)
settle-ok (ok m) h = (m, refl)
settle-ok (err e) h = absurd (ground arith)

pub settle-none :
    (answer : Result BackendError ObjectMeta)
    → settle answer ≡ none
    → (e : BackendError) × (answer ≡ err e) × (is_contended e ≡ true)
settle-none (ok m) h = absurd (ground arith)
settle-none (err e) h = (e, refl, ground arith)

require-ok : (b : Bool) (e : SyncError) → require b e ≡ ok tt → b ≡ true
require-ok true e h = refl
require-ok false e h = absurd (ground arith)

module _ (codec : Codec) (S : Storage) (key : String) (allow_missing : Bool) (session_key : String)
    (entry : ManifestSession) (expected_parent : String) where
  -- An update that has written: `read` is the state that the last attempt read, with `left` attempts
  -- after it, and `others left read` the state just before its write.
  pub record Advanced (others : ℕ → S.State → S.State) (clock : ℕ → String) (n : ℕ) (s s' : S.State)
      : Type 0 where
    pub read : S.State
    pub left : ℕ
    pub old : Manifest
    pub etag : String
    pub body : Bytes
    pub meta : ObjectMeta
    pub reached : Interfered others n s read
    pub loaded : load_manifest codec S key allow_missing read ≡ ok (old, etag)
    pub parent : head_of (lookup session_key old.sessions) ≡ expected_parent
    pub encoded : encode_manifest codec left (advance session_key entry (clock left) old) ≡ ok body
    pub unchanged :
        (S.get key (others left read) ≡ err BackendError.not_found)
        ⊎ ((was : Bytes) × (m : ObjectMeta) × (S.get key (others left read) ≡ ok (was, m))
            × (m.etag ≡ etag))
    pub stored : S.get key s' ≡ ok (body, meta)
    pub elsewhere : (j : String) → key ≢ j → S.get j s' ≡ S.get j (others left read)

  pub prepare-parts :
      (now : String) (n : ℕ) (s : S.State) (body : Bytes) (etag : String)
      → prepare codec S key allow_missing session_key entry expected_parent now n s
        ≡ ok (body, etag)
      → (old : Manifest) × (load_manifest codec S key allow_missing s ≡ ok (old, etag))
        × (head_of (lookup session_key old.sessions) ≡ expected_parent)
        × (encode_manifest codec n (advance session_key entry now old) ≡ ok body)
  unfolding prepare
  prepare-parts now n s body etag h =
      elim (Result-cases (load_manifest codec S key allow_missing s)) [
        | inr (e, p) ↦ absurd (ground arith)
        | inl ((old, tag), p) ↦
            elim (Bool-cases (head_of (lookup session_key old.sessions) == expected_parent)) [
              | inr q ↦ absurd (ground arith)
              | inl q ↦
                  elim (Result-cases
                    (encode_manifest codec n (advance session_key entry now old))) [
                      | inr (e, r) ↦ absurd (ground arith)
                      | inl (b, r) ↦ (
                        old,
                        ground arith,
                        (==_iff (head_of (lookup session_key old.sessions)) expected_parent).0 q,
                        ground arith,
                      )
                    ]
            ]
      ]

  later :
      (others : ℕ → S.State → S.State) (clock : ℕ → String) (n : ℕ) (s s' : S.State)
      → Advanced others clock n (others n s) s'
      → Advanced others clock (suc n) s s'
  later others clock n s s' w = record {
    read = w.read;
    left = w.left;
    old = w.old;
    etag = w.etag;
    body = w.body;
    meta = w.meta;
    reached = attempt n s w.read w.reached;
    loaded = w.loaded;
    parent = w.parent;
    encoded = w.encoded;
    unchanged = w.unchanged;
    stored = w.stored;
    elsewhere = w.elsewhere;
  }

  module _ {IsValid : S.State → Type 0} (W : HasConditionalPut S IsValid)
      (others : ℕ → S.State → S.State) (clock : ℕ → String)
      (valid-others : (n : ℕ) (s : S.State) → IsValid s → IsValid (others n s)) where
    -- A conditional write that succeeds found what was read.
    put-unchanged :
        (etag : String) (body : Bytes) (m : ObjectMeta) (t : S.State)
        → IsValid t
        → (S.put key body (save_options etag) t).1 ≡ ok m
        → (S.get key t ≡ err BackendError.not_found)
          ⊎ ((was : Bytes) × (o : ObjectMeta) × (S.get key t ≡ ok (was, o)) × (o.etag ≡ etag))
    unfolding save_options
    put-unchanged etag body m t v h = elim (Bool-cases (etag == "")) [
      | inl q ↦ inl (W.put_absent key body (save_options etag) m t (ground arith) h)
      | inr q ↦
          let same : (save_options etag).if_match ≡ etag = ground arith in
          let tagged : (save_options etag).if_match ≢ "" = ground (arith, ==_iff etag "") in
          let o = W.put_matched key body (save_options etag) m t v tagged h in
          inr (o.0, o.1, o.2, o.3 ∙ same)
    ]

    first_advanced :
        (n : ℕ) (s s' : S.State) (body : Bytes) (etag : String)
        → IsValid s
        → prepare codec S key allow_missing session_key entry expected_parent (clock n) n s
          ≡ ok (body, etag)
        → settle (S.put key body (save_options etag) (others n s)).1 ≡ some (ok tt)
        → (S.put key body (save_options etag) (others n s)).0 ≡ s'
        → Advanced others clock (suc n) s s'
    first_advanced n s s' body etag v p q e =
        let t = others n s in
        let opts = save_options etag in
        let a = prepare-parts (clock n) n s body etag p in
        let c = settle-ok (S.put key body opts t).1 q in
        record {
          read = s;
          left = n;
          old = a.0;
          etag = etag;
          body = body;
          meta = c.0;
          reached = still (suc n) s;
          loaded = a.1;
          parent = a.2;
          encoded = a.3;
          unchanged = put-unchanged etag body c.0 t (valid-others n s v) c.1;
          stored = ap (S.get key) (sym e) ∙ W.get-put_ok key body opts c.0 t c.1;
          elsewhere = λ j d. ap (S.get j) (sym e) ∙ W.get-put_elsewhere key j body opts t d;
        }

    update_loop-Advanced :
        (n : ℕ) (s s' : S.State)
        → IsValid s
        → update_loop codec S key others clock allow_missing session_key entry expected_parent n s
          ≡ (s', ok tt)
        → Advanced others clock n s s'
    unfolding update_loop
    update_loop-Advanced zero s s' v h = absurd (ground arith)
    update_loop-Advanced (suc n) s s' v h =
        elim (Result-cases
          (prepare codec S key allow_missing session_key entry expected_parent (clock n) n s)) [
            | inr (e, p) ↦ absurd (ground arith)
            | inl ((body, etag), p) ↦
                let t = others n s in
                let opts = save_options etag in
                elim (Option-cases (settle (S.put key body opts t).1)) [
                  | inl q ↦
                      let c = settle-none (S.put key body opts t).1 q in
                      let same : (S.put key body opts t).0 ≡ t =
                        W.put_contended key body opts c.0 t c.2 c.1 in
                      later others clock n s s'
                        (update_loop-Advanced n t s' (valid-others n s v) (ground (arith, same)))
                  | inr (r, q) ↦
                      let done : r ≡ ok tt = ground arith in
                      let there : (S.put key body opts t).0 ≡ s' = ground arith in
                      first_advanced n s s' body etag v p (q ∙ ap some done) there
                ]
          ]

    -- An update of the manifest that succeeds has moved the head of the session from the expected
    -- parent to the new entry and has lost no update of another device: it replaced the manifest
    -- that it read, or none where there was none, by that manifest with the entry; other keys are
    -- as the others left them. The storage has conditional writes, and the other devices keep its
    -- states valid.
    pub update_manifest-Advanced :
        (s s' : S.State)
        → IsValid s
        → update_manifest codec S key others clock allow_missing session_key entry expected_parent s
          ≡ (s', ok tt)
        → Advanced others clock max_manifest_retries s s'
    unfolding update_manifest
    update_manifest-Advanced s s' v h = update_loop-Advanced max_manifest_retries s s' v h
