-- ===== src/Sync/Push/Pushed.antt =====
-- A push that succeeds (internal/sync/push.go, `PushSession`).
use reinstate.Base.{
  ℕ, ◌≡◌, ◌≤◌, refl, ◌∙◌, ap, false, not, ◌⊎◌, inl, inr, none, some, Option, String, length, arith,
  Result, ok, err, ==_iff, string_eq, bytes_eq, Result-cases, Option-cases,
}
use reinstate.Base.Dict.{lookup}
use reinstate.Backend.{Storage, Bytes, ObjectMeta, BackendError, HasConditionalPut}
use reinstate.Sync.Model.{Manifest, SyncError, PushItem, max_manifest_retries, with_metadata}
use reinstate.Sync.Plan.{session_key}
use reinstate.Sync.Paths.{contains_hard_excluded_path}
use reinstate.Sync.Manifest.{head_of, load_manifest, update_manifest}
use reinstate.Sync.Manifest.Advanced.{Advanced, update_manifest-Advanced}
use reinstate.Sync.Push.{
  Engine, PushResult, create_only, report_update, manifest_key, snapshot_key, check_item,
  find_parent, envelope_of, entry_of, prepare_push, upload, push_session,
}

module _ (E : Engine) (S : Storage) (item : PushItem) where
  abbrev head_in : Manifest → String
  head_in m = head_of (lookup (session_key item.agent item.session_id) m.sessions)

  -- What a push that goes through has checked: the payload is the file, neither too large nor
  -- excluded, and the head of the session is the base that the caller knows, if it knows one.
  pub record Checked (source : Option Bytes) (s : S.State) (payload : Bytes) (parent : String)
      : Type 0 where
    pub current : Manifest
    pub etag : String
    pub opened : source ≡ some payload
    pub fits : length payload ≤ E.max_payload_size
    pub included : contains_hard_excluded_path E.paths item.local_path ≡ false
    pub included_in_store : contains_hard_excluded_path E.paths item.relative_path ≡ false
    pub loaded :
        load_manifest E.codec S (manifest_key E S) (not E.require_remote_manifest) s
        ≡ ok (current, etag)
    pub head : head_in current ≡ parent
    pub base : (item.base_known ≡ false) ⊎ (parent ≡ item.base_revision)

  check_item-parts :
      (source : Option Bytes) (payload : Bytes)
      → check_item E S item source ≡ ok payload
      → (source ≡ some payload)
        × (length payload ≤ E.max_payload_size)
        × (contains_hard_excluded_path E.paths item.local_path ≡ false)
        × (contains_hard_excluded_path E.paths item.relative_path ≡ false)
  unfolding check_item
  check_item-parts none payload h = absurd (ground arith)
  check_item-parts (some b) payload h = (ground arith, ground arith, ground arith, ground arith)

  find_parent-parts :
      (s : S.State) (parent : String)
      → find_parent E S item s ≡ ok parent
      → (current : Manifest) × (etag : String) × (load_manifest E.codec S
            (manifest_key E S)
            (not E.require_remote_manifest)
            s
          ≡ ok (current, etag))
        × (head_in current ≡ parent)
        × ((item.base_known ≡ false) ⊎ (parent ≡ item.base_revision))
  unfolding find_parent
  find_parent-parts s parent h =
      elim (Result-cases
        (load_manifest E.codec S (manifest_key E S) (not E.require_remote_manifest) s)) [
          | inr (e, p) ↦ absurd (ground arith)
          | inl ((current, etag), p) ↦ (
            current,
            etag,
            p,
            ground arith,
            ground (arith, ==_iff (head_in current) item.base_revision),
          )
        ]

  prepare_push-Checked :
      (source : Option Bytes) (s : S.State) (payload : Bytes) (parent : String)
      → prepare_push E S item source s ≡ ok (payload, parent)
      → Checked source s payload parent
  unfolding prepare_push
  prepare_push-Checked source s payload parent h =
      elim (Result-cases (check_item E S item source)) [
        | inr (e, p) ↦ absurd (ground arith)
        | inl (b, p) ↦ elim (Result-cases (find_parent E S item s)) [
          | inr (e, q) ↦ absurd (ground arith)
          | inl (t, q) ↦
              let same : b ≡ payload = ground arith in
              let there : t ≡ parent = ground arith in
              let c = check_item-parts source payload (p ∙ ap ok same) in
              let f = find_parent-parts s parent (q ∙ ap ok there) in
              record {
                current = f.0;
                etag = f.1;
                opened = c.0;
                fits = c.1;
                included = c.2;
                included_in_store = c.3;
                loaded = f.2;
                head = f.3;
                base = f.4;
              }
        ]
      ]

  module _ {IsValid : S.State → Type 0} (W : HasConditionalPut S IsValid)
      (others : ℕ → S.State → S.State) (clock : ℕ → String)
      (valid-others : (n : ℕ) (s : S.State) → IsValid s → IsValid (others n s)) (id : String) where
    -- What a push that goes through has done: the sealed snapshot stands where nothing stood, and
    -- then the head of the session has moved to it.
    pub record Published (source : Option Bytes) (s s' : S.State) : Type 0 where
      pub payload : Bytes
      pub parent : String
      pub cipher : Bytes
      pub stored : S.State
      pub meta : ObjectMeta
      pub checked : Checked source s payload parent
      pub metadata : Bytes
      pub encoded :
          E.marshal_envelope (envelope_of E S item id parent (clock 5) payload) ≡ some metadata
      pub sealed : E.codec.encrypt 5 (with_metadata metadata payload) ≡ some cipher
      pub absent : S.get (snapshot_key E S id) (others 5 s) ≡ err BackendError.not_found
      pub present : S.get (snapshot_key E S id) stored ≡ ok (cipher, meta)
      pub advanced :
          Advanced E.codec S
            (manifest_key E S)
            (not E.require_remote_manifest)
            (session_key item.agent item.session_id)
            (entry_of E S item id (clock 4))
            parent
            others
            clock
            max_manifest_retries
            stored
            s'

    report_update-done :
        (r : Result SyncError (Unit {0})) → (report_update id r).problem ≡ none → r ≡ ok tt
    unfolding report_update
    report_update-done (ok done) h = refl
    report_update-done (err e) h = absurd (ground arith)

    upload-Published :
        (source : Option Bytes) (s s' : S.State) (payload : Bytes) (parent : String)
        (metadata cipher : Bytes) (r : PushResult)
        → IsValid s
        → Checked source s payload parent
        → E.marshal_envelope (envelope_of E S item id parent (clock 5) payload) ≡ some metadata
        → E.codec.encrypt 5 (with_metadata metadata payload) ≡ some cipher
        → upload E S others clock item id parent cipher (others 5 s) ≡ (s', r)
        → r.problem ≡ none
        → Published source s s'
    unfolding upload
    upload-Published source s s' payload parent metadata cipher r v c encoded sealed h d =
        let t = others 5 s in
        let k = snapshot_key E S id in
        let stored = (S.put k cipher create_only t).0 in
        let moved =
          update_manifest E.codec S (manifest_key E S) others clock (not E.require_remote_manifest)
            (session_key item.agent item.session_id) (entry_of E S item id (clock 4)) parent
            stored in
        elim (Result-cases (S.put k cipher create_only t).1) [
          | inr (e, p) ↦ absurd (ground arith)
          | inl (m, p) ↦
              let there : moved.0 ≡ s' = ground arith in
              let reported : report_update id moved.1 ≡ r = ground arith in
              let done = report_update-done moved.1 (ap (λ x. x.problem) reported ∙ d) in
              let both : moved ≡ (s', ok tt) = ground (arith, there, done) in
              record {
                payload = payload;
                parent = parent;
                cipher = cipher;
                stored = stored;
                meta = m;
                checked = c;
                metadata = metadata;
                encoded = encoded;
                sealed = sealed;
                absent = W.put_absent k cipher create_only m t refl p;
                present = W.get-put_ok k cipher create_only m t p;
                advanced =
                    update_manifest-Advanced E.codec S (manifest_key E S)
                      (not E.require_remote_manifest) (session_key item.agent item.session_id)
                      (entry_of E S item id (clock 4)) parent W others clock valid-others stored s'
                      (W.valid-put k cipher create_only t (valid-others 5 s v)) both;
              }
        ]

    -- A push that reports no problem, and is no dry run, has checked the item and written in this
    -- order: the sealed snapshot, where nothing stood, and then the manifest, whose head for the
    -- session moved from the parent that the snapshot names to the snapshot, and no other. The
    -- storage has conditional writes, and the other devices keep its states valid.
    pub push_session-Published :
        (source : Option Bytes) (s s' : S.State) (r : PushResult)
        → IsValid s
        → push_session E S others clock id item source false s ≡ (s', r)
        → r.problem ≡ none
        → Published source s s'
    unfolding push_session
    push_session-Published source s s' r v h d =
        elim (Result-cases (prepare_push E S item source s)) [
          | inr (e, p) ↦ absurd (ground arith)
          | inl ((payload, parent), p) ↦
              elim (Option-cases
                (E.marshal_envelope (envelope_of E S item id parent (clock 5) payload))) [
                  | inl m ↦ absurd (ground arith)
                  | inr (metadata, m) ↦
                      elim (Option-cases (E.codec.encrypt 5 (with_metadata metadata payload))) [
                        | inl q ↦ absurd (ground arith)
                        | inr (cipher, q) ↦
                            upload-Published source s s' payload parent metadata cipher r v
                              (prepare_push-Checked source s payload parent p) m q (ground arith) d
                      ]
                ]
        ]
