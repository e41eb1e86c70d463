-- ===== src/Keyring/Store/Updates.antt =====
-- No update of the keyring is lost (internal/keyring/store.go, `Update` and `Create`).
use reinstate.Base.{
  sym, ℕ, zero, suc, ◌≡◌, refl, ◌∙◌, ap, ◌≢◌, true, none, some, String, arith, Result, ok, err,
  Result-cases, Option-cases, inl, inr,
}
use reinstate.Backend.{Storage, ObjectMeta, BackendError, Bytes, HasConditionalPut, is_contended}
use reinstate.Backend.Interference.{Interfered, still, attempt}
use reinstate.Keyring.Model.{Keyring, KeyringError}
use reinstate.Keyring.Crypto.{Crypto}
use reinstate.Keyring.Parse.{Codec, parse, stamped, marshal}
use reinstate.Keyring.Store.{
  written_form, load, prepare, update_options, settle_update, update_loop, update,
  max_update_retries,
}

settle_update-ok :
    (k k' : Keyring) (answer : Result BackendError ObjectMeta)
    → settle_update k answer ≡ some (ok k')
    → (m : ObjectMeta) × (answer ≡ ok m) × (k ≡ k')
settle_update-ok k k' (ok m) h = (m, refl, ground arith)
settle_update-ok k k' (err e) h = absurd (ground arith)

pub settle_update-none :
    (k : Keyring) (answer : Result BackendError ObjectMeta)
    → settle_update k answer ≡ none
    → (e : BackendError) × (answer ≡ err e) × (is_contended e ≡ true)
settle_update-none k (ok m) h = absurd (ground arith)
settle_update-none k (err e) h = (e, refl, ground arith)

module _ (C : Crypto) (codec : Codec) (S : Storage) where
  -- An update that has written: `read` is the state that the last attempt read, and `before` the
  -- state just before its write.
  pub record Written (others : ℕ → S.State → S.State) (n : ℕ) (key : String)
      (mutate : Keyring → Result KeyringError Keyring) (s s' : S.State) (k' : Keyring)
      : Type 0 where
    pub read : S.State
    pub left : ℕ
    pub old : Keyring
    pub raw : Bytes
    pub etag : String
    pub replaced : Bytes
    pub replaced_meta : ObjectMeta
    pub meta : ObjectMeta
    pub reached : Interfered others n s read
    pub loaded : load C codec S key read ≡ ok (old, etag)
    pub edited : Keyring
    pub mutated : mutate old ≡ ok edited
    pub version : k' ≡ stamped edited
    pub encoded : written_form codec k' ≡ ok raw
    pub unchanged : S.get key (others left read) ≡ ok (replaced, replaced_meta)
    pub same_etag : replaced_meta.etag ≡ etag
    pub stored : S.get key s' ≡ ok (raw, meta)
    pub elsewhere : (j : String) → key ≢ j → S.get j s' ≡ S.get j (others left read)

  prepare-parts :
      (mutate : Keyring → Result KeyringError Keyring) (key : String) (s : S.State) (k' : Keyring)
      (raw : Bytes) (etag : String)
      → prepare C codec S mutate key s ≡ ok (k', raw, etag)
      → (old : Keyring) × (load C codec S key s ≡ ok (old, etag))
        × (edited : Keyring) × (mutate old ≡ ok edited)
        × (k' ≡ stamped edited)
        × (written_form codec k' ≡ ok raw)
  unfolding prepare written_form marshal
  prepare-parts mutate key s k' raw etag h = elim (Result-cases (load C codec S key s)) [
    | inr (e, p) ↦ absurd (ground arith)
    | inl ((old, etag'), p) ↦ elim (Result-cases (mutate old)) [
      | inr (e, q) ↦ absurd (ground arith)
      | inl (k, q) ↦ elim (Result-cases (written_form codec k)) [
        | inr (e, r) ↦ absurd (ground arith)
        | inl (b, r) ↦
            let made : stamped k ≡ k' = ground arith in
            (
              old,
              ground arith,
              k,
              q,
              sym made,
              ap (written_form codec) (sym made) ∙ r ∙ ground arith,
            )
      ]
    ]
  ]

  load-get :
      (key : String) (s : S.State) (k : Keyring) (etag : String)
      → load C codec S key s ≡ ok (k, etag)
      → (raw : Bytes) × (m : ObjectMeta) × (S.get key s ≡ ok (raw, m))
        × (m.etag ≡ etag)
        × (parse C codec raw ≡ ok k)
  unfolding load
  load-get key s k etag h = elim (Result-cases (S.get key s)) [
    | inr (e, p) ↦ absurd (ground arith)
    | inl ((raw, m), p) ↦ elim (Result-cases (parse C codec raw)) [
      | inr (e, q) ↦ absurd (ground arith)
      | inl (k', q) ↦ (raw, m, p, ground arith, ground arith)
    ]
  ]

  later :
      (others : ℕ → S.State → S.State) (n : ℕ) (key : String)
      (mutate : Keyring → Result KeyringError Keyring) (s s' : S.State) (k' : Keyring)
      → Written others n key mutate (others n s) s' k'
      → Written others (suc n) key mutate s s' k'
  later others n key mutate s s' k' w = record {
    read = w.read;
    left = w.left;
    old = w.old;
    raw = w.raw;
    etag = w.etag;
    replaced = w.replaced;
    replaced_meta = w.replaced_meta;
    meta = w.meta;
    reached = attempt n s w.read w.reached;
    loaded = w.loaded;
    edited = w.edited;
    mutated = w.mutated;
    version = w.version;
    encoded = w.encoded;
    unchanged = w.unchanged;
    same_etag = w.same_etag;
    stored = w.stored;
    elsewhere = w.elsewhere;
  }

  module _ {IsValid : S.State → Type 0} (W : HasConditionalPut S IsValid)
      (others : ℕ → S.State → S.State)
      (valid-others : (n : ℕ) (s : S.State) → IsValid s → IsValid (others n s)) where
    -- The attempt that writes.
    first_written :
        (n : ℕ) (key : String) (mutate : Keyring → Result KeyringError Keyring) (s s' : S.State)
        (k k' : Keyring) (raw : Bytes) (etag : String)
        → IsValid s
        → prepare C codec S mutate key s ≡ ok (k, raw, etag)
        → settle_update k (S.put key raw (update_options etag) (others n s)).1 ≡ some (ok k')
        → (S.put key raw (update_options etag) (others n s)).0 ≡ s'
        → Written others (suc n) key mutate s s' k'
    first_written n key mutate s s' k k' raw etag v p q e =
        let t = others n s in
        let opts = update_options etag in
        let a = prepare-parts mutate key s k raw etag p in
        let g = load-get key s a.0 etag a.1 in
        let c = settle_update-ok k k' (S.put key raw opts t).1 q in
        let tagged : etag ≢ "" = λ z. W.etag_present key g.0 g.1 s v g.2 (g.3 ∙ z) in
        let o = W.put_matched key raw opts c.0 t (valid-others n s v) tagged c.1 in
        record {
          read = s;
          left = n;
          old = a.0;
          raw = raw;
          etag = etag;
          replaced = o.0;
          replaced_meta = o.1;
          meta = c.0;
          reached = still (suc n) s;
          loaded = a.1;
          edited = a.2;
          mutated = a.3;
          version = sym c.2 ∙ a.4;
          encoded = ap (written_form codec) (sym c.2) ∙ a.5;
          unchanged = o.2;
          same_etag = o.3;
          stored = ap (S.get key) (sym e) ∙ W.get-put_ok key raw opts c.0 t c.1;
          elsewhere = λ j d. ap (S.get j) (sym e) ∙ W.get-put_elsewhere key j raw opts t d;
        }

    update_loop-Written :
        (n : ℕ) (key : String) (mutate : Keyring → Result KeyringError Keyring) (s s' : S.State)
        (k' : Keyring)
        → IsValid s
        → update_loop C codec S others n key mutate s ≡ (s', ok k')
        → Written others n key mutate s s' k'
    unfolding update_loop
    update_loop-Written zero key mutate s s' k' v h = absurd (ground arith)
    update_loop-Written (suc n) key mutate s s' k' v h =
        elim (Result-cases (prepare C codec S mutate key s)) [
          | inr (e, p) ↦ absurd (ground arith)
          | inl ((k, raw, etag), p) ↦
              let t = others n s in
              let opts = update_options etag in
              elim (Option-cases (settle_update k (S.put key raw opts t).1)) [
                | inl q ↦
                    let c = settle_update-none k (S.put key raw opts t).1 q in
                    let same : (S.put key raw opts t).0 ≡ t =
                      W.put_contended key raw opts c.0 t c.2 c.1 in
                    later others n key mutate s s' k' (
                      update_loop-Written n key mutate t s' k' (valid-others n s v)
                        (ground (arith, same)))
                | inr (r, q) ↦
                    let done : r ≡ ok k' = ground arith in
                    let there : (S.put key raw opts t).0 ≡ s' = ground arith in
                    first_written n key mutate s s' k k' raw etag v p (q ∙ ap some done) there
              ]
        ]

    -- An update that succeeds has written the keyring it returns, and loses no update of another
    -- device: `mutate` made that keyring, but for the schema version, from one it read, and the
    -- write replaced an object that still had the etag that was read; other keys are as the others
    -- left them. The storage has conditional writes, and the other devices keep its states valid.
    pub update-Written :
        (key : String) (mutate : Keyring → Result KeyringError Keyring) (s s' : S.State)
        (k' : Keyring)
        → IsValid s
        → update C codec S others key mutate s ≡ (s', ok k')
        → Written others max_update_retries key mutate s s' k'
    unfolding update
    update-Written key mutate s s' k' v h =
        update_loop-Written max_update_retries key mutate s s' k' v h
