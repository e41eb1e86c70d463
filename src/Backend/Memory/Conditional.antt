-- ===== src/Backend/Memory/Conditional.antt =====
-- The in-process store as a storage with conditional writes (internal/backend/memory/memory.go).
use reinstate.Base.{
  [], ◌≡◌, ◌≢◌, true, String, some, arith, string_eq, ==_iff, Option-cases, inl, inr, ok, err,
}
use reinstate.Base.Dict.{lookup, lookup-insert}
use reinstate.Backend.{Bytes, ObjectMeta, PutOptions, BackendError, HasConditionalPut}
use reinstate.Backend.Memory.{Object, Store, meta_of, put, get, memory}

-- Every stored object has an etag.
unfoldable pub IsTagged : Store → Type 0
IsTagged s = (key : String) (o : Object) → lookup key s ≡ some o → o.etag ≢ ""

-- The same of a state of the storage.
unfoldable pub IsValidStore : (etag_of : Bytes → String) → (memory etag_of).State → Type 0
unfolding memory
IsValidStore etag_of s = IsTagged s

module _ (etag_of : Bytes → String) (tagged : (b : Bytes) → etag_of b ≢ "") where
  IsTagged-put :
      (key : String) (body : Bytes) (opts : PutOptions) (s : Store)
      → IsTagged s
      → IsTagged (put etag_of key (ok body) opts s).0
  unfolding IsTagged put
  IsTagged-put key body opts s t j o h = ground (
    arith,
    t j o,
    tagged body,
    lookup-insert key j (record { content = body; etag = etag_of body }) s,
    ==_iff key j,
  )

  get-tagged :
      (key : String) (body : Bytes) (m : ObjectMeta) (s : Store)
      → IsTagged s
      → get key s ≡ ok (body, m)
      → m.etag ≢ ""
  unfolding IsTagged get
  get-tagged key body m s t h = elim (Option-cases (lookup key s)) [
    | inl p ↦ absurd (ground arith)
    | inr (o, p) ↦ ground (arith, t key o p)
  ]

  put-matched :
      (key : String) (body : Bytes) (opts : PutOptions) (m : ObjectMeta) (s : Store)
      → opts.if_match ≢ ""
      → (put etag_of key (ok body) opts s).1 ≡ ok m
      → (old : Bytes) × (n : ObjectMeta) × (get key s ≡ ok (old, n)) × (n.etag ≡ opts.if_match)
  unfolding put get
  put-matched key body opts m s p h = elim (Option-cases (lookup key s)) [
    | inl q ↦ absurd (ground (arith, ==_iff opts.if_match ""))
    | inr (o, q) ↦ (
      o.content,
      meta_of key o,
      ground arith,
      ground (arith, ==_iff opts.if_match "", ==_iff o.etag opts.if_match),
    )
  ]

  put-absent :
      (key : String) (body : Bytes) (opts : PutOptions) (m : ObjectMeta) (s : Store)
      → opts.if_none_match ≡ true
      → (put etag_of key (ok body) opts s).1 ≡ ok m
      → get key s ≡ err BackendError.not_found
  unfolding put get
  put-absent key body opts m s p h = elim (Option-cases (lookup key s)) [
    | inl q ↦ ground arith
    | inr (o, q) ↦ absurd (ground arith)
  ]

  put-written :
      (key : String) (body : Bytes) (opts : PutOptions) (m : ObjectMeta) (s : Store)
      → (put etag_of key (ok body) opts s).1 ≡ ok m
      → get key (put etag_of key (ok body) opts s).0 ≡ ok (body, m)
  unfolding put get
  put-written key body opts m s h = ground (
    arith,
    lookup-insert key key (record { content = body; etag = etag_of body }) s,
    ==_iff key key,
  )

  put-elsewhere :
      (key j : String) (body : Bytes) (opts : PutOptions) (s : Store)
      → key ≢ j
      → get j (put etag_of key (ok body) opts s).0 ≡ get j s
  unfolding put get
  put-elsewhere key j body opts s h =
      ground (
        arith,
        lookup-insert key j (record { content = body; etag = etag_of body }) s,
        ==_iff key j,
      )

  put-contended :
      (key : String) (body : Bytes) (opts : PutOptions) (e : BackendError) (s : Store)
      → (put etag_of key (ok body) opts s).1 ≡ err e
      → (put etag_of key (ok body) opts s).0 ≡ s
  unfolding put
  put-contended key body opts e s h = ground arith

  -- The in-process store has the conditional writes that its clients rely on, in the states where
  -- every object has an etag; the etags that it gives are never empty.
  pub memory-HasConditionalPut : HasConditionalPut (memory etag_of) (IsValidStore etag_of)
  unfolding memory IsValidStore
  memory-HasConditionalPut = record {
    valid-put = IsTagged-put;
    etag_present = get-tagged;
    put_matched = λ key body opts m s t. put-matched key body opts m s;
    put_absent = put-absent;
    get-put_ok = put-written;
    get-put_elsewhere = put-elsewhere;
    put_contended = λ key body opts e s c. put-contended key body opts e s;
  }

-- `New`: an empty store.
unfoldable pub new_store : (etag_of : Bytes → String) → (memory etag_of).State
unfolding memory
new_store etag_of = []

pub new_store-IsValid : (etag_of : Bytes → String) → IsValidStore etag_of (new_store etag_of)
unfolding IsValidStore IsTagged new_store memory lookup
new_store-IsValid etag_of key o h = absurd (ground arith)
