-- ===== src/Backend/Memory/Laws.antt =====
-- What the in-process store promises: reads after writes, and the conditional puts
-- (internal/backend/memory/memory.go).
use text.Mathlib.Text.{starts_with}
use reinstate.Base.{
  ◌≡◌, refl, ◌≢◌, ◌↔◌, ◌⊎◌, inl, inr, Bool, false, ◌&&◌, ◌||◌, String, Option, none, some, List, [],
  ◌∷◌, length, arith, ◌==◌, string_eq, ==_iff, Option-cases, if◌then◌else◌, ok, err,
}
use reinstate.Base.Dict.{lookup, lookup-insert, lookup-erase}
use reinstate.Backend.{Bytes, ObjectMeta, PutOptions, BackendError}
use reinstate.Backend.Memory.{Object, Store, is_stored, put, get, delete, list}

-- When a conditional put may write over what stands at the key.
abbrev pub Allowed : PutOptions → Option Object → Type 0
Allowed opts none = opts.if_match ≡ ""
Allowed opts (some cur) =
    (opts.if_none_match ≡ false) × ((opts.if_match ≡ "") ⊎ (opts.if_match ≡ cur.etag))

module _ (etag_of : Bytes → String) (key : String) (body : Bytes) (opts : PutOptions)
    (s : Store) where
  -- A put succeeds exactly when its conditions hold: with `IfNoneMatch` only where the key is
  -- absent, with `IfMatch` only where the stored object carries that etag.
  pub put-Allowed_iff :
      ((put etag_of key (ok body) opts s).1
        ≡ ok (record { key = key; etag = etag_of body; size = length body }))
      ↔ Allowed opts (lookup key s)
  unfolding put
  put-Allowed_iff = elim (Option-cases (lookup key s)) [
    | inl p ↦ rw (p, put) (ground (arith, ==_iff opts.if_match ""))
    | inr (o, p) ↦
        rw (p, put) (ground (arith, ==_iff opts.if_match "", ==_iff o.etag opts.if_match))
  ]

  -- After a put, a read of the key gives the new content where the put succeeded and the old
  -- answer where it failed, and every other key reads as before.
  pub get-put :
      (j : String)
      → get j (put etag_of key (ok body) opts s).0 ≡ elim (put etag_of key (ok body) opts s).1 [
        | ok m ↦ if key == j then ok (body, m) else get j s
        | err e ↦ get j s
      ]
  unfolding put get
  get-put j =
      ground (
        arith,
        lookup-insert key j (record { content = body; etag = etag_of body }) s,
        ==_iff key j,
      )

  -- A put whose conditions fail leaves the store as it was, and says which one failed: a create-only
  -- put names the object that is already there.
  pub put_failed :
      (e : BackendError)
      → (put etag_of key (ok body) opts s).1 ≡ err e
      → ((put etag_of key (ok body) opts s).0 ≡ s)
        × ((e ≡ BackendError.already_exists) ⊎ (e ≡ BackendError.precondition))
  unfolding put
  put_failed e h = ground arith

-- A delete removes the object at the key and nothing else; at an absent key it fails and changes
-- nothing.
pub get-delete :
    (key j : String) (s : Store)
    → (get j (delete key s).0 ≡ (if key == j then err BackendError.not_found else get j s))
      × (((delete key s).1 ≡ none) ↔ (lookup key s ≢ none))
unfolding get delete
get-delete key j s = ground (arith, lookup-erase key j s, ==_iff key j)

abbrev pub listed : String → List ObjectMeta → Bool
listed key [] = false
listed key (m ∷ ms) = m.key == key || listed key ms

-- A listing holds a key exactly when the key is stored and has the prefix.
pub list-listed :
    (prefix key : String) (s : Store)
    → listed key (list prefix s) ≡ (is_stored (lookup key s) && starts_with key prefix)
unfolding list lookup
list-listed prefix key [] = refl
list-listed prefix key ((j, o) ∷ s) = ground (arith, list-listed prefix key s, ==_iff j key)
