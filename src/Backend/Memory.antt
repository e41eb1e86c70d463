-- ===== src/Backend/Memory.antt =====
-- internal/backend/memory/memory.go: the in-process store. A method that changes the map returns
-- the new one; the mutex makes each a single step. `etag_of`, a truncated SHA-256, is a parameter.
pub mod Laws
pub mod Conditional
use text.Mathlib.Text.{starts_with}
use reinstate.Base.{
  ℕ, Bool, true, false, not, ◌&&◌, String, Option, none, some, List, [], ◌∷◌, length, ◌==◌,
  string_eq, if◌then◌else◌, Result, ok, err,
}
use reinstate.Base.Dict.{Dict, lookup, insert, erase}
use reinstate.Backend.{Bytes, ObjectMeta, PutOptions, BackendError, Storage}

pub record Object : Type 0 where
  pub content : Bytes
  pub etag : String

abbrev pub Store : Type 0
Store = Dict String Object

abbrev pub meta_of : String → Object → ObjectMeta
meta_of key o = record { key = key; etag = o.etag; size = length o.content }

abbrev etag_differs : Option Object → String → Bool
etag_differs none if_match = true
etag_differs (some cur) if_match = not (cur.etag == if_match)

abbrev pub is_stored : Option Object → Bool
is_stored none = false
is_stored (some _) = true

module _ (etag_of : Bytes → String) where
  -- `body` is what `io.ReadAll` of the reader returns.
  unfoldable pub put :
      String
      → Result BackendError Bytes
      → PutOptions
      → Store
      → Store × Result BackendError ObjectMeta
  put key (err e) opts s = (s, err e)
  put key (ok body) opts s =
      let cur = lookup key s in
      if opts.if_none_match && is_stored cur
      then (s, err BackendError.already_exists)
      else if not (opts.if_match == "") && etag_differs cur opts.if_match
      then (s, err BackendError.precondition)
      else let o : Object = record { content = body; etag = etag_of body } in
        (insert key o s, ok (meta_of key o))

unfoldable pub get : String → Store → Result BackendError (Bytes × ObjectMeta)
get key s = elim (lookup key s) [
  | none ↦ err BackendError.not_found
  | some o ↦ ok (o.content, meta_of key o)
]

unfoldable pub head : String → Store → Result BackendError ObjectMeta
head key s = elim (lookup key s) [ none ↦ err BackendError.not_found | some o ↦ ok (meta_of key o) ]

-- The error of `delete`, none for success.
unfoldable pub delete : String → Store → Store × Option BackendError
delete key s = elim (lookup key s) [
  | none ↦ (s, some BackendError.not_found)
  | some o ↦ (erase key s, none)
]

-- Go ranges over the map in no fixed order; here it is the order of the entries.
unfoldable pub list : String → Store → List ObjectMeta
list prefix [] = []
list prefix ((key, o) ∷ s) =
    let rest = list prefix s in if starts_with key prefix then meta_of key o ∷ rest else rest

unfoldable pub memory : (Bytes → String) → Storage
unfolding put get
memory etag_of = record {
  State = Store;
  put = λ key body opts s. put etag_of key (ok body) opts s;
  get = get;
}
