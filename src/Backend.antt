-- ===== src/Backend.antt =====
-- internal/backend/backend.go: the errors, the metadata and the interface of remote storage.
pub mod Memory
pub mod Interference
use reinstate.Base.{ℕ, Bool, true, false, not, String, Option, List, Result, ok, err, ◌≡◌, ◌≢◌}

pub record Refusal : Type 0 where
  pub code : String
  pub credential : Bool

pub data BackendError : Type 0 where
  not_found precondition already_exists unauthorized access_denied credential_rejected :
      BackendError
  refusal : Refusal → BackendError
  api_answer : String → BackendError
  other : String → BackendError

-- `(*Refusal).Is`: which sentinel a refusal matches.
unfoldable pub refusal_is : Refusal → BackendError → Bool
refusal_is r BackendError.unauthorized = true
refusal_is r BackendError.access_denied = not r.credential
refusal_is r BackendError.credential_rejected = r.credential
refusal_is r _ = false

-- Whether an error of a conditional put says that the object stands differently than it asked.
abbrev pub is_contended : BackendError → Bool
is_contended BackendError.precondition = true
is_contended BackendError.already_exists = true
is_contended _ = false

abbrev pub Bytes : Type 0
Bytes = List ℕ

pub record ObjectMeta : Type 0 where
  pub key : String
  pub etag : String
  pub size : ℕ

-- The content type is not read by any condition.
pub record PutOptions : Type 0 where
  pub if_match : String
  pub if_none_match : Bool

-- The interface `Backend`, over the state of the storage.
pub record Storage : Type 1 where
  pub State : Type 0
  pub put : String → Bytes → PutOptions → State → State × Result BackendError ObjectMeta
  pub get : String → State → Result BackendError (Bytes × ObjectMeta)

-- What a client of conditional writes relies on, in the states that `IsValid` holds of.
pub record HasConditionalPut (S : Storage) (IsValid : S.State → Type 0) : Type 0 where
  pub valid-put :
      (key : String) (body : Bytes) (opts : PutOptions) (s : S.State)
      → IsValid s
      → IsValid (S.put key body opts s).0
  pub etag_present :
      (key : String) (body : Bytes) (m : ObjectMeta) (s : S.State)
      → IsValid s
      → S.get key s ≡ ok (body, m)
      → m.etag ≢ ""
  -- A put with `IfMatch` that succeeds found an object with that etag.
  pub put_matched :
      (key : String) (body : Bytes) (opts : PutOptions) (m : ObjectMeta) (s : S.State)
      → IsValid s
      → opts.if_match ≢ ""
      → (S.put key body opts s).1 ≡ ok m
      → (old : Bytes) × (n : ObjectMeta) × (S.get key s ≡ ok (old, n)) × (n.etag ≡ opts.if_match)
  -- A put with `IfNoneMatch` that succeeds found nothing.
  pub put_absent :
      (key : String) (body : Bytes) (opts : PutOptions) (m : ObjectMeta) (s : S.State)
      → opts.if_none_match ≡ true
      → (S.put key body opts s).1 ≡ ok m
      → S.get key s ≡ err BackendError.not_found
  pub get-put_ok :
      (key : String) (body : Bytes) (opts : PutOptions) (m : ObjectMeta) (s : S.State)
      → (S.put key body opts s).1 ≡ ok m
      → S.get key (S.put key body opts s).0 ≡ ok (body, m)
  pub get-put_elsewhere :
      (key j : String) (body : Bytes) (opts : PutOptions) (s : S.State)
      → key ≢ j
      → S.get j (S.put key body opts s).0 ≡ S.get j s
  -- A put whose condition fails writes nothing.
  pub put_contended :
      (key : String) (body : Bytes) (opts : PutOptions) (e : BackendError) (s : S.State)
      → is_contended e ≡ true
      → (S.put key body opts s).1 ≡ err e
      → (S.put key body opts s).0 ≡ s
