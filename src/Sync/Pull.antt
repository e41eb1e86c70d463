-- ===== src/Sync/Pull.antt =====
-- `PullArtifact` and `validateEnvelope` (internal/sync/push.go): a snapshot is fetched, opened and checked
-- before its one file is written. A stream that does not decrypt to its end counts as one that does not
-- decrypt; a negative size, which the code refuses, is entered as one above the limit; what the
-- file system can fail with is left out.
pub mod Received
use reinstate.Base.{
  ℕ, suc, ◌+◌, Bool, true, false, not, ◌&&◌, ◌||◌, Option, none, some, String, List, [], ◌∷◌, ◌++◌,
  length, take, ltb, leb, ◌==◌, nat_eq, string_eq, bytes_eq, codes, if◌then◌else◌, Result, ok, err,
  ◌>>=◌, ◌>>◌,
}
use reinstate.SafeText.{Runes}
use reinstate.Backend.{Storage, Bytes, BackendError}
use reinstate.Sync.Model.{
  Codec, Envelope, EnvelopeFile, PullItem, envelope_schema_version, envelope_kind, newline,
}
use reinstate.Sync.Paths.{PathLibrary, starts_with, contains_hard_excluded_path}
use reinstate.Sync.Push.{Engine, snapshot_key}

abbrev pub max_metadata_bytes : ℕ
max_metadata_bytes = 1048576

pub data PullError : Type 0 where
  not_fetched : BackendError → PullError
  undecryptable metadata_too_large invalid_metadata unsupported_envelope unexpected_kind : PullError
  identity_mismatch agent_mismatch session_mismatch project_mismatch not_one_artifact : PullError
  unsafe_path hard_excluded invalid_size invalid_hash destination_required : PullError
  size_mismatch hash_mismatch : PullError

-- What a pull takes from elsewhere: encoding/json, `filepath.Clean`, `filepath.IsAbs`,
-- `filepath.FromSlash` and `filepath.Join` of two paths, and hexadecimal texts.
pub record Reader : Type 0 where
  pub unmarshal : Bytes → Option Envelope
  pub clean : Runes → Runes
  pub is_abs : Runes → Bool
  pub separator : ℕ
  pub hex_decode : String → Option Bytes
  pub same_hash : String → String → Bool
  pub from_slash : Runes → Runes
  pub join : Runes → Runes → Runes

-- Up to the first newline, and what follows it.
unfoldable pub split_line : Bytes → Option (Bytes × Bytes)
split_line [] = none
split_line (b ∷ bs) =
    let rest = split_line bs in
    if b == newline
    then some ([], bs)
    else elim rest [ none ↦ none | some (line, after) ↦ some (b ∷ line, after) ]

-- `ReadSlice` with a buffer of one byte more than the limit, and the test on the line with its newline.
unfoldable pub read_line : Bytes → Result PullError (Bytes × Bytes)
read_line plain = elim (split_line plain) [
  | none ↦
      if ltb max_metadata_bytes (length plain) then err metadata_too_large else err invalid_metadata
  | some (line, rest) ↦
      if ltb max_metadata_bytes (suc (length line)) then err metadata_too_large else ok (line, rest)
]

unfoldable pub demand : Bool → PullError → Result PullError (Unit {0})
demand true problem = ok tt
demand false problem = err problem

-- A field that the item names must be the envelope's.
abbrev pub agrees : String → String → Bool
agrees wanted found = wanted == "" || found == wanted

-- `env.Files`, which must hold one file.
unfoldable pub only_file : List EnvelopeFile → Result PullError EnvelopeFile
only_file [] = err not_one_artifact
only_file (file ∷ []) = ok file
only_file (file ∷ other ∷ files) = err not_one_artifact

abbrev fetched {ℓ} : {A : Type ℓ} → Result BackendError A → Result PullError A
fetched (err e) = err (not_fetched e)
fetched (ok a) = ok a

abbrev given {ℓ} : {A : Type ℓ} → Option A → PullError → Result PullError A
given none problem = err problem
given (some a) problem = ok a

module _ (E : Engine) (R : Reader) where
  unfoldable pub is_unsafe_path : Runes → Bool
  is_unsafe_path path =
      let clean = R.clean (R.from_slash path) in
      path == []
      || R.is_abs clean
      || clean == codes "."
      || clean == codes ".."
      || starts_with (codes ".." ++ R.separator ∷ []) clean

  abbrev pub is_sha256 : Option Bytes → Bool
  is_sha256 none = false
  is_sha256 (some decoded) = length decoded == 32

  unfoldable pub validate_file : EnvelopeFile → Result PullError (Unit {0})
  validate_file file =
      demand (not (is_unsafe_path file.path)) unsafe_path
      >> demand (not (contains_hard_excluded_path E.paths file.path)) hard_excluded
      >> demand (not (ltb E.max_payload_size file.size)) invalid_size
      >> demand (is_sha256 (R.hex_decode file.sha256)) invalid_hash

  -- The file of a valid envelope.
  unfoldable pub validate_envelope : PullItem → Envelope → Result PullError EnvelopeFile
  validate_envelope item env = do
    demand (env.schema_version == envelope_schema_version) unsupported_envelope
    demand (env.kind == envelope_kind) unexpected_kind
    demand (not (env.snapshot_id == "" || not (env.snapshot_id == item.snapshot_id)))
        identity_mismatch
    demand (agrees item.agent env.agent) agent_mismatch
    demand (agrees item.session_id env.session_id) session_mismatch
    demand (agrees item.project_id env.project_id) project_mismatch
    file ← only_file env.files
    validate_file file
    ok file

  -- The payload, read up to one byte more than the envelope promises.
  unfoldable pub validate_payload : Bytes → EnvelopeFile → Result PullError Bytes
  validate_payload source file =
      let payload = take (file.size + 1) source in
      demand (length payload == file.size) size_mismatch
      >> demand (R.same_hash (E.sha256_of payload) file.sha256) hash_mismatch
      >> ok payload

  -- What a pull writes: the path and the bytes.
  unfoldable pub deliver :
      Runes → Bool → Bytes → EnvelopeFile → Result PullError (Option (Runes × Bytes))
  deliver directory true source file = validate_payload source file >>= λ payload. ok none
  deliver directory false source file =
      demand (not (directory == [])) destination_required
      >> (validate_payload source file >>= λ payload.
          ok (some (R.join directory (E.paths.base (R.from_slash file.path)), payload)))

  unfoldable pub pull_artifact :
      (S : Storage)
      → PullItem
      → Runes
      → Bool
      → S.State
      → Result PullError (Envelope × Option (Runes × Bytes))
  pull_artifact S item directory dry_run s = do
    (cipher, meta) ← fetched (S.get (snapshot_key E S item.snapshot_id) s)
    plain ← given (E.codec.decrypt cipher) undecryptable
    (line, rest) ← read_line plain
    env ← given (R.unmarshal line) invalid_metadata
    file ← validate_envelope item env
    written ← deliver directory dry_run rest file
    ok (env, written)
