-- ===== src/Sync/Pull/Received.antt =====
-- What a pull that succeeds has checked (internal/sync/push.go, `PullArtifact`).
use reinstate.Base.{
  ◌≤◌, ◌≡◌, ◌≢◌, refl, sym, ap, ◌∙◌, subst, inl, inr, Bool, true, false, Option, none, some, List,
  [], ◌∷◌, ◌++◌, codes, false, ==_iff, nat_eq, string_eq, bytes_eq, length, arith, ok, Option-cases,
  Result-cases, if◌then◌else◌,
}
use reinstate.SafeText.{Runes}
use reinstate.Backend.{Storage, Bytes, ObjectMeta}
use reinstate.Sync.Model.{Envelope, EnvelopeFile, PullItem}
use reinstate.Sync.Paths.{starts_with, contains_hard_excluded_path}
use reinstate.Sync.Paths.Excluded.{starts_with-append}
use reinstate.Sync.Push.{Engine, snapshot_key}
use reinstate.Sync.Pull.{
  is_sha256, Reader, agrees, split_line, read_line, only_file, is_unsafe_path, validate_file,
  validate_envelope, validate_payload, deliver, pull_artifact, demand,
}

only_file-ok :
    (files : List EnvelopeFile) (file : EnvelopeFile)
    → only_file files ≡ ok file
    → files ≡ file ∷ []
unfolding only_file
only_file-ok [] file h = absurd (ground arith)
only_file-ok (f ∷ []) file h = ground arith
only_file-ok (f ∷ g ∷ fs) file h = absurd (ground arith)

module _ (E : Engine) (R : Reader) where
  -- The path is relative and, cleaned, neither its directory nor above it.
  abbrev pub StaysInside : Runes → Type 0
  StaysInside path =
      let clean = R.clean (R.from_slash path) in
      (path ≢ [])
      × (R.is_abs clean ≡ false)
      × (clean ≢ codes ".")
      × (clean ≢ codes "..")
      × ((rest : Runes) → clean ≢ (codes ".." ++ R.separator ∷ []) ++ rest)

  not-is_unsafe_path : (path : Runes) → is_unsafe_path E R path ≡ false → StaysInside path
  unfolding is_unsafe_path
  not-is_unsafe_path path h =
      let clean = R.clean (R.from_slash path) in
      let up = codes ".." ++ R.separator ∷ [] in
      let below : starts_with up clean ≡ false = ground arith in
      (
        λ e. ground (arith, h, (==_iff path []).1 e),
        ground arith,
        λ e. ground (arith, h, (==_iff clean (codes ".")).1 e),
        λ e. ground (arith, h, (==_iff clean (codes "..")).1 e),
        λ rest e. ground (arith, below, ap (starts_with up) e, starts_with-append up rest),
      )

  -- The envelope is of the known version and kind, and of the snapshot, and for the session, that the item names, and promises one
  -- file under a path that stays in its directory and is not excluded, of a bounded size and with a hash of the right length.
  pub record IsTrusted (item : PullItem) (env : Envelope) (file : EnvelopeFile) : Type 0 where
    pub version : env.schema_version ≡ 1
    pub kind : env.kind ≡ "reinstate-session-snapshot"
    pub snapshot : env.snapshot_id ≡ item.snapshot_id
    pub named : item.snapshot_id ≢ ""
    pub agent : agrees item.agent env.agent ≡ true
    pub session : agrees item.session_id env.session_id ≡ true
    pub project : agrees item.project_id env.project_id ≡ true
    pub alone : env.files ≡ file ∷ []
    pub inside : StaysInside file.path
    pub allowed : contains_hard_excluded_path E.paths file.path ≡ false
    pub bounded : file.size ≤ E.max_payload_size
    pub hashed : (raw : Bytes) × (R.hex_decode file.sha256 ≡ some raw) × (length raw ≡ 32)

  is_sha256-length :
      (decoded : Option Bytes)
      → is_sha256 E R decoded ≡ true
      → (raw : Bytes) × (decoded ≡ some raw) × (length raw ≡ 32)
  is_sha256-length none h = absurd (ground arith)
  is_sha256-length (some raw) h = (raw, refl, ground arith)

  validate_envelope-IsTrusted :
      (item : PullItem) (env : Envelope) (file : EnvelopeFile)
      → validate_envelope E R item env ≡ ok file
      → IsTrusted item env file
  unfolding validate_envelope validate_file demand
  validate_envelope-IsTrusted item env file h = elim (Result-cases (only_file env.files)) [
    | inr (e, p) ↦ absurd (ground arith)
    | inl (f, p) ↦
        let same : f ≡ file = ground arith in
        subst (λ x. IsTrusted item env x) same
          (record {
            version = ground (arith, ==_iff env.schema_version 1);
            kind = ground (arith, ==_iff env.kind "reinstate-session-snapshot");
            snapshot = ground (arith, ==_iff env.snapshot_id item.snapshot_id);
            named =
                ground (arith, ==_iff env.snapshot_id item.snapshot_id, ==_iff env.snapshot_id "");
            agent = ground arith;
            session = ground arith;
            project = ground arith;
            alone = only_file-ok env.files f p;
            inside = not-is_unsafe_path f.path (ground arith);
            allowed = ground arith;
            bounded = ground arith;
            hashed = is_sha256-length (R.hex_decode f.sha256) (ground arith);
          })
  ]

  -- The payload is as long as promised and has the promised hash.
  abbrev pub IsPayload : Bytes → EnvelopeFile → Type 0
  IsPayload payload file =
      (length payload ≡ file.size) × (R.same_hash (E.sha256_of payload) file.sha256 ≡ true)

  validate_payload-IsPayload :
      (source payload : Bytes) (file : EnvelopeFile)
      → validate_payload E R source file ≡ ok payload
      → IsPayload payload file
  unfolding validate_payload demand
  validate_payload-IsPayload source payload file h = (ground arith, ground arith)

  deliver-written :
      (directory : Runes) (dry_run : Bool) (source : Bytes) (file : EnvelopeFile)
      (written : Option (Runes × Bytes))
      → deliver E R directory dry_run source file ≡ ok written
      → (payload : Bytes) × IsPayload payload file
        × (written ≡ (
            if dry_run
            then none
            else some (R.join directory (E.paths.base (R.from_slash file.path)), payload)))
  unfolding deliver demand
  deliver-written directory true source file written h =
      elim (Result-cases (validate_payload E R source file)) [
        | inr (e, p) ↦ absurd (ground arith)
        | inl (payload, p) ↦
            (payload, validate_payload-IsPayload source payload file p, ground arith)
      ]
  deliver-written directory false source file written h =
      elim (Result-cases (validate_payload E R source file)) [
        | inr (e, p) ↦ absurd (ground arith)
        | inl (payload, p) ↦
            (payload, validate_payload-IsPayload source payload file p, ground arith)
      ]

  -- Where a pull succeeds, the stored snapshot opens to the envelope, the envelope is to be
  -- trusted, and what is written, which is nothing in a dry run, is a payload of the promised size
  -- and hash, under the base name of the envelope's path in the directory.
  pub pull_artifact_sound :
      (S : Storage) (item : PullItem) (directory : Runes) (dry_run : Bool) (s : S.State)
      (env : Envelope) (written : Option (Runes × Bytes))
      → pull_artifact E R S item directory dry_run s ≡ ok (env, written)
      → (cipher : Bytes) × (meta : ObjectMeta) × (plain : Bytes) × (line : Bytes) × (rest : Bytes)
        × (file : EnvelopeFile) × (payload : Bytes) × (S.get (snapshot_key E S item.snapshot_id) s
            ≡ ok (cipher, meta))
        × (E.codec.decrypt cipher ≡ some plain)
        × (split_line plain ≡ some (line, rest))
        × (R.unmarshal line ≡ some env)
        × IsTrusted item env file
        × IsPayload payload file
        × (written ≡ (
            if dry_run
            then none
            else some (R.join directory (E.paths.base (R.from_slash file.path)), payload)))
  unfolding pull_artifact read_line
  pull_artifact_sound S item directory dry_run s env written h =
      elim (Result-cases (S.get (snapshot_key E S item.snapshot_id) s)) [
        | inr (e, p) ↦ absurd (ground arith)
        | inl ((cipher, meta), p) ↦ elim (Option-cases (E.codec.decrypt cipher)) [
          | inl q ↦ absurd (ground arith)
          | inr (plain, q) ↦ elim (Option-cases (split_line plain)) [
            | inl l ↦ absurd (ground arith)
            | inr ((line, rest), l) ↦ elim (Option-cases (R.unmarshal line)) [
              | inl u ↦ absurd (ground arith)
              | inr (env', u) ↦ elim (Result-cases (validate_envelope E R item env')) [
                | inr (e, v) ↦ absurd (ground arith)
                | inl (file, v) ↦ elim (Result-cases (deliver E R directory dry_run rest file)) [
                  | inr (e, d) ↦ absurd (ground arith)
                  | inl (out, d) ↦
                      let same : env' ≡ env = ground arith in
                      let sent : out ≡ written = ground arith in
                      let (payload, good, w) = deliver-written directory dry_run rest file out d in
                      (
                        cipher,
                        meta,
                        plain,
                        line,
                        rest,
                        file,
                        payload,
                        p,
                        q,
                        l,
                        u ∙ ap some same,
                        subst (λ x. IsTrusted item x file) same
                            (validate_envelope-IsTrusted item env' file v),
                        good,
                        sym sent ∙ w,
                      )
                ]
              ]
            ]
          ]
        ]
      ]
