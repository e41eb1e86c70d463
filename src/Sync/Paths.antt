-- ===== src/Sync/Paths.antt =====
-- The paths that are never pushed (internal/sync/push.go): `isCredentialName`, `containsCredentialPath` and
-- `containsHardExcludedPath`.
pub mod Excluded
use reinstate.Base.{
  ℕ, Bool, true, false, not, ◌&&◌, ◌||◌, List, [], ◌∷◌, ◌++◌, any, if◌then◌else◌, ◌==◌, nat_eq,
  bytes_eq, codes, contains,
}
use reinstate.SafeText.{Runes}

-- What these functions use of packages strings and path/filepath.
pub record PathLibrary : Type 0 where
  pub to_lower : Runes → Runes
  pub equal_fold : Runes → Runes → Bool
  pub to_slash : Runes → Runes
  pub base : Runes → Runes

abbrev pub slash : ℕ
slash = 0x2f

-- `strings.FieldsFunc` at slashes: the parts between them that are not empty. The first argument
-- is the part that is being read.
unfoldable pub close_part : Runes → List Runes → List Runes
close_part [] parts = parts
close_part (c ∷ cs) parts = (c ∷ cs) ∷ parts

unfoldable pub parts_after : Runes → Runes → List Runes
parts_after part [] = close_part part []
parts_after part (c ∷ cs) = elim (c == slash) [
  | true ↦ close_part part (parts_after [] cs)
  | false ↦ parts_after (part ++ c ∷ []) cs
]

unfoldable pub parts_of : Runes → List Runes
parts_of path = parts_after [] path

unfoldable pub starts_with : Runes → Runes → Bool
starts_with [] text = true
starts_with (p ∷ ps) [] = false
starts_with (p ∷ ps) (c ∷ cs) = p == c && starts_with ps cs

abbrev pub credential_names : List Runes
credential_names =
    codes "auth.json"
    ∷ codes ".credentials.json"
    ∷ codes "credentials.json"
    ∷ codes "oauth.json"
    ∷ codes "tokens.json"
    ∷ codes "token.json"
    ∷ codes "secrets.json"
    ∷ codes "secret.json"
    ∷ []

module _ (paths : PathLibrary) where
  unfoldable pub is_credential_name : Runes → Bool
  is_credential_name name =
      let lower = paths.to_lower name in
      lower == codes ".env" || starts_with (codes ".env.") lower || contains credential_names lower

  unfoldable pub contains_credential_path : Runes → Bool
  contains_credential_path path = any is_credential_name (parts_of (paths.to_slash path))

  abbrev is_handoffs : Runes → Bool
  is_handoffs part = paths.equal_fold part (codes "handoffs")

  unfoldable pub contains_hard_excluded_path : Runes → Bool
  contains_hard_excluded_path path =
      contains_credential_path path || any is_handoffs (parts_of (paths.to_slash path))
