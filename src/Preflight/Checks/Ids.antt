-- ===== src/Preflight/Checks/Ids.antt =====
-- The parts of check ids (internal/preflight/verify.go): `safeIDPart`, `capabilityIdentity` and the ids that
-- hold a digest.
use reinstate.Base.{ℕ, Bool, ◌&&◌, ◌||◌, [], ◌∷◌, ◌++◌, if◌then◌else◌, leb, ◌==◌, nat_eq, codes}
use reinstate.SafeText.{Runes, Unicode, trim_space}
use reinstate.Preflight.Observed.{Library, Diagnostic}

abbrev pub is_part_rune : ℕ → Bool
is_part_rune c = leb 0x61 c && leb c 0x7a || leb 0x30 c && leb c 0x39 || c == 0x5f || c == 0x2d

unfoldable pub keep_part : Runes → Runes
keep_part [] = []
keep_part (c ∷ cs) = let rest = keep_part cs in if is_part_rune c then c ∷ rest else rest

unfoldable pub or_unknown : Runes → Runes
or_unknown [] = codes "unknown"
or_unknown (c ∷ cs) = c ∷ cs

-- Texts with a NUL between them.
abbrev nul_then : Runes → Runes
nul_then t = 0 ∷ t

module _ (U : Unicode) (library : Library) where
  unfoldable pub safe_id_part : Runes → Runes
  safe_id_part value = or_unknown (keep_part (library.to_lower (trim_space U value)))

  abbrev folded : Runes → Runes
  folded value = library.to_lower (trim_space U value)

  unfoldable pub capability_identity : Runes → Runes → Runes → Runes → Runes
  capability_identity agent kind name scope =
      folded agent ++ nul_then (folded kind) ++ nul_then (folded name) ++ nul_then (folded scope)

  unfoldable pub capability_check_id : Runes → Runes → Runes → Runes → Runes
  capability_check_id agent kind name scope =
      codes "capability."
      ++ safe_id_part kind
      ++ codes "."
      ++ library.short_digest (capability_identity agent kind name scope)

  unfoldable pub capability_diagnostic_check_id : Diagnostic → Runes
  capability_diagnostic_check_id diagnostic =
      codes "capability.probe."
      ++ safe_id_part diagnostic.code
      ++ codes "."
      ++ library.short_digest (
          diagnostic.agent
          ++ nul_then diagnostic.kind
          ++ nul_then diagnostic.scope
          ++ nul_then diagnostic.code)
