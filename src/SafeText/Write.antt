-- ===== src/SafeText/Write.antt =====
-- `Text` (internal/safetext/text.go).
use reinstate.Base.{ℕ, suc, Bool, false, ◌||◌, ◌&&◌, [], ◌∷◌, ◌++◌, ltb, leb, if◌then◌else◌}
use reinstate.SafeText.Classes.{Runes, Unicode}
use reinstate.SafeText.Strip.{strip_terminal_sequences}

-- What the loop of `Text` does with one rune: `continue`, with `wroteSpace` for the next turn; go on
-- after writing, with the counter then; or `break` after writing.
pub data Turn : Type 0 where
  skips : Bool → Turn
  writes : Runes → ℕ → Turn
  breaks : Runes → Turn

-- The bound is met.
abbrev pub full : ℕ → ℕ → Bool
full max_runes runes = ltb 0 max_runes && leb max_runes runes

module _ (U : Unicode) where
  -- The output has a rune exactly when the counter is above zero: each write counts one.
  unfoldable pub turn : ℕ → Bool → ℕ → ℕ → Turn
  turn max_runes wrote_space runes c =
      if U.is_space c
      then skips (ltb 0 runes || wrote_space)
      else if U.is_control c || U.is_format c
      then skips wrote_space
      else if wrote_space
      then (if full max_runes runes
          then breaks []
          else if full max_runes (suc runes)
          then breaks (0x20 ∷ [])
          else writes (0x20 ∷ c ∷ []) (suc (suc runes)))
      else (if full max_runes runes then breaks [] else writes (c ∷ []) (suc runes))

  -- What the loop still writes.
  unfoldable pub write_from : ℕ → Bool → ℕ → Runes → Runes
  write_from max_runes wrote_space runes [] = []
  write_from max_runes wrote_space runes (c ∷ value) = elim (turn max_runes wrote_space runes c) [
    | skips wrote_space' ↦ write_from max_runes wrote_space' runes value
    | writes out runes' ↦ out ++ write_from max_runes false runes' value
    | breaks out ↦ out
  ]

  -- `strings.TrimSpace`, from the left and from the right.
  unfoldable pub trim_left : Runes → Runes
  trim_left [] = []
  trim_left (c ∷ value) = let rest = trim_left value in if U.is_space c then rest else c ∷ value

  -- A rune in front of a trimmed text.
  unfoldable pub keep_left : ℕ → Runes → Runes
  keep_left c [] = if U.is_space c then [] else c ∷ []
  keep_left c (d ∷ value) = c ∷ d ∷ value

  unfoldable pub trim_right : Runes → Runes
  trim_right [] = []
  trim_right (c ∷ value) = keep_left c (trim_right value)

  unfoldable pub trim_space : Runes → Runes
  trim_space value = trim_right (trim_left value)

  unfoldable pub clean_text : Runes → ℕ → Runes
  clean_text value max_runes =
      trim_space (write_from max_runes false 0 (strip_terminal_sequences value))
