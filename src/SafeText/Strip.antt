-- ===== src/SafeText/Strip.antt =====
-- `stripTerminalSequences` (internal/safetext/text.go): a scanner with five states.
use reinstate.Base.{ℕ, Bool, ◌||◌, ◌&&◌, not, false, [], ◌∷◌, leb, if◌then◌else◌, ◌==◌, nat_eq}
use reinstate.SafeText.Classes.{Runes}

pub data State : Type 0 where
  text escape csi string string_escape : State

-- A first byte of the eight-bit sequences that run to a string terminator.
abbrev pub opens_string : ℕ → Bool
opens_string c = c == 0x90 || c == 0x9d || c == 0x9e || c == 0x9f

-- `]`, `P`, `X`, `^` and `_` after an escape.
abbrev pub escapes_string : ℕ → Bool
escapes_string c = c == 0x5d || c == 0x50 || c == 0x58 || c == 0x5e || c == 0x5f

unfoldable pub next_state : State → ℕ → State
next_state text c =
    if c == 0x1b then escape else if c == 0x9b then csi else if opens_string c then string else text
next_state escape c = if c == 0x5b then csi else if escapes_string c then string else text
next_state csi c = if leb 0x40 c && leb c 0x7e then text else csi
next_state string c = if c == 0x07 then text else if c == 0x1b then string_escape else string
next_state string_escape c =
    if c == 0x5c then text else if not (c == 0x1b) then string else string_escape

-- Only the text state writes, and only what opens no sequence.
unfoldable pub writes_rune : State → ℕ → Bool
writes_rune text c = not (c == 0x1b || c == 0x9b || opens_string c)
writes_rune escape c = false
writes_rune csi c = false
writes_rune string c = false
writes_rune string_escape c = false

unfoldable pub strip_from : State → Runes → Runes
strip_from s [] = []
strip_from s (c ∷ value) =
    let rest = strip_from (next_state s c) value in if writes_rune s c then c ∷ rest else rest

unfoldable pub strip_terminal_sequences : Runes → Runes
strip_terminal_sequences value = strip_from text value
