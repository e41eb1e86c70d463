-- ===== src/Examples/Text.antt =====
-- The classes of the first 256 code points, and a text with an escape sequence (internal/safetext).
use reinstate.Base.{
  ℕ, ◌≡◌, refl, ◌↔◌, ◌⊎◌, ◌≤◌, ◌&&◌, ◌||◌, true, ◌∷◌, ◌++◌, length, leb, ◌==◌, nat_eq, codes,
}
use reinstate.SafeText.{
  Runes, Unicode, IsStandard, clean_text, write_from, turn, trim_space, trim_left, trim_right,
  keep_left, strip_terminal_sequences, strip_from, next_state, writes_rune,
}
use reinstate.SafeText.Clean.{is_clean}
use reinstate.SafeText.Kept.{clean_text_sound, clean_text-fixed_iff}

abbrev pub latin1 : Unicode
latin1 = record {
  is_space = λ c. leb 9 c && leb c 13 || c == 0x20 || c == 0x85 || c == 0xa0;
  is_control = λ c. leb c 0x1f || leb 0x7f c && leb c 0x9f;
  is_format = λ c. c == 0xad;
}

pub latin1-IsStandard : IsStandard latin1
latin1-IsStandard = record {
  space_is_space = refl;
  escape_is_control = refl;
  dcs_is_control = refl;
  csi_is_control = refl;
  osc_is_control = refl;
  pm_is_control = refl;
  apc_is_control = refl;
}

-- `  a<ESC>[31mb\t c `
abbrev coloured : Runes
coloured = codes "  a" ++ (0x1b ∷ codes "[31mb") ++ (9 ∷ codes " c ")

cleaned : clean_text latin1 coloured 0 ≡ codes "ab c"
unfolding clean_text write_from turn trim_space trim_left trim_right keep_left
    strip_terminal_sequences strip_from next_state writes_rune
cleaned = refl

bounded : clean_text latin1 coloured 3 ≡ codes "ab"
unfolding clean_text write_from turn trim_space trim_left trim_right keep_left
    strip_terminal_sequences strip_from next_state writes_rune
bounded = refl

clean_text_sound_example :
    (is_clean latin1 (clean_text latin1 coloured 3) ≡ true)
    × (◌≡◌ {A = ℕ} 3 0 ⊎ (length (clean_text latin1 coloured 3) ≤ 3))
clean_text_sound_example = clean_text_sound latin1 latin1-IsStandard coloured 3

clean_text-fixed_iff_example :
    (clean_text latin1 coloured 0 ≡ coloured) ↔ (is_clean latin1 coloured ≡ true)
clean_text-fixed_iff_example = clean_text-fixed_iff latin1 latin1-IsStandard coloured
