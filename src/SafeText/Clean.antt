-- ===== src/SafeText/Clean.antt =====
-- The texts that `Text` (internal/safetext/text.go) keeps as they are: no control or format
-- character, and no space but a single U+0020 between two other characters.
use reinstate.Base.{
  ℕ, suc, ◌+◌, ◌≤◌, ◌≡◌, refl, sym, ap, ◌∙◌, ◌⊎◌, inl, inr, Bool, true, false, not, ◌&&◌, [], ◌∷◌,
  length, if◌then◌else◌, ◌==◌, ==_iff, nat_eq, arith, Bool-cases,
}
use reinstate.SafeText.Classes.{Runes, Unicode, IsStandard}
use reinstate.SafeText.Strip.{text, next_state, writes_rune, strip_from, strip_terminal_sequences}
use reinstate.SafeText.Write.{
  skips, writes, turn, write_from, trim_left, keep_left, trim_right, trim_space, clean_text,
}

-- A text with the space that is still to be written in front.
abbrev pub lead : Bool → Runes → Runes
lead ws v = if ws then 0x20 ∷ v else v

-- The bound leaves room for the rest.
abbrev pub Fits : ℕ → ℕ → Runes → Type 0
Fits max_runes runes v = (max_runes ≡ 0) ⊎ (runes + length v ≤ max_runes)

module _ (U : Unicode) where
  abbrev pub is_visible : ℕ → Bool
  is_visible c = not (U.is_space c) && not (U.is_control c) && not (U.is_format c)

  -- The rest of a clean text, where the flag says that a visible rune stands directly before it.
  unfoldable pub is_clean_after : Bool → Runes → Bool
  is_clean_after visible [] = visible
  is_clean_after visible (c ∷ value) =
      let spaced = is_clean_after false value in
      let rest = is_clean_after true value in
      if is_visible c then rest else c == 0x20 && visible && spaced

  unfoldable pub is_clean : Runes → Bool
  is_clean [] = true
  is_clean (c ∷ value) = is_clean_after false (c ∷ value)

module _ (U : Unicode) (std : IsStandard U) where
  writes_visible : (c : ℕ) → is_visible U c ≡ true → writes_rune text c ≡ true
  unfolding writes_rune
  writes_visible c h = ground (
    arith,
    ==_iff c 0x1b,
    ==_iff c 0x90,
    ==_iff c 0x9b,
    ==_iff c 0x9d,
    ==_iff c 0x9e,
    ==_iff c 0x9f,
    std.escape_is_control,
    std.dcs_is_control,
    std.csi_is_control,
    std.osc_is_control,
    std.pm_is_control,
    std.apc_is_control,
  )

  stays_in_text : (c : ℕ) → writes_rune text c ≡ true → next_state text c ≡ text
  unfolding writes_rune next_state
  stays_in_text c h = ground arith

  space_stays : (c : ℕ) → c ≡ 0x20 → (writes_rune text c ≡ true) × (next_state text c ≡ text)
  unfolding writes_rune next_state
  space_stays c h = rw h (refl, refl)

  strip_from-clean : (b : Bool) (v : Runes) → is_clean_after U b v ≡ true → strip_from text v ≡ v
  unfolding is_clean_after strip_from
  strip_from-clean b [] h = refl
  strip_from-clean b (c ∷ v) h = elim (Bool-cases (is_visible U c)) [
    | inl e ↦
        let w = writes_visible c e in ground (arith, w, stays_in_text c w, strip_from-clean true v)
    | inr e ↦
        let s = space_stays c (ground (arith, ==_iff c 0x20)) in
        ground (arith, s.0, s.1, strip_from-clean false v)
  ]

  strip-clean : (v : Runes) → is_clean U v ≡ true → strip_from text v ≡ v
  unfolding is_clean strip_from
  strip-clean [] h = refl
  strip-clean (c ∷ v) h = strip_from-clean false (c ∷ v) h

  turn-visible :
      (m r c : ℕ) (ws : Bool)
      → is_visible U c ≡ true
      → Fits m r (lead ws (c ∷ []))
      → turn U m ws r c ≡ writes (lead ws (c ∷ [])) (if ws then suc (suc r) else suc r)
  unfolding turn
  turn-visible m r c true h f = ground arith
  turn-visible m r c false h f = ground arith

  turn-space : (m r c : ℕ) (ws : Bool) → c ≡ 0x20 → turn U m ws (suc r) c ≡ skips true
  unfolding turn
  turn-space m r c ws h = ground (arith, std.space_is_space)

  write_from-clean :
      (m r : ℕ) (ws : Bool) (v : Runes)
      → Fits m (suc r) (lead ws v)
      → is_clean_after U (not ws) v ≡ true
      → write_from U m ws (suc r) v ≡ lead ws v
  unfolding is_clean_after write_from
  write_from-clean m r true [] f h = absurd (ground arith)
  write_from-clean m r false [] f h = refl
  write_from-clean m r true (c ∷ v) f h =
      let e : is_visible U c ≡ true = ground arith in
      rw (write_from, turn-visible m (suc r) c true e (ground arith))
        (ap (λ t. 0x20 ∷ c ∷ t)
          (write_from-clean m (suc (suc r)) false v (ground arith) (ground arith)))
  write_from-clean m r false (c ∷ v) f h = elim (Bool-cases (is_visible U c)) [
    | inl e ↦
        rw (write_from, turn-visible m (suc r) c false e (ground arith))
          (ap (λ t. c ∷ t) (write_from-clean m (suc r) false v (ground arith) (ground arith)))
    | inr e ↦
        let s : c ≡ 0x20 = ground (arith, ==_iff c 0x20) in
        rw (write_from, turn-space m r c false s)
          (write_from-clean m r true v (ground arith) (ground arith) ∙ ap (λ d. d ∷ v) (sym s))
  ]

  first-clean :
      (m : ℕ) (v : Runes) → Fits m 0 v → is_clean U v ≡ true → write_from U m false 0 v ≡ v
  unfolding is_clean is_clean_after write_from
  first-clean m [] f h = refl
  first-clean m (c ∷ v) f h =
      let e : is_visible U c ≡ true = ground arith in
      rw (write_from, turn-visible m 0 c false e (ground arith))
        (ap (λ t. c ∷ t) (write_from-clean m 0 false v (ground arith) (ground arith)))

  keep_left-before : (c : ℕ) (v : Runes) → is_clean_after U false v ≡ true → keep_left U c v ≡ c ∷ v
  unfolding keep_left is_clean_after
  keep_left-before c [] h = absurd (ground arith)
  keep_left-before c (d ∷ v) h = refl

  keep_left-visible : (c : ℕ) (v : Runes) → is_visible U c ≡ true → keep_left U c v ≡ c ∷ v
  unfolding keep_left
  keep_left-visible c [] h = ground arith
  keep_left-visible c (d ∷ v) h = refl

  trim_right-clean : (b : Bool) (v : Runes) → is_clean_after U b v ≡ true → trim_right U v ≡ v
  unfolding is_clean_after trim_right
  trim_right-clean b [] h = refl
  trim_right-clean b (c ∷ v) h = elim (Bool-cases (is_visible U c)) [
    | inl e ↦ ground (arith, keep_left-visible c v e, trim_right-clean true v)
    | inr e ↦
        ap (keep_left U c) (trim_right-clean false v (ground arith))
        ∙ keep_left-before c v (ground arith)
  ]

  pub trim_space-clean : (v : Runes) → is_clean U v ≡ true → trim_space U v ≡ v
  unfolding is_clean is_clean_after trim_space trim_left trim_right
  trim_space-clean [] h = refl
  trim_space-clean (c ∷ v) h = ground (arith, trim_right-clean false (c ∷ v))

  -- `Text` keeps a clean text within the bound.
  pub clean_text-clean :
      (v : Runes) (m : ℕ) → Fits m 0 v → is_clean U v ≡ true → clean_text U v m ≡ v
  unfolding clean_text strip_terminal_sequences
  clean_text-clean v m f h = rw (strip-clean v h, first-clean m v f h) (trim_space-clean v h)
