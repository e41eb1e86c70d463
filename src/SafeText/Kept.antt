-- ===== src/SafeText/Kept.antt =====
-- What `Text` (internal/safetext/text.go) returns, whatever it is given.
use reinstate.Base.{
  ℕ, zero, suc, ◌+◌, ◌≤◌, ◌≡◌, refl, subst, ◌↔◌, ◌⊎◌, inl, inr, Bool, true, false, ◌||◌, [], ◌∷◌,
  ◌++◌, length, ltb, if◌then◌else◌, nat_eq, arith, Bool-cases,
}
use reinstate.SafeText.Classes.{Runes, Unicode, IsStandard}
use reinstate.SafeText.Strip.{strip_terminal_sequences}
use reinstate.SafeText.Write.{
  Turn, skips, writes, breaks, full, turn, write_from, trim_left, keep_left, trim_right, trim_space,
  clean_text,
}
use reinstate.SafeText.Clean.{is_visible, is_clean_after, is_clean, lead, clean_text-clean}

module _ (U : Unicode) (std : IsStandard U) where
  space_unseen : is_visible U 0x20 ≡ false
  space_unseen = ground (arith, std.space_is_space)

  keep_left-visible_after :
      (c : ℕ) (v : Runes) (b : Bool)
      → is_visible U c ≡ true
      → is_clean_after U true v ≡ true
      → is_clean_after U b (keep_left U c v) ≡ true
  unfolding keep_left is_clean_after
  keep_left-visible_after c [] b e h = ground arith
  keep_left-visible_after c (d ∷ v) b e h = ground arith

  -- A space and a visible rune, in front of a trimmed rest that is clean.
  keep_left-spaced :
      (c : ℕ) (v : Runes)
      → is_visible U c ≡ true
      → is_clean_after U true v ≡ true
      → is_clean_after U true (keep_left U 0x20 (keep_left U c v)) ≡ true
  unfolding keep_left is_clean_after
  keep_left-spaced c [] e h = ground (arith, space_unseen)
  keep_left-spaced c (d ∷ v) e h = ground (arith, space_unseen)

  -- What a turn can do, with its reason.
  data TurnOutcome (m : ℕ) (ws : Bool) (r c : ℕ) : Type 0 where
    skipped :
        (ws' : Bool)
        → (ws ≡ false → r ≡ 0 → ws' ≡ false)
        → turn U m ws r c ≡ skips ws'
        → TurnOutcome m ws r c
    stopped : turn U m ws r c ≡ breaks [] → TurnOutcome m ws r c
    stopped_spaced : m ≡ suc r → turn U m ws r c ≡ breaks (0x20 ∷ []) → TurnOutcome m ws r c
    written :
        is_visible U c ≡ true
        → (m ≡ 0) ⊎ ((if ws then suc (suc r) else suc r) ≤ m)
        → turn U m ws r c ≡ writes (lead ws (c ∷ [])) (if ws then suc (suc r) else suc r)
        → TurnOutcome m ws r c

  visible-outcome : (m : ℕ) (ws : Bool) (r c : ℕ) → is_visible U c ≡ true → TurnOutcome m ws r c
  unfolding turn
  visible-outcome m true r c e = elim (Bool-cases (full m r)) [
    | inl p ↦ stopped (ground arith)
    | inr p ↦ elim (Bool-cases (full m (suc r))) [
      | inl q ↦ stopped_spaced (ground arith) (ground arith)
      | inr q ↦ written e (ground arith) (ground arith)
    ]
  ]
  visible-outcome m false r c e = elim (Bool-cases (full m r)) [
    | inl p ↦ stopped (ground arith)
    | inr p ↦ written e (ground arith) (ground arith)
  ]

  outcome : (m : ℕ) (ws : Bool) (r c : ℕ) → TurnOutcome m ws r c
  unfolding turn
  outcome m ws r c = elim (Bool-cases (U.is_space c)) [
    | inl p ↦ skipped (ltb 0 r || ws) (λ h g. ground arith) (ground arith)
    | inr p ↦ elim (Bool-cases (is_visible U c)) [
      | inl q ↦ visible-outcome m ws r c q
      | inr q ↦ skipped ws (λ h g. h) (ground arith)
    ]
  ]

  -- The rest of the loop after a turn.
  abbrev resume : ℕ → ℕ → Runes → Turn → Runes
  resume m r v (skips ws) = write_from U m ws r v
  resume m r v (writes out r') = out ++ write_from U m false r' v
  resume m r v (breaks out) = out

  write_from-end : (m r : ℕ) (ws : Bool) → write_from U m ws r [] ≡ []
  unfolding write_from
  write_from-end m r ws = refl

  write_from-turn :
      (m r c : ℕ) (ws : Bool) (v : Runes) (t : Turn)
      → turn U m ws r c ≡ t
      → write_from U m ws r (c ∷ v) ≡ resume m r v t
  unfolding write_from
  write_from-turn m r c ws v (skips ws') p = rw (write_from, p) refl
  write_from-turn m r c ws v (writes out r') p = rw (write_from, p) refl
  write_from-turn m r c ws v (breaks out) p = rw (write_from, p) refl

  write_from-clean_after :
      (m r : ℕ) (ws : Bool) (v : Runes)
      → is_clean_after U true (trim_right U (write_from U m ws (suc r) v)) ≡ true
  unfolding trim_right is_clean_after keep_left
  write_from-clean_after m r ws [] = rw (write_from-end m (suc r) ws) refl
  write_from-clean_after m r true (c ∷ v) = elim (outcome m true (suc r) c) [
    | skipped ws' k p ↦
        rw (write_from-turn m (suc r) c true v (skips ws') p) (write_from-clean_after m r ws' v)
    | stopped p ↦ rw (write_from-turn m (suc r) c true v (breaks []) p) refl
    | stopped_spaced k p ↦
        rw (write_from-turn m (suc r) c true v (breaks (0x20 ∷ [])) p, std.space_is_space) refl
    | written e f p ↦
        rw (write_from-turn m (suc r) c true v (writes (0x20 ∷ c ∷ []) (suc (suc (suc r)))) p) (
          keep_left-spaced c (trim_right U (write_from U m false (suc (suc (suc r))) v)) e
            (write_from-clean_after m (suc (suc r)) false v))
  ]
  write_from-clean_after m r false (c ∷ v) = elim (outcome m false (suc r) c) [
    | skipped ws' k p ↦
        rw (write_from-turn m (suc r) c false v (skips ws') p) (write_from-clean_after m r ws' v)
    | stopped p ↦ rw (write_from-turn m (suc r) c false v (breaks []) p) refl
    | stopped_spaced k p ↦
        rw (write_from-turn m (suc r) c false v (breaks (0x20 ∷ [])) p, std.space_is_space) refl
    | written e f p ↦ rw (write_from-turn m (suc r) c false v (writes (c ∷ []) (suc (suc r))) p) (
        keep_left-visible_after c (trim_right U (write_from U m false (suc (suc r)) v)) true e
          (write_from-clean_after m (suc r) false v))
  ]

  first_visible :
      (c : ℕ) (out : Runes)
      → is_visible U c ≡ true
      → is_clean_after U true out ≡ true
      → is_clean U (keep_left U c out) ≡ true
  unfolding is_clean keep_left is_clean_after
  first_visible c [] e h = ground arith
  first_visible c (d ∷ out) e h = ground arith

  keep_left-first :
      (c : ℕ) (out : Runes)
      → is_visible U c ≡ true
      → is_clean_after U true (trim_right U out) ≡ true
      → is_clean U (trim_right U (trim_left U (c ∷ out))) ≡ true
  unfolding trim_left trim_right is_clean keep_left
  keep_left-first c out e h =
      let t : trim_left U (c ∷ out) ≡ c ∷ out = ground arith in
      rw t (first_visible c (trim_right U out) e h)

  -- The output begins with a visible rune, so only its right end is trimmed.
  write_from-trimmed :
      (m : ℕ) (v : Runes)
      → is_clean U (trim_right U (trim_left U (write_from U m false 0 v))) ≡ true
  unfolding trim_left trim_right is_clean
  write_from-trimmed m [] = rw (write_from-end m 0 false) refl
  write_from-trimmed m (c ∷ v) = elim (outcome m false 0 c) [
    | skipped ws' k p ↦
        rw (write_from-turn m 0 c false v (skips ws') p, k refl refl) (write_from-trimmed m v)
    | stopped p ↦ rw (write_from-turn m (0) c false v (breaks []) p) refl
    | stopped_spaced k p ↦
        rw (write_from-turn m (0) c false v (breaks (0x20 ∷ [])) p, std.space_is_space) refl
    | written e f p ↦
        rw (write_from-turn m (0) c false v (writes (c ∷ []) (suc (0))) p)
          (keep_left-first c (write_from U m false 1 v) e (write_from-clean_after m 0 false v))
  ]

  length-lead :
      (m r c : ℕ) (ws : Bool) (out : Runes)
      → length out + (if ws then suc (suc r) else suc r) ≤ m
      → length (lead ws (c ∷ []) ++ out) + r ≤ m
  length-lead m r c true out h = omega arith
  length-lead m r c false out h = omega arith

  length-write_from :
      (m r : ℕ) (ws : Bool) (v : Runes) → r ≤ m → 1 ≤ m → length (write_from U m ws r v) + r ≤ m
  length-write_from m r ws [] h k = rw (write_from-end m r ws) (omega arith)
  length-write_from m r ws (c ∷ v) h k = elim (outcome m ws r c) [
    | skipped ws' j p ↦
        rw (write_from-turn m (r) c ws v (skips ws') p) (length-write_from m r ws' v h k)
    | stopped p ↦ rw (write_from-turn m (r) c ws v (breaks []) p) (omega arith)
    | stopped_spaced j p ↦ rw (write_from-turn m (r) c ws v (breaks (0x20 ∷ [])) p) (omega arith)
    | written e f p ↦
        rw
          (write_from-turn m (r) c ws v
            (writes (lead ws (c ∷ [])) (if ws then suc (suc r) else suc r)) p)
          (length-lead m r c ws (write_from U m false (if ws then suc (suc r) else suc r) v)
            (length-write_from m (if ws then suc (suc r) else suc r) false v (ground arith) k))
  ]

  length-keep_left : (c : ℕ) (v : Runes) → length (keep_left U c v) ≤ suc (length v)
  unfolding keep_left
  length-keep_left c [] = ground arith
  length-keep_left c (d ∷ v) = omega arith

  length-trim_right : (v : Runes) → length (trim_right U v) ≤ length v
  unfolding trim_right
  length-trim_right [] = omega arith
  length-trim_right (c ∷ v) =
      omega (arith, length-keep_left c (trim_right U v), length-trim_right v)

  length-trim_left : (v : Runes) → length (trim_left U v) ≤ length v
  unfolding trim_left
  length-trim_left [] = omega arith
  length-trim_left (c ∷ v) = ground (arith, length-trim_left v)

  -- `Text` returns a clean text, whatever it is given: no control or format character, so no
  -- terminal sequence either, and no space but single ones between other characters. A positive
  -- bound is kept.
  pub clean_text_sound :
      (v : Runes) (m : ℕ)
      → (is_clean U (clean_text U v m) ≡ true) × ((m ≡ 0) ⊎ (length (clean_text U v m) ≤ m))
  unfolding clean_text trim_space
  clean_text_sound v zero = (write_from-trimmed 0 (strip_terminal_sequences v), inl refl)
  clean_text_sound v (suc m) =
      let written_text = write_from U (suc m) false 0 (strip_terminal_sequences v) in
      (
        write_from-trimmed (suc m) (strip_terminal_sequences v),
        inr (
            omega (
              arith,
              length-trim_right (trim_left U written_text),
              length-trim_left written_text,
              length-write_from (suc m) 0 false (strip_terminal_sequences v) (omega arith)
                  (omega arith),
            )),
      )

  -- `Text` without a bound leaves a text as it is exactly when the text is clean.
  pub clean_text-fixed_iff : (v : Runes) → (clean_text U v 0 ≡ v) ↔ (is_clean U v ≡ true)
  clean_text-fixed_iff v = (
    λ e. subst (λ t. is_clean U t ≡ true) e (clean_text_sound v 0).0,
    clean_text-clean U std v 0 (inl refl),
  )
