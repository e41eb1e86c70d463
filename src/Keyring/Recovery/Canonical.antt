-- ===== src/Keyring/Recovery/Canonical.antt =====
-- The canonical form of a recovery code (internal/keyring/recovery.go, `NormalizeRecoveryCode`).
use reinstate.Base.{
  ℕ, ◌<◌, ◌≡◌, ◌∙◌, ap, refl, true, false, ◌||◌, Option, none, some, [], ◌∷◌, All, ◌==◌, nat_eq,
  bytes_eq, contains, arith, Option-cases, inl, inr,
}
use reinstate.Keyring.Model.{Text}
use reinstate.Keyring.Crypto.{Crypto, IsLawful}
use reinstate.Keyring.Recovery.{
  crockford, format_recovery_code, is_separator, fold_char, prepend, compact_crockford, check_code,
  normalize_recovery_code,
}

abbrev pub IsCrockford : ℕ → Type 0
IsCrockford c = contains crockford c ≡ true

-- A Crockford character is an ASCII digit or capital that is folded to nothing else.
IsCrockford-plain :
    (c : ℕ)
    → IsCrockford c
    → (c < 91)
      × (is_separator c ≡ false)
      × ((c == b'O') ≡ false)
      × ((c == b'I' || c == b'L') ≡ false)
unfolding is_separator
IsCrockford-plain c h = ground arith

fold_char-plain : (c : ℕ) (o : Option Text) → IsCrockford c → fold_char c o ≡ prepend c o
unfolding fold_char
fold_char-plain c o h = let p = IsCrockford-plain c h in rw (p.1, p.2, p.3, h)

module _ (C : Crypto) (L : IsLawful C) where
  to_upper_crockford : (c : ℕ) → IsCrockford c → C.to_upper c ≡ c
  to_upper_crockford c h = ground (arith, L.to_upper_ascii c, IsCrockford-plain c h)

  compact-cons :
      (c : ℕ) (cs : Text)
      → IsCrockford c
      → compact_crockford C (c ∷ cs) ≡ prepend c (compact_crockford C cs)
  compact-cons c cs h =
      unfold compact_crockford in
      rw (to_upper_crockford c h) (fold_char-plain c (compact_crockford C cs) h)

  compact-separator : (cs : Text) → compact_crockford C (b'-' ∷ cs) ≡ compact_crockford C cs
  unfolding compact_crockford fold_char is_separator
  compact-separator cs = rw (L.to_upper_ascii b'-' (omega arith))

  compact-plain : (cs : Text) → All IsCrockford cs → compact_crockford C cs ≡ some cs
  compact-plain [] h = unfold compact_crockford in refl
  compact-plain (c ∷ cs) h = rw (compact-cons c cs h.0, compact-plain cs h.1)

  compact-format :
      (cs : Text) → All IsCrockford cs → compact_crockford C (format_recovery_code cs) ≡ some cs
  unfolding format_recovery_code
  compact-format [] h = compact-plain [] h
  compact-format (a ∷ []) h = compact-plain (a ∷ []) h
  compact-format (a ∷ b ∷ []) h = compact-plain (a ∷ b ∷ []) h
  compact-format (a ∷ b ∷ c ∷ []) h = compact-plain (a ∷ b ∷ c ∷ []) h
  compact-format (a ∷ b ∷ c ∷ d ∷ []) h = compact-plain (a ∷ b ∷ c ∷ d ∷ []) h
  compact-format (a ∷ b ∷ c ∷ d ∷ e ∷ rest) h =
      let tail = format_recovery_code (e ∷ rest) in
      rw (
        compact-cons a (b ∷ c ∷ d ∷ b'-' ∷ tail) h.0,
        compact-cons b (c ∷ d ∷ b'-' ∷ tail) h.1.0,
        compact-cons c (d ∷ b'-' ∷ tail) h.1.1.0,
        compact-cons d (b'-' ∷ tail) h.1.1.1.0,
        compact-separator tail,
        compact-format (e ∷ rest) h.1.1.1.1,
      )

  prepend-All :
      (c : ℕ) (o : Option Text) (cs : Text)
      → IsCrockford c
      → ((ds : Text) → o ≡ some ds → All IsCrockford ds)
      → prepend c o ≡ some cs
      → All IsCrockford cs
  prepend-All c none cs p q h = cc
  prepend-All c (some ds) [] p q h = cc
  prepend-All c (some ds) (x ∷ cs) p q h = ground (arith, q ds refl)

  compact-All : (typed cs : Text) → compact_crockford C typed ≡ some cs → All IsCrockford cs
  unfolding compact_crockford fold_char
  compact-All [] [] h = tt
  compact-All [] (c ∷ cs) h = cc
  compact-All (t ∷ ts) cs h =
      let r = C.to_upper t in
      let ih = compact-All ts in
      let o = compact_crockford C ts in
      ground (
        arith,
        ih cs,
        prepend-All b'0' o cs refl ih,
        prepend-All b'1' o cs refl ih,
        prepend-All r o cs,
      )

  check_code-eq_format :
      (code out : Text) → check_code C code ≡ some out → out ≡ format_recovery_code code
  unfolding check_code
  check_code-eq_format code out h = ground arith

  normalize_of_compact :
      (typed code : Text)
      → compact_crockford C typed ≡ some code
      → normalize_recovery_code C typed ≡ check_code C code
  unfolding normalize_recovery_code
  normalize_of_compact typed code e = ground arith

  pub normalize-format :
      (code out : Text)
      → All IsCrockford code
      → check_code C code ≡ some out
      → normalize_recovery_code C out ≡ some out
  normalize-format code out a h =
      normalize_of_compact out code
        (ap (compact_crockford C) (check_code-eq_format code out h) ∙ compact-format code a)
      ∙ h

  -- The canonical form of a code that was accepted is accepted again and is its own canonical form,
  -- so what the key derivation is fed does not depend on how often a code is normalized.
  pub normalize_idem :
      (typed out : Text)
      → normalize_recovery_code C typed ≡ some out
      → normalize_recovery_code C out ≡ some out
  normalize_idem typed out h = elim (Option-cases (compact_crockford C typed)) [
    | inl e ↦ unfold normalize_recovery_code in cc
    | inr (code, e) ↦
        normalize-format code out (compact-All typed code e)
          (unfold normalize_recovery_code in ground arith)
  ]
