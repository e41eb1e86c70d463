-- ===== src/Sync/Paths/Excluded.antt =====
-- Which paths are excluded (internal/sync/push.go), told by the names between their slashes.
use mathlib.Core.List.{Memᴰ}
use mathlib.Core.List.Memᴰ
use reinstate.Base.{
  ℕ, ◌≡◌, refl, sym, ap, subst, ◌∙◌, ◌↔◌, ◌⊎◌, inl, inr, Bool, true, false, not, ◌&&◌, ◌||◌, List,
  [], ◌∷◌, ◌++◌, any, all, any-append, codes, contains, arith, ◌==◌, ==_iff, ==_refl, nat_eq,
  bytes_eq, Bool-cases,
}
use reinstate.SafeText.{Runes}
use reinstate.Sync.Paths.{
  PathLibrary, slash, close_part, parts_after, parts_of, starts_with, credential_names,
  is_credential_name, contains_credential_path, contains_hard_excluded_path,
}

-- A text that a path can have between two slashes.
abbrev pub is_name : Runes → Bool
is_name t = not (t == []) && all (λ c. not (c == slash)) t

-- The text stands in the path between slashes or its ends.
abbrev pub IsPart : Runes → Runes → Type 0
IsPart t path =
    (path ≡ t)
    ⊎ ((b : Runes) × (path ≡ t ++ slash ∷ b))
    ⊎ ((a : Runes) × (path ≡ a ++ slash ∷ t))
    ⊎ ((a : Runes) × (b : Runes) × (path ≡ a ++ slash ∷ (t ++ slash ∷ b)))

close_part-append :
    (part : Runes) (xs ys : List Runes) → close_part part (xs ++ ys) ≡ close_part part xs ++ ys
unfolding close_part
close_part-append [] xs ys = refl
close_part-append (c ∷ part) xs ys = refl

parts_after-closed :
    (part : Runes) (c : ℕ) (a : Runes)
    → (c == slash) ≡ true
    → parts_after part (c ∷ a) ≡ close_part part (parts_after [] a)
unfolding parts_after
parts_after-closed part c a e = rw (parts_after, e) refl

parts_after-read :
    (part : Runes) (c : ℕ) (a : Runes)
    → (c == slash) ≡ false
    → parts_after part (c ∷ a) ≡ parts_after (part ++ c ∷ []) a
unfolding parts_after
parts_after-read part c a e = rw (parts_after, e) refl

parts_after-end : (part : Runes) → parts_after part [] ≡ close_part part []
unfolding parts_after
parts_after-end part = refl

parts_after-slash :
    (part a b : Runes) → parts_after part (a ++ slash ∷ b) ≡ parts_after part a ++ parts_of b
unfolding parts_of
parts_after-slash part [] b =
    rw (parts_after-closed part slash b refl, parts_after-end part)
      (close_part-append part [] (parts_after [] b))
parts_after-slash part (c ∷ a) b = elim (Bool-cases (c == slash)) [
  | inl e ↦
      rw
        (
          parts_after-closed part c (a ++ slash ∷ b) e,
          parts_after-closed part c a e,
          parts_after-slash [] a b,
        )
        (close_part-append part (parts_after [] a) (parts_of b))
  | inr e ↦
      rw (parts_after-read part c (a ++ slash ∷ b) e, parts_after-read part c a e)
        (parts_after-slash (part ++ c ∷ []) a b)
]

++_assoc : (xs ys zs : Runes) → (xs ++ ys) ++ zs ≡ xs ++ (ys ++ zs)
++_assoc [] ys zs = refl
++_assoc (x ∷ xs) ys zs = ap (λ t. x ∷ t) (++_assoc xs ys zs)

++_nil : (xs : Runes) → xs ++ [] ≡ xs
++_nil [] = refl
++_nil (x ∷ xs) = ap (λ t. x ∷ t) (++_nil xs)

all-append : (p : ℕ → Bool) (xs ys : Runes) → all p (xs ++ ys) ≡ all p xs && all p ys
all-append p [] ys = refl
all-append p (x ∷ xs) ys = ground (arith, all-append p xs ys)

-- A text with no slash is one part.
parts_after-plain :
    (part t : Runes)
    → all (λ c. not (c == slash)) t ≡ true
    → parts_after part t ≡ close_part (part ++ t) []
parts_after-plain part [] h = parts_after-end part ∙ ap (λ x. close_part x []) (sym (++_nil part))
parts_after-plain part (c ∷ t) h =
    parts_after-read part c t (ground arith)
    ∙ parts_after-plain (part ++ c ∷ []) t (ground arith)
    ∙ ap (λ x. close_part x []) (++_assoc part (c ∷ []) t)

parts_of-slash : (a b : Runes) → parts_of (a ++ slash ∷ b) ≡ parts_of a ++ parts_of b
unfolding parts_of
parts_of-slash a b = parts_after-slash [] a b

-- A part of what follows a slash is a part of the whole.
shift-IsPart : (t part cs : Runes) → IsPart t cs → IsPart t (part ++ slash ∷ cs)
shift-IsPart t part cs (inl e) = inr (inr (inl (part, ap (λ x. part ++ slash ∷ x) e)))
shift-IsPart t part cs (inr (inl (b, e))) = inr (inr (inr (part, b, ap (λ x. part ++ slash ∷ x) e)))
shift-IsPart t part cs (inr (inr (inl (a, e)))) = inr (
    inr (
      inl (
        part ++ slash ∷ a,
        ap (λ x. part ++ slash ∷ x) e ∙ sym (++_assoc part (slash ∷ a) (slash ∷ t)),
      )))
shift-IsPart t part cs (inr (inr (inr (a, b, e)))) = inr (
    inr (
      inr (
        part ++ slash ∷ a,
        b,
        ap (λ x. part ++ slash ∷ x) e ∙ sym (++_assoc part (slash ∷ a) (slash ∷ (t ++ slash ∷ b))),
      )))

module _ (p : Runes → Bool) where
  -- A part that the predicate holds of.
  abbrev Found : Runes → Type 0
  Found path = (t : Runes) × (is_name t ≡ true) × IsPart t path × (p t ≡ true)

  any-close_part :
      (part : Runes) (xs : List Runes)
      → any p (close_part part xs) ≡ not (part == []) && p part || any p xs
  unfolding close_part
  any-close_part [] xs = ground arith
  any-close_part (c ∷ part) xs = ground arith

  -- A part that is read up to a slash or the end.
  closed-Found :
      (part : Runes)
      → all (λ c. not (c == slash)) part ≡ true
      → not (part == []) && p part ≡ true
      → (is_name part ≡ true) × (p part ≡ true)
  closed-Found part n h = (ground arith, ground arith)

  later-Found : (part cs : Runes) → Found cs → Found (part ++ slash ∷ cs)
  later-Found part cs (t, n, i, h) = (t, n, shift-IsPart t part cs i, h)

  parts_after-Found :
      (part path : Runes)
      → all (λ c. not (c == slash)) part ≡ true
      → any p (parts_after part path) ≡ true
      → Found (part ++ path)
  parts_after-Found part [] n h =
      let named : not (part == []) && p part ≡ true =
        ground (arith, h, ap (any p) (parts_after-end part), any-close_part part []) in
      let f = closed-Found part n named in (part, f.0, inl (++_nil part), f.1)
  parts_after-Found part (c ∷ path) n h = elim (Bool-cases (c == slash)) [
    | inl e ↦
        let same = (==_iff c slash).0 e in
        let split =
          ap (any p) (parts_after-closed part c path e)
          ∙ any-close_part part (parts_after [] path) in
        subst (λ x. Found (part ++ x ∷ path)) (sym same)
          (elim (Bool-cases (not (part == []) && p part)) [
            | inl q ↦ let f = closed-Found part n q in (part, f.0, inr (inl (path, refl)), f.1)
            | inr q ↦
                later-Found part path (parts_after-Found [] path refl (ground (arith, split, h, q)))
          ])
    | inr e ↦ subst Found (++_assoc part (c ∷ []) path) (
        parts_after-Found (part ++ c ∷ []) path
          (all-append (λ d. not (d == slash)) part (c ∷ []) ∙ ground (arith, n, e))
          (sym (ap (any p) (parts_after-read part c path e)) ∙ h))
  ]

  any-parts_of_name : (t : Runes) → is_name t ≡ true → any p (parts_of t) ≡ p t
  unfolding parts_of
  any-parts_of_name t n =
      ap (any p) (parts_after-plain [] t (ground arith)) ∙ any-close_part t [] ∙ ground arith

  parts_of-first :
      (t b : Runes) → is_name t ≡ true → p t ≡ true → any p (parts_of (t ++ slash ∷ b)) ≡ true
  parts_of-first t b n h =
      ap (any p) (parts_of-slash t b)
      ∙ any-append p (parts_of t) (parts_of b)
      ∙ ground (arith, any-parts_of_name t n, h)

  parts_of-any :
      (t path : Runes)
      → is_name t ≡ true
      → IsPart t path
      → p t ≡ true
      → any p (parts_of path) ≡ true
  parts_of-any t path n (inl e) h = ap (λ x. any p (parts_of x)) e ∙ any-parts_of_name t n ∙ h
  parts_of-any t path n (inr (inl (b, e))) h =
      ap (λ x. any p (parts_of x)) e ∙ parts_of-first t b n h
  parts_of-any t path n (inr (inr (inl (a, e)))) h =
      ap (λ x. any p (parts_of x)) e
      ∙ ap (any p) (parts_of-slash a t)
      ∙ any-append p (parts_of a) (parts_of t)
      ∙ ground (arith, any-parts_of_name t n, h)
  parts_of-any t path n (inr (inr (inr (a, b, e)))) h =
      ap (λ x. any p (parts_of x)) e
      ∙ ap (any p) (parts_of-slash a (t ++ slash ∷ b))
      ∙ any-append p (parts_of a) (parts_of (t ++ slash ∷ b))
      ∙ ground (arith, parts_of-first t b n h)

pub starts_with-append : (a rest : Runes) → starts_with a (a ++ rest) ≡ true
unfolding starts_with
starts_with-append [] rest = refl
starts_with-append (c ∷ a) rest = ground (arith, ==_refl c, starts_with-append a rest)

starts_with-rest : (a t : Runes) → starts_with a t ≡ true → (rest : Runes) × (t ≡ a ++ rest)
unfolding starts_with
starts_with-rest [] t h = (t, refl)
starts_with-rest (c ∷ a) [] h = absurd (ground arith)
starts_with-rest (c ∷ a) (d ∷ t) h =
    let r = starts_with-rest a t (ground arith) in
    let same : d ≡ c = ground (arith, ==_iff c d) in
    (r.0, ap (λ x. x ∷ t) same ∙ ap (λ x. c ∷ x) r.1)

any_of :
    (a b c d : Bool) → (a ≡ true) ⊎ (b ≡ true) ⊎ (c ≡ true) ⊎ (d ≡ true) → (a || b || c) || d ≡ true
any_of a b c d h = ground (arith, h)

contains_iff : (xs : List Runes) (t : Runes) → (contains xs t ≡ true) ↔ Memᴰ t xs
contains_iff [] t = (λ h. absurd (ground arith), λ m. absurd (Memᴰ.not-nil m))
contains_iff (x ∷ xs) t = (
  λ h. elim (Bool-cases (x == t)) [
    | inl e ↦ Memᴰ.head (sym ((==_iff x t).0 e))
    | inr e ↦ Memᴰ.tail ((contains_iff xs t).0 (ground arith))
  ],
  λ m. elim (Memᴰ.cases_cons m) [
    | inl e ↦ ground (arith, (==_iff x t).1 (sym e))
    | inr m' ↦ ground (arith, (contains_iff xs t).1 m')
  ],
)

module _ (paths : PathLibrary) where
  -- The names that are never pushed: those of files with credentials, whatever their case, and the
  -- directory of handoffs.
  abbrev pub IsExcludedName : Runes → Type 0
  IsExcludedName t =
      (paths.to_lower t ≡ codes ".env")
      ⊎ ((rest : Runes) × (paths.to_lower t ≡ codes ".env." ++ rest))
      ⊎ Memᴰ (paths.to_lower t) (
          codes "auth.json"
          ∷ codes ".credentials.json"
          ∷ codes "credentials.json"
          ∷ codes "oauth.json"
          ∷ codes "tokens.json"
          ∷ codes "token.json"
          ∷ codes "secrets.json"
          ∷ codes "secret.json"
          ∷ [])
      ⊎ (paths.equal_fold t (codes "handoffs") ≡ true)

  is_credential_name-IsExcludedName :
      (t : Runes) → is_credential_name paths t ≡ true → IsExcludedName t
  unfolding is_credential_name
  is_credential_name-IsExcludedName t h =
      let lower = paths.to_lower t in
      elim (Bool-cases (lower == codes ".env")) [
        | inl e ↦ inl ((==_iff lower (codes ".env")).0 e)
        | inr e ↦ elim (Bool-cases (starts_with (codes ".env.") lower)) [
          | inl s ↦ inr (inl (starts_with-rest (codes ".env.") lower s))
          | inr s ↦
              inr (inr (inl ((contains_iff credential_names lower).0 (ground (arith, h, e, s)))))
        ]
      ]

  IsExcludedName-excluded :
      (t : Runes)
      → IsExcludedName t
      → is_credential_name paths t || paths.equal_fold t (codes "handoffs") ≡ true
  unfolding is_credential_name
  IsExcludedName-excluded t x =
      let lower = paths.to_lower t in
      any_of (lower == codes ".env") (starts_with (codes ".env.") lower)
        (contains credential_names lower) (paths.equal_fold t (codes "handoffs"))
        (elim x [
          | inl e ↦ inl ((==_iff lower (codes ".env")).1 e)
          | inr (inl (rest, e)) ↦
              inr
                (inl (ap (starts_with (codes ".env.")) e ∙ starts_with-append (codes ".env.") rest))
          | inr (inr (inl m)) ↦ inr (inr (inl ((contains_iff credential_names lower).1 m)))
          | inr (inr (inr e)) ↦ inr (inr (inr e))
        ])

  -- A path is excluded exactly when one of the names between its slashes is an excluded one: in
  -- lower case `.env`, a name that begins with `.env.`, or one of eight names of credential files;
  -- or `handoffs` in any case.
  pub contains_hard_excluded_path_iff :
      (path : Runes)
      → (contains_hard_excluded_path paths path ≡ true)
        ↔ ((t : Runes) × (is_name t ≡ true) × IsPart t (paths.to_slash path) × IsExcludedName t)
  unfolding contains_hard_excluded_path contains_credential_path parts_of
  contains_hard_excluded_path_iff path =
      let whole = paths.to_slash path in
      let credential = is_credential_name paths in
      let handoffs : Runes → Bool = λ t. paths.equal_fold t (codes "handoffs") in
      (
        λ h. elim (Bool-cases (any credential (parts_after [] whole))) [
          | inl e ↦
              let (t, n, i, q) = parts_after-Found credential [] whole refl e in
              (t, n, i, is_credential_name-IsExcludedName t q)
          | inr e ↦
              let (t, n, i, q) = parts_after-Found handoffs [] whole refl (ground (arith, h, e)) in
              (t, n, i, inr (inr (inr q)))
        ],
        λ (t, n, i, x). elim (Bool-cases (credential t)) [
          | inl e ↦ ground (arith, parts_of-any credential t whole n i e)
          | inr e ↦ ground (
            arith,
            parts_of-any handoffs t whole n i (ground (arith, e, IsExcludedName-excluded t x)),
          )
        ],
      )
