-- ===== src/Preflight/Normalize/Unique.antt =====
-- The result of `normalizeChecks` (internal/preflight/verify.go): what the sort and the loop behind it
-- leave.
use reinstate.Base.{
  ◌≡◌, refl, ap, sym, ◌∙◌, inl, inr, Bool, true, false, not, ◌&&◌, List, [], ◌∷◌, ltb, ◌==◌, ==_iff,
  nat_eq, bytes_eq, arith, Bool-cases, ◌↔◌, subst,
}
use reinstate.SafeText.{Runes}
use reinstate.Preflight.Model.{Check}
use reinstate.Preflight.Normalize.{
  comes_before, insert_check, sort_checks, check_trust_rank, more_trusted, keep_most_trusted,
  unique_checks, normalize_checks,
}
use reinstate.Preflight.Normalize.Order.{
  comes_before_irreflexive, comes_before_transitive, comes_before_total,
}

comes_before_asymmetric : (i j : Runes) → comes_before i j ≡ true → comes_before j i ≡ false
comes_before_asymmetric i j p = elim (Bool-cases (comes_before j i)) [
  | inl q ↦ absurd (ground (arith, comes_before_transitive i j i p q, comes_before_irreflexive i))
  | inr q ↦ q
]

-- Each id comes strictly before the next.
unfoldable pub is_ordered_from : Runes → List Check → Bool
is_ordered_from i [] = true
is_ordered_from i (c ∷ cs) = comes_before i c.id && is_ordered_from c.id cs

unfoldable pub is_ordered : List Check → Bool
is_ordered [] = true
is_ordered (c ∷ cs) = is_ordered_from c.id cs

-- No id comes before the one in front of it.
unfoldable pub is_sorted_from : Runes → List Check → Bool
is_sorted_from i [] = true
is_sorted_from i (c ∷ cs) = not (comes_before c.id i) && is_sorted_from c.id cs

insert_check-sorted_from :
    (i : Runes) (c : Check) (cs : List Check)
    → comes_before c.id i ≡ false
    → is_sorted_from i cs ≡ true
    → is_sorted_from i (insert_check c cs) ≡ true
unfolding insert_check is_sorted_from
insert_check-sorted_from i c [] p h = ground arith
insert_check-sorted_from i c (d ∷ cs) p h = elim (Bool-cases (comes_before d.id c.id)) [
  | inl q ↦
      let r =
        insert_check-sorted_from d.id c cs (comes_before_asymmetric d.id c.id q) (ground arith) in
      ground arith
  | inr q ↦ ground arith
]

unfoldable pub is_sorted : List Check → Bool
is_sorted [] = true
is_sorted (c ∷ cs) = is_sorted_from c.id cs

insert_check-sorted :
    (c : Check) (cs : List Check) → is_sorted cs ≡ true → is_sorted (insert_check c cs) ≡ true
unfolding is_sorted insert_check is_sorted_from
insert_check-sorted c [] h = refl
insert_check-sorted c (d ∷ cs) h = elim (Bool-cases (comes_before d.id c.id)) [
  | inl q ↦
      let r =
        insert_check-sorted_from d.id c cs (comes_before_asymmetric d.id c.id q) (ground arith) in
      ground arith
  | inr q ↦ ground arith
]

pub sort_checks-sorted : (cs : List Check) → is_sorted (sort_checks cs) ≡ true
unfolding sort_checks is_sorted
sort_checks-sorted [] = refl
sort_checks-sorted (c ∷ cs) = insert_check-sorted c (sort_checks cs) (sort_checks-sorted cs)

pub more_trusted-id :
    (last check : Check) → last.id ≡ check.id → (more_trusted last check).id ≡ check.id
more_trusted-id last check h =
    elim (Bool-cases (ltb (check_trust_rank last) (check_trust_rank check))) [
      | inl p ↦ rw p refl
      | inr p ↦ rw p h
    ]

pub keep_most_trusted-ordered_from :
    (i : Runes) (last : Check) (cs : List Check)
    → comes_before i last.id ≡ true
    → is_sorted_from last.id cs ≡ true
    → is_ordered_from i (keep_most_trusted last cs) ≡ true
unfolding keep_most_trusted is_sorted_from is_ordered_from
keep_most_trusted-ordered_from i last [] p h = ground arith
keep_most_trusted-ordered_from i last (c ∷ cs) p h = elim (Bool-cases (last.id == c.id)) [
  | inl q ↦
      let same : last.id ≡ c.id = (==_iff last.id c.id).0 q in
      let kept = more_trusted-id last c same in
      rw q (
        keep_most_trusted-ordered_from i (more_trusted last c) cs
          (subst (λ j. comes_before i j ≡ true) (same ∙ sym kept) p)
          (subst (λ j. is_sorted_from j cs ≡ true) (sym kept) (ground arith)))
  | inr q ↦
      let next : comes_before last.id c.id ≡ true =
        ground (arith, comes_before_total last.id c.id, ==_iff last.id c.id) in
      let r = keep_most_trusted-ordered_from last.id c cs next (ground arith) in ground arith
]

pub later :
    (last c : Check)
    → comes_before c.id last.id ≡ false
    → (last.id == c.id) ≡ false
    → comes_before last.id c.id ≡ true
later last c p q = ground (arith, comes_before_total last.id c.id, ==_iff last.id c.id)

keep_most_trusted-ordered :
    (last : Check) (cs : List Check)
    → is_sorted_from last.id cs ≡ true
    → is_ordered (keep_most_trusted last cs) ≡ true
unfolding keep_most_trusted is_sorted_from is_ordered is_ordered_from
keep_most_trusted-ordered last [] h = refl
keep_most_trusted-ordered last (c ∷ cs) h = elim (Bool-cases (last.id == c.id)) [
  | inl q ↦
      let kept = more_trusted-id last c ((==_iff last.id c.id).0 q) in
      rw q (
        keep_most_trusted-ordered (more_trusted last c) cs
          (subst (λ j. is_sorted_from j cs ≡ true) (sym kept) (ground arith)))
  | inr q ↦
      rw q
        (keep_most_trusted-ordered_from last.id c cs (later last c (ground arith) q) (ground arith))
]

unique_checks-ordered :
    (cs : List Check) → is_sorted cs ≡ true → is_ordered (unique_checks cs) ≡ true
unfolding unique_checks is_sorted is_ordered
unique_checks-ordered [] h = refl
unique_checks-ordered (c ∷ cs) h = keep_most_trusted-ordered c cs h

pub normalize_checks-ordered : (cs : List Check) → is_ordered (normalize_checks cs) ≡ true
unfolding normalize_checks
normalize_checks-ordered cs = unique_checks-ordered (sort_checks cs) (sort_checks-sorted cs)

-- An ordered list passes unchanged.
insert_check-ordered :
    (c : Check) (cs : List Check) → is_ordered_from c.id cs ≡ true → insert_check c cs ≡ c ∷ cs
unfolding insert_check is_ordered_from
insert_check-ordered c [] h = refl
insert_check-ordered c (d ∷ cs) h =
    let p = comes_before_asymmetric c.id d.id (ground arith) in ground arith

ordered-tail : (i : Runes) (cs : List Check) → is_ordered_from i cs ≡ true → is_ordered cs ≡ true
unfolding is_ordered is_ordered_from
ordered-tail i [] h = refl
ordered-tail i (c ∷ cs) h = ground arith

sort_checks-fixed : (cs : List Check) → is_ordered cs ≡ true → sort_checks cs ≡ cs
unfolding sort_checks is_ordered
sort_checks-fixed [] h = refl
sort_checks-fixed (c ∷ cs) h =
    rw (sort_checks-fixed cs (ordered-tail c.id cs h)) (insert_check-ordered c cs h)

pub differs : (i j : Runes) → comes_before i j ≡ true → (i == j) ≡ false
differs i j p = elim (Bool-cases (i == j)) [
  | inl q ↦
      let e = (==_iff i j).0 q in
      absurd (ground (arith, comes_before_irreflexive j, subst (λ k. comes_before k j ≡ true) e p))
  | inr q ↦ q
]

keep_most_trusted-fixed :
    (last : Check) (cs : List Check)
    → is_ordered_from last.id cs ≡ true
    → keep_most_trusted last cs ≡ last ∷ cs
unfolding keep_most_trusted is_ordered_from
keep_most_trusted-fixed last [] h = refl
keep_most_trusted-fixed last (c ∷ cs) h =
    rw (differs last.id c.id (ground arith))
      (ap (λ t. last ∷ t) (keep_most_trusted-fixed c cs (ground arith)))

unique_checks-fixed : (cs : List Check) → is_ordered cs ≡ true → unique_checks cs ≡ cs
unfolding unique_checks is_ordered
unique_checks-fixed [] h = refl
unique_checks-fixed (c ∷ cs) h = keep_most_trusted-fixed c cs h

pub normalize_checks-fixed : (cs : List Check) → is_ordered cs ≡ true → normalize_checks cs ≡ cs
unfolding normalize_checks
normalize_checks-fixed cs h = rw (sort_checks-fixed cs h) (unique_checks-fixed cs h)

-- `normalizeChecks` leaves a list as it is exactly when each id comes strictly before the next; so
-- it leaves its own results as they are.
pub normalize_checks-fixed_iff :
    (cs : List Check)
    → ((normalize_checks cs ≡ cs) ↔ (is_ordered cs ≡ true))
      × (normalize_checks (normalize_checks cs) ≡ normalize_checks cs)
normalize_checks-fixed_iff cs = (
  (
    λ e. subst (λ t. is_ordered t ≡ true) e (normalize_checks-ordered cs),
    normalize_checks-fixed cs,
  ),
  normalize_checks-fixed (normalize_checks cs) (normalize_checks-ordered cs),
)
