-- ===== src/Preflight/Normalize/Trust.antt =====
-- Which check of an id stays in `normalizeChecks` (internal/preflight/verify.go).
use reinstate.Base.{
  ◌≡◌, refl, ap, sym, ◌∙◌, inl, inr, true, false, ◌&&◌, Option, none, some, List, [], ◌∷◌,
  if◌then◌else◌, ◌==◌, ==_iff, nat_eq, bytes_eq, arith, Bool-cases, subst,
}
use reinstate.SafeText.{Runes}
use reinstate.Preflight.Model.{Check}
use reinstate.Preflight.Normalize.{
  comes_before, insert_check, sort_checks, more_trusted, keep_most_trusted, unique_checks,
  normalize_checks,
}
use reinstate.Preflight.Normalize.Order.{comes_before_transitive}
use reinstate.Preflight.Normalize.Unique.{
  is_ordered_from, is_sorted_from, is_sorted, sort_checks-sorted, differs, later, more_trusted-id,
  keep_most_trusted-ordered_from,
}

abbrev pub find_check : Runes → List Check → Option Check
find_check i [] = none
find_check i (c ∷ cs) = if c.id == i then some c else find_check i cs

-- The first check of the greatest rank among those with the id.
abbrev pub challenge : Check → Option Check → Check
challenge c none = c
challenge c (some d) = more_trusted c d

unfoldable pub most_trusted : Runes → List Check → Option Check
most_trusted i [] = none
most_trusted i (c ∷ cs) =
    let rest = most_trusted i cs in if c.id == i then some (challenge c rest) else rest

more_trusted_assoc :
    (a b : Check) (o : Option Check)
    → challenge a (some (challenge b o)) ≡ challenge (more_trusted a b) o
more_trusted_assoc a b none = refl
more_trusted_assoc a b (some c) = ground arith

most_trusted-insert_check :
    (i : Runes) (c : Check) (cs : List Check)
    → most_trusted i (insert_check c cs) ≡ most_trusted i (c ∷ cs)
unfolding most_trusted insert_check
most_trusted-insert_check i c [] = refl
most_trusted-insert_check i c (d ∷ cs) = elim (Bool-cases (comes_before d.id c.id)) [
  | inl p ↦
      let u = differs d.id c.id p in
      let one : (d.id == i && c.id == i) ≡ false =
        ground (arith, ==_iff d.id i, ==_iff c.id i, ==_iff d.id c.id) in
      ground (arith, most_trusted-insert_check i c cs)
  | inr p ↦ ground arith
]

most_trusted-cons :
    (i : Runes) (c : Check) (cs ds : List Check)
    → most_trusted i cs ≡ most_trusted i ds
    → most_trusted i (c ∷ cs) ≡ most_trusted i (c ∷ ds)
unfolding most_trusted
most_trusted-cons i c cs ds h = rw h refl

most_trusted-sort_checks :
    (i : Runes) (cs : List Check) → most_trusted i (sort_checks cs) ≡ most_trusted i cs
unfolding sort_checks
most_trusted-sort_checks i [] = refl
most_trusted-sort_checks i (c ∷ cs) =
    most_trusted-insert_check i c (sort_checks cs)
    ∙ most_trusted-cons i c (sort_checks cs) cs (most_trusted-sort_checks i cs)

-- No later id of an ordered list is one that comes before it.
find_check-later :
    (i j : Runes) (cs : List Check)
    → comes_before i j ≡ true
    → is_ordered_from j cs ≡ true
    → find_check i cs ≡ none
unfolding is_ordered_from
find_check-later i j [] p h = refl
find_check-later i j (c ∷ cs) p h =
    let next = comes_before_transitive i j c.id p (ground arith) in
    let u = differs i c.id next in
    let r = find_check-later i c.id cs next (ground arith) in
    ground (arith, ==_iff i c.id, ==_iff c.id i)

find_check-first :
    (i : Runes) (cs : List Check) → is_ordered_from i cs ≡ true → find_check i cs ≡ none
unfolding is_ordered_from
find_check-first i [] h = refl
find_check-first i (c ∷ cs) h =
    let u = differs i c.id (ground arith) in
    let r = find_check-later i c.id cs (ground arith) (ground arith) in
    ground (arith, ==_iff i c.id, ==_iff c.id i)

pub most_trusted-here :
    (i : Runes) (c : Check) (cs : List Check)
    → c.id ≡ i
    → most_trusted i (c ∷ cs) ≡ some (challenge c (most_trusted i cs))
unfolding most_trusted
most_trusted-here i c cs h = ground (arith, ==_iff c.id i)

pub most_trusted-elsewhere :
    (i : Runes) (c : Check) (cs : List Check)
    → (c.id == i) ≡ false
    → most_trusted i (c ∷ cs) ≡ most_trusted i cs
unfolding most_trusted
most_trusted-elsewhere i c cs h = ground arith

most_trusted-repeated :
    (i : Runes) (last c : Check) (cs : List Check)
    → last.id ≡ c.id
    → most_trusted i (more_trusted last c ∷ cs) ≡ most_trusted i (last ∷ c ∷ cs)
most_trusted-repeated i last c cs same =
    let kept = more_trusted-id last c same in
    elim (Bool-cases (c.id == i)) [
      | inl p ↦
          let e = (==_iff c.id i).0 p in
          rw
            (
              most_trusted-here i (more_trusted last c) cs (kept ∙ e),
              most_trusted-here i last (c ∷ cs) (same ∙ e),
              most_trusted-here i c cs e,
            )
            (ap some (sym (more_trusted_assoc last c (most_trusted i cs))))
      | inr p ↦
          rw
            (
              most_trusted-elsewhere i (more_trusted last c) cs
                  (subst (λ k. (k == i) ≡ false) (sym kept) p),
              most_trusted-elsewhere i last (c ∷ cs) (subst (λ k. (k == i) ≡ false) (sym same) p),
              most_trusted-elsewhere i c cs p,
            )
            refl
    ]

most_trusted-empty : (i : Runes) → none ≡ most_trusted i []
unfolding most_trusted
most_trusted-empty i = refl

find_check-alone :
    (i : Runes) (last : Check) → find_check i (last ∷ []) ≡ most_trusted i (last ∷ [])
unfolding most_trusted
find_check-alone i last = refl

find_check-before :
    (i : Runes) (last : Check) (kept cs : List Check)
    → find_check last.id kept ≡ none
    → find_check i kept ≡ most_trusted i cs
    → find_check i (last ∷ kept) ≡ most_trusted i (last ∷ cs)
find_check-before i last kept cs first r = elim (Bool-cases (last.id == i)) [
  | inl p ↦
      let e = (==_iff last.id i).0 p in
      let none_there : most_trusted i cs ≡ none =
        sym r ∙ subst (λ k. find_check k kept ≡ none) e first in
      rw (most_trusted-here i last cs e, none_there, p) refl
  | inr p ↦ rw (most_trusted-elsewhere i last cs p, p) r
]

find_check-keep_most_trusted :
    (i : Runes) (last : Check) (cs : List Check)
    → is_sorted_from last.id cs ≡ true
    → find_check i (keep_most_trusted last cs) ≡ most_trusted i (last ∷ cs)
unfolding keep_most_trusted is_sorted_from
find_check-keep_most_trusted i last [] h = find_check-alone i last
find_check-keep_most_trusted i last (c ∷ cs) h = elim (Bool-cases (last.id == c.id)) [
  | inl q ↦
      let same = (==_iff last.id c.id).0 q in
      let kept = more_trusted-id last c same in
      rw q (
        find_check-keep_most_trusted i (more_trusted last c) cs
          (subst (λ j. is_sorted_from j cs ≡ true) (sym kept) (ground arith))
        ∙ most_trusted-repeated i last c cs same)
  | inr q ↦
      let next = later last c (ground arith) q in
      let r = find_check-keep_most_trusted i c cs (ground arith) in
      let first =
        find_check-first last.id (keep_most_trusted c cs)
          (keep_most_trusted-ordered_from last.id c cs next (ground arith)) in
      rw q (find_check-before i last (keep_most_trusted c cs) (c ∷ cs) first r)
]

find_check-unique_checks :
    (i : Runes) (cs : List Check)
    → is_sorted cs ≡ true
    → find_check i (unique_checks cs) ≡ most_trusted i cs
unfolding unique_checks is_sorted
find_check-unique_checks i [] h = most_trusted-empty i
find_check-unique_checks i (c ∷ cs) h = find_check-keep_most_trusted i c cs h

-- `normalizeChecks` leaves for each id what `most_trusted` finds.
pub find_check-normalize_checks :
    (i : Runes) (cs : List Check) → find_check i (normalize_checks cs) ≡ most_trusted i cs
unfolding normalize_checks
find_check-normalize_checks i cs =
    find_check-unique_checks i (sort_checks cs) (sort_checks-sorted cs)
    ∙ most_trusted-sort_checks i cs
