-- ===== src/Preflight/Normalize/Order.antt =====
-- The order that `normalizeChecks` (internal/preflight/verify.go) sorts by is a strict total order of
-- the ids, and the sort follows it.
use reinstate.Base.{
  ℕ, ◌≡◌, refl, inl, inr, true, false, Option, none, some, [], ◌∷◌, nat_eq, bytes_eq, arith,
  Option-cases,
}
use reinstate.Base.Dict.{lookup}
use reinstate.SafeText.{Runes}
use reinstate.Preflight.Normalize.{priority, precedes, comes_before_at, comes_before}

precedes_irreflexive : (i : Runes) → precedes i i ≡ false
unfolding precedes
precedes_irreflexive [] = refl
precedes_irreflexive (c ∷ i) = ground (arith, precedes_irreflexive i)

precedes_transitive :
    (i j k : Runes) → precedes i j ≡ true → precedes j k ≡ true → precedes i k ≡ true
unfolding precedes
precedes_transitive [] [] k p q = absurd (ground arith)
precedes_transitive [] (d ∷ j) [] p q = absurd (ground arith)
precedes_transitive [] (d ∷ j) (e ∷ k) p q = refl
precedes_transitive (c ∷ i) [] k p q = absurd (ground arith)
precedes_transitive (c ∷ i) (d ∷ j) [] p q = absurd (ground arith)
precedes_transitive (c ∷ i) (d ∷ j) (e ∷ k) p q = ground (arith, precedes_transitive i j k)

precedes_total : (i j : Runes) → precedes i j ≡ false → precedes j i ≡ false → i ≡ j
unfolding precedes
precedes_total [] [] p q = refl
precedes_total [] (d ∷ j) p q = absurd (ground arith)
precedes_total (c ∷ i) [] p q = absurd (ground arith)
precedes_total (c ∷ i) (d ∷ j) p q = ground (arith, precedes_total i j)

pub comes_before_irreflexive : (i : Runes) → comes_before i i ≡ false
unfolding comes_before comes_before_at
comes_before_irreflexive i = elim (Option-cases (lookup i priority)) [
  | inl e ↦ ground (arith, precedes_irreflexive i)
  | inr (n, e) ↦ ground (arith, precedes_irreflexive i)
]

at_transitive :
    (a b c : Option ℕ) (i j k : Runes)
    → comes_before_at a b i j ≡ true
    → comes_before_at b c j k ≡ true
    → comes_before_at a c i k ≡ true
unfolding comes_before_at
at_transitive none none none i j k p q = precedes_transitive i j k p q
at_transitive none none (some c) i j k p q = absurd (ground arith)
at_transitive none (some b) c i j k p q = absurd (ground arith)
at_transitive (some a) none none i j k p q = refl
at_transitive (some a) none (some c) i j k p q = absurd (ground arith)
at_transitive (some a) (some b) none i j k p q = refl
at_transitive (some a) (some b) (some c) i j k p q = ground (arith, precedes_transitive i j k)

at_total :
    (a b : Option ℕ) (i j : Runes)
    → comes_before_at a b i j ≡ false
    → comes_before_at b a j i ≡ false
    → i ≡ j
unfolding comes_before_at
at_total none none i j p q = precedes_total i j p q
at_total none (some b) i j p q = absurd (ground arith)
at_total (some a) none i j p q = absurd (ground arith)
at_total (some a) (some b) i j p q = ground (arith, precedes_total i j)

pub comes_before_transitive :
    (i j k : Runes) → comes_before i j ≡ true → comes_before j k ≡ true → comes_before i k ≡ true
unfolding comes_before
comes_before_transitive i j k p q =
    at_transitive (lookup i priority) (lookup j priority) (lookup k priority) i j k p q

pub comes_before_total : (i j : Runes) → comes_before i j ≡ false → comes_before j i ≡ false → i ≡ j
unfolding comes_before
comes_before_total i j p q = at_total (lookup i priority) (lookup j priority) i j p q
