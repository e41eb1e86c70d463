-- ===== src/Base/Sorting.antt =====
-- `sort.Ints`, as an insertion sort: the order of equal numbers makes no difference.
use Prim.Native.Nat.{ℕ}
use mathlib.Core.Path.{◌≡◌, refl, subst}
use mathlib.Core.Logic.{◌⊎◌, inl, inr}
use mathlib.Core.Bool.{true, ◌||◌}
use mathlib.Core.List.{List, [], ◌∷◌}
use native.Mathlib.Omega.{arith}
use reinstate.Base.Tests.{leb, Bool-cases, if◌then◌else◌}
use reinstate.Base.Lists.{All}
use reinstate.Base.Equality.{◌==◌, nat_eq, contains}

unfoldable pub insert_sorted : ℕ → List ℕ → List ℕ
insert_sorted n [] = n ∷ []
insert_sorted n (m ∷ ms) = if leb n m then n ∷ m ∷ ms else m ∷ insert_sorted n ms

unfoldable pub sort_ints : List ℕ → List ℕ
unfolding insert_sorted
sort_ints [] = []
sort_ints (n ∷ ns) = insert_sorted n (sort_ints ns)

contains-insert_sorted :
    (k n : ℕ) (ms : List ℕ) → contains (insert_sorted n ms) k ≡ (n == k || contains ms k)
unfolding insert_sorted
contains-insert_sorted k n [] = refl
contains-insert_sorted k n (m ∷ ms) = ground (arith, contains-insert_sorted k n ms)

pub contains-sort_ints : (k : ℕ) (ns : List ℕ) → contains (sort_ints ns) k ≡ contains ns k
unfolding sort_ints
contains-sort_ints k [] = refl
contains-sort_ints k (n ∷ ns) =
    ground (arith, contains-insert_sorted k n (sort_ints ns), contains-sort_ints k ns)

contains-cons :
    (n k : ℕ) (ns : List ℕ) → contains (n ∷ ns) k ≡ true → (n ≡ k) ⊎ (contains ns k ≡ true)
contains-cons n k ns h = ground arith

module _ {ℓ} (P : ℕ → Type ℓ) where
  pub All-contains : (ns : List ℕ) (k : ℕ) → All P ns → contains ns k ≡ true → P k
  All-contains [] k a h = cc
  All-contains (n ∷ ns) k a h = elim (contains-cons n k ns h) [
    | inl e ↦ subst P e a.0
    | inr t ↦ All-contains ns k a.1 t
  ]

  pub All-insert_sorted : (n : ℕ) (ms : List ℕ) → P n → All P ms → All P (insert_sorted n ms)
  unfolding insert_sorted
  All-insert_sorted n [] p a = (p, tt)
  All-insert_sorted n (m ∷ ms) p a = elim (Bool-cases (leb n m)) [
    | inl e ↦ rw e (p, a)
    | inr e ↦ rw e (a.0, All-insert_sorted n ms p a.1)
  ]

  pub All-sort_ints : (ns : List ℕ) → All P ns → All P (sort_ints ns)
  unfolding sort_ints
  All-sort_ints [] a = tt
  All-sort_ints (n ∷ ns) a = All-insert_sorted n (sort_ints ns) a.0 (All-sort_ints ns a.1)
