-- ===== src/Daemon/Backoff/Bounds.antt =====
-- The retry delay doubles with each failure up to its bound, and never overflows.
use Prim.Native.Nat.{min}
use native.Mathlib.Nat.{pow-suc}
use reinstate.Base.{ℕ, zero, suc, ◌-◌, ◌*◌, ◌%◌, ◌^◌, ◌≤◌, ◌<◌, ◌≡◌, arith, ltb}
use reinstate.Daemon.Model.{Options}
use reinstate.Daemon.Backoff.{signed_ltb, double_loop, backoff}

-- Below the sign bit the signed comparison is the plain one.
signed_ltb-eq-ltb : (a b : ℕ) → a < 2 ^ 63 → b < 2 ^ 63 → signed_ltb a b ≡ ltb a b
signed_ltb-eq-ltb a b p q = ground arith

two_pow_pos : (r : ℕ) → 1 ≤ 2 ^ r
two_pow_pos zero = omega arith
two_pow_pos (suc r) = rw pow-suc (omega (arith, two_pow_pos r))

le-mul_two_pow : (d r : ℕ) → d ≤ d * 2 ^ r
le-mul_two_pow d r = grind (arith, two_pow_pos r)

double_loop-lt : (r max d : ℕ) → max ≤ 2 ^ 62 → d < 2 ^ 63 → double_loop r max d < 2 ^ 63
unfolding double_loop
double_loop-lt zero max d p q = q
double_loop-lt (suc r) max d p q =
    rw (signed_ltb-eq-ltb d max q (omega arith))
      (ground (arith, double_loop-lt r max (d * 2 % 2 ^ 64)))

double-pow : (d r : ℕ) → d * 2 ^ suc r ≡ d * 2 * 2 ^ r
double-pow d r = rw pow-suc (omega arith)

min-double_loop :
    (r max d : ℕ) → max ≤ 2 ^ 62 → d < 2 ^ 63 → min max (double_loop r max d) ≡ min max (d * 2 ^ r)
unfolding double_loop
min-double_loop zero max d p q = omega arith
min-double_loop (suc r) max d p q =
    rw (signed_ltb-eq-ltb d max q (omega arith))
      (ground (arith, double-pow d r, min-double_loop r max (d * 2 % 2 ^ 64), le-mul_two_pow d r))

-- For bounds up to 2^62 nanoseconds, the delay after the n-th failure in a row is the least delay
-- doubled n - 1 times, cut off at the greatest delay: no doubling overflows.
pub backoff-eq :
    (o : Options) (fails : ℕ)
    → o.backoff_min ≤ 2 ^ 62
    → o.backoff_max ≤ 2 ^ 62
    → backoff o fails ≡ min o.backoff_max (o.backoff_min * 2 ^ (fails - 1))
unfolding backoff
backoff-eq o fails p q =
    let r = fails - 1 in
    rw
      (signed_ltb-eq-ltb o.backoff_max (double_loop r o.backoff_max o.backoff_min) (omega arith)
        (double_loop-lt r o.backoff_max o.backoff_min q (omega arith)))
      (ground (arith, min-double_loop r o.backoff_max o.backoff_min))

-- So a retry is never immediate and never later than the greatest delay.
pub backoff_bounds :
    (o : Options) (fails : ℕ)
    → o.backoff_min ≤ 2 ^ 62
    → o.backoff_max ≤ 2 ^ 62
    → (min o.backoff_max o.backoff_min ≤ backoff o fails) × (backoff o fails ≤ o.backoff_max)
backoff_bounds o fails p q =
    rw (backoff-eq o fails p q) (omega (arith, le-mul_two_pow o.backoff_min (fails - 1)))
