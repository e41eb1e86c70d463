-- ===== src/Daemon/Backoff.antt =====
-- internal/daemon/loop.go, `(*loop).backoff`: the delay before a retry. A `time.Duration` is an
-- int64, kept here as its bit pattern below 2^64 with the signed comparison written out.
pub mod Bounds
use reinstate.Base.{ℕ, zero, suc, ◌+◌, ◌-◌, ◌*◌, ◌%◌, ◌^◌, Bool, ltb, if◌then◌else◌}
use reinstate.Daemon.Model.{Options}

abbrev int64_sign : ℕ
int64_sign = 2 ^ 63

-- The int64 comparison `a < b` of two bit patterns.
abbrev signed_ltb : ℕ → ℕ → Bool
signed_ltb a b = ltb ((a + int64_sign) % 2 ^ 64) ((b + int64_sign) % 2 ^ 64)

-- `for i := 1; i < fails && delay < max; i++ { delay *= 2 }`, over the rounds that are left.
double_loop : ℕ → ℕ → ℕ → ℕ
double_loop zero max delay = delay
double_loop (suc rounds) max delay =
    let rest = double_loop rounds max (delay * 2 % 2 ^ 64) in
    if signed_ltb delay max then rest else delay

unfoldable pub backoff : Options → ℕ → ℕ
unfolding double_loop
backoff o fails =
    let delay = double_loop (fails - 1) o.backoff_max o.backoff_min in
    if signed_ltb o.backoff_max delay then o.backoff_max else delay
