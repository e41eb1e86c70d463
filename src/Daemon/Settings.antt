-- ===== src/Daemon/Settings.antt =====
-- internal/daemon/loop.go, `(*Options).fill` and the default intervals; status.go, `Alive`.
use reinstate.Base.{
  ℕ, ◌+◌, ◌*◌, ◌<◌, Bool, false, ◌||◌, arith, ltb, ◌==◌, nat_eq, string_eq, if◌then◌else◌,
}
use reinstate.Daemon.Model.{Time, Options, Status}

abbrev pub second : ℕ
second = 1_000_000_000

abbrev pub minute : ℕ
minute = 60 * second

abbrev default_debounce : ℕ
default_debounce = 3 * second

abbrev default_max_debounce : ℕ
default_max_debounce = 30 * second

abbrev default_pull_every : ℕ
default_pull_every = 30 * second

abbrev default_approvals_every : ℕ
default_approvals_every = minute

abbrev default_backoff_min : ℕ
default_backoff_min = 5 * second

abbrev default_backoff_max : ℕ
default_backoff_max = 10 * minute

abbrev pub heartbeat_every : ℕ
heartbeat_every = minute

abbrev stale_after : ℕ
stale_after = 3 * minute

-- `if o.X <= 0 { o.X = DefaultX }`
abbrev or_default : ℕ → ℕ → ℕ
or_default d default = if d == 0 then default else d

-- The clock and the logger have no part in the model, so their defaults have none either.
unfoldable pub fill : Options → Options
fill o = record o {
  debounce = or_default o.debounce default_debounce;
  max_debounce = or_default o.max_debounce default_max_debounce;
  pull_every = or_default o.pull_every default_pull_every;
  approvals_every = or_default o.approvals_every default_approvals_every;
  backoff_min = or_default o.backoff_min default_backoff_min;
  backoff_max = or_default o.backoff_max default_backoff_max;
  backend = if o.backend == "" then "byo" else o.backend;
  watch = if o.watch == "" then "poll" else o.watch;
}

-- The intervals that a filled set of options has: none is zero.
pub record IsFilled (o : Options) : Type 0 where
  pub debounce_pos : 0 < o.debounce
  pub max_debounce_pos : 0 < o.max_debounce
  pub pull_every_pos : 0 < o.pull_every
  pub approvals_every_pos : 0 < o.approvals_every
  pub backoff_min_pos : 0 < o.backoff_min
  pub backoff_max_pos : 0 < o.backoff_max

pub fill-IsFilled : (o : Options) → IsFilled (fill o)
unfolding fill
fill-IsFilled o = ground arith

module _ (process_exists : ℕ → Bool) where
  -- `now.Sub(UpdatedAt) > StaleAfter` is written without the subtraction.
  unfoldable pub alive : Status → Time → Bool
  alive s now =
      if s.pid == 0 || s.updated_at == 0
      then false
      else if ltb (s.updated_at + stale_after) now
      then false
      else process_exists s.pid
