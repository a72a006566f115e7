-- ===== src/Async/Budget.antt =====
-- The bounds that keep a blocking poll from pinning a worker.
use krateo_rest_dynamic_cont.Base.{
  ℕ, ◌*◌, ◌≤◌, ◌<◌, arith, if◌then◌else◌, ℤ, pos, negsuc, mul64, is_nonpos, magnitude,
}
use krateo_rest_dynamic_cont.Definition.{PollConfig}
use krateo_rest_dynamic_cont.Async.{
  second, max_interval, max_attempts_cap, max_total_timeout, clamp, poll_interval, poll_attempts,
  poll_timeout, default_interval, default_max_attempts,
}

-- A value that is clamped after a default for what is not positive.
clamped :
    (most default : ℕ) (z : ℤ)
    → 0 < most
    → 0 < default
    → (0 < clamp most (if is_nonpos z then default else magnitude z))
      × (clamp most (if is_nonpos z then default else magnitude z) ≤ most)
clamped most default (pos n) h k = ground arith
clamped most default (negsuc n) h k = ground arith

-- Whatever a RestDefinition sets (nothing, negative numbers, or seconds so many that their
-- nanoseconds wrap around an int64), a blocking poll makes at least 1 and at most 120 attempts,
-- pauses more than 0 and at most 60 seconds between them, and has a deadline after more than 0 and
-- at most 30 minutes.
pub poll_budget_bounds :
    (cfg : PollConfig)
    → ((0 < poll_attempts cfg) × (poll_attempts cfg ≤ 120))
      × ((0 < poll_interval cfg) × (poll_interval cfg ≤ 60 * second))
      × ((0 < poll_timeout cfg) × (poll_timeout cfg ≤ 1800 * second))
unfolding poll_interval poll_attempts poll_timeout
poll_budget_bounds cfg = (
  clamped max_attempts_cap default_max_attempts cfg.max_attempts (omega arith) (omega arith),
  interval,
  clamped max_total_timeout _ (mul64 cfg.timeout_seconds second) (omega arith)
      (omega (arith, interval)),
)
  where
    interval : (0 < poll_interval cfg) × (poll_interval cfg ≤ 60 * second)
    interval =
        clamped max_interval default_interval (mul64 cfg.interval_seconds second) (omega arith)
          (omega arith)
