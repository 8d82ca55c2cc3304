-- ===== src/Security/RateLimit.antt =====
-- The retry policy of backend/app/security/rate_limit.py. Seconds are counted in milliseconds, and
-- `random.random()` in millionths.
use recon_ledger.Prelude.{
  ℕ, ◌*◌, ◌/◌, ◌^◌, ◌≤◌, ◌<◌, Bool, ◌||◌, Option, none, some, arith, ◌==◌, min,
}

pub record RetryPolicy : Type 0 where
  pub max_attempts : ℕ
  pub base_delay : ℕ
  pub cap_delay : ℕ
  pub total_budget : ℕ

-- The defaults: 3 attempts, 0.5 s, 8 s, 90 s.
abbrev pub default_policy : RetryPolicy
default_policy = record {
  max_attempts = 3;
  base_delay = 500;
  cap_delay = 8000;
  total_budget = 90000;
}

abbrev pub ceiling : ℕ → RetryPolicy → ℕ
ceiling attempt policy = min policy.cap_delay (policy.base_delay * 2 ^ attempt)

unfoldable pub compute_backoff : ℕ → RetryPolicy → ℕ → ℕ
compute_backoff attempt policy rand = rand * ceiling attempt policy / 1_000_000

-- `status_code in _RETRYABLE_STATUS_CODES`
abbrev pub is_retryable_status : ℕ → Bool
is_retryable_status s = s == 429 || s == 500 || s == 502 || s == 503 || s == 504

-- The value of a Retry-After header, as `float` reads it.
pub data RetryAfter : Type 0 where
  absent not_a_number negative : RetryAfter
  after : ℕ → RetryAfter

abbrev pub parse_retry_after : RetryAfter → Option ℕ
parse_retry_after (after t) = some t
parse_retry_after _ = none

-- The wait is below the exponential ceiling and the cap.
pub compute_backoff-le :
    (attempt : ℕ) (policy : RetryPolicy) (rand : ℕ)
    → rand < 1_000_000
    → compute_backoff attempt policy rand ≤ ceiling attempt policy
unfolding compute_backoff
compute_backoff-le attempt policy rand h = grind arith
