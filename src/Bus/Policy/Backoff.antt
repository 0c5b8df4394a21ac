-- ===== src/Bus/Policy/Backoff.antt =====
-- The retry policy and the backoff of src/bus/worker.rs. A duration is a number of nanoseconds.
use guigu_agent_bridge.Prelude.{ℕ, ◌-◌, ◌*◌, ◌^◌, min, max, Bool, ltb}

abbrev pub Duration : Type 0
Duration = ℕ

-- `Duration::MAX`: 2^64 - 1 seconds and 999,999,999 nanoseconds.
abbrev pub max_duration : Duration
max_duration = 2 ^ 64 * 1_000_000_000 - 1

pub data Backoff : Type 0 where
  none : Backoff
  fixed : Duration → Backoff
  exponential : Duration → Duration → Backoff

pub record RetryPolicy : Type 0 where
  pub max_attempts : ℕ  -- u32
  pub backoff : Backoff

unfoldable pub default_retry : RetryPolicy
default_retry = record { max_attempts = 1; backoff = Backoff.none }

unfoldable pub allows_another_attempt_after : RetryPolicy → ℕ → Bool
allows_another_attempt_after policy attempt = ltb attempt (max policy.max_attempts 1)

abbrev pub saturating_mul : Duration → ℕ → Duration
saturating_mul d k = min (d * k) max_duration

-- `failed_attempt.saturating_sub(1).min(31)`.
abbrev pub shift_for : ℕ → ℕ
shift_for failed_attempt = min (failed_attempt - 1) 31

unfoldable pub delay_for : Backoff → ℕ → Duration
delay_for Backoff.none failed_attempt = 0
delay_for (Backoff.fixed delay) failed_attempt = delay
delay_for (Backoff.exponential base max_delay) failed_attempt =
    min (saturating_mul base (2 ^ shift_for failed_attempt)) max_delay
