-- ===== src/Retry.antt =====
-- retry_policy.py: whether a failed attempt is tried again, and after which delay. The delays,
-- floats in the source, are whole microseconds.
pub mod Errors
mod Laws
mod Tests
use agenyx.Base.{
  ℕ, suc, ◌+◌, ◌-◌, ◌*◌, ◌^◌, ◌≤◌, Bool, true, false, ℤ, pos, pos_part, ltb_ℤ, leb_ℤ, min, Error,
  value_error, Result, ok, raise, ◌||◌, if◌then◌else◌,
}
use Errors.{
  ErrorClass, isinstance, execution_cancelled, execution_limit_exceeded, llm_connection_error,
  llm_timeout_error, tool_execution_error,
}

-- the classes that are never retried
abbrev pub is_halting : ErrorClass → Bool
is_halting e = isinstance e execution_cancelled || isinstance e execution_limit_exceeded

-- the classes that are retried
abbrev pub is_transient : ErrorClass → Bool
is_transient e =
    isinstance e llm_connection_error
    || isinstance e llm_timeout_error
    || isinstance e tool_execution_error

pub record RetryPolicy : Type 0 where
  pub max_attempts : ℤ
  pub base_delay : ℤ
  pub max_delay : ℤ
  pub jitter : Bool

-- `__post_init__`
unfoldable pub post_init : RetryPolicy → Result RetryPolicy
post_init r =
    if leb_ℤ r.max_attempts (pos 0)
    then raise value_error
    else if ltb_ℤ r.base_delay (pos 0)
    then raise value_error
    else if ltb_ℤ r.max_delay (pos 0)
    then raise value_error
    else if ltb_ℤ r.max_delay r.base_delay
    then raise value_error
    else ok r

unfoldable pub should_retry : RetryPolicy → ErrorClass → ℤ → Result Bool
unfolding isinstance
should_retry r error attempt =
    if ltb_ℤ attempt (pos 1)
    then raise value_error
    else if leb_ℤ r.max_attempts attempt
    then ok false
    else if is_halting error
    then ok false
    else ok (is_transient error)

-- `random.uniform(0, high)` is an argument, a function of `high`.
unfoldable pub get_delay : RetryPolicy → (ℕ → ℕ) → ℤ → Result ℕ
get_delay r uniform attempt =
    if ltb_ℤ attempt (pos 1)
    then raise value_error
    else let capped_delay : ℕ =
        min (pos_part r.base_delay * 2 ^ (pos_part attempt - 1)) (pos_part r.max_delay) in
      ok (if r.jitter then uniform capped_delay else capped_delay)
