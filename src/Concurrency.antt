-- ===== src/Concurrency.antt =====
-- concurrency.py of the inference service: the limiter of running inferences.
pub mod Slots
mod Tests
use agenyx.Base.{
  ℕ, ◌+◌, ◌-◌, Bool, true, false, leb, ℤ, pos, pos_part, ltb_ℤ, value_error, runtime_error, Result,
  ok, raise, Action, if◌then◌else◌,
}

pub record InferenceConcurrencyLimiter : Type 0 where
  pub max_concurrency : ℕ
  pub active : ℕ

unfoldable pub init : ℤ → Result InferenceConcurrencyLimiter
init max_concurrency =
    if ltb_ℤ max_concurrency (pos 1)
    then raise value_error
    else ok (record { max_concurrency = pos_part max_concurrency; active = 0 })

unfoldable pub try_acquire : InferenceConcurrencyLimiter → Bool × InferenceConcurrencyLimiter
try_acquire l =
    if leb l.max_concurrency l.active
    then (false, l)
    else (true, record l { active = l.active + 1 })

-- the count is not 0 where it is decremented, so `-` is exact
unfoldable pub release : Action InferenceConcurrencyLimiter (Unit {0})
release l =
    if leb l.active 0 then (raise runtime_error, l) else (ok tt, record l { active = l.active - 1 })
