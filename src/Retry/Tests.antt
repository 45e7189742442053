-- ===== src/Retry/Tests.antt =====
-- The default policy, in microseconds.
use Prim.Native.Nat.{◌/◌}
use agenyx.Base.{ℕ, ◌≡◌, ◌≤◌, refl, true, false, ok, pos, arith}
use agenyx.Retry.Errors.{agent_max_steps_error, isinstance, execution_limit_exceeded}
use agenyx.Retry.{RetryPolicy, post_init, get_delay}
use agenyx.Retry.Laws.{IsValid, post_init_iff, get_delay-le}

abbrev default : RetryPolicy
default = record {
  max_attempts = pos 3;
  base_delay = pos 200000;
  max_delay = pos 2000000;
  jitter = false;
}

default-IsValid : IsValid default
default-IsValid = omega arith

max_steps_is_limit : isinstance agent_max_steps_error execution_limit_exceeded ≡ true
unfolding isinstance
max_steps_is_limit = refl

fifth_delay : get_delay default (λ n. n) (pos 5) ≡ ok 2000000
unfolding get_delay
fifth_delay = refl

post_init_iff_example : post_init default ≡ ok default
post_init_iff_example = (post_init_iff default).0.1 default-IsValid

abbrev half : ℕ → ℕ
half n = n / 2

half-le : (n : ℕ) → half n ≤ n
half-le n = omega arith

get_delay-le_example : 1000000 ≤ 2000000
unfolding get_delay
get_delay-le_example =
    get_delay-le (record default { jitter = true }) half (pos 9) 1000000 half-le refl
