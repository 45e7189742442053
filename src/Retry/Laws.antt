-- ===== src/Retry/Laws.antt =====
-- When an attempt is repeated, and how the delays grow.
use native.Mathlib.Nat.{pow-suc}
use agenyx.Base.{
  ◌⊎◌, inl, inr, ℕ, zero, suc, ◌+◌, ◌-◌, ◌*◌, ◌^◌, ◌≤◌, ◌≡◌, ◌↔◌, true, false, ℤ, pos, pos_part,
  ◌≤ℤ◌, ltb_ℤ, min, ok, raise, value_error, arith,
}
use agenyx.Retry.Errors.{ErrorClass, isinstance}
use agenyx.Retry.{RetryPolicy, post_init, should_retry, get_delay, is_transient, is_halting}

pub record IsValid (r : RetryPolicy) : Type 0 where
  pub attempts : pos 1 ≤ℤ r.max_attempts
  pub base : pos 0 ≤ℤ r.base_delay
  pub ordered : r.base_delay ≤ℤ r.max_delay

post_init_cases :
    (r : RetryPolicy) → ((post_init r ≡ ok r) × IsValid r) ⊎ (post_init r ≡ raise value_error)
unfolding post_init
post_init_cases r = ground arith

-- The constructor accepts exactly the valid policies, as they are, and raises ValueError else.
pub post_init_iff :
    (r : RetryPolicy)
    → ((post_init r ≡ ok r) ↔ IsValid r) × (¬ IsValid r → post_init r ≡ raise value_error)
unfolding post_init
post_init_iff r = (
  (λ h. ground arith, λ v. ground arith),
  λ n. elim (post_init_cases r) [ inl accepted ↦ absurd (n accepted.1) | inr refused ↦ refused ],
)

transient_not_halting : (e : ErrorClass) → is_transient e ≡ true → is_halting e ≡ false
unfolding isinstance
transient_not_halting e h = ground arith

-- Another attempt is made exactly for a transient error in an attempt before the last. An attempt
-- below one raises ValueError.
pub should_retry_iff :
    (r : RetryPolicy) (e : ErrorClass) (attempt : ℤ)
    → (pos 1 ≤ℤ attempt
        → (should_retry r e attempt ≡ ok true)
          ↔ ((ltb_ℤ attempt r.max_attempts ≡ true) × (is_transient e ≡ true)))
      × (attempt ≤ℤ pos 0 → should_retry r e attempt ≡ raise value_error)
unfolding should_retry
should_retry_iff r e attempt =
    (λ h. (λ k. ground arith, λ k. ground (arith, transient_not_halting e)), λ h. ground arith)

one-le-pow : (k : ℕ) → 1 ≤ 2 ^ k
one-le-pow zero = omega arith
one-le-pow (suc k) = omega (arith, one-le-pow k, pow-suc 2 k)

-- the delay without jitter in attempt `k + 1`
abbrev capped : ℕ → ℕ → ℕ → ℕ
capped base limit k = min (base * 2 ^ k) limit

capped_grows :
    (base limit k : ℕ)
    → base ≤ limit
    → (base ≤ capped base limit k)
      × (capped base limit k ≤ capped base limit (suc k))
      × (capped base limit (suc k) ≤ limit)
capped_grows base limit k h = rw (pow-suc 2 k) (grows (2 ^ k) (one-le-pow k))
  where
    grows :
        (p : ℕ)
        → 1 ≤ p
        → (base ≤ min (base * p) limit)
          × (min (base * p) limit ≤ min (base * (p * 2)) limit)
          × (min (base * (p * 2)) limit ≤ limit)
    grows p one = grind arith

-- Without jitter the delay of a valid policy starts at the base delay, never falls from an attempt
-- to the next, and never passes the maximum.
pub get_delay_bounds :
    (r : RetryPolicy) (uniform : ℕ → ℕ) (attempt d d' : ℕ)
    → IsValid r
    → r.jitter ≡ false
    → get_delay r uniform (pos attempt) ≡ ok d
    → get_delay r uniform (pos (attempt + 1)) ≡ ok d'
    → (pos_part r.base_delay ≤ d) × (d ≤ d') × (d' ≤ pos_part r.max_delay)
unfolding get_delay
get_delay_bounds r uniform zero d d' v j h h' = cc
get_delay_bounds r uniform (suc k) d d' v j h h' =
    ground (arith, capped_grows (pos_part r.base_delay) (pos_part r.max_delay) k, v)

-- With jitter too, the delay never passes the maximum, if the random number keeps to its range.
pub get_delay-le :
    (r : RetryPolicy) (uniform : ℕ → ℕ) (attempt : ℤ) (d : ℕ)
    → ((high : ℕ) → uniform high ≤ high)
    → get_delay r uniform attempt ≡ ok d
    → d ≤ pos_part r.max_delay
unfolding get_delay
get_delay-le r uniform attempt d range h =
    ground (
      arith,
      range (min (pos_part r.base_delay * 2 ^ (pos_part attempt - 1)) (pos_part r.max_delay)),
    )
