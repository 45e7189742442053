-- ===== src/Limits/Budget.antt =====
-- Admission and the remaining budget tell the same story.
use Prim.Native.Nat.{max}
use agenyx.Base.{
  ℕ, zero, suc, ◌+◌, ◌≤◌, ◌<◌, ◌≡◌, ◌↔◌, true, false, none, some, String, lookup, string_eq, ℤ, pos,
  negsuc, ◌-ℤ◌, ◌≤ℤ◌, pos_part, ltb_ℤ, is_empty, ok, raise, value_error, execution_limit_exceeded,
  agent_max_steps_error, arith,
}
use agenyx.Limits.{
  ExecutionLimits, post_init, validate_step, validate_tool_call, validate_repeated_tool_call,
  validate_per_tool_call, validate_timeout, remaining_tool_calls, remaining_repeated_tool_calls,
  remaining_per_tool_calls, remaining_timeout, left,
}

-- Some of the budget is left exactly while the use is below the limit.
left_iff : (limit used : ℤ) → (pos 1 ≤ℤ left limit used) ↔ (ltb_ℤ used limit ≡ true)
unfolding ◌-ℤ◌
left_iff limit used = (λ h. ground arith, λ h. ground arith)

-- For a count that is not negative, another tool call is admitted exactly while some of the global
-- budget remains, and else it raises ExecutionLimitExceeded; a negative count raises ValueError in
-- both.
pub validate_tool_call_iff :
    (l : ExecutionLimits) (used : ℤ)
    → (pos 0 ≤ℤ used
        → (rest : ℤ) × (remaining_tool_calls l used ≡ ok rest)
          × ((validate_tool_call l used ≡ ok tt) ↔ (pos 1 ≤ℤ rest))
          × ((validate_tool_call l used ≡ raise execution_limit_exceeded) ↔ (rest ≡ pos 0)))
      × (used ≤ℤ negsuc 0
          → (validate_tool_call l used ≡ raise value_error)
            × (remaining_tool_calls l used ≡ raise value_error))
unfolding validate_tool_call remaining_tool_calls ◌-ℤ◌
validate_tool_call_iff l used = (
  λ h. (
    left l.max_tool_calls used,
    ground arith,
    (λ k. ground arith, λ k. ground arith),
    (λ k. ground arith, λ k. ground arith),
  ),
  λ h. (ground arith, ground arith),
)

-- The same for calls of one tool with the same arguments.
pub validate_repeated_tool_call_iff :
    (l : ExecutionLimits) (used : ℤ)
    → pos 0 ≤ℤ used
    → (rest : ℤ) × (remaining_repeated_tool_calls l used ≡ ok rest)
      × ((validate_repeated_tool_call l used ≡ ok tt) ↔ (pos 1 ≤ℤ rest))
      × ((validate_repeated_tool_call l used ≡ raise execution_limit_exceeded) ↔ (rest ≡ pos 0))
unfolding validate_repeated_tool_call remaining_repeated_tool_calls ◌-ℤ◌
validate_repeated_tool_call_iff l used h = (
  left l.max_repeated_tool_calls used,
  ground arith,
  (λ k. ground arith, λ k. ground arith),
  (λ k. ground arith, λ k. ground arith),
)

-- For a named tool and a count that is not negative: a tool with no entry is always admitted, and
-- one with an entry exactly while some of its budget remains; a limit of zero disables it.
pub validate_per_tool_call_iff :
    (l : ExecutionLimits) (tool : String) (used : ℤ)
    → is_empty tool ≡ false
    → pos 0 ≤ℤ used
    → (lookup tool l.per_tool_limits ≡ none
        → (validate_per_tool_call l tool used ≡ ok tt)
          × (remaining_per_tool_calls l tool used ≡ ok none))
      × ((limit : ℤ)
          → lookup tool l.per_tool_limits ≡ some limit
          → (rest : ℤ) × (remaining_per_tool_calls l tool used ≡ ok (some rest))
            × ((validate_per_tool_call l tool used ≡ ok tt) ↔ (pos 1 ≤ℤ rest)))
      × (lookup tool l.per_tool_limits ≡ some (pos 0)
          → validate_per_tool_call l tool used ≡ raise execution_limit_exceeded)
unfolding validate_per_tool_call remaining_per_tool_calls ◌-ℤ◌
validate_per_tool_call_iff l tool used named h = (
  λ e. (ground arith, ground arith),
  λ limit e. (left limit used, ground arith, (λ k. ground arith, λ k. ground arith)),
  λ e. ground arith,
)

-- The timeout is raised exactly when no time remains, whatever the two readings of the clock.
pub validate_timeout_iff :
    (l : ExecutionLimits) (now started : ℤ)
    → ((validate_timeout l now started ≡ ok tt) ↔ (pos 1 ≤ℤ remaining_timeout l now started))
      × ((validate_timeout l now started ≡ raise execution_limit_exceeded)
          ↔ (remaining_timeout l now started ≡ pos 0))
unfolding validate_timeout remaining_timeout ◌-ℤ◌
validate_timeout_iff l now started =
    ((λ k. ground arith, λ k. ground arith), (λ k. ground arith, λ k. ground arith))

-- The steps `first`, `first + 1`, … up to the first that is refused, at most `fuel` of them.
unfoldable pub steps_run : ExecutionLimits → ℕ → ℕ → ℕ
steps_run l zero first = 0
steps_run l (suc fuel) first =
    let rest = steps_run l fuel (first + 1) in
    elim (validate_step l (pos first)) [ ok _ ↦ suc rest | raise _ ↦ 0 ]

steps_run_from :
    (l : ExecutionLimits) (limit fuel first : ℕ)
    → l.max_steps ≡ pos limit
    → 1 ≤ first
    → limit < fuel + first
    → steps_run l fuel first + first ≡ max (limit + 1) first
unfolding steps_run validate_step
steps_run_from l limit zero first e h f = omega arith
steps_run_from l limit (suc fuel) first e h f =
    ground (arith, steps_run_from l limit fuel (first + 1) e)

-- With limits that the constructor accepts, the loop over steps from 1 admits exactly `max_steps`
-- of them; the step after raises AgentMaxStepsError.
pub steps_run_lem :
    (l : ExecutionLimits) (fuel : ℕ)
    → post_init l ≡ ok l
    → pos_part l.max_steps ≤ fuel
    → (steps_run l fuel 1 ≡ pos_part l.max_steps)
      × (1 ≤ steps_run l fuel 1)
      × (validate_step l (pos (pos_part l.max_steps + 1)) ≡ raise agent_max_steps_error)
unfolding post_init validate_step
steps_run_lem l fuel h f =
    let is : l.max_steps ≡ pos (pos_part l.max_steps) = at_least_one.1 in
    let total : steps_run l fuel 1 + 1 ≡ max (pos_part l.max_steps + 1) 1 =
      steps_run_from l (pos_part l.max_steps) fuel 1 is (omega arith) (omega arith) in
    (omega arith, omega (arith, at_least_one.0), ground arith)
  where
    at_least_one : (1 ≤ pos_part l.max_steps) × (l.max_steps ≡ pos (pos_part l.max_steps))
    at_least_one = ground arith
