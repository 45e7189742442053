-- ===== src/Limits.antt =====
-- execution_limits.py: what one execution may use. Python's ints are signed; the timeout and the
-- monotonic clock, floats in the source, are whole microseconds.
mod Budget
mod Tests
use agenyx.Base.{
  ℕ, Bool, true, false, Option, none, some, String, List, [], ◌∷◌, Dict, lookup, string_eq, ℤ, pos,
  ◌-ℤ◌, ltb_ℤ, leb_ℤ, is_empty, Error, value_error, execution_limit_exceeded, agent_max_steps_error,
  Result, ok, raise, if◌then◌else◌, ◌||◌,
}

pub record ExecutionLimits : Type 0 where
  pub max_steps : ℤ
  pub max_tool_calls : ℤ
  pub max_repeated_tool_calls : ℤ
  pub timeout_seconds : ℤ
  pub per_tool_limits : Dict String ℤ
  pub max_parallel_tool_calls : ℤ

-- the loop over `per_tool_limits`
unfoldable pub tools_valid : Dict String ℤ → Result (Unit {0})
tools_valid [] = ok tt
tools_valid ((tool_name, limit) ∷ limits) =
    let rest = tools_valid limits in
    if is_empty tool_name
    then raise value_error
    else if ltb_ℤ limit (pos 0)
    then raise value_error
    else rest

-- `__post_init__`
unfoldable pub post_init : ExecutionLimits → Result ExecutionLimits
unfolding tools_valid
post_init l =
    if leb_ℤ l.max_steps (pos 0)
    then raise value_error
    else if leb_ℤ l.max_tool_calls (pos 0)
    then raise value_error
    else if leb_ℤ l.max_repeated_tool_calls (pos 0)
    then raise value_error
    else if leb_ℤ l.timeout_seconds (pos 0)
    then raise value_error
    else if leb_ℤ l.max_parallel_tool_calls (pos 0)
    then raise value_error
    else elim (tools_valid l.per_tool_limits) [ raise e ↦ raise e | ok _ ↦ ok l ]

unfoldable pub validate_step : ExecutionLimits → ℤ → Result (Unit {0})
validate_step l step =
    if leb_ℤ step (pos 0)
    then raise value_error
    else if ltb_ℤ l.max_steps step
    then raise agent_max_steps_error
    else ok tt

unfoldable pub validate_tool_call : ExecutionLimits → ℤ → Result (Unit {0})
validate_tool_call l tool_calls =
    if ltb_ℤ tool_calls (pos 0)
    then raise value_error
    else if leb_ℤ l.max_tool_calls tool_calls
    then raise execution_limit_exceeded
    else ok tt

unfoldable pub validate_repeated_tool_call : ExecutionLimits → ℤ → Result (Unit {0})
validate_repeated_tool_call l repeated_calls =
    if ltb_ℤ repeated_calls (pos 0)
    then raise value_error
    else if leb_ℤ l.max_repeated_tool_calls repeated_calls
    then raise execution_limit_exceeded
    else ok tt

unfoldable pub validate_per_tool_call : ExecutionLimits → String → ℤ → Result (Unit {0})
validate_per_tool_call l tool_name tool_calls =
    if is_empty tool_name
    then raise value_error
    else if ltb_ℤ tool_calls (pos 0)
    then raise value_error
    else elim (lookup tool_name l.per_tool_limits) [
      | none ↦ ok tt
      | some limit ↦ if leb_ℤ limit tool_calls then raise execution_limit_exceeded else ok tt
    ]

-- `now` is `time.monotonic()`
unfoldable pub validate_timeout : ExecutionLimits → ℤ → ℤ → Result (Unit {0})
validate_timeout l now started_at =
    let elapsed = now -ℤ started_at in
    if leb_ℤ l.timeout_seconds elapsed then raise execution_limit_exceeded else ok tt

-- `max(limit - used, 0)`
abbrev left : ℤ → ℤ → ℤ
left limit used = if ltb_ℤ (limit -ℤ used) (pos 0) then pos 0 else limit -ℤ used

unfoldable pub remaining_steps : ExecutionLimits → ℤ → Result ℤ
remaining_steps l current_step =
    if ltb_ℤ current_step (pos 0) then raise value_error else ok (left l.max_steps current_step)

unfoldable pub remaining_tool_calls : ExecutionLimits → ℤ → Result ℤ
remaining_tool_calls l tool_calls =
    if ltb_ℤ tool_calls (pos 0) then raise value_error else ok (left l.max_tool_calls tool_calls)

unfoldable pub remaining_repeated_tool_calls : ExecutionLimits → ℤ → Result ℤ
remaining_repeated_tool_calls l repeated_calls =
    if ltb_ℤ repeated_calls (pos 0)
    then raise value_error
    else ok (left l.max_repeated_tool_calls repeated_calls)

unfoldable pub remaining_per_tool_calls : ExecutionLimits → String → ℤ → Result (Option ℤ)
remaining_per_tool_calls l tool_name tool_calls =
    if is_empty tool_name
    then raise value_error
    else if ltb_ℤ tool_calls (pos 0)
    then raise value_error
    else elim (lookup tool_name l.per_tool_limits) [
      | none ↦ ok none
      | some limit ↦ ok (some (left limit tool_calls))
    ]

unfoldable pub remaining_timeout : ExecutionLimits → ℤ → ℤ → ℤ
remaining_timeout l now started_at = left l.timeout_seconds (now -ℤ started_at)
