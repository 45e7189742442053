-- ===== src/Step/Tests.antt =====
-- Lives of a step, and the theorems at them.
use agenyx.Base.{
  ◌≡◌, refl, ◌↔◌, false, none, some, List, [], ◌∷◌, arith, ok, Value, pos, invalid_state_transition,
  is_empty,
}
use agenyx.Step.{
  Step, StepStatus, StepType, Call, start, complete, wait_approval, invoke, invoke_all,
  mark_completed, mark_failed, duration, is_terminal,
}
use agenyx.Step.Laws.{
  IsValid, invoke_all-IsValid, invoke-raise_unchanged, mark_completed_iff, mark_failed_iff,
}

abbrev fresh_step : Step
fresh_step = record {
  step_id = 9;
  number = pos 2;
  type = StepType.tool_call;
  status = StepStatus.created;
  input = Value.null;
  output = Value.null;
  error = none;
  started_at = none;
  completed_at = none;
}

fresh_step-IsValid : IsValid fresh_step
fresh_step-IsValid = ground arith

-- the second start changes nothing; the third call is refused
abbrev approved : List Call
approved =
    wait_approval ∷ start 10 ∷ start 11 ∷ wait_approval ∷ complete 25 (Value.int (pos 1)) ∷ []

approved_lasts :
    (duration (invoke_all approved fresh_step) ≡ some 15)
    × ((invoke_all approved fresh_step).status ≡ StepStatus.completed)
unfolding invoke_all invoke duration
approved_lasts = (refl, refl)

invoke_all-IsValid_example : IsValid (invoke_all approved fresh_step)
invoke_all-IsValid_example = invoke_all-IsValid approved fresh_step fresh_step-IsValid

invoke-raise_unchanged_example : (invoke (complete 4 Value.null) fresh_step).1 ≡ fresh_step
unfolding invoke
invoke-raise_unchanged_example =
    invoke-raise_unchanged (complete 4 Value.null) fresh_step {e = invalid_state_transition} refl

abbrev busy_step : Step
busy_step = record fresh_step { status = StepStatus.running; started_at = some 10 }

busy_step-IsValid : IsValid busy_step
busy_step-IsValid = ground arith

mark_completed_iff_example :
    ((mark_completed 25 Value.null busy_step).0 ≡ ok tt) ↔ (busy_step.status ≡ StepStatus.running)
mark_completed_iff_example = mark_completed_iff 25 Value.null busy_step

mark_failed_iff_example :
    ((mark_failed 25 "boom" busy_step).0 ≡ ok tt)
    ↔ ((is_empty "boom" ≡ false) × (is_terminal busy_step.status ≡ false))
mark_failed_iff_example = mark_failed_iff 25 "boom" busy_step
