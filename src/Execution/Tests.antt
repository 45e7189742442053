-- ===== src/Execution/Tests.antt =====
-- Lives of an execution, and the theorems at them.
use agenyx.Base.{ℕ, ◌≡◌, refl, none, some, List, [], ◌∷◌, Value, pos}
use agenyx.Step.{Step, StepStatus, StepType}
use agenyx.Execution.States.{ExecutionState}
use agenyx.Execution.Graph.{◌⟶*◌}
use agenyx.Execution.Invariant.{IsValid, new-IsValid, calls-IsValid}
use agenyx.Execution.Traces.{calls-⟶*, ⟶*-completed}
use agenyx.Execution.{Execution, new, state, Call, call, calls}

abbrev sample_step : Step
sample_step = record {
  step_id = 5;
  number = pos 1;
  type = StepType.plan;
  status = StepStatus.created;
  input = Value.null;
  output = Value.null;
  error = none;
  started_at = none;
  completed_at = none;
}

abbrev born : Execution
born = new 7 100 101

-- an approval on the way, and a completion that comes too early
abbrev life : List Call
life =
    Call.start 110 111
    ∷ Call.transition 120 121 ExecutionState.inference
    ∷ Call.transition 130 131 ExecutionState.waiting_approval
    ∷ Call.complete 140 141 142
    ∷ Call.transition 150 151 ExecutionState.tool_execution
    ∷ Call.record_step sample_step
    ∷ Call.transition 160 161 ExecutionState.observing
    ∷ Call.transition 170 171 ExecutionState.inference
    ∷ Call.complete 180 181 182
    ∷ []

life_completes :
    let e = calls life born in
    (state e ≡ ExecutionState.completed) × (e.started_at ≡ some 111) × (e.completed_at ≡ some 182)
unfolding calls call new
life_completes = (refl, refl, refl)

calls-IsValid_example : IsValid (calls life born)
calls-IsValid_example = calls-IsValid life born (new-IsValid 7 100 101)

calls-⟶*_example : ExecutionState.created ⟶* ExecutionState.completed
unfolding calls call new
calls-⟶*_example = calls-⟶* life born

⟶*-completed_example : ExecutionState.waiting_approval ⟶* ExecutionState.completed
⟶*-completed_example = ⟶*-completed ExecutionState.waiting_approval refl

abbrev timed : List (Call × ℕ)
timed =
    (Call.start 110 111, 111)
    ∷ (Call.transition 120 121 ExecutionState.inference, 121)
    ∷ (Call.complete 180 181 182, 182)
    ∷ []
