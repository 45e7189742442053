-- ===== src/Persistence/Mappers/Restored.antt =====
-- What is stored is restored: see persistence/mappers.py.
use agenyx.Base.{ℕ, pos, ◌≡◌, refl, false, List, [], ◌∷◌, map, lookup, string_eq, ok, All, ltb_ℤ}
use agenyx.Step.{Step, StepStatus, StepType, post_init}
use agenyx.Execution.{Execution}
use agenyx.Execution.States.{ExecutionState, ExecutionStatus}
use agenyx.Execution.Snapshot.{ExecutionResult}
use agenyx.Persistence.Mappers.{
  step_type_value, step_status_value, state_value, status_value, step_type_of, step_status_of,
  state_of, status_of, step_to_record, step_from_record, steps_from_records, execution_to_record,
  execution_from_record, result_to_record, result_from_record,
}

step_type_of-value : (t : StepType) → step_type_of (step_type_value t) ≡ ok t
unfolding step_type_of lookup
step_type_of-value StepType.plan = refl
step_type_of-value StepType.inference = refl
step_type_of-value StepType.tool_call = refl
step_type_of-value StepType.tool_result = refl
step_type_of-value StepType.observation = refl
step_type_of-value StepType.final = refl

step_status_of-value : (t : StepStatus) → step_status_of (step_status_value t) ≡ ok t
unfolding step_status_of lookup
step_status_of-value StepStatus.created = refl
step_status_of-value StepStatus.waiting_approval = refl
step_status_of-value StepStatus.running = refl
step_status_of-value StepStatus.completed = refl
step_status_of-value StepStatus.failed = refl
step_status_of-value StepStatus.cancelled = refl

state_of-value : (t : ExecutionState) → state_of (state_value t) ≡ ok t
unfolding state_of lookup
state_of-value ExecutionState.created = refl
state_of-value ExecutionState.planning = refl
state_of-value ExecutionState.inference = refl
state_of-value ExecutionState.waiting_approval = refl
state_of-value ExecutionState.tool_execution = refl
state_of-value ExecutionState.observing = refl
state_of-value ExecutionState.completed = refl
state_of-value ExecutionState.failed = refl
state_of-value ExecutionState.cancelled = refl

status_of-value : (t : ExecutionStatus) → status_of (status_value t) ≡ ok t
unfolding status_of lookup
status_of-value ExecutionStatus.created = refl
status_of-value ExecutionStatus.running = refl
status_of-value ExecutionStatus.completed = refl
status_of-value ExecutionStatus.failed = refl
status_of-value ExecutionStatus.cancelled = refl
status_of-value ExecutionStatus.waiting_approval = refl
status_of-value ExecutionStatus.crashed = refl
status_of-value ExecutionStatus.recovering = refl
status_of-value ExecutionStatus.replaying = refl

-- a number that the constructor of steps accepts
abbrev pub IsNumbered : Step → Type 0
IsNumbered s = ltb_ℤ s.number (pos 1) ≡ false

step_from_record-to : (s : Step) → IsNumbered s → step_from_record (step_to_record s) ≡ ok s
unfolding step_from_record step_to_record post_init
step_from_record-to s h = rw (step_type_of-value s.type, step_status_of-value s.status) (rw h refl)

steps_from_records-to :
    (ss : List Step) → All IsNumbered ss → steps_from_records (map step_to_record ss) ≡ ok ss
unfolding steps_from_records
steps_from_records-to [] h = refl
steps_from_records-to (s ∷ ss) (h, k) =
    rw (step_from_record-to s h, steps_from_records-to ss k) refl

-- An execution whose steps are numbered from 1 on is restored from its record as it was, but for
-- `updated_at`, which is the time of the restoring.
pub execution_from_record-to :
    (now : ℕ) (e : Execution)
    → All IsNumbered e.steps
    → execution_from_record now (execution_to_record e) ≡ ok (record e { updated_at = now })
unfolding execution_from_record execution_to_record
execution_from_record-to now e h =
    rw
      (
        state_of-value e.state_machine.state,
        status_of-value e.status,
        steps_from_records-to e.steps h,
      )
      refl

pub result_from_record-to : (r : ExecutionResult) → result_from_record (result_to_record r) ≡ ok r
unfolding result_from_record result_to_record
result_from_record-to r = rw (status_of-value r.status) refl
