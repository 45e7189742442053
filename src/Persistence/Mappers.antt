-- ===== src/Persistence/Mappers.antt =====
-- persistence/mappers.py: domain objects as records of the stores, and back. An enum's value is its
-- text; `updated_at` is not stored, and is a reading of the clock in what is restored.
pub mod Restored
use agenyx.Base.{
  ℕ, ℤ, Bool, true, false, Option, none, some, String, string_eq, List, [], ◌∷◌, map, Dict, lookup,
  Value, value_error, Result, ok, raise, is_empty, if◌then◌else◌,
}
use agenyx.Step.{Step, StepStatus, StepType, post_init}
use agenyx.Execution.{Execution, state}
use agenyx.Execution.States.{ExecutionState, ExecutionStatus}
use agenyx.Execution.Snapshot.{ExecutionResult}
use agenyx.Events.{AgentEvent}
use agenyx.Persistence.{ExecutionEventRecord}
use agenyx.Persistence
use agenyx.Persistence.Executions.{StepRecord, ExecutionRecord, ExecutionResultRecord}

infixl 5 ◌>>=◌
abbrev pub ◌>>=◌ : {A B : Type 0} → Result A → (A → Result B) → Result B
ok a >>= f = f a
raise e >>= f = raise e

-- `.value` of the enums
abbrev pub step_type_value : StepType → String
step_type_value StepType.plan = "plan"
step_type_value StepType.inference = "inference"
step_type_value StepType.tool_call = "tool_call"
step_type_value StepType.tool_result = "tool_result"
step_type_value StepType.observation = "observation"
step_type_value StepType.final = "final"

abbrev pub step_status_value : StepStatus → String
step_status_value StepStatus.created = "created"
step_status_value StepStatus.waiting_approval = "waiting_approval"
step_status_value StepStatus.running = "running"
step_status_value StepStatus.completed = "completed"
step_status_value StepStatus.failed = "failed"
step_status_value StepStatus.cancelled = "cancelled"

abbrev pub state_value : ExecutionState → String
state_value ExecutionState.created = "created"
state_value ExecutionState.planning = "planning"
state_value ExecutionState.inference = "inference"
state_value ExecutionState.waiting_approval = "waiting_approval"
state_value ExecutionState.tool_execution = "tool_execution"
state_value ExecutionState.observing = "observing"
state_value ExecutionState.completed = "completed"
state_value ExecutionState.failed = "failed"
state_value ExecutionState.cancelled = "cancelled"

abbrev pub status_value : ExecutionStatus → String
status_value ExecutionStatus.created = "created"
status_value ExecutionStatus.running = "running"
status_value ExecutionStatus.completed = "completed"
status_value ExecutionStatus.failed = "failed"
status_value ExecutionStatus.cancelled = "cancelled"
status_value ExecutionStatus.waiting_approval = "waiting_approval"
status_value ExecutionStatus.crashed = "crashed"
status_value ExecutionStatus.recovering = "recovering"
status_value ExecutionStatus.replaying = "replaying"

abbrev or_value_error : {A : Type 0} → Option A → Result A
or_value_error none = raise value_error
or_value_error (some a) = ok a

-- an enum, called with a text: its members by their values
unfoldable pub step_type_of : String → Result StepType
step_type_of s = or_value_error (
    lookup s (
      ("plan", StepType.plan)
      ∷ ("inference", StepType.inference)
      ∷ ("tool_call", StepType.tool_call)
      ∷ ("tool_result", StepType.tool_result)
      ∷ ("observation", StepType.observation)
      ∷ ("final", StepType.final)
      ∷ []))

unfoldable pub step_status_of : String → Result StepStatus
step_status_of s = or_value_error (
    lookup s (
      ("created", StepStatus.created)
      ∷ ("waiting_approval", StepStatus.waiting_approval)
      ∷ ("running", StepStatus.running)
      ∷ ("completed", StepStatus.completed)
      ∷ ("failed", StepStatus.failed)
      ∷ ("cancelled", StepStatus.cancelled)
      ∷ []))

unfoldable pub state_of : String → Result ExecutionState
state_of s = or_value_error (
    lookup s (
      ("created", ExecutionState.created)
      ∷ ("planning", ExecutionState.planning)
      ∷ ("inference", ExecutionState.inference)
      ∷ ("waiting_approval", ExecutionState.waiting_approval)
      ∷ ("tool_execution", ExecutionState.tool_execution)
      ∷ ("observing", ExecutionState.observing)
      ∷ ("completed", ExecutionState.completed)
      ∷ ("failed", ExecutionState.failed)
      ∷ ("cancelled", ExecutionState.cancelled)
      ∷ []))

unfoldable pub status_of : String → Result ExecutionStatus
status_of s = or_value_error (
    lookup s (
      ("created", ExecutionStatus.created)
      ∷ ("running", ExecutionStatus.running)
      ∷ ("completed", ExecutionStatus.completed)
      ∷ ("failed", ExecutionStatus.failed)
      ∷ ("cancelled", ExecutionStatus.cancelled)
      ∷ ("waiting_approval", ExecutionStatus.waiting_approval)
      ∷ ("crashed", ExecutionStatus.crashed)
      ∷ ("recovering", ExecutionStatus.recovering)
      ∷ ("replaying", ExecutionStatus.replaying)
      ∷ []))

unfoldable pub step_to_record : Step → StepRecord
step_to_record s = record {
  step_id = s.step_id;
  number = s.number;
  type = step_type_value s.type;
  status = step_status_value s.status;
  input = s.input;
  output = s.output;
  error = s.error;
  started_at = s.started_at;
  completed_at = s.completed_at;
}

unfoldable pub step_from_record : StepRecord → Result Step
unfolding step_type_of step_status_of
step_from_record r = step_type_of r.type >>= λ type. step_status_of r.status >>= λ status.
    post_init (record {
      step_id = r.step_id;
      number = r.number;
      type = type;
      status = status;
      input = r.input;
      output = r.output;
      error = r.error;
      started_at = r.started_at;
      completed_at = r.completed_at;
    })

unfoldable pub steps_from_records : List StepRecord → Result (List Step)
unfolding step_from_record
steps_from_records [] = ok []
steps_from_records (r ∷ rs) =
    step_from_record r >>= λ s. steps_from_records rs >>= λ ss. ok (s ∷ ss)

-- an execution of the model has a `created_at`, so the ValueError is not raised here
unfoldable pub execution_to_record : Execution → ExecutionRecord
unfolding step_to_record
execution_to_record e = record {
  execution_id = e.id;
  state = state_value (state e);
  status = status_value e.status;
  metadata = e.metadata;
  error = e.error;
  error_type = e.error_type;
  created_at = some e.created_at;
  started_at = e.started_at;
  completed_at = e.completed_at;
  steps = map step_to_record e.steps;
}

abbrev restored : ℕ → ExecutionRecord → ℕ → ExecutionState → ExecutionStatus → List Step → Execution
restored now r created_at state status steps = record {
  id = r.execution_id;
  status = status;
  created_at = created_at;
  started_at = r.started_at;
  updated_at = now;
  completed_at = r.completed_at;
  metadata = r.metadata;
  error = r.error;
  error_type = r.error_type;
  steps = steps;
  state_machine = record { state = state };
}

unfoldable pub execution_from_record : ℕ → ExecutionRecord → Result Execution
unfolding state_of status_of steps_from_records
execution_from_record now r = or_value_error r.created_at >>= λ created_at.
    state_of r.state >>= λ state. status_of r.status >>= λ status.
    steps_from_records r.steps >>= λ steps. ok (restored now r created_at state status steps)

unfoldable pub result_to_record : ExecutionResult → ExecutionResultRecord
result_to_record r = record {
  execution_id = r.execution_id;
  status = status_value r.status;
  output = r.output;
  error = r.error;
  error_type = r.error_type;
  metadata = r.metadata;
  created_at = r.created_at;
  started_at = r.started_at;
  completed_at = r.completed_at;
  duration_seconds = r.duration_seconds;
}

unfoldable pub result_from_record : ExecutionResultRecord → Result ExecutionResult
unfolding status_of
result_from_record r = status_of r.status >>= λ status. ok (record {
  execution_id = r.execution_id;
  status = status;
  output = r.output;
  error = r.error;
  error_type = r.error_type;
  metadata = r.metadata;
  created_at = r.created_at;
  started_at = r.started_at;
  completed_at = r.completed_at;
  duration_seconds = r.duration_seconds;
})

-- The id, the sequence and the time are given by the caller, or fresh; `uuid` reads an id from its text.
unfoldable pub event_to_record :
    (String → Option ℕ) → AgentEvent → ℤ → ℕ → ℕ → Result ExecutionEventRecord
unfolding Persistence.post_init
event_to_record uuid e sequence event_id created_at =
    or_value_error (uuid e.execution_id) >>= λ execution_id. Persistence.post_init (record {
      event_id = event_id;
      execution_id = execution_id;
      sequence = sequence;
      type = e.type;
      «data» = e.«data»;
      created_at = some created_at;
    })
