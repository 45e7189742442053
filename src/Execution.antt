-- ===== src/Execution.antt =====
-- domain/execution.py: the lifecycle of one agent execution. Each `utc_now()` of a method is an
-- argument of it, in microseconds and in the order of the calls.
pub mod States
pub mod StateMachine
pub mod Graph
pub mod Invariant
mod Traces
mod Times
pub mod Snapshot
mod Tests
use agenyx.Base.{
  ℕ, ◌-◌, Bool, true, false, not, Option, none, some, is_some, String, List, [], ◌∷◌, ◌++◌, Dict,
  Value, Error, value_error, runtime_error, Result, ok, raise, Action, pure, throw, ◌>>=◌, ◌>>◌,
  raise_if, modify, if◌then◌else◌, is_empty,
}
use agenyx.Step.{Step}
use States.{ExecutionState, ExecutionStatus, is_final}
use StateMachine.{ExecutionStateMachine}

pub record Execution : Type 0 where
  pub id : ℕ
  pub status : ExecutionStatus
  pub created_at : ℕ
  pub started_at : Option ℕ
  pub updated_at : ℕ
  pub completed_at : Option ℕ
  pub metadata : Dict String Value
  pub error : Option String
  pub error_type : Option String
  pub steps : List Step
  pub state_machine : ExecutionStateMachine

-- `Execution()`: a fresh id, and two readings of the clock.
unfoldable pub new : ℕ → ℕ → ℕ → Execution
new id created updated = record {
  id = id;
  status = ExecutionStatus.created;
  created_at = created;
  started_at = none;
  updated_at = updated;
  completed_at = none;
  metadata = [];
  error = none;
  error_type = none;
  steps = [];
  state_machine = record { state = ExecutionState.created };
}

-- the property `state`
abbrev pub state : Execution → ExecutionState
state e = e.state_machine.state

-- a call of a method of the state machine
abbrev on_machine : {A : Type 0} → Action ExecutionStateMachine A → Action Execution A
on_machine m e = let (r, s) = m e.state_machine in (r, record e { state_machine = s })

-- the table in `_sync_status`
unfoldable pub status_of : ExecutionState → ExecutionStatus
status_of ExecutionState.created = ExecutionStatus.created
status_of ExecutionState.completed = ExecutionStatus.completed
status_of ExecutionState.failed = ExecutionStatus.failed
status_of ExecutionState.cancelled = ExecutionStatus.cancelled
status_of ExecutionState.planning = ExecutionStatus.running
status_of ExecutionState.inference = ExecutionStatus.running
status_of ExecutionState.waiting_approval = ExecutionStatus.running
status_of ExecutionState.tool_execution = ExecutionStatus.running
status_of ExecutionState.observing = ExecutionStatus.running

-- `_sync_status`
sync_status : Execution → Execution
unfolding status_of
sync_status e = record e { status = status_of (state e) }

-- `_touch`
touch : ℕ → Execution → Execution
touch now e = record e { updated_at = now }

-- `if x is None: x = now`
abbrev once : ℕ → Option ℕ → Option ℕ
once now none = some now
once now (some t) = some t

-- `_mark_started`
stamp_started : ℕ → Execution → Execution
stamp_started now e = record e { started_at = once now e.started_at }

-- `_mark_completed`, `_mark_failed_state` and `_mark_cancelled_state`
stamp_completed : ℕ → Execution → Execution
stamp_completed now e = record e { completed_at = once now e.completed_at }

-- the branches at the end of `transition_to`
stamp : ExecutionState → ℕ → Execution → Execution
unfolding stamp_started stamp_completed
stamp ExecutionState.planning now e = stamp_started now e
stamp ExecutionState.completed now e = stamp_completed now e
stamp ExecutionState.failed now e = stamp_completed now e
stamp ExecutionState.cancelled now e = stamp_completed now e
stamp _ now e = e

unfoldable pub transition_to : ℕ → ℕ → ExecutionState → Action Execution (Unit {0})
unfolding sync_status touch stamp StateMachine.transition_to
transition_to touched stamped target = do
  on_machine (StateMachine.transition_to target)
  modify sync_status
  modify (touch touched)
  modify (stamp target stamped)

abbrev start_in : ExecutionState → ℕ → ℕ → Action Execution (Unit {0})
start_in ExecutionState.created first second = transition_to first second ExecutionState.planning
start_in ExecutionState.completed _ _ = throw runtime_error
start_in ExecutionState.failed _ _ = throw runtime_error
start_in ExecutionState.cancelled _ _ = throw runtime_error
start_in _ first second =
    λ e. (ok tt, if is_some e.started_at then e else touch second (stamp_started first e))

unfoldable pub mark_started : ℕ → ℕ → Action Execution (Unit {0})
unfolding touch stamp_started transition_to
mark_started first second e = start_in (state e) first second e

abbrev bridge_in : ExecutionState → ℕ → Action Execution (Unit {0})
bridge_in ExecutionState.planning bridged = do
  on_machine (StateMachine.transition_to ExecutionState.inference)
  modify sync_status
  modify (touch bridged)
bridge_in _ bridged = pure tt

abbrev complete_in : ExecutionState → ℕ → ℕ → Action Execution (Unit {0})
complete_in ExecutionState.inference touched stamped =
    transition_to touched stamped ExecutionState.completed
complete_in ExecutionState.completed _ _ = pure tt
complete_in _ _ _ = throw runtime_error

unfoldable pub mark_completed : ℕ → ℕ → ℕ → Action Execution (Unit {0})
unfolding sync_status touch transition_to StateMachine.transition_to
mark_completed bridged touched stamped = do
  λ e. bridge_in (state e) bridged e
  λ e. complete_in (state e) touched stamped e

unfoldable pub mark_failed : ℕ → ℕ → String → Option String → Action Execution (Unit {0})
unfolding transition_to
mark_failed touched stamped error error_type = do
  raise_if (is_empty error) value_error
  λ e. raise_if (is_final (state e)) runtime_error e
  modify (λ (e : Execution). record e { error = some error; error_type = error_type })
  transition_to touched stamped ExecutionState.failed

abbrev cancel_in : ExecutionState → ℕ → ℕ → Action Execution (Unit {0})
cancel_in ExecutionState.cancelled _ _ = pure tt
cancel_in ExecutionState.completed _ _ = throw runtime_error
cancel_in ExecutionState.failed _ _ = throw runtime_error
cancel_in _ touched stamped = transition_to touched stamped ExecutionState.cancelled

unfoldable pub mark_cancelled : ℕ → ℕ → Action Execution (Unit {0})
unfolding transition_to
mark_cancelled touched stamped e = cancel_in (state e) touched stamped e

unfoldable pub add_step : Step → Action Execution (Unit {0})
add_step step = modify (λ (e : Execution). record e { steps = e.steps ++ step ∷ [] })

-- `duration_seconds`, in microseconds: `max(0, completed_at - started_at)`
unfoldable pub duration : Execution → Option ℕ
duration e = elim e.started_at [
  | none ↦ none
  | some t ↦ elim e.completed_at [ none ↦ none | some u ↦ some (u - t) ]
]

-- A call of one of the methods that change an execution, with its readings of the clock.
pub data Call : Type 0 where
  transition : ℕ → ℕ → ExecutionState → Call
  start : ℕ → ℕ → Call
  complete : ℕ → ℕ → ℕ → Call
  fail : ℕ → ℕ → String → Option String → Call
  cancel : ℕ → ℕ → Call
  record_step : Step → Call

unfoldable pub call : Call → Action Execution (Unit {0})
unfolding transition_to mark_started mark_completed mark_failed mark_cancelled add_step
call (transition a b target) = transition_to a b target
call (start a b) = mark_started a b
call (complete a b c) = mark_completed a b c
call (fail a b error error_type) = mark_failed a b error error_type
call (cancel a b) = mark_cancelled a b
call (record_step step) = add_step step

-- Calls in a row by a caller that catches what they raise.
unfoldable pub calls : List Call → Execution → Execution
calls [] e = e
calls (c ∷ cs) e = calls cs (call c e).1
