-- ===== src/Persistence/Tests.antt =====
-- Two events of one execution, and one of another between them.
use agenyx.Base.{some, Value, ℕ, ◌≡◌, refl, List, [], ◌∷◌, ◌++◌, none, pos, ok, lookup, insert}
use agenyx.Persistence.{
  ExecutionEventRecord, init, append_many, batches_valid, grouped, batch_valid, put_event,
  events_of, after, list, put_all,
}
use agenyx.Step.{Step, StepType, StepStatus}
use agenyx.Execution.{Execution}
use agenyx.Execution.States.{ExecutionState, ExecutionStatus}
use agenyx.Persistence.Mappers.{execution_to_record, execution_from_record}
use agenyx.Persistence.Mappers.Restored.{execution_from_record-to}
use agenyx.Persistence.Events.{mine, IsOrdered, append_many-list}

abbrev event : ℕ → ℕ → ExecutionEventRecord
event id sequence = record {
  event_id = 9;
  execution_id = id;
  sequence = pos sequence;
  type = "step";
  «data» = [];
  created_at = none;
}

abbrev batch : List ExecutionEventRecord
batch = event 1 1 ∷ event 2 5 ∷ event 1 2 ∷ []

init-IsOrdered : IsOrdered init
unfolding init lookup batch_valid
init-IsOrdered = record { ordered = λ id. refl }

batch_appended : (append_many batch init).0 ≡ ok tt
unfolding append_many init lookup batches_valid grouped batch_valid put_event insert
batch_appended = refl

append_many-list_example :
    IsOrdered (append_many batch init).1
    × (list 1 (pos 1) (append_many batch init).1
        ≡ ok (after (pos 1) (events_of 1 init.events) ++ after (pos 1) (mine 1 batch)))
append_many-list_example = append_many-list batch init init-IsOrdered batch_appended 1 (pos 1) refl

-- what comes after the first event is the second of that execution
second_listed : list 1 (pos 1) (append_many batch init).1 ≡ ok (event 1 2 ∷ [])
unfolding append_many init lookup batches_valid grouped batch_valid put_event insert list after
    put_all
second_listed = refl

abbrev first_step : Step
first_step = record {
  step_id = 1;
  number = pos 1;
  type = StepType.plan;
  status = StepStatus.completed;
  input = Value.null;
  output = Value.null;
  error = none;
  started_at = some 3;
  completed_at = some 4;
}

abbrev stored : Execution
stored = record {
  id = 7;
  status = ExecutionStatus.running;
  created_at = 1;
  started_at = some 2;
  updated_at = 3;
  completed_at = none;
  metadata = [];
  error = none;
  error_type = none;
  steps = first_step ∷ [];
  state_machine = record { state = ExecutionState.inference };
}

execution_from_record-to_example :
    execution_from_record 9 (execution_to_record stored) ≡ ok (record stored { updated_at = 9 })
execution_from_record-to_example = execution_from_record-to 9 stored (refl, tt)
