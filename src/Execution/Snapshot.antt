-- ===== src/Execution/Snapshot.antt =====
-- domain/result.py: the snapshot that is returned when an execution finishes.
use agenyx.Base.{ℕ, ◌≡◌, ◌↔◌, Bool, true, false, Option, String, Dict, Value, arith, List}
use agenyx.Execution.States.{ExecutionState, ExecutionStatus}
use agenyx.Execution.{Execution, state, duration, status_of, Call, calls}
use agenyx.Execution.Invariant.{IsValid, calls-IsValid}

pub record ExecutionResult : Type 0 where
  pub execution_id : ℕ
  pub status : ExecutionStatus
  pub output : Value
  pub error : Option String
  pub error_type : Option String
  pub metadata : Dict String Value
  pub created_at : Option ℕ
  pub started_at : Option ℕ
  pub completed_at : Option ℕ
  pub duration_seconds : Option ℕ

unfoldable pub from_execution : Value → Execution → ExecutionResult
from_execution output e = record {
  execution_id = e.id;
  status = e.status;
  output = output;
  error = e.error;
  error_type = e.error_type;
  metadata = e.metadata;
  created_at = Option.some e.created_at;
  started_at = e.started_at;
  completed_at = e.completed_at;
  duration_seconds = duration e;
}

unfoldable pub succeeded : ExecutionResult → Bool
succeeded r = elim r.status [ ExecutionStatus.completed ↦ true | _ ↦ false ]

unfoldable pub failed : ExecutionResult → Bool
failed r = elim r.status [ ExecutionStatus.failed ↦ true | _ ↦ false ]

unfoldable pub cancelled : ExecutionResult → Bool
cancelled r = elim r.status [ ExecutionStatus.cancelled ↦ true | _ ↦ false ]

flags_of :
    (s : ExecutionState) (t : ExecutionStatus)
    → t ≡ status_of s
    → (((elim t [ ExecutionStatus.completed ↦ true | _ ↦ false ]) ≡ true)
        ↔ (s ≡ ExecutionState.completed))
      × (((elim t [ ExecutionStatus.failed ↦ true | _ ↦ false ]) ≡ true)
          ↔ (s ≡ ExecutionState.failed))
      × (((elim t [ ExecutionStatus.cancelled ↦ true | _ ↦ false ]) ≡ true)
          ↔ (s ≡ ExecutionState.cancelled))
unfolding status_of
flags_of s t h = (
  (λ k. ground arith, λ k. ground arith),
  (λ k. ground arith, λ k. ground arith),
  (λ k. ground arith, λ k. ground arith),
)

flags :
    (output : Value) (e : Execution)
    → IsValid e
    → let r = from_execution output e in
      ((succeeded r ≡ true) ↔ (state e ≡ ExecutionState.completed))
      × ((failed r ≡ true) ↔ (state e ≡ ExecutionState.failed))
      × ((cancelled r ≡ true) ↔ (state e ≡ ExecutionState.cancelled))
unfolding from_execution succeeded failed cancelled
flags output e v = flags_of (state e) e.status v.synced

-- The legacy status in a result tells the authoritative state of a valid execution, after any
-- calls: the three flags hold exactly in the three final states.
pub from_execution-calls :
    (cs : List Call) (output : Value) (e : Execution)
    → IsValid e
    → let r = from_execution output (calls cs e) in
      ((succeeded r ≡ true) ↔ (state (calls cs e) ≡ ExecutionState.completed))
      × ((failed r ≡ true) ↔ (state (calls cs e) ≡ ExecutionState.failed))
      × ((cancelled r ≡ true) ↔ (state (calls cs e) ≡ ExecutionState.cancelled))
from_execution-calls cs output e v = flags output (calls cs e) (calls-IsValid cs e v)
