-- ===== src/Persistence/Executions.antt =====
-- persistence/in_memory.py and persistence/models.py: the stores of executions and of their results.
use agenyx.Base.{
  ℕ, ℤ, ◌≡◌, true, false, not, Option, some, String, List, Dict, lookup, insert, contains,
  lookup-insert, nat_eq, ◌==◌, Value, ok, raise, value_error, Action, raise_if, modify, ◌>>◌, arith,
  if◌then◌else◌,
}

pub record StepRecord : Type 0 where
  pub step_id : ℕ
  pub number : ℤ
  pub type : String
  pub status : String
  pub input : Value
  pub output : Value
  pub error : Option String
  pub started_at : Option ℕ
  pub completed_at : Option ℕ

pub record ExecutionRecord : Type 0 where
  pub execution_id : ℕ
  pub state : String
  pub status : String
  pub metadata : Dict String Value
  pub error : Option String
  pub error_type : Option String
  pub created_at : Option ℕ
  pub started_at : Option ℕ
  pub completed_at : Option ℕ
  pub steps : List StepRecord

pub record InMemoryExecutionStore : Type 0 where
  pub executions : Dict ℕ ExecutionRecord

unfoldable pub get : ℕ → InMemoryExecutionStore → Option ExecutionRecord
get id s = lookup id s.executions

abbrev write : ExecutionRecord → InMemoryExecutionStore → InMemoryExecutionStore
write x s = record s { executions = insert x.execution_id x s.executions }

unfoldable pub create : ExecutionRecord → Action InMemoryExecutionStore (Unit {0})
create x = do λ s. raise_if (contains x.execution_id s.executions) value_error s; modify (write x)

unfoldable pub update : ExecutionRecord → Action InMemoryExecutionStore (Unit {0})
update x = do
  λ s. raise_if (not (contains x.execution_id s.executions)) value_error s
  modify (write x)

module _ (x : ExecutionRecord) (s : InMemoryExecutionStore) where
  update_writes : contains x.execution_id s.executions ≡ true → (update x s).1 ≡ write x s
  unfolding update
  update_writes h = ground arith

  create_writes : contains x.execution_id s.executions ≡ false → (create x s).1 ≡ write x s
  unfolding create
  create_writes h = ground arith

-- Creating an execution that is stored raises ValueError and leaves the store as it was; creating
-- another one stores it, and nothing else that is stored changes. Updating is the other way round.
pub create-update_lem :
    (x : ExecutionRecord) (s : InMemoryExecutionStore) (id : ℕ)
    → (contains x.execution_id s.executions ≡ true
        → (create x s ≡ (raise value_error, s))
          × ((update x s).0 ≡ ok tt)
          × (get id (update x s).1 ≡ (if x.execution_id == id then some x else get id s)))
      × (contains x.execution_id s.executions ≡ false
          → (update x s ≡ (raise value_error, s))
            × ((create x s).0 ≡ ok tt)
            × (get id (create x s).1 ≡ (if x.execution_id == id then some x else get id s)))
unfolding create update get
create-update_lem x s id = (
  λ h. (
    ground arith,
    ground arith,
    rw (update_writes x s h) (lookup-insert id x.execution_id x s.executions),
  ),
  λ h. (
    ground arith,
    ground arith,
    rw (create_writes x s h) (lookup-insert id x.execution_id x s.executions),
  ),
)

pub record ExecutionResultRecord : Type 0 where
  pub execution_id : ℕ
  pub status : String
  pub output : Value
  pub error : Option String
  pub error_type : Option String
  pub metadata : Dict String Value
  pub created_at : Option ℕ
  pub started_at : Option ℕ
  pub completed_at : Option ℕ
  pub duration_seconds : Option ℕ

pub record InMemoryExecutionResultStore : Type 0 where
  pub results : Dict ℕ ExecutionResultRecord

unfoldable pub save :
    ExecutionResultRecord → InMemoryExecutionResultStore → InMemoryExecutionResultStore
save x s = record s { results = insert x.execution_id x s.results }

unfoldable pub get_result : ℕ → InMemoryExecutionResultStore → Option ExecutionResultRecord
get_result id s = lookup id s.results

-- Saving a result again changes nothing.
pub save-save :
    (x y : ExecutionResultRecord) (s : InMemoryExecutionResultStore) (id : ℕ)
    → x.execution_id ≡ y.execution_id
    → get_result id (save y (save x s)) ≡ get_result id (save y s)
unfolding save get_result
save-save x y s id h = ground (
  arith,
  lookup-insert id y.execution_id y (insert x.execution_id x s.results),
  lookup-insert id x.execution_id x s.results,
  lookup-insert id y.execution_id y s.results,
  h,
)
