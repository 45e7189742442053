-- ===== src/Persistence.antt =====
-- persistence/in_memory.py and the events of persistence/models.py: the append-only store of the events
-- of executions.
pub mod Executions
pub mod Mappers
mod Events
mod Tests
use agenyx.Base.{
  ℕ, ◌≡◌, Bool, true, false, Option, none, some, String, is_empty, List, [], ◌∷◌, ◌++◌, Dict,
  lookup, insert, contains, nat_eq, Value, ℤ, pos, ltb_ℤ, leb_ℤ, Result, ok, raise, value_error,
  Action, raise_if, modify, ◌>>=◌, ◌>>◌, if◌then◌else◌,
}

pub record ExecutionEventRecord : Type 0 where
  pub event_id : ℕ
  pub execution_id : ℕ
  pub sequence : ℤ
  pub type : String
  pub «data» : Dict String Value
  pub created_at : Option ℕ

unfoldable pub post_init : ExecutionEventRecord → Result ExecutionEventRecord
post_init e =
    if ltb_ℤ e.sequence (pos 1)
    then raise value_error
    else if is_empty e.type
    then raise value_error
    else ok e

pub record InMemoryExecutionEventStore : Type 0 where
  pub events : Dict ℕ (List ExecutionEventRecord)

unfoldable pub init : InMemoryExecutionEventStore
init = record { events = [] }

abbrev or_empty : Option (List ExecutionEventRecord) → List ExecutionEventRecord
or_empty none = []
or_empty (some l) = l

-- `self._events.get(execution_id, [])`
abbrev pub events_of : ℕ → Dict ℕ (List ExecutionEventRecord) → List ExecutionEventRecord
events_of id d = or_empty (lookup id d)

-- the sequence that the next one has to exceed, which for no events is `first`
abbrev pub last_sequence : ℤ → List ExecutionEventRecord → ℤ
last_sequence first [] = first
last_sequence first (e ∷ l) = last_sequence e.sequence l

-- `if events: … if event.sequence <= last_sequence`
abbrev pub out_of_order : ExecutionEventRecord → List ExecutionEventRecord → Bool
out_of_order event [] = false
out_of_order event (e ∷ l) = leb_ℤ event.sequence (last_sequence e.sequence l)

-- `self._events.setdefault(event.execution_id, []).append(event)`
unfoldable pub put_event :
    ExecutionEventRecord → Dict ℕ (List ExecutionEventRecord) → Dict ℕ (List ExecutionEventRecord)
put_event event d = insert event.execution_id (events_of event.execution_id d ++ event ∷ []) d

unfoldable pub append : ExecutionEventRecord → Action InMemoryExecutionEventStore (Unit {0})
unfolding put_event
append event = do
  λ s. raise_if (out_of_order event (events_of event.execution_id s.events)) value_error s
  modify (λ (s : InMemoryExecutionEventStore). record s { events = put_event event s.events })

-- `grouped`
unfoldable pub grouped :
    List ExecutionEventRecord
    → Dict ℕ (List ExecutionEventRecord)
    → Dict ℕ (List ExecutionEventRecord)
grouped [] groups = groups
grouped (event ∷ rest) groups = grouped rest (put_event event groups)

-- the loop over one batch
unfoldable pub batch_valid : ℤ → List ExecutionEventRecord → Bool
batch_valid previous_sequence [] = true
batch_valid previous_sequence (event ∷ rest) =
    let others = batch_valid event.sequence rest in
    if leb_ℤ event.sequence previous_sequence then false else others

-- the loop over `grouped.items()`
unfoldable pub batches_valid :
    Dict ℕ (List ExecutionEventRecord) → Dict ℕ (List ExecutionEventRecord) → Bool
batches_valid stored [] = true
batches_valid stored ((id, batch) ∷ rest) =
    let others = batches_valid stored rest in
    if batch_valid (last_sequence (pos 0) (events_of id stored)) batch then others else false

-- the loop that appends
unfoldable pub put_all :
    List ExecutionEventRecord
    → Dict ℕ (List ExecutionEventRecord)
    → Dict ℕ (List ExecutionEventRecord)
put_all [] d = d
put_all (event ∷ rest) d = put_all rest (put_event event d)

unfoldable pub append_many :
    List ExecutionEventRecord → Action InMemoryExecutionEventStore (Unit {0})
unfolding grouped
append_many [] s = (ok tt, s)
append_many (event ∷ rest) s =
    if batches_valid s.events (grouped (event ∷ rest) [])
    then (ok tt, record s { events = put_all (event ∷ rest) s.events })
    else (raise value_error, s)

-- `[event for event in events if event.sequence > after_sequence]`
unfoldable pub after : ℤ → List ExecutionEventRecord → List ExecutionEventRecord
after n [] = []
after n (event ∷ rest) =
    let others = after n rest in if ltb_ℤ n event.sequence then event ∷ others else others

unfoldable pub list : ℕ → ℤ → InMemoryExecutionEventStore → Result (List ExecutionEventRecord)
list execution_id after_sequence s =
    if ltb_ℤ after_sequence (pos 0)
    then raise value_error
    else ok (after after_sequence (events_of execution_id s.events))
