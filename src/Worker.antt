-- ===== src/Worker.antt =====
-- The worker service, worker/app: it takes tasks from a Valkey stream, has the agent run them, and
-- retries what fails. Here: the client of Valkey that it uses, and queue.py.
pub mod Executor
pub mod Loop
mod Memory
mod Ensures
mod Commands
mod Lawful
mod Safe
mod Loss
mod Views
mod Attempts
mod Rounds
mod Tests
use agenyx.Base.{
  ℕ, suc, Bool, true, false, Option, none, some, String, List, [], ◌∷◌, Dict, ℤ, pos, negsuc, ltb_ℤ,
  pos_part, Fields, Error, value_error, valkey_response_error, Result, ok, raise, str_of, ◌||◌,
  if◌then◌else◌,
}
use agenyx.Runtime.Monad.{Exception, Attempt, returns, throws, Run, pure, settle, try, ◌>>=◌, ◌>>◌}

abbrev pub Payload : Type 0
Payload = Dict String String

-- a message of a stream: its id and its fields
abbrev pub Message : Type 0
Message = String × Payload

-- The commands of the client that the worker calls, over an unknown state of the server; each may
-- raise. `xautoclaim` gives the messages that it claimed, or nothing for an empty answer.
pub record Valkey : Type 1 where
  pub State : Type 0
  pub hget : String → String → Run State (Option String)
  pub hset : String → Payload → Run State Unit
  pub xadd : String → Payload → Run State String
  pub xack : String → String → String → Run State Unit
  pub xgroup_create : String → String → Run State Unit
  pub xreadgroup : String → String → String → Run State (List (String × List Message))
  pub xautoclaim : String → String → String → ℕ → ℕ → Run State (Option (List Message))

-- The state of one worker process: the server's, the number of the readings of its environment, and
-- whether its shutdown event is set.
pub record Session (V : Valkey) : Type 0 where
  pub store : V.State
  pub ticks : ℕ
  pub shutdown : Bool

-- What the environment answers, by the number of the reading: the clock, in microseconds, the
-- agent service, whether a signal has asked for the shutdown, how waiting ends, and whether a text
-- of an exception has BUSYGROUP in it.
pub record World : Type 0 where
  pub utc_now : ℕ → ℤ
  pub agent : ℕ → Attempt Fields
  pub signals : ℕ → Bool
  pub waits : ℕ → Attempt Unit
  pub busy_group : String → Bool

pub record WorkerQueue : Type 0 where
  pub stream : String
  pub group : String
  pub consumer : String
  pub dead_letter_stream : String
  pub pending_idle_ms : ℕ
  pub pending_batch_size : ℕ

-- `__init__`, before it makes the client
unfoldable pub init : String → String → String → String → ℤ → ℤ → Result WorkerQueue
init stream group consumer dead_letter_stream pending_idle_ms pending_batch_size =
    if ltb_ℤ pending_idle_ms (pos 1)
    then raise value_error
    else if ltb_ℤ pending_batch_size (pos 1)
    then raise value_error
    else ok (record {
      stream = stream;
      group = group;
      consumer = consumer;
      dead_letter_stream = dead_letter_stream;
      pending_idle_ms = pos_part pending_idle_ms;
      pending_batch_size = pos_part pending_batch_size;
    })

module _ (V : Valkey) where
  -- a command of the client
  unfoldable pub on_store : {A : Type 0} → Run V.State A → Run (Session V) A
  on_store command s = let (r, store) = command s.store in (r, record s { store = store })

  -- one reading of the environment
  unfoldable pub read_next : {A : Type 0} → (ℕ → A) → Run (Session V) A
  read_next f s = (returns (f s.ticks), record s { ticks = suc s.ticks })

  module _ (q : WorkerQueue) where
    -- `except valkey.ResponseError`
    abbrev of_group : World → Error → Exception → Run (Session V) Unit
    of_group w valkey_response_error e = if w.busy_group e.text then pure tt else settle (throws e)
    of_group w _ e = settle (throws e)

    unfoldable pub ensure_group : World → Run (Session V) Unit
    unfolding on_store
    ensure_group w = try (on_store (V.xgroup_create q.stream q.group)) λ e. of_group w e.kind e

    unfoldable pub read : Run (Session V) (List (String × List Message))
    unfolding on_store
    read = on_store (V.xreadgroup q.stream q.group q.consumer)

    abbrev claimed : Option (List Message) → List Message
    claimed none = []
    claimed (some messages) = messages

    unfoldable pub claim_pending : Run (Session V) (List Message)
    unfolding on_store
    claim_pending = do
      result ←
          on_store (V.xautoclaim q.stream q.group q.consumer q.pending_idle_ms q.pending_batch_size)
      pure (claimed result)

    unfoldable pub acknowledge : String → Run (Session V) Unit
    unfolding on_store
    acknowledge message_id = on_store (V.xack q.stream q.group message_id)

    -- the entry of the dead-letter stream
    abbrev pub dead_entry : String → String → String → ℤ → String → Payload
    dead_entry message_id execution_id intent attempt error =
        ("execution_id", execution_id)
        ∷ ("intent", intent)
        ∷ ("attempt", str_of attempt)
        ∷ ("original_message_id", message_id)
        ∷ ("error", error)
        ∷ ("consumer", q.consumer)
        ∷ []

    unfoldable pub dead_letter : String → String → String → ℤ → String → Run (Session V) String
    unfolding on_store acknowledge
    dead_letter message_id execution_id intent attempt error = do
      entry_id ←
          on_store
            (V.xadd q.dead_letter_stream (dead_entry message_id execution_id intent attempt error))
      acknowledge message_id
      pure entry_id
