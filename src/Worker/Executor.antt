-- ===== src/Worker/Executor.antt =====
-- executor.py of the worker: one delivery of a task, with its success, its retry or its dead letter.
use agenyx.Base.{
  ℕ, zero, suc, ◌*◌, ◌^◌, true, false, Option, none, some, String, [], ◌∷◌, lookup, string_eq, ℤ,
  pos, negsuc, ◌+ℤ◌, ◌-ℤ◌, leb_ℤ, pos_part, Fields, Value, field?, Error, value_error, type_error,
  key_error, cancelled_error, other_error, str_of, int_of, if◌then◌else◌, Result, ok, raise,
}
use Prim.Native.Nat.{◌/◌}
use Prim.Native.String.{◌++◌ as ◌<>◌}
use agenyx.Worker.{
  Valkey, Session, World, WorkerQueue, Payload, on_store, read_next, acknowledge, dead_letter,
}
use agenyx.Runtime.Monad.{
  Exception, Attempt, returns, throws, Run, pure, throw, settle, lift, ◌>>=◌, ◌>>◌,
}

-- `TaskExecutor`, with the texts of times: ISO 8601, as Python writes and reads them
pub record TaskExecutor : Type 0 where
  pub max_attempts : ℤ
  pub retry_base_delay_seconds : ℤ
  pub retry_max_delay_seconds : ℤ
  pub isoformat : ℤ → String
  pub fromisoformat : String → Option ℤ

-- the arguments of `_update_state`
pub record StateUpdate : Type 0 where
  pub status : String
  pub answer : Option String
  pub error : Option String
  pub steps : Option String
  pub attempt : Option String
  pub worker : Option String
  pub queued_at : Option String
  pub started_at : Option String
  pub completed_at : Option String
  pub failed_at : Option String
  pub retry_at : Option String
  pub duration_ms : Option String
  pub original_message_id : Option String
  pub dead_letter_message_id : Option String

-- `if value is not None: mapping[name] = value`
abbrev pub entry : String → Option String → Payload → Payload
entry name none rest = rest
entry name (some value) rest = (name, value) ∷ rest

unfoldable pub mapping : StateUpdate → Payload
mapping u =
    ("status", u.status)
    ∷ entry "answer" u.answer (
        entry "error" u.error (
          entry "steps" u.steps (
            entry "attempt" u.attempt (
              entry "worker" u.worker (
                entry "queued_at" u.queued_at (
                  entry "started_at" u.started_at (
                    entry "completed_at" u.completed_at (
                      entry "failed_at" u.failed_at (
                        entry "retry_at" u.retry_at (
                          entry "duration_ms" u.duration_ms (
                            entry "original_message_id" u.original_message_id (
                              entry "dead_letter_message_id" u.dead_letter_message_id []))))))))))))

abbrev pub key : String → String
key execution_id = "agenyx:execution:" <> execution_id

-- the keyword arguments that a call leaves out
abbrev pub only : String → StateUpdate
only status = record {
  status = status;
  answer = none;
  error = none;
  steps = none;
  attempt = none;
  worker = none;
  queued_at = none;
  started_at = none;
  completed_at = none;
  failed_at = none;
  retry_at = none;
  duration_ms = none;
  original_message_id = none;
  dead_letter_message_id = none;
}

abbrev pub negated : ℕ → ℤ
negated zero = pos 0
negated (suc n) = negsuc n

-- microseconds in whole milliseconds, towards zero
abbrev pub in_ms : ℤ → ℤ
in_ms (pos n) = pos (n / 1000)
in_ms (negsuc n) = negated (suc n / 1000)

abbrev pub scale : ℤ → ℕ → ℤ
scale (pos n) k = pos (n * k)
scale (negsuc n) k = negated (suc n * k)

abbrev pub min_ℤ : ℤ → ℤ → ℤ
min_ℤ a b = if leb_ℤ a b then a else b

unfoldable pub retry_delay : TaskExecutor → ℤ → ℤ
retry_delay c attempt =
    min_ℤ (scale c.retry_base_delay_seconds (2 ^ pos_part (attempt -ℤ pos 1)))
      c.retry_max_delay_seconds

abbrev number_or_zero : Option ℤ → ℤ
number_or_zero none = pos 0
number_or_zero (some n) = n

-- the text of the counter, as a number
unfoldable pub attempt_of : Option String → ℤ
attempt_of none = pos 0
attempt_of (some text) = number_or_zero (int_of text)

-- how the client writes the agent's `answer`: it refuses what is not a text or a number
unfoldable pub answer_of : Option Value → Result (Option String)
answer_of none = ok none
answer_of (some Value.null) = ok none
answer_of (some (Value.str s)) = ok (some s)
answer_of (some (Value.int n)) = ok (some (str_of n))
answer_of (some _) = raise other_error

abbrev int_or_error : Option ℤ → Result (Option String)
int_or_error none = raise value_error
int_or_error (some n) = ok (some (str_of n))

-- `int(steps) if steps is not None else None`
unfoldable pub steps_of : Option Value → Result (Option String)
steps_of none = ok none
steps_of (some Value.null) = ok none
steps_of (some (Value.int n)) = ok (some (str_of n))
steps_of (some (Value.bool true)) = ok (some "1")
steps_of (some (Value.bool false)) = ok (some "0")
steps_of (some (Value.str s)) = int_or_error (int_of s)
steps_of (some _) = raise type_error

-- `payload[name]`
abbrev pub required : {S : Type 0} → Option String → Run S String
required none = throw key_error "missing field"
required (some value) = pure value

module _ (V : Valkey) (q : WorkerQueue) (c : TaskExecutor) (w : World) where
  unfoldable pub update_state : String → StateUpdate → Run (Session V) Unit
  unfolding mapping on_store
  update_state execution_id u = on_store V (V.hset (key execution_id) (mapping u))

  unfoldable pub get_attempt : String → Run (Session V) ℤ
  unfolding on_store
  get_attempt execution_id = do
    state ← on_store V (V.hget (key execution_id) "attempt")
    pure (attempt_of state)

  unfoldable pub wait_for_retry : ℤ → Run (Session V) Unit
  unfolding read_next
  wait_for_retry delay =
      if leb_ℤ delay (pos 0) then pure tt else (do outcome ← read_next V w.waits; settle outcome)

  -- the update of a task that has started
  abbrev pub running : String → ℤ → ℤ → StateUpdate
  running message_id attempt started_at = record (only "running") {
    attempt = some (str_of attempt);
    worker = some q.consumer;
    started_at = some (c.isoformat started_at);
    original_message_id = some message_id;
    error = some "";
    retry_at = some "";
    failed_at = some "";
  }

  abbrev pub completed : Option String → Option String → ℤ → ℤ → ℤ → StateUpdate
  completed answer steps attempt completed_at duration = record (only "completed") {
    answer = answer;
    error = some "";
    steps = steps;
    attempt = some (str_of attempt);
    worker = some q.consumer;
    completed_at = some (c.isoformat completed_at);
    duration_ms = some (str_of duration);
    retry_at = some "";
    failed_at = some "";
  }

  abbrev pub failed : String → ℤ → ℤ → ℤ → String → StateUpdate
  failed error attempt failed_at duration dlq_message_id = record (only "failed") {
    error = some error;
    attempt = some (str_of attempt);
    worker = some q.consumer;
    failed_at = some (c.isoformat failed_at);
    duration_ms = some (str_of duration);
    dead_letter_message_id = some dlq_message_id;
    retry_at = some "";
  }

  abbrev pub retrying : String → ℤ → ℤ → ℤ → ℤ → StateUpdate
  retrying error attempt failed_at retry_at duration = record (only "retrying") {
    error = some error;
    attempt = some (str_of attempt);
    worker = some q.consumer;
    failed_at = some (c.isoformat failed_at);
    retry_at = some (c.isoformat retry_at);
    duration_ms = some (str_of duration);
  }

  -- the last attempt has failed
  unfoldable pub give_up : String → String → String → ℤ → ℤ → String → Run (Session V) Unit
  unfolding update_state read_next dead_letter
  give_up execution_id intent message_id attempt duration error = do
    entry_id ← dead_letter V q message_id execution_id intent attempt error
    failed_at ← read_next V w.utc_now
    update_state execution_id (failed error attempt failed_at duration entry_id)

  -- another attempt is left
  unfoldable pub retry_later : String → ℤ → ℤ → String → Run (Session V) Unit
  unfolding update_state read_next wait_for_retry
  retry_later execution_id attempt duration error = do
    now ← read_next V w.utc_now
    failed_at ← read_next V w.utc_now
    update_state execution_id
        (retrying error attempt failed_at (now +ℤ scale (retry_delay c attempt) 1000000) duration)
    wait_for_retry (retry_delay c attempt)

  unfoldable pub handle_failure : String → String → String → ℤ → ℤ → String → Run (Session V) Unit
  unfolding give_up retry_later read_next
  handle_failure execution_id intent message_id attempt started_at error = do
    now ← read_next V w.utc_now
    (if leb_ℤ c.max_attempts attempt
        then give_up execution_id intent message_id attempt (in_ms (now -ℤ started_at)) error
        else retry_later execution_id attempt (in_ms (now -ℤ started_at)) error)

  -- the agent has answered
  unfoldable pub finish : String → String → ℤ → ℤ → Fields → Run (Session V) Unit
  unfolding update_state read_next acknowledge
  finish execution_id message_id attempt started_at result = do
    now ← read_next V w.utc_now
    steps ← lift (steps_of (field? "steps" result))
    completed_at ← read_next V w.utc_now
    answer ← lift (answer_of (field? "answer" result))
    update_state execution_id
        (completed answer steps attempt completed_at (in_ms (now -ℤ started_at)))
    acknowledge V q message_id

  -- `except asyncio.CancelledError`, `except Exception`, and the rest
  abbrev pub on_reply : Error → String → String → String → ℤ → ℤ → Exception → Run (Session V) Unit
  on_reply cancelled_error execution_id intent message_id attempt started_at e = settle (throws e)
  on_reply _ execution_id intent message_id attempt started_at e =
      handle_failure execution_id intent message_id attempt started_at e.text

  abbrev pub after_run : Attempt Fields → String → String → String → ℤ → ℤ → Run (Session V) Unit
  after_run (returns result) execution_id intent message_id attempt started_at =
      finish execution_id message_id attempt started_at result
  after_run (throws e) execution_id intent message_id attempt started_at =
      on_reply e.kind execution_id intent message_id attempt started_at e

  unfoldable pub execute : String → Payload → Run (Session V) Unit
  unfolding get_attempt update_state read_next
  execute message_id payload = do
    execution_id ← required (lookup "execution_id" payload)
    intent ← required (lookup "intent" payload)
    previous ← get_attempt execution_id
    started_at ← read_next V w.utc_now
    update_state execution_id (running message_id (previous +ℤ pos 1) started_at)
    reply ← read_next V w.agent
    after_run reply execution_id intent message_id (previous +ℤ pos 1) started_at
