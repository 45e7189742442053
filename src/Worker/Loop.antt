-- ===== src/Worker/Loop.antt =====
-- worker.py: the loop of the worker, over the tasks that it reads and those that others left behind.
use agenyx.Base.{
  ℕ, zero, suc, Bool, true, false, Option, none, some, String, List, [], ◌∷◌, lookup, string_eq,
  is_empty, ℤ, ltb_ℤ, Error, cancelled_error, ◌||◌, if◌then◌else◌, ◌==◌,
}
use agenyx.Worker.{
  Valkey, Session, World, WorkerQueue, Payload, Message, on_store, read_next, read, claim_pending,
  ensure_group,
}
use agenyx.Worker.Executor.{TaskExecutor, key, execute}
use agenyx.Runtime.Monad.{Exception, throws, Run, pure, settle, gets, try, modify, ◌>>=◌, ◌>>◌}

-- `if not execution_id`
abbrev pub given : Option String → Option String
given none = none
given (some id) = if is_empty id then none else some id

-- `parse_retry_at`
unfoldable pub parse_retry_at : TaskExecutor → Option String → Option ℤ
parse_retry_at c none = none
parse_retry_at c (some text) = if is_empty text then none else c.fromisoformat text

-- `if retry_at is not None: … if retry_at > now`
abbrev pub is_early : Option ℤ → ℤ → Bool
is_early none now = false
is_early (some retry_at) now = ltb_ℤ now retry_at

module _ (V : Valkey) (q : WorkerQueue) (c : TaskExecutor) (w : World) where
  unfoldable pub request_shutdown : Run (Session V) Unit
  request_shutdown = modify λ (s : Session V). record s { shutdown = true }

  -- `self._shutdown.is_set()`, where a signal may have come since
  unfoldable pub shutdown_is_set : Run (Session V) Bool
  unfolding read_next
  shutdown_is_set = do
    signal ← read_next V w.signals
    modify (λ (s : Session V). record s { shutdown = s.shutdown || signal })
    gets (λ (s : Session V). s.shutdown)

  -- the reads of the status after a task; what is done with them is logging
  abbrev read_retry_at : String → Option String → Run (Session V) Unit
  read_retry_at execution_id none = pure tt
  read_retry_at execution_id (some status) =
      if status == "retrying"
      then (on_store V (V.hget (key execution_id) "retry_at") >>= λ _. pure tt)
      else pure tt

  -- the two handlers
  abbrev pub of_processing : Error → Exception → Run (Session V) Unit
  of_processing cancelled_error e = settle (throws e)
  of_processing _ e = pure tt

  unfoldable pub report : String → Run (Session V) Unit
  unfolding on_store
  report execution_id = do
    status ← on_store V (V.hget (key execution_id) "status")
    read_retry_at execution_id status

  abbrev pub process_given : String → Payload → Option String → Run (Session V) Unit
  process_given message_id payload none = pure tt
  process_given message_id payload (some execution_id) =
      try (execute V q c w message_id payload >> report execution_id) λ e. of_processing e.kind e

  -- `_process`
  unfoldable pub process : Message → Run (Session V) Unit
  process (message_id, payload) =
      process_given message_id payload (given (lookup "execution_id" payload))

  -- a pending task that is not before its retry
  abbrev pub process_due : Bool → Message → Run (Session V) Unit
  process_due true message = pure tt
  process_due false message = process message

  -- `if retry_at is not None: now = utc_now()`
  abbrev pub early_now : Option ℤ → Run (Session V) Bool
  early_now none = pure false
  early_now (some retry_at) = read_next V w.utc_now >>= λ now. pure (is_early (some retry_at) now)

  abbrev pub recover_given : Message → Option String → Run (Session V) Unit
  recover_given message none = pure tt
  recover_given message (some execution_id) = do
    retry_at ← on_store V (V.hget (key execution_id) "retry_at")
    early ← early_now (parse_retry_at c retry_at)
    process_due early message

  -- the body of the loop of `_recover_pending`
  unfoldable pub recover_one : Message → Run (Session V) Unit
  recover_one message = recover_given message (given (lookup "execution_id" message.1))

  abbrev pub unless_set : Bool → Run (Session V) Unit → Run (Session V) Unit
  unless_set true m = pure tt
  unless_set false m = m

  unfoldable pub recover_all : List Message → Run (Session V) Unit
  unfolding recover_one shutdown_is_set
  recover_all [] = pure tt
  recover_all (message ∷ rest) = do
    stopped ← shutdown_is_set
    unless_set stopped (recover_one message >> recover_all rest)

  -- a failed claim leaves nothing to recover
  abbrev pub of_claiming : Error → Exception → Run (Session V) (List Message)
  of_claiming cancelled_error e = settle (throws e)
  of_claiming _ e = pure []

  -- `_recover_pending`
  unfoldable pub recover_pending : Run (Session V) Unit
  unfolding recover_all claim_pending
  recover_pending = do
    pending ← try (claim_pending V q) λ e. of_claiming e.kind e
    recover_all pending

  -- `for message_id, payload in entries`
  unfoldable pub process_entries : List Message → Run (Session V) Unit
  unfolding shutdown_is_set process
  process_entries [] = pure tt
  process_entries (message ∷ rest) = do
    stopped ← shutdown_is_set
    unless_set stopped (process message >> process_entries rest)

  -- `for _, entries in messages`
  unfoldable pub process_streams : List (String × List Message) → Run (Session V) Unit
  unfolding process_entries
  process_streams [] = pure tt
  process_streams ((_, entries) ∷ rest) = process_entries entries >> process_streams rest

  -- a failed read leaves nothing to process, and the loop goes on
  abbrev pub of_reading : Error → Exception → Run (Session V) (List (String × List Message))
  of_reading cancelled_error e = settle (throws e)
  of_reading _ e = pure []

  -- the rest of a round, unless the shutdown was requested meanwhile
  unfoldable pub round : Run (Session V) Unit
  unfolding recover_pending process_streams shutdown_is_set read
  round = do
    recover_pending
    stopped ← shutdown_is_set
    unless_set stopped
        (do messages ← try (read V q) λ e. of_reading e.kind e; process_streams messages)

  -- What a loop that is watched for `n` rounds comes to: it has left at a requested shutdown, or it
  -- is still running.
  unfoldable pub rounds : ℕ → Run (Session V) Bool
  unfolding round shutdown_is_set
  rounds zero = pure false
  rounds (suc n) = do
    stopped ← shutdown_is_set
    (if stopped then pure true else (round >> rounds n))

  -- `run`; closing the client at the end is left out
  unfoldable pub run : ℕ → Run (Session V) Bool
  unfolding rounds ensure_group
  run n = ensure_group V q w >> rounds n
