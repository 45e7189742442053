-- ===== src/Runtime/Lifecycle.antt =====
-- `_create_execution`, `_run_execution`, `cancel`, `is_active` and `get_result` of runtime.py: the frame
-- around `_execute` that brings every execution to its end.
use agenyx.Base.{
  ℕ, Bool, true, false, Option, none, some, String, string_eq, [], insert, Value, Error,
  execution_cancelled, cancelled_error, if◌then◌else◌,
}
use agenyx.Execution.{Execution, state, new}
use agenyx.Execution
use agenyx.Execution.States.{ExecutionState, is_final}
use agenyx.Execution.Snapshot.{ExecutionResult, from_execution}
use agenyx.Context.{add_error}
use agenyx.Runtime.{
  Runtime, World, Config, execution_started, execution_completed, execution_failed,
  execution_was_cancelled, publish, on_execution, on_context, cancel_token, read,
  check_cancellation, persist_execution, transition_to,
}
use agenyx.Runtime.Monad.{
  Exception, throws, Run, pure, settle, gets, modify, try, finally, ◌>>=◌, ◌>>◌,
}
use agenyx.Runtime.Loop.{execute}

-- `_create_execution`: the execution is registered in both registries, with a stream and a token
unfoldable pub create_execution : ℕ → ℕ → ℕ → String → String → Runtime
create_execution id created updated session_id task = record {
  execution = new id created updated;
  context = record {
    messages = [];
    current_plan = none;
    current_step = 0;
    tool_calls = [];
    observations = [];
    errors = [];
    metadata = insert "task" (Value.str task) (insert "session_id" (Value.str session_id) []);
  };
  cancelled = false;
  ticks = 0;
  stream = [];
  streaming = true;
  active = true;
  result = none;
  repeated_tool_calls = [];
  tool_call_counts = [];
}

-- `record.result = ExecutionResult.from_execution(…)`
unfoldable pub keep_result : Value → Run Runtime Unit
keep_result output =
    modify λ (s : Runtime). record s { result = some (from_execution output s.execution) }

-- the `finally` block: the stream is closed, and the execution is no longer active
unfoldable pub clean_up : Runtime → Runtime
clean_up s = record s { streaming = false; active = false }

module _ (w : World) where
  abbrev pub unless_final : Bool → Run Runtime Unit → Run Runtime Unit
  unless_final true m = pure tt
  unless_final false m = m

  -- `execution.mark_failed(error=…)`
  unfoldable pub mark_failed : String → Run Runtime Unit
  mark_failed text = do
    touched ← read w.utc_now
    stamped ← read w.utc_now
    on_execution (Execution.mark_failed touched stamped text (some "Exception"))

  -- `except ExecutionCancelled`
  unfoldable pub on_cancelled_execution : String → Run Runtime (Option String)
  on_cancelled_execution text = do
    on_context (add_error text)
    now ← gets (λ (s : Runtime). state s.execution)
    unless_final (is_final now) (transition_to w ExecutionState.cancelled >> persist_execution w)
    publish execution_was_cancelled
    keep_result Value.null
    pure none

  -- `except asyncio.CancelledError`
  unfoldable pub on_cancelled_task : Run Runtime (Option String)
  on_cancelled_task = do
    cancel_token
    on_context (add_error "Agent execution was cancelled")
    now ← gets (λ (s : Runtime). state s.execution)
    unless_final (is_final now) (transition_to w ExecutionState.cancelled)
    publish execution_was_cancelled
    keep_result Value.null
    pure none

  -- `except Exception`, which raises again
  unfoldable pub on_failure : Exception → Run Runtime (Option String)
  on_failure e = do
    now ← gets (λ (s : Runtime). state s.execution)
    unless_final (is_final now) (mark_failed e.text >> persist_execution w)
    on_context (add_error e.text)
    publish execution_failed
    keep_result Value.null
    settle (throws e)

  -- the end of the `try`, once there is an output
  unfoldable pub conclude : String → Run Runtime (Option String)
  conclude output = do
    transition_to w ExecutionState.completed
    persist_execution w
    keep_result (Value.str output)
    publish execution_completed
    pure (some output)

  abbrev pub handlers : Error → Exception → Run Runtime (Option String)
  handlers execution_cancelled e = on_cancelled_execution e.text
  handlers cancelled_error e = on_cancelled_task
  handlers _ e = on_failure e

  module _ (c : Config) where
    unfoldable pub run_body : String → String → Run Runtime (Option String)
    run_body intent task = do
      check_cancellation w
      transition_to w ExecutionState.planning
      persist_execution w
      output ← execute w c intent task
      check_cancellation w
      conclude output

    -- the `try` of `_run_execution`, with its handlers and its `finally`
    unfoldable pub run_tried : String → String → Run Runtime (Option String)
    run_tried intent task = finally (try (run_body intent task) (λ e. handlers e.kind e)) clean_up

    -- `_run_execution`; its answer is the output, if the execution completed
    unfoldable pub run_execution : String → String → Run Runtime (Option String)
    run_execution intent task = do
      persist_execution w
      publish execution_started
      run_tried intent task

-- `cancel`: whether the execution was active; the cancellation of the task is in the World.
unfoldable pub cancel : Runtime → Bool × Runtime
cancel s = if s.active then (true, record s { cancelled = true }) else (false, s)

unfoldable pub is_active : Runtime → Bool
is_active s = s.active

unfoldable pub get_result : Runtime → Option ExecutionResult
get_result s = s.result
