-- ===== src/Runtime/Batch.antt =====
-- The second half of `_execute_tool_calls` of runtime.py, with `_handle_required_approvals`,
-- `_execute_single_tool` and `_record_tool_result`: the admitted calls of one batch. The tasks of the
-- calls touch the steps of their own calls alone and are run in the order of the batch; that their
-- readings of the environment are interleaved is left to the World, which answers each reading
-- freely.
use agenyx.Base.{
  ℕ, suc, Bool, true, false, Option, none, some, String, string_eq, List, [], ◌∷◌, Dict, lookup,
  Value, Items, Action, Fields, field?, ℤ, is_empty, Error, Result, ok, raise, get_elem?, ◌==◌,
  ◌&&◌, agent_protocol_error, execution_cancelled, execution_limit_exceeded, tool_execution_error,
  cancelled_error, timeout_error, if◌then◌else◌,
}
use agenyx.Step.{Step, StepType, StepStatus, is_terminal}
use agenyx.Step
use agenyx.Tools.{ToolResult, failed}
use agenyx.Context.{Message, add_tool_call, add_observation, add_tool_message}
use agenyx.Runtime.{
  Runtime, World, Config, tool_call_started, tool_call_completed, publish, on_context, on_step,
  read, check_cancellation, check_timeout, check_remaining, start_step, complete_step,
}
use agenyx.Runtime.Monad.{
  Exception, Attempt, returns, throws, Run, pure, throw, settle, gets, throw_if, try, ◌>>=◌, ◌>>◌,
}
use agenyx.Runtime.Admission.{Admitted}

-- `_extract_assistant_message` of a response that is JSON
abbrev choice_message : Option Value → Result Message
choice_message (some (Value.array (Items.cons (Value.object choice) _))) =
    elim (field? "message" choice) [
      | some (Value.object message) ↦ ok message
      | _ ↦ raise agent_protocol_error
    ]
choice_message _ = raise agent_protocol_error

unfoldable pub extract_assistant_message : Value → Result Message
unfolding field?
extract_assistant_message (Value.object response) = elim (field? "message" response) [
  | some (Value.object message) ↦ ok message
  | _ ↦ choice_message (field? "choices" response)
]
extract_assistant_message _ = raise agent_protocol_error

-- the status of the step of a call
abbrev status_at : ℕ → Runtime → Option StepStatus
status_at i s = elim (get_elem? s.execution.steps i) [ none ↦ none | some step ↦ some step.status ]

abbrev is_done : Option StepStatus → Bool
is_done none = false
is_done (some status) = is_terminal status

-- `_normalize_tool_output`
unfoldable pub normalize_tool_output : (Value → String) → Value → String
normalize_tool_output show (Value.str s) = s
normalize_tool_output show Value.null = ""
normalize_tool_output show v = show v

abbrev pub at_zero : Option ℕ → ℕ
at_zero none = 0
at_zero (some i) = i

-- `step.mark_cancelled()` or `step.mark_failed(error=…)`
abbrev pub settle_as : Error → ℕ → String → Action Step (Unit {0})
settle_as cancelled_error now text = Step.mark_cancelled now
settle_as execution_cancelled now text = Step.mark_cancelled now
settle_as _ now text = Step.mark_failed now (if is_empty text then "Exception" else text)

module _ (w : World) where
  -- `if not step.is_terminal: …`, in the handlers of `execute_one`
  abbrev pub unless_done : Bool → Run Runtime Unit → Run Runtime Unit
  unless_done true m = pure tt
  unless_done false m = m

  unfoldable pub settle_step : ℕ → Exception → Run Runtime Unit
  settle_step i e = do
    status ← gets (status_at i)
    now ← read w.utc_now
    unless_done (is_done status) (on_step i (settle_as e.kind now e.text))

  module _ (c : Config) where
    -- the tool's answer, awaited under the timeout
    abbrev pub of_timeout : Error → Exception → Run Runtime ToolResult
    of_timeout cancelled_error e = settle (throws e)
    of_timeout timeout_error e =
        publish tool_call_completed
        >> throw execution_limit_exceeded "Agent tool execution exceeded execution timeout"
    of_timeout _ e = publish tool_call_completed >> settle (throws e)

    abbrev pub error_text : Option String → String
    error_text none = "Tool execution failed"
    error_text (some text) = if is_empty text then "Tool execution failed" else text

    abbrev is_unknown : Option String → Bool
    is_unknown none = false
    is_unknown (some error_type) = error_type == "unknown_tool"

    -- the checks of the tool's result
    unfoldable pub output_of : ToolResult → Run Runtime Value
    output_of r = do
      publish tool_call_completed
      throw_if (failed r && is_unknown (lookup "error_type" r.metadata)) agent_protocol_error
          "Unknown tool requested by model"
      throw_if (failed r) tool_execution_error (error_text r.error)
      pure r.output

    -- `_execute_single_tool`, for the call at position `j` of the batch of step `k`
    unfoldable pub execute_single_tool : ℤ → ℕ → ℕ → Run Runtime Value
    execute_single_tool started_at k j = do
      check_cancellation w
      check_remaining w c started_at
      publish tool_call_started
      result ← try (settle (w.executes k j)) λ e. of_timeout e.kind e
      check_cancellation w
      check_timeout w c started_at
      output_of result

    -- the body of `execute_one`, and its handlers
    unfoldable pub run_call : ℤ → ℕ → ℕ → ℕ → Run Runtime Value
    run_call started_at k j i =
        try
          (do
            check_cancellation w
            now ← read w.utc_now
            on_step i (Step.mark_started now)
            output ← execute_single_tool started_at k j
            ended ← read w.utc_now
            on_step i (Step.mark_completed ended output)
            pure output)
          (λ e. settle_step i e >> settle (throws e))

    -- A task that is cancelled before it begins leaves its step alone.
    abbrev pub run_task : Bool → ℤ → ℕ → ℕ → ℕ → Run Runtime Value
    run_task true started_at k j i = run_call started_at k j i
    run_task false started_at k j i = throw cancelled_error ""

    -- the outcome of a task, as `gather(return_exceptions=True)` keeps it
    unfoldable pub outcome : Run Runtime Value → Run Runtime (Attempt Value)
    outcome m = try (m >>= λ v. pure (returns v)) (λ e. pure (throws e))

    unfoldable pub run_batch :
        ℤ → ℕ → ℕ → Dict String ℕ → List Admitted → Run Runtime (List (Admitted × Attempt Value))
    run_batch started_at k j steps [] = pure []
    run_batch started_at k j steps (a ∷ rest) = do
      r ← outcome (run_task (w.begins k j) started_at k j (at_zero (lookup a.call_id steps)))
      others ← run_batch started_at k (suc j) steps rest
      pure ((a, r) ∷ others)

    -- `_record_tool_result`
    unfoldable pub record_tool_result : Admitted → Value → Run Runtime Unit
    record_tool_result a output = do
      check_cancellation w
      i ← start_step w StepType.tool_result
      complete_step w i output
      on_context (
          add_tool_call (
            Fields.field "id" (Value.str a.call_id) (
              Fields.field "name" (Value.str a.name) (
                Fields.field "arguments" (Value.object a.arguments)
                  (Fields.field "result" output Fields.end)))))
      j ← start_step w StepType.observation
      complete_step w j (Value.str (normalize_tool_output c.show output))
      on_context (add_observation (normalize_tool_output c.show output))
      on_context (add_tool_message a.call_id a.name (normalize_tool_output c.show output))
      check_cancellation w

    -- the results are applied in the order of the batch
    unfoldable pub record_results : List (Admitted × Attempt Value) → Run Runtime Unit
    record_results [] = pure tt
    record_results ((a, returns output) ∷ rest) =
        check_cancellation w >> (record_tool_result a output >> record_results rest)
    record_results ((a, throws e) ∷ rest) = check_cancellation w >> record_results rest
