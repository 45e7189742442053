-- ===== src/Runtime/Calls.antt =====
-- `_handle_required_approvals` and `_execute_tool_calls` of runtime.py: the batch of one decision. The
-- approvals of a batch are waited for one after another.
use agenyx.Base.{
  ℕ, ◌+◌, Bool, true, false, not, Option, none, some, String, string_eq, List, [], ◌∷◌, Dict,
  lookup, insert, Value, ℤ, elem, Error, length, agent_protocol_error, execution_cancelled,
  execution_limit_exceeded, tool_execution_error, cancelled_error, timeout_error,
}
use agenyx.Step.{Step, StepType}
use agenyx.Step
use agenyx.Execution
use agenyx.Execution.States.{ExecutionState}
use agenyx.Context.{add_assistant_message}
use agenyx.Planner.{ToolCall, AgentDecision, normalized_tool_calls}
use agenyx.Runtime.{
  Runtime, World, Config, on_execution, on_context, on_step, cancel_token, read, check_cancellation,
  check_timeout, check_remaining, new_step, transition_to,
}
use agenyx.Runtime.Monad.{
  Exception, Attempt, returns, throws, Run, pure, throw, settle, gets, lift, throw_if, try, ◌>>=◌,
  ◌>>◌,
}
use agenyx.Runtime.Admission.{Admitted, admit, usage, count_admissions}
use agenyx.Runtime.Batch.{extract_assistant_message, run_batch, record_results, at_zero}

abbrev pub Results : Type 0
Results = List (Admitted × Attempt Value)

-- `first_failure`
unfoldable pub first_failure : Results → Option Exception
first_failure [] = none
first_failure ((a, returns output) ∷ rest) = first_failure rest
first_failure ((a, throws e) ∷ rest) = some e

module _ (w : World) where
  -- the steps of the calls, created but not started, and their positions by call id
  unfoldable pub add_call_steps : Dict String ℕ → List Admitted → Run Runtime (Dict String ℕ)
  add_call_steps steps [] = pure steps
  add_call_steps steps (a ∷ rest) = do
    check_cancellation w
    id ← read w.uuid
    position ← gets (λ (s : Runtime). length s.execution.steps)
    on_execution (Execution.add_step (new_step id (position + 1) StepType.tool_call))
    add_call_steps (insert a.call_id position steps) rest

  -- `for call_id in required_approval_call_ids: …`
  unfoldable pub mark_waiting : Dict String ℕ → List Admitted → Run Runtime Unit
  mark_waiting steps [] = pure tt
  mark_waiting steps (a ∷ rest) = do
    on_step (at_zero (lookup a.call_id steps)) Step.mark_waiting_approval
    mark_waiting steps rest

  unfoldable pub ask_approvals : ℕ → List Admitted → Run Runtime Unit
  ask_approvals k [] = pure tt
  ask_approvals k (a ∷ rest) = do
    check_cancellation w
    settle (w.asks_approval k a.call_id)
    ask_approvals k rest

  abbrev pub of_waiting : Error → Exception → Run Runtime Bool
  of_waiting timeout_error e =
      throw execution_limit_exceeded
        "Agent execution exceeded timeout while waiting for human approval"
  of_waiting cancelled_error e =
      cancel_token
      >> throw execution_cancelled "Agent execution was cancelled while waiting for human approval"
  of_waiting _ e = settle (throws e)

  module _ (c : Config) where
    abbrev pub selected : Bool → Admitted → List Admitted → List Admitted
    selected true a rest = a ∷ rest
    selected false a rest = rest

    -- the calls whose tool requires approval
    unfoldable pub required_of : List String → ℤ → List Admitted → Run Runtime (List Admitted)
    required_of tools started_at [] = pure []
    required_of tools started_at (a ∷ rest) = do
      check_cancellation w
      check_timeout w c started_at
      others ← required_of tools started_at rest
      pure (selected (elem a.name tools) a others)

    -- `wait_for_approval`, for each
    unfoldable pub wait_approvals : ℤ → ℕ → List Admitted → Run Runtime Unit
    wait_approvals started_at k [] = pure tt
    wait_approvals started_at k (a ∷ rest) = do
      check_cancellation w
      check_timeout w c started_at
      check_remaining w c started_at
      approved ← try (settle (w.approves k a.call_id)) λ e. of_waiting e.kind e
      throw_if (not approved) tool_execution_error "Human approval rejected for tool"
      wait_approvals started_at k rest

    abbrev pub approve_all : ℤ → ℕ → List Admitted → Run Runtime (List Admitted)
    approve_all started_at k [] = pure []
    approve_all started_at k (a ∷ rest) = do
      ask_approvals k (a ∷ rest)
      transition_to w ExecutionState.waiting_approval
      wait_approvals started_at k (a ∷ rest)
      check_cancellation w
      check_timeout w c started_at
      pure (a ∷ rest)

    abbrev pub approvals_of :
        Option (List String) → ℤ → ℕ → List Admitted → Run Runtime (List Admitted)
    approvals_of none started_at k admissions = pure []
    approvals_of (some tools) started_at k admissions = do
      required ← required_of tools started_at admissions
      approve_all started_at k required

    unfoldable pub handle_required_approvals : ℤ → ℕ → List Admitted → Run Runtime (List Admitted)
    handle_required_approvals started_at k admissions =
        approvals_of c.approval_required started_at k admissions

    -- the handlers around `gather`
    abbrev pub of_gathering : Error → Exception → Run Runtime Unit
    of_gathering timeout_error e =
        throw execution_limit_exceeded "Agent parallel tool execution exceeded execution timeout"
    of_gathering cancelled_error e =
        cancel_token
        >> throw execution_cancelled "Agent execution was cancelled during parallel tool execution"
    of_gathering _ e = settle (throws e)

    -- the raise at the end
    abbrev pub raise_as : Error → Exception → Run Runtime Unit
    raise_as cancelled_error e =
        cancel_token
        >> throw execution_cancelled "Agent execution was cancelled during parallel tool execution"
    raise_as _ e = settle (throws e)

    abbrev pub raise_first : Option Exception → Run Runtime Unit
    raise_first none = pure tt
    raise_first (some e) = raise_as e.kind e

    abbrev pub some_call : List ToolCall → Bool
    some_call [] = false
    some_call (_ ∷ _) = true

    -- the tasks, what `gather` gives, and the results
    unfoldable pub apply_results : ℕ → Results → Run Runtime Unit
    apply_results k results = do
      try (settle (w.gathers k)) λ e. of_gathering e.kind e
      transition_to w ExecutionState.observing
      record_results w c results
      raise_first (first_failure results)

    unfoldable pub run_tasks : ℤ → ℕ → Dict String ℕ → List Admitted → Run Runtime Unit
    run_tasks started_at k steps admissions = do
      results ← run_batch w c started_at k 0 steps admissions
      apply_results k results

    unfoldable pub execute_tool_calls : Value → AgentDecision → ℤ → ℕ → Run Runtime Unit
    execute_tool_calls response decision started_at k = do
      throw_if (not (some_call (normalized_tool_calls decision))) agent_protocol_error
          "Tool decision contains no tool calls"
      check_cancellation w
      used ← gets usage
      admissions ← admit w c started_at used (normalized_tool_calls decision)
      count_admissions admissions
      message ← lift (extract_assistant_message response)
      on_context (add_assistant_message message)
      steps ← add_call_steps [] admissions
      required ← handle_required_approvals started_at k admissions
      mark_waiting steps required
      check_cancellation w
      transition_to w ExecutionState.tool_execution
      check_remaining w c started_at
      run_tasks started_at k steps admissions
