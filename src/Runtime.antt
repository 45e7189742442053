-- ===== src/Runtime.antt =====
-- runtime.py of the agent: one execution from its start to its end. Its methods are coroutines over
-- `Runtime`; what they await, the clocks, and the cancellations of others are the `World`.
pub mod Monad
pub mod Admission
pub mod Batch
pub mod Calls
pub mod Loop
pub mod Lifecycle
mod Budgets
mod Silence
mod Late
mod Outputs
mod Keeps
mod Running
mod Batches
mod Approvals
mod Reasoning
mod Executing
mod Leads
mod Stopping
mod Endings
mod Completion
mod Ends
mod Tests
use agenyx.Base.{
  ℕ, suc, ◌+◌, Bool, true, false, Option, none, some, String, List, [], ◌∷◌, ◌++◌, Dict, Value,
  Fields, ℤ, pos, length, get_elem?, set, Error, execution_cancelled, execution_limit_exceeded,
  runtime_error, Result, Action, if◌then◌else◌, ◌||◌, leb_ℤ,
}
use agenyx.Step.{Step, StepType, StepStatus}
use agenyx.Step
use agenyx.Execution.{Execution}
use agenyx.Execution
use agenyx.Execution.States.{ExecutionState}
use agenyx.Execution.Snapshot.{ExecutionResult}
use agenyx.Limits.{ExecutionLimits, remaining_timeout, validate_timeout}
use agenyx.Context.{ExecutionContext, ContextBudget, TokenCounter}
use agenyx.Planner.{Planner}
use agenyx.Tools.{ToolResult}
use Monad.{
  Exception, Attempt, returns, throws, Run, pure, throw, settle, gets, described, lift, modify,
  throw_if, ◌>>=◌, ◌>>◌,
}

pub data AgentEventType : Type 0 where
  execution_started execution_completed execution_failed execution_was_cancelled : AgentEventType
  inference_started inference_completed tool_call_started tool_call_completed : AgentEventType
  approval_required approval_resolved step_started : AgentEventType

-- The parts of the runtime that one execution uses. `show` is Python's `str` of a value that is not a
-- text, `dumps` the canonical JSON of arguments.
pub record Config : Type 0 where
  pub limits : ExecutionLimits
  pub planner : Planner
  pub budget : Option ContextBudget
  pub count : TokenCounter
  pub approval_required : Option (List String)
  pub system_prompt : String
  pub dumps : Fields → String
  pub show : Value → String

-- The answers of the environment. The readings of the clocks, the fresh ids, the requests to cancel
-- and the outcomes of persisting go by the number of the reading, `ticks`; the awaited answers by
-- the step of the loop, and in a batch by the position of the call.
pub record World : Type 0 where
  pub monotonic : ℕ → ℤ
  pub utc_now : ℕ → ℕ
  pub uuid : ℕ → ℕ
  pub cancels : ℕ → Bool
  pub persists : ℕ → Attempt Unit
  pub route : Attempt (String × String)
  pub complete : ℕ → Attempt Value
  pub asks_approval : ℕ → String → Attempt Unit
  pub approves : ℕ → String → Attempt Bool
  pub begins : ℕ → ℕ → Bool
  pub executes : ℕ → ℕ → Attempt ToolResult
  pub gathers : ℕ → Attempt Unit

-- The record of one execution in the runtime's registries, with the variables of `_execute`.
-- `streaming` is whether the record has its event stream, `active` whether the execution stands in
-- `_active_executions`; the data of an event is left out.
pub record Runtime : Type 0 where
  pub execution : Execution
  pub context : ExecutionContext
  pub cancelled : Bool
  pub ticks : ℕ
  pub stream : List AgentEventType
  pub streaming : Bool
  pub active : Bool
  pub result : Option ExecutionResult
  pub repeated_tool_calls : Dict (String × String) ℕ
  pub tool_call_counts : Dict String ℕ

unfoldable pub publish : AgentEventType → Run Runtime Unit
publish event = modify λ (s : Runtime). record s {
  stream =
      if s.active then (if s.streaming then s.stream ++ event ∷ [] else s.stream) else s.stream;
}

unfoldable pub on_execution : Action Execution (Unit {0}) → Run Runtime Unit
on_execution method s = let (r, e) = method s.execution in (described r, record s { execution = e })

unfoldable pub on_context : Action ExecutionContext (Unit {0}) → Run Runtime Unit
on_context method s = let (r, c) = method s.context in (described r, record s { context = c })

abbrev pub run_step : Action Step (Unit {0}) → ℕ → Option Step → Runtime → Attempt Unit × Runtime
run_step method i none s = (throws (record { kind = runtime_error; text = "no such step" }), s)
run_step method i (some step) s =
    let (r, step') = method step in
    (
      described r,
      record s { execution = record s.execution { steps = set s.execution.steps i step' } },
    )

-- a call of a method of a step that the execution holds, by its position in `steps`
unfoldable pub on_step : ℕ → Action Step (Unit {0}) → Run Runtime Unit
on_step i method s = run_step method i (get_elem? s.execution.steps i) s

unfoldable pub cancel_token : Run Runtime Unit
cancel_token = modify λ (s : Runtime). record s { cancelled = true }

-- one reading of the environment
unfoldable pub read : {A : Type 0} → (ℕ → A) → Run Runtime A
read f s = (returns (f s.ticks), record s { ticks = suc s.ticks })

-- `Step(number=…, type=…)`; the inputs of steps are left out
abbrev pub new_step : ℕ → ℕ → StepType → Step
new_step id number type = record {
  step_id = id;
  number = pos number;
  type = type;
  status = StepStatus.created;
  input = Value.null;
  output = Value.null;
  error = none;
  started_at = none;
  completed_at = none;
}

module _ (w : World) where
  -- `_check_cancellation`
  unfoldable pub check_cancellation : Run Runtime Unit
  unfolding read
  check_cancellation = do
    requested ← read w.cancels
    cancelled ← gets (λ (s : Runtime). s.cancelled || requested)
    throw_if cancelled execution_cancelled "Agent execution was cancelled"

  unfoldable pub persist_execution : Run Runtime Unit
  unfolding read
  persist_execution = do outcome ← read w.persists; settle outcome

  unfoldable pub transition_to : ExecutionState → Run Runtime Unit
  unfolding read on_execution
  transition_to target = do
    touched ← read w.utc_now
    stamped ← read w.utc_now
    on_execution (Execution.transition_to touched stamped target)

  -- `_start_step`: a new step, started and added; its position
  unfoldable pub start_step : StepType → Run Runtime ℕ
  unfolding read on_execution
  start_step type = do
    id ← read w.uuid
    now ← read w.utc_now
    position ← gets (λ (s : Runtime). length s.execution.steps)
    on_execution (Execution.add_step (Step.mark_started now (new_step id (position + 1) type)).1)
    pure position

  -- `step.output = output`, then `step.mark_completed()`
  unfoldable pub complete_step : ℕ → Value → Run Runtime Unit
  unfolding read on_step
  complete_step i output = do
    on_step i (λ (s : Step). (Result.ok tt, record s { output = output }))
    now ← read w.utc_now
    on_step i (Step.mark_completed now Value.null)

  unfoldable pub fail_step : ℕ → String → Run Runtime Unit
  unfolding read on_step
  fail_step i error = do now ← read w.utc_now; on_step i (Step.mark_failed now error)

  module _ (c : Config) where
    unfoldable pub check_timeout : ℤ → Run Runtime Unit
    unfolding read
    check_timeout started_at = do
      now ← read w.monotonic
      lift (validate_timeout c.limits now started_at)

    -- `_remaining_timeout`
    unfoldable pub check_remaining : ℤ → Run Runtime Unit
    unfolding read
    check_remaining started_at = do
      now ← read w.monotonic
      throw_if (leb_ℤ (remaining_timeout c.limits now started_at) (pos 0)) execution_limit_exceeded
          "Agent execution exceeded timeout"
