-- ===== src/Runtime/Loop.antt =====
-- `_execute` of runtime.py: planning, routing, and the loop of inference and tool calls. The loop runs
-- over a range, so it recurs on the steps that are left.
use agenyx.Base.{
  ℕ, zero, suc, Option, none, some, String, string_eq, insert, Value, ℤ, pos, pos_part, Error,
  is_empty, agent_max_steps_error, execution_cancelled, execution_limit_exceeded, cancelled_error,
  timeout_error, runtime_error, if◌then◌else◌,
}
use agenyx.Step.{StepType}
use agenyx.Execution.{state}
use agenyx.Execution.States.{ExecutionState}
use agenyx.Context.{ExecutionContext, add_system_message, add_user_message}
use agenyx.Limits.{validate_step}
use agenyx.Planner.{DecisionType, final, tool_call, continue, fail, AgentDecision, plan}
use agenyx.Runtime.{
  Runtime, World, Config, inference_started, inference_completed, publish, on_context, cancel_token,
  read, check_cancellation, check_timeout, check_remaining, transition_to, start_step,
  complete_step, fail_step,
}
use agenyx.Runtime.Monad.{
  Exception, throws, Run, pure, throw, settle, gets, lift, modify, try, ◌>>=◌, ◌>>◌,
}
use agenyx.Runtime.Calls.{execute_tool_calls}

abbrev pub on_session : (ExecutionContext → ExecutionContext) → Run Runtime Unit
on_session f = modify λ (s : Runtime). record s { context = f s.context }

-- `text or default`
abbrev pub or_text : Option String → String → String
or_text none default = default
or_text (some text) default = if is_empty text then default else text

module _ (w : World) where
  abbrev pub enter_inference : ExecutionState → Run Runtime Unit
  enter_inference ExecutionState.inference = pure tt
  enter_inference _ = transition_to w ExecutionState.inference

  abbrev pub of_routing : Error → Exception → Run Runtime (String × String)
  of_routing timeout_error e =
      throw execution_limit_exceeded "Agent routing exceeded execution timeout"
  of_routing cancelled_error e =
      cancel_token >> throw execution_cancelled "Agent execution was cancelled during routing"
  of_routing _ e = settle (throws e)

  -- the handlers of the inference
  abbrev pub of_inference : Error → ℕ → Exception → Run Runtime Value
  of_inference timeout_error i e =
      fail_step w i "Agent inference exceeded execution timeout"
      >> throw execution_limit_exceeded "Agent inference exceeded execution timeout"
  of_inference cancelled_error i e =
      cancel_token
      >> (fail_step w i "Agent execution was cancelled during inference"
          >> throw execution_cancelled "Agent execution was cancelled during inference")
  of_inference _ i e = fail_step w i e.text >> settle (throws e)

  module _ (c : Config) where
    unfoldable pub infer : ℤ → ℕ → ℕ → Run Runtime Value
    infer started_at k i =
        try
          (do
            check_remaining w c started_at
            _ ← read w.monotonic
            publish inference_started
            response ← settle (w.complete k)
            check_cancellation w
            complete_step w i response
            publish inference_completed
            pure response)
          (λ e. of_inference e.kind i e)

    -- a final decision
    unfoldable pub finish : AgentDecision → Run Runtime String
    finish d = do
      check_cancellation w
      i ← start_step w StepType.final
      complete_step w i (Value.str (or_text d.content ""))
      pure (or_text d.content "")

    abbrev pub act :
        DecisionType → AgentDecision → Value → ℤ → ℕ → Run Runtime String → Run Runtime String
    act final d response started_at k next = finish d
    act continue d response started_at k next = check_cancellation w >> next
    act fail d response started_at k next =
        throw runtime_error (or_text d.error "Agent returned a failure decision")
    act tool_call d response started_at k next =
        check_cancellation w
        >> (execute_tool_calls w c response d started_at k >> (check_cancellation w >> next))

    -- the loop, from step `k` on
    unfoldable pub reason : ℕ → ℤ → ℕ → Run Runtime String
    reason zero started_at k = throw agent_max_steps_error "Agent exceeded maximum steps"
    reason (suc n) started_at k = do
      check_cancellation w
      on_session (λ (x : ExecutionContext). record x { current_step = k })
      lift (validate_step c.limits (pos k))
      check_timeout w c started_at
      now ← gets (λ (s : Runtime). state s.execution)
      enter_inference now
      i ← start_step w StepType.inference
      response ← infer started_at k i
      check_timeout w c started_at
      check_cancellation w
      decision ← lift (plan c.planner response (pos k))
      check_cancellation w
      act decision.type decision response started_at k (reason n started_at (suc k))

    unfoldable pub execute : String → String → Run Runtime String
    execute intent task = do
      started_at ← read w.monotonic
      check_cancellation w
      i ← start_step w StepType.plan
      on_context (add_system_message c.system_prompt)
      on_context (add_user_message intent)
      on_session (λ (x : ExecutionContext). record x { current_plan = some task })
      complete_step w i (Value.str task)
      check_cancellation w
      check_timeout w c started_at
      check_cancellation w
      check_timeout w c started_at
      route ← try (check_remaining w c started_at >> settle w.route) λ e. of_routing e.kind e
      check_cancellation w
      check_timeout w c started_at
      on_session (λ (x : ExecutionContext). record x {
        metadata =
            insert "provider" (Value.str route.1) (insert "model" (Value.str route.0) x.metadata);
      })
      reason (pos_part c.limits.max_steps) started_at 1
