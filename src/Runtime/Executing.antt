-- ===== src/Runtime/Executing.antt =====
-- `_execute` of runtime.py keeps the execution running until it returns or raises.
use agenyx.Base.{
  ℕ, zero, suc, ◌≡◌, refl, Bool, true, false, Option, none, some, String, is_empty, Bool-cases, inl,
  inr, Error, Value, ℤ, cancelled_error, timeout_error,
}
use agenyx.Execution.States.{ExecutionState}
use agenyx.Context.{ExecutionContext}
use agenyx.Planner.{DecisionType, final, tool_call, continue, fail, AgentDecision}
use agenyx.Runtime.{World, Config, Runtime}
use agenyx.Runtime.Monad.{Exception, throws, Run, modify}
use agenyx.Runtime.Loop.{
  on_session, or_text, enter_inference, of_routing, of_inference, infer, finish, act, reason,
  execute,
}
use agenyx.Runtime.Keeps.{
  Keeps-try_awaited, LoudAs, full-LoudAs, Keeps, Keeps-pure, Keeps-settle, Keeps-throw,
}
use agenyx.Runtime.Running.{IsLoudWorld, world_rules, config_rules, session-Keeps, transition-Keeps}
use agenyx.Runtime.Reasoning.{execute_tool_calls-Keeps}

or_text_full :
    (o : Option String) (x : String) → is_empty x ≡ false → is_empty (or_text o x) ≡ false
or_text_full none x h = h
or_text_full (some text) x h = elim (Bool-cases (is_empty text)) [
  | inl empty ↦ rw (empty, h) refl
  | inr full ↦ rw full full
]

on_session-Keeps : {b : Bool} (f : ExecutionContext → ExecutionContext) → Keeps b (on_session f)
unfolding modify
on_session-Keeps f = session-Keeps _ λ s v. record {
  valid = v.valid;
  unfinished = v.unfinished;
  streaming = v.streaming;
  active = v.active;
  no_result = v.no_result;
  no_end = v.no_end;
}

module _ (w : World) (loud : IsLoudWorld w) where
  enter_inference-Keeps : (s : ExecutionState) → Keeps false (enter_inference w s)
  enter_inference-Keeps ExecutionState.inference = Keeps-pure tt
  enter_inference-Keeps _ = transition-Keeps w loud ExecutionState.inference refl

  of_routing-Keeps :
      (kind : Error) (e : Exception)
      → e.kind ≡ kind
      → LoudAs true kind e.text
      → Keeps false (of_routing w kind e)
  of_routing-Keeps timeout_error e same h = search world_rules
  of_routing-Keeps cancelled_error e same h = search world_rules
  of_routing-Keeps _ e same h = Keeps-settle (throws e) (full-LoudAs false e.kind e.text h)

  of_inference-Keeps :
      (kind : Error) (i : ℕ) (e : Exception)
      → e.kind ≡ kind
      → LoudAs true kind e.text
      → Keeps false (of_inference w kind i e)
  of_inference-Keeps timeout_error i e same h = search world_rules
  of_inference-Keeps cancelled_error i e same h = search world_rules depth 30 fits 3000
  of_inference-Keeps _ i e same h =
      let raised = λ (_ : Unit {0}).
        Keeps-settle {A = Value} {b = false} (throws e) (full-LoudAs false e.kind e.text h) in
      search (world_rules, raised)

  module _ (c : Config) where
    infer-Keeps : (t : ℤ) (k i : ℕ) → Keeps false (infer w c t k i)
    unfolding infer
    infer-Keeps t k i =
        let answered = loud.complete k in
        search (config_rules, Keeps-try_awaited, of_inference-Keeps, answered) depth 30 fits 3000

    finish-Keeps : (d : AgentDecision) → Keeps false (finish w c d)
    unfolding finish
    finish-Keeps d = search world_rules depth 30 fits 3000

    act-Keeps :
        (type : DecisionType) (d : AgentDecision) (r : Value) (t : ℤ) (k : ℕ)
        (next : Run Runtime String)
        → Keeps false next
        → Keeps false (act w c type d r t k next)
    act-Keeps final d r t k next h = finish-Keeps d
    act-Keeps continue d r t k next h = search world_rules
    act-Keeps fail d r t k next h = Keeps-throw _ _ (or_text_full d.error _ refl)
    act-Keeps tool_call d r t k next h = search (world_rules, execute_tool_calls-Keeps)

    reason-Keeps : (n : ℕ) (t : ℤ) (k : ℕ) → Keeps false (reason w c n t k)
    unfolding reason
    reason-Keeps zero t k = search world_rules
    reason-Keeps (suc n) t k =
        let rest = λ (_ : Unit {0}). reason-Keeps n t (suc k) in
        search (config_rules, on_session-Keeps, enter_inference-Keeps, infer-Keeps, act-Keeps, rest)
          depth 60 fits 6000

    pub execute-Keeps : (intent task : String) → Keeps false (execute w c intent task)
    unfolding execute
    execute-Keeps intent task =
        let routed = loud.route in
        search
          (
            config_rules, on_session-Keeps, Keeps-try_awaited, of_routing-Keeps, reason-Keeps,
            routed,
          )
          depth 80 fits 9000
