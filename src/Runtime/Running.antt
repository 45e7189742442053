-- ===== src/Runtime/Running.antt =====
-- The coroutines of runtime.py below `_run_execution` keep the execution running, whatever they await.
use agenyx.Base.{
  ℕ, ◌≡◌, refl, sym, subst, Bool, true, false, Option, none, some, String, string_eq, List, [], ◌∷◌,
  ◌++◌, All-append, arith, Action, Value, ℤ, get_elem?, runtime_error,
}
use agenyx.Step.{Step, StepType}
use agenyx.Execution.{Execution, state, call, transition}
use agenyx.Execution
use agenyx.Execution.States.{ExecutionState, is_final}
use agenyx.Execution.Invariant.{IsValid, call-IsValid}
use agenyx.Context.{ExecutionContext}
use agenyx.Runtime.{
  Runtime, World, Config, AgentEventType, publish, on_execution, on_context, on_step, run_step,
  cancel_token, read, check_cancellation, persist_execution, transition_to, start_step,
  complete_step, fail_step, check_timeout, check_remaining,
}
use agenyx.Runtime.Monad.{Exception, Run, settle, modify, ◌>>=◌}
use agenyx.Runtime.Admission.{Admitted, count_admissions}
use agenyx.Runtime.Batch.{unless_done, settle_step}
use agenyx.Runtime.Keeps.{
  is_end, IsRunning, IsLoud, Keeps, keeps_rules, Keeps-pure, Keeps-settle, Keeps-bind, Keeps-try,
  Keeps-try_awaited, LoudAs, full-LoudAs, described-IsLoud,
}

-- No exception of the environment has an empty text, but for cancellations and awaited timeouts.
pub record IsLoudWorld (w : World) : Type 0 where
  pub persists : (b : Bool) (n : ℕ) → IsLoud b (w.persists n)
  pub route : IsLoud true w.route
  pub complete : (k : ℕ) → IsLoud true (w.complete k)
  pub asks_approval : (b : Bool) (k : ℕ) (id : String) → IsLoud b (w.asks_approval k id)
  pub approves : (k : ℕ) (id : String) → IsLoud true (w.approves k id)
  pub executes : (k j : ℕ) → IsLoud true (w.executes k j)
  pub gathers : (k : ℕ) → IsLoud true (w.gathers k)

published :
    (s : Runtime) (event : AgentEventType)
    → IsRunning s
    → is_end event ≡ false
    → (publish event s).1 ≡ record s { stream = s.stream ++ event ∷ [] }
unfolding publish modify
published s event v h = rw (v.active, v.streaming)

publish-IsLoud : (b : Bool) (s : Runtime) (event : AgentEventType) → IsLoud b (publish event s).0
unfolding publish modify
publish-IsLoud b s event = tt

pub publish-Keeps :
    {b : Bool} → (event : AgentEventType) → is_end event ≡ false → Keeps b (publish event)
publish-Keeps {b} event h = record {
  at = λ s v. (
    subst IsRunning (sym (published s event v h)) (record {
      valid = v.valid;
      unfinished = v.unfinished;
      streaming = v.streaming;
      active = v.active;
      no_result = v.no_result;
      no_end = All-append (λ t. is_end t ≡ false) s.stream (event ∷ []) v.no_end (h, tt);
    }),
    publish-IsLoud b s event,
  );
}

pub on_context-Keeps :
    {b : Bool} → (f : Action ExecutionContext (Unit {0})) → Keeps b (on_context f)
unfolding on_context
on_context-Keeps f = record {
  at = λ s v. (
    record {
      valid = v.valid;
      unfinished = v.unfinished;
      streaming = v.streaming;
      active = v.active;
      no_result = v.no_result;
      no_end = v.no_end;
    },
    described-IsLoud _ (f s.context).0,
  );
}

pub session-Keeps :
    {b : Bool}
    → (f : Runtime → Runtime) → ((s : Runtime) → IsRunning s → IsRunning (f s))
    → Keeps b (modify f)
unfolding modify
session-Keeps f h = record { at = λ s v. (h s v, tt) }

with_steps-IsRunning :
    (s : Runtime) (steps : List Step)
    → IsRunning s
    → IsRunning (record s { execution = record s.execution { steps = steps } })
with_steps-IsRunning s steps v = record {
  valid = record {
    synced = v.valid.synced;
    ended = v.valid.ended;
    begun = v.valid.begun;
    done = v.valid.done;
    fresh = v.valid.fresh;
    blamed = v.valid.blamed;
  };
  unfinished = v.unfinished;
  streaming = v.streaming;
  active = v.active;
  no_result = v.no_result;
  no_end = v.no_end;
}

pub add_step-Keeps : {b : Bool} → (step : Step) → Keeps b (on_execution (Execution.add_step step))
unfolding on_execution Execution.add_step
add_step-Keeps step = record {
  at = λ s v. (with_steps-IsRunning s (s.execution.steps ++ step ∷ []) v, tt);
}

run_step-IsRunning :
    (b : Bool) (f : Action Step (Unit {0})) (i : ℕ) (o : Option Step) (s : Runtime)
    → IsRunning s
    → IsRunning (run_step f i o s).1 × IsLoud b (run_step f i o s).0
run_step-IsRunning b f i none s v = (v, full-LoudAs b runtime_error "no such step" refl)
run_step-IsRunning b f i (some step) s v =
    (with_steps-IsRunning s _ v, described-IsLoud b (f step).0)

pub on_step-Keeps : {b : Bool} → (i : ℕ) (f : Action Step (Unit {0})) → Keeps b (on_step i f)
unfolding on_step
on_step-Keeps {b} i f = record {
  at = λ s v. run_step-IsRunning b f i (get_elem? s.execution.steps i) s v;
}

pub cancel_token-Keeps : {b : Bool} → Keeps b cancel_token
unfolding cancel_token
cancel_token-Keeps = session-Keeps _ λ s v. record {
  valid = v.valid;
  unfinished = v.unfinished;
  streaming = v.streaming;
  active = v.active;
  no_result = v.no_result;
  no_end = v.no_end;
}

pub read-Keeps : {b : Bool} → {A : Type 0} (f : ℕ → A) → Keeps b (read f)
unfolding read
read-Keeps f = record {
  at = λ s v. (
    record {
      valid = v.valid;
      unfinished = v.unfinished;
      streaming = v.streaming;
      active = v.active;
      no_result = v.no_result;
      no_end = v.no_end;
    },
    tt,
  );
}

pub count_admissions-Keeps : {b : Bool} → (l : List Admitted) → Keeps b (count_admissions l)
unfolding count_admissions
count_admissions-Keeps l = session-Keeps _ λ s v. record {
  valid = v.valid;
  unfinished = v.unfinished;
  streaming = v.streaming;
  active = v.active;
  no_result = v.no_result;
  no_end = v.no_end;
}

transition_unfinished :
    (a b : ℕ) (t : ExecutionState) (e : Execution)
    → is_final t ≡ false
    → is_final (state e) ≡ false
    → is_final (state (Execution.transition_to a b t e).1) ≡ false
unfolding Execution.transition_to
transition_unfinished a b ExecutionState.planning e h k = ground arith
transition_unfinished a b _ e h k = ground arith

transition-IsValid :
    (a b : ℕ) (t : ExecutionState) (e : Execution)
    → IsValid e
    → IsValid (Execution.transition_to a b t e).1
unfolding call
transition-IsValid a b t e v = call-IsValid (transition a b t) e v

transition_on-Keeps :
    {b : Bool}
    → (x y : ℕ) (t : ExecutionState) → is_final t ≡ false
    → Keeps b (on_execution (Execution.transition_to x y t))
unfolding on_execution
transition_on-Keeps a b t h = record {
  at = λ s v. (
    record {
      valid = transition-IsValid a b t s.execution v.valid;
      unfinished = transition_unfinished a b t s.execution h v.unfinished;
      streaming = v.streaming;
      active = v.active;
      no_result = v.no_result;
      no_end = v.no_end;
    },
    described-IsLoud _ (Execution.transition_to a b t s.execution).0,
  );
}

pub ruleset step_rules = (
  keeps_rules, read-Keeps, publish-Keeps, on_context-Keeps, on_step-Keeps, add_step-Keeps,
  cancel_token-Keeps, count_admissions-Keeps,
)

module _ (w : World) (loud : IsLoudWorld w) where
  pub check_cancellation-Keeps : {b : Bool} → Keeps b (check_cancellation w)
  unfolding check_cancellation
  check_cancellation-Keeps = search step_rules

  pub persist-Keeps : {b : Bool} → Keeps b (persist_execution w)
  unfolding persist_execution read settle ◌>>=◌
  persist-Keeps {b} = record {
    at = λ s v. (((read-Keeps {b = b} w.persists).at s v).0, loud.persists b s.ticks);
  }

  pub transition-Keeps :
      {b : Bool} → (t : ExecutionState) → is_final t ≡ false → Keeps b (transition_to w t)
  unfolding transition_to
  transition-Keeps t h = search (step_rules, transition_on-Keeps)

  pub start_step-Keeps : {b : Bool} → (type : StepType) → Keeps b (start_step w type)
  unfolding start_step
  start_step-Keeps type = search step_rules

  pub complete_step-Keeps : {b : Bool} → (i : ℕ) (v : Value) → Keeps b (complete_step w i v)
  unfolding complete_step
  complete_step-Keeps i v = search step_rules

  pub fail_step-Keeps : {b : Bool} → (i : ℕ) (text : String) → Keeps b (fail_step w i text)
  unfolding fail_step
  fail_step-Keeps i text = search step_rules

  unless_done-Keeps :
      {b : Bool} (done : Bool) (m : Run Runtime (Unit {0}))
      → Keeps b m
      → Keeps b (unless_done w done m)
  unless_done-Keeps true m h = Keeps-pure tt
  unless_done-Keeps false m h = h

  pub settle_step-Keeps : {b : Bool} → (i : ℕ) (e : Exception) → Keeps b (settle_step w i e)
  unfolding settle_step
  settle_step-Keeps i e = search (step_rules, unless_done-Keeps)

  pub ruleset world_rules = (
    step_rules, check_cancellation-Keeps, transition-Keeps, start_step-Keeps, complete_step-Keeps,
    fail_step-Keeps, settle_step-Keeps,
  )

  module _ (c : Config) where
    pub check_timeout-Keeps : {b : Bool} → (t : ℤ) → Keeps b (check_timeout w c t)
    unfolding check_timeout
    check_timeout-Keeps t = search step_rules

    pub check_remaining-Keeps : {b : Bool} → (t : ℤ) → Keeps b (check_remaining w c t)
    unfolding check_remaining
    check_remaining-Keeps t = search step_rules

    pub ruleset config_rules = (world_rules, check_timeout-Keeps, check_remaining-Keeps)
