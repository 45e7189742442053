-- ===== src/Execution/Traces.antt =====
-- How the state of an execution moves over any calls of its methods.
use mathlib.Core.List.{append-nil, append_assoc}
use agenyx.Base.{◌≡◌, refl, ◌⊎◌, inl, inr, true, false, arith, List, [], ◌∷◌, ◌++◌}
use agenyx.Step.{Step}
use agenyx.Execution.States.{ExecutionState, is_final}
use agenyx.Execution.StateMachine.{transitions}
use agenyx.Execution.Graph.{
  ◌⟶*◌, here, then, ⟶*-trans, ask, start, observe, approve, again, finish, transitions→⟶,
}
use agenyx.Execution.{Execution, state, Call, record_step, call, calls}

-- A call leaves the state, takes one arrow, or bridges from planning to completed.
abbrev Moves : ExecutionState → ExecutionState → Type 0
Moves s t =
    (t ≡ s)
    ⊎ ((transitions s t ≡ true) ⊎ ((s ≡ ExecutionState.planning) × (t ≡ ExecutionState.completed)))

call-Moves : (c : Call) (e : Execution) → Moves (state e) (state (call c e).1)
unfolding call
call-Moves (Call.transition a b ExecutionState.planning) e = ground arith
call-Moves (Call.transition a b t) e = ground arith
call-Moves (Call.start a b) e = ground arith
call-Moves (Call.complete a b c) e = ground arith
call-Moves (Call.fail a b x y) e = ground arith
call-Moves (Call.cancel a b) e = ground arith
call-Moves (Call.record_step s) e = inl refl

Moves-⟶* : {s t : ExecutionState} → Moves s t → s ⟶* t
Moves-⟶* (inl e) = rw e here
Moves-⟶* {s} {t} (inr (inl h)) = then (transitions→⟶ s t h) here
Moves-⟶* (inr (inr (p, q))) = rw (p, q) (then ask (then finish here))

-- Whatever is called, the state moves along the arrows of the lifecycle diagram.
pub calls-⟶* : (cs : List Call) (e : Execution) → state e ⟶* state (calls cs e)
unfolding calls
calls-⟶* [] e = here
calls-⟶* (c ∷ cs) e = ⟶*-trans (Moves-⟶* (call-Moves c e)) (calls-⟶* cs (call c e).1)

-- Every state that is not final has a way to completion.
pub ⟶*-completed : (s : ExecutionState) → is_final s ≡ false → s ⟶* ExecutionState.completed
⟶*-completed ExecutionState.created h = then start (then ask (then finish here))
⟶*-completed ExecutionState.planning h = then ask (then finish here)
⟶*-completed ExecutionState.inference h = then finish here
⟶*-completed ExecutionState.waiting_approval h =
    then approve (then observe (then again (then finish here)))
⟶*-completed ExecutionState.tool_execution h = then observe (then again (then finish here))
⟶*-completed ExecutionState.observing h = then again (then finish here)
⟶*-completed _ h = cc

-- the steps that the calls append
abbrev pub recorded : List Call → List Step
recorded [] = []
recorded (record_step s ∷ cs) = s ∷ recorded cs
recorded (_ ∷ cs) = recorded cs

call_final :
    (c : Call) (e : Execution)
    → is_final (state e) ≡ true
    → (call c e).1 ≡ record e { steps = e.steps ++ recorded (c ∷ []) }
unfolding call
call_final (Call.transition a b ExecutionState.planning) e h = ground (arith, append-nil e.steps)
call_final (Call.transition a b t) e h = ground (arith, append-nil e.steps)
call_final (Call.start a b) e h = ground (arith, append-nil e.steps)
call_final (Call.complete a b c) e h = ground (arith, append-nil e.steps)
call_final (Call.fail a b x y) e h = ground (arith, append-nil e.steps)
call_final (Call.cancel a b) e h = ground (arith, append-nil e.steps)
call_final (Call.record_step s) e h = refl

recorded-cons : (c : Call) (cs : List Call) → recorded (c ∷ []) ++ recorded cs ≡ recorded (c ∷ cs)
recorded-cons (Call.record_step s) cs = refl
recorded-cons _ cs = refl

-- The final states absorb: calls only append to the trace of steps.
pub calls_final :
    (cs : List Call) (e : Execution)
    → is_final (state e) ≡ true
    → calls cs e ≡ record e { steps = e.steps ++ recorded cs }
unfolding calls
calls_final [] e h = ground (arith, append-nil e.steps)
calls_final (c ∷ cs) e h =
    let e' : Execution = record e { steps = e.steps ++ recorded (c ∷ []) } in
    rw (call_final c e h) (rw (calls_final cs e' h) (rw (append_assoc, recorded-cons c cs)))
