-- ===== src/Execution/Graph.antt =====
-- The lifecycle diagram in the docstring of domain/execution.py, as a relation.
use agenyx.Base.{◌≡◌, refl, ◌↔◌, true, false, arith}
use agenyx.Execution.States.{ExecutionState, is_final}
use agenyx.Execution.StateMachine.{transitions}

infix 40 ◌⟶◌ ◌⟶*◌
pub data ◌⟶◌ : ExecutionState → ExecutionState → Type 0 where
  start : ExecutionState.created ⟶ ExecutionState.planning
  ask : ExecutionState.planning ⟶ ExecutionState.inference
  call_tool : ExecutionState.inference ⟶ ExecutionState.tool_execution
  hold : ExecutionState.inference ⟶ ExecutionState.waiting_approval
  finish : ExecutionState.inference ⟶ ExecutionState.completed
  approve : ExecutionState.waiting_approval ⟶ ExecutionState.tool_execution
  observe : ExecutionState.tool_execution ⟶ ExecutionState.observing
  again : ExecutionState.observing ⟶ ExecutionState.inference
  fail : {s : ExecutionState} → is_final s ≡ false → s ⟶ ExecutionState.failed
  cancel : {s : ExecutionState} → is_final s ≡ false → s ⟶ ExecutionState.cancelled

pub data ◌⟶*◌ : ExecutionState → ExecutionState → Type 0 where
  here : {s : ExecutionState} → s ⟶* s
  then : {s t u : ExecutionState} → s ⟶ t → t ⟶* u → s ⟶* u

pub ruleset edges = (start, ask, call_tool, hold, finish, approve, observe, again, fail, cancel)

pub ⟶*-trans : {s t u : ExecutionState} → s ⟶* t → t ⟶* u → s ⟶* u
⟶*-trans here q = q
⟶*-trans (then e p) q = then e (⟶*-trans p q)

pub transitions→⟶ : (s t : ExecutionState) → transitions s t ≡ true → s ⟶ t
unfolding transitions
transitions→⟶ s t h = grind (arith, edges)

pub ⟶→transitions : {s t : ExecutionState} → s ⟶ t → transitions s t ≡ true
unfolding transitions
⟶→transitions start = refl
⟶→transitions ask = refl
⟶→transitions call_tool = refl
⟶→transitions hold = refl
⟶→transitions finish = refl
⟶→transitions approve = refl
⟶→transitions observe = refl
⟶→transitions again = refl
⟶→transitions (fail h) = ground arith
⟶→transitions (cancel h) = ground arith

-- The table of transitions is the lifecycle diagram, arrow for arrow.
pub transitions_iff : (s t : ExecutionState) → (transitions s t ≡ true) ↔ (s ⟶ t)
transitions_iff s t = (transitions→⟶ s t, λ a. ⟶→transitions a)
