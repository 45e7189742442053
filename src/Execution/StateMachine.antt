-- ===== src/Execution/StateMachine.antt =====
-- state_machine.py: the table of transitions and the guarded transition.
use agenyx.Base.{Bool, true, false, not, Action, ◌>>◌, raise_if, modify, invalid_state_transition}
use agenyx.Execution.States.{ExecutionState, is_final}

pub record ExecutionStateMachine : Type 0 where
  pub state : ExecutionState

-- `target in _TRANSITIONS[state]`
unfoldable pub transitions : ExecutionState → ExecutionState → Bool
transitions ExecutionState.created ExecutionState.planning = true
transitions ExecutionState.created ExecutionState.failed = true
transitions ExecutionState.created ExecutionState.cancelled = true
transitions ExecutionState.planning ExecutionState.inference = true
transitions ExecutionState.planning ExecutionState.failed = true
transitions ExecutionState.planning ExecutionState.cancelled = true
transitions ExecutionState.inference ExecutionState.tool_execution = true
transitions ExecutionState.inference ExecutionState.waiting_approval = true
transitions ExecutionState.inference ExecutionState.completed = true
transitions ExecutionState.inference ExecutionState.failed = true
transitions ExecutionState.inference ExecutionState.cancelled = true
transitions ExecutionState.waiting_approval ExecutionState.tool_execution = true
transitions ExecutionState.waiting_approval ExecutionState.failed = true
transitions ExecutionState.waiting_approval ExecutionState.cancelled = true
transitions ExecutionState.tool_execution ExecutionState.observing = true
transitions ExecutionState.tool_execution ExecutionState.failed = true
transitions ExecutionState.tool_execution ExecutionState.cancelled = true
transitions ExecutionState.observing ExecutionState.inference = true
transitions ExecutionState.observing ExecutionState.failed = true
transitions ExecutionState.observing ExecutionState.cancelled = true
transitions _ _ = false

unfoldable pub can_transition_to : ExecutionStateMachine → ExecutionState → Bool
unfolding transitions
can_transition_to m target = transitions m.state target

unfoldable pub transition_to : ExecutionState → Action ExecutionStateMachine (Unit {0})
unfolding can_transition_to
transition_to target m =
    (raise_if (not (can_transition_to m target)) invalid_state_transition
        >> modify (λ (s : ExecutionStateMachine). record s { state = target }))
      m

unfoldable pub is_terminal : ExecutionStateMachine → Bool
is_terminal m = is_final m.state
