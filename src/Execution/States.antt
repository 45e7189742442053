-- ===== src/Execution/States.antt =====
-- domain/execution_state.py and domain/status.py: the states of an execution.
use agenyx.Base.{Bool, true, false}

pub data ExecutionState : Type 0 where
  created planning inference waiting_approval tool_execution observing : ExecutionState
  completed failed cancelled : ExecutionState

pub data ExecutionStatus : Type 0 where
  created running completed failed cancelled waiting_approval : ExecutionStatus
  crashed recovering replaying : ExecutionStatus

-- the sets `{COMPLETED, FAILED, CANCELLED}` that the code tests membership of
abbrev pub is_final : ExecutionState → Bool
is_final ExecutionState.completed = true
is_final ExecutionState.failed = true
is_final ExecutionState.cancelled = true
is_final _ = false
