-- ===== src/Retry/Errors.antt =====
-- core/errors.py: the exception classes of the agent, their bases, and `isinstance`.
use agenyx.Base.{ℕ, zero, suc, Bool, false, Option, none, some, nat_beq, ◌||◌}

-- `foreign_error` is any exception of another hierarchy.
pub data ErrorClass : Type 0 where
  agenyx_error agent_error invalid_state_transition planning_error decision_error : ErrorClass
  agent_protocol_error tool_not_found unknown_tool_error tool_validation_error : ErrorClass
  invalid_tool_arguments_error tool_execution_error execution_limit_exceeded : ErrorClass
  agent_max_steps_error execution_cancelled inference_unavailable : ErrorClass
  inference_request_failed tool_error llm_error llm_connection_error : ErrorClass
  llm_timeout_error llm_response_error authentication_error : ErrorClass
  invalid_credentials_error user_already_exists_error foreign_error : ErrorClass

-- the base class in this hierarchy (ToolExecutionError is a RuntimeError besides)
unfoldable pub base : ErrorClass → Option ErrorClass
base agenyx_error = none
base agent_error = some agenyx_error
base invalid_state_transition = some agent_error
base planning_error = some agent_error
base decision_error = some agent_error
base agent_protocol_error = some decision_error
base tool_not_found = some agent_error
base unknown_tool_error = some tool_not_found
base tool_validation_error = some agent_error
base invalid_tool_arguments_error = some tool_validation_error
base tool_execution_error = some agent_error
base execution_limit_exceeded = some agent_error
base agent_max_steps_error = some execution_limit_exceeded
base execution_cancelled = some agent_error
base inference_unavailable = some agent_error
base inference_request_failed = some agent_error
base tool_error = some agenyx_error
base llm_error = some agenyx_error
base llm_connection_error = some llm_error
base llm_timeout_error = some llm_error
base llm_response_error = some llm_error
base authentication_error = some agenyx_error
base invalid_credentials_error = some authentication_error
base user_already_exists_error = some authentication_error
base foreign_error = none

-- the classes by number, to compare them
abbrev number : ErrorClass → ℕ
number agenyx_error = 0
number agent_error = 1
number invalid_state_transition = 2
number planning_error = 3
number decision_error = 4
number agent_protocol_error = 5
number tool_not_found = 6
number unknown_tool_error = 7
number tool_validation_error = 8
number invalid_tool_arguments_error = 9
number tool_execution_error = 10
number execution_limit_exceeded = 11
number agent_max_steps_error = 12
number execution_cancelled = 13
number inference_unavailable = 14
number inference_request_failed = 15
number tool_error = 16
number llm_error = 17
number llm_connection_error = 18
number llm_timeout_error = 19
number llm_response_error = 20
number authentication_error = 21
number invalid_credentials_error = 22
number user_already_exists_error = 23
number foreign_error = 24

-- `c is d` or a base of `c` is, at most `n` classes up
is_within : ℕ → ErrorClass → ErrorClass → Bool
unfolding base
is_within zero c d = nat_beq (number c) (number d)
is_within (suc n) c d =
    nat_beq (number c) (number d) || elim (base c) [ none ↦ false | some b ↦ is_within n b d ]

-- `isinstance(error, c)` for an error of the class given: no class is more than three levels deep.
unfoldable pub isinstance : ErrorClass → ErrorClass → Bool
unfolding is_within
isinstance error c = is_within 3 error c
