-- ===== src/Base/Calls.antt =====
-- A method call: state and exceptions. The state comes back after a raise too, since what was
-- written stays written. An exception is its class; its message is not kept.
use mathlib.Core.Bool.{Bool, true, false}
use agenyx.Base.Tests.{if◌then◌else◌}

-- The classes of Python's builtins, of the agent and of the approval manager.
pub data Error : Type 0 where
  value_error runtime_error key_error type_error : Error
  invalid_state_transition : Error
  unknown_tool_error invalid_tool_arguments_error tool_execution_error : Error
  execution_limit_exceeded agent_max_steps_error execution_cancelled : Error
  llm_connection_error llm_timeout_error llm_response_error : Error
  approval_not_found approval_already_resolved tool_authorization_error : Error
  agent_protocol_error planning_error : Error
  cancelled_error timeout_error : Error
  valkey_timeout_error valkey_response_error other_error : Error

pub data Result (A : Type 0) : Type 0 where
  ok : A → Result A
  raise : Error → Result A

abbrev pub is_ok : {A : Type 0} → Result A → Bool
is_ok (ok _) = true
is_ok (raise _) = false

abbrev pub Action : Type 0 → Type 0 → Type 0
Action S A = S → Result A × S

abbrev pub pure : {S A : Type 0} → A → Action S A
pure a s = (ok a, s)

abbrev pub throw : {S A : Type 0} → Error → Action S A
throw e s = (raise e, s)

abbrev pub gets : {S A : Type 0} → (S → A) → Action S A
gets f s = (ok (f s), s)

abbrev pub modify : {S : Type 0} → (S → S) → Action S (Unit {0})
modify f s = (ok tt, f s)

-- `if c: raise e`
abbrev pub raise_if : {S : Type 0} → Bool → Error → Action S (Unit {0})
raise_if c e s = (if c then raise e else ok tt, s)

infixl 5 ◌>>=◌ ◌>>◌
abbrev pub ◌>>=◌ : {S A B : Type 0} → Action S A → (A → Action S B) → Action S B
◌>>=◌ m f s = let (r, s') = m s in elim r [ ok a ↦ f a s' | raise e ↦ (raise e, s') ]

abbrev pub ◌>>◌ : {S B : Type 0} → Action S (Unit {0}) → Action S B → Action S B
m >> k = m >>= λ _. k
