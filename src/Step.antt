-- ===== src/Step.antt =====
-- domain/step.py, domain/step_status.py, domain/step_type.py: one operation within an execution.
-- A method's `now` is what `utc_now()` returns in it, in microseconds.
mod Laws
mod Tests
use agenyx.Base.{
  ℕ, ◌-◌, Bool, true, false, not, Option, none, some, String, Value, ℤ, pos, ltb_ℤ, Error,
  value_error, invalid_state_transition, Result, ok, raise, Action, ◌>>◌, raise_if, modify,
  if◌then◌else◌, is_empty, List, [], ◌∷◌,
}

pub data StepStatus : Type 0 where
  created waiting_approval running completed failed cancelled : StepStatus

pub data StepType : Type 0 where
  plan inference tool_call tool_result observation final : StepType

pub record Step : Type 0 where
  pub step_id : ℕ
  pub number : ℤ
  pub type : StepType
  pub status : StepStatus
  pub input : Value
  pub output : Value
  pub error : Option String
  pub started_at : Option ℕ
  pub completed_at : Option ℕ

-- `StepStatus.is_terminal`
abbrev pub is_terminal : StepStatus → Bool
is_terminal StepStatus.completed = true
is_terminal StepStatus.failed = true
is_terminal StepStatus.cancelled = true
is_terminal _ = false

-- `__post_init__`
unfoldable pub post_init : Step → Result Step
post_init s = if ltb_ℤ s.number (pos 1) then raise value_error else ok s

-- the table in `_transition_to`
unfoldable pub transitions : StepStatus → StepStatus → Bool
transitions StepStatus.created StepStatus.waiting_approval = true
transitions StepStatus.created StepStatus.running = true
transitions StepStatus.created StepStatus.failed = true
transitions StepStatus.created StepStatus.cancelled = true
transitions StepStatus.waiting_approval StepStatus.running = true
transitions StepStatus.waiting_approval StepStatus.failed = true
transitions StepStatus.waiting_approval StepStatus.cancelled = true
transitions StepStatus.running StepStatus.completed = true
transitions StepStatus.running StepStatus.failed = true
transitions StepStatus.running StepStatus.cancelled = true
transitions _ _ = false

-- `_transition_to`
transition_to : StepStatus → Action Step (Unit {0})
unfolding transitions
transition_to target s =
    (raise_if (not (transitions s.status target)) invalid_state_transition
        >> modify (λ (r : Step). record r { status = target }))
      s

-- `if x is None: x = now`
abbrev once : ℕ → Option ℕ → Option ℕ
once now none = some now
once now (some t) = some t

abbrev stamp_started : ℕ → Step → Step
stamp_started now s = record s { started_at = once now s.started_at }

abbrev stamp_completed : ℕ → Step → Step
stamp_completed now s = record s { completed_at = once now s.completed_at }

unfoldable pub mark_waiting_approval : Action Step (Unit {0})
unfolding transition_to
mark_waiting_approval = transition_to StepStatus.waiting_approval

abbrev is_running : StepStatus → Bool
is_running StepStatus.running = true
is_running _ = false

unfoldable pub mark_started : ℕ → Action Step (Unit {0})
unfolding transition_to
mark_started now s =
    if is_running s.status
    then (ok tt, s)
    else (transition_to StepStatus.running >> modify (stamp_started now)) s

unfoldable pub mark_completed : ℕ → Value → Action Step (Unit {0})
unfolding transition_to
mark_completed now output = do
  transition_to StepStatus.completed
  modify (λ (s : Step). record s { output = output })
  modify (stamp_completed now)

unfoldable pub mark_failed : ℕ → String → Action Step (Unit {0})
unfolding transition_to
mark_failed now error = do
  raise_if (is_empty error) value_error
  transition_to StepStatus.failed
  modify (λ (s : Step). record s { error = some error })
  modify (stamp_completed now)

unfoldable pub mark_cancelled : ℕ → Action Step (Unit {0})
unfolding transition_to
mark_cancelled now = do transition_to StepStatus.cancelled; modify (stamp_completed now)

-- `duration_seconds`, in microseconds: `max(0, completed_at - started_at)`
unfoldable pub duration : Step → Option ℕ
duration s = elim s.started_at [
  | none ↦ none
  | some t ↦ elim s.completed_at [ none ↦ none | some u ↦ some (u - t) ]
]

-- A call of one of the methods that change a step.
pub data Call : Type 0 where
  wait_approval : Call
  start : ℕ → Call
  complete : ℕ → Value → Call
  fail : ℕ → String → Call
  cancel : ℕ → Call

unfoldable pub invoke : Call → Action Step (Unit {0})
unfolding mark_waiting_approval mark_started mark_completed mark_failed mark_cancelled
invoke wait_approval = mark_waiting_approval
invoke (start now) = mark_started now
invoke (complete now output) = mark_completed now output
invoke (fail now error) = mark_failed now error
invoke (cancel now) = mark_cancelled now

-- Calls in a row by a caller that catches what they raise.
unfoldable pub invoke_all : List Call → Step → Step
invoke_all [] s = s
invoke_all (c ∷ cs) s = invoke_all cs (invoke c s).1
