-- ===== src/Execution/Invariant.antt =====
-- What holds of an execution between two calls of its methods.
use agenyx.Base.{
  ℕ, ◌≡◌, Bool, true, false, Option, none, some, is_some, arith, Error, ok, raise, List, [], ◌∷◌,
  String, is_empty, value_error, runtime_error,
}
use agenyx.Execution.States.{ExecutionState, is_final}
use agenyx.Execution.{
  Execution, state, status_of, Call, transition, start, complete, fail, cancel, record_step, call,
  calls, new, mark_completed, mark_failed,
}

abbrev pub is_active : ExecutionState → Bool
is_active ExecutionState.created = false
is_active ExecutionState.completed = false
is_active ExecutionState.failed = false
is_active ExecutionState.cancelled = false
is_active _ = true

-- The status follows the state, the end is stamped exactly in the final states, an active or
-- completed execution has its start, and only a failed one has an error.
pub record IsValid (e : Execution) : Type 0 where
  pub synced : e.status ≡ status_of (state e)
  pub ended : is_some e.completed_at ≡ is_final (state e)
  pub begun : is_active (state e) ≡ true → is_some e.started_at ≡ true
  pub done : state e ≡ ExecutionState.completed → is_some e.started_at ≡ true
  pub fresh : state e ≡ ExecutionState.created → e.started_at ≡ none
  pub blamed : is_some e.error ≡ true → state e ≡ ExecutionState.failed

pub new-IsValid : (id a b : ℕ) → IsValid (new id a b)
unfolding new status_of
new-IsValid id a b = ground arith

transition-IsValid :
    (a b : ℕ) (t : ExecutionState) (e : Execution)
    → IsValid e
    → IsValid (call (transition a b t) e).1
unfolding call status_of
transition-IsValid a b ExecutionState.planning e v = ground arith
transition-IsValid a b _ e v = ground arith

pub call-IsValid : (c : Call) (e : Execution) → IsValid e → IsValid (call c e).1
unfolding call status_of
call-IsValid (transition a b t) e v = transition-IsValid a b t e v
call-IsValid (start a b) e v = ground arith
call-IsValid (complete a b c) e v = ground arith
call-IsValid (fail a b x y) e v = ground arith
call-IsValid (cancel a b) e v = ground arith
call-IsValid (record_step s) e v = ground arith

-- The invariant holds after any calls on a valid execution, those that raise included.
pub calls-IsValid : (cs : List Call) (e : Execution) → IsValid e → IsValid (calls cs e)
unfolding calls
calls-IsValid [] e v = v
calls-IsValid (c ∷ cs) e v = calls-IsValid cs (call c e).1 (call-IsValid c e v)

-- A call that raises leaves every field of the execution as it was.
pub call-raise_unchanged :
    (c : Call) (e : Execution) {x : Error} → (call c e).0 ≡ raise x → (call c e).1 ≡ e
unfolding call
call-raise_unchanged (transition a b t) e h = ground arith
call-raise_unchanged (start a b) e h = ground arith
call-raise_unchanged (complete a b c) e h = ground arith
call-raise_unchanged (fail a b x y) e h = ground arith
call-raise_unchanged (cancel a b) e h = ground arith
call-raise_unchanged (record_step s) e h = ground arith

abbrev can_complete : ExecutionState → Bool
can_complete ExecutionState.planning = true
can_complete ExecutionState.inference = true
can_complete ExecutionState.completed = true
can_complete _ = false

-- `mark_completed` is accepted in planning, inference and completed alone, and then the execution
-- is completed; the legacy bridge never leaves it halfway.
pub mark_completed_lem :
    (a b c : ℕ) (e : Execution)
    → (can_complete (state e) ≡ true
        → ((mark_completed a b c e).0 ≡ ok tt)
          × (state (mark_completed a b c e).1 ≡ ExecutionState.completed))
      × (can_complete (state e) ≡ false → mark_completed a b c e ≡ (raise runtime_error, e))
unfolding mark_completed
mark_completed_lem a b c e = (λ h. ground arith, λ h. ground arith)

-- `mark_failed` is accepted exactly with a reason and before the end; then the state, the error
-- and its type are recorded. Without a reason it raises ValueError, after the end RuntimeError.
pub mark_failed_lem :
    (a b : ℕ) (error : String) (error_type : Option String) (e : Execution)
    → let (r, e') = mark_failed a b error error_type e in
      (is_empty error ≡ false
        → is_final (state e) ≡ false
        → (r ≡ ok tt)
          × (state e' ≡ ExecutionState.failed)
          × (e'.error ≡ some error)
          × (e'.error_type ≡ error_type))
      × (is_empty error ≡ true → (r ≡ raise value_error) × (e' ≡ e))
      × (is_empty error ≡ false → is_final (state e) ≡ true → (r ≡ raise runtime_error) × (e' ≡ e))
unfolding mark_failed
mark_failed_lem a b x y e = (λ h k. ground arith, λ h. ground arith, λ h k. ground arith)
