-- ===== src/Step/Laws.antt =====
-- What holds of a step between two calls of its methods.
use agenyx.Base.{
  ℕ, ◌-◌, ◌≡◌, refl, ◌↔◌, is_empty, true, false, none, some, is_some, arith, Error, ok, raise, List,
  [], ◌∷◌, Value, String, pos, ◌≤ℤ◌,
}
use agenyx.Step.{
  Step, StepStatus, is_terminal, transitions, mark_completed, mark_failed, duration, Call, start,
  complete, fail, cancel, wait_approval, invoke, invoke_all,
}

-- The timestamps tell the status: a terminal step has its end, a running one its start, and only
-- a completed step needs to have started.
pub record IsValid (s : Step) : Type 0 where
  pub numbered : pos 1 ≤ℤ s.number
  pub ended : is_some s.completed_at ≡ is_terminal s.status
  pub begun : s.status ≡ StepStatus.running → is_some s.started_at ≡ true
  pub done : s.status ≡ StepStatus.completed → is_some s.started_at ≡ true
  pub fresh : s.status ≡ StepStatus.created → s.started_at ≡ none
  pub explained : s.status ≡ StepStatus.failed → is_some s.error ≡ true

pub invoke-IsValid : (c : Call) (s : Step) → IsValid s → IsValid (invoke c s).1
unfolding invoke transitions
invoke-IsValid wait_approval s v = ground arith
invoke-IsValid (start now) s v = ground arith
invoke-IsValid (complete now o) s v = ground arith
invoke-IsValid (fail now e) s v = ground arith
invoke-IsValid (cancel now) s v = ground arith

-- The invariant holds after any calls on a valid step, those that raise included.
pub invoke_all-IsValid : (cs : List Call) (s : Step) → IsValid s → IsValid (invoke_all cs s)
unfolding invoke_all
invoke_all-IsValid [] s v = v
invoke_all-IsValid (c ∷ cs) s v = invoke_all-IsValid cs (invoke c s).1 (invoke-IsValid c s v)

-- A call that raises leaves the step as it was.
pub invoke-raise_unchanged :
    (c : Call) (s : Step) {e : Error} → (invoke c s).0 ≡ raise e → (invoke c s).1 ≡ s
unfolding invoke transitions
invoke-raise_unchanged wait_approval s h = ground arith
invoke-raise_unchanged (start now) s h = ground arith
invoke-raise_unchanged (complete now o) s h = ground arith
invoke-raise_unchanged (fail now x) s h = ground arith
invoke-raise_unchanged (cancel now) s h = ground arith

invoke_terminal : (c : Call) (s : Step) → is_terminal s.status ≡ true → (invoke c s).1 ≡ s
unfolding invoke transitions
invoke_terminal wait_approval s h = ground arith
invoke_terminal (start now) s h = ground arith
invoke_terminal (complete now o) s h = ground arith
invoke_terminal (fail now x) s h = ground arith
invoke_terminal (cancel now) s h = ground arith

-- A terminal step is immutable: no calls change any field of it.
pub invoke_all_terminal :
    (cs : List Call) (s : Step) → is_terminal s.status ≡ true → invoke_all cs s ≡ s
unfolding invoke_all
invoke_all_terminal [] s h = refl
invoke_all_terminal (c ∷ cs) s h =
    let e = invoke_terminal c s h in rw e (invoke_all_terminal cs s h)

-- A running step that began at `t` completes at `now` with the output, and lasted `now - t`.
pub duration-mark_completed :
    (now t : ℕ) (output : Value) (s : Step)
    → IsValid s
    → s.status ≡ StepStatus.running
    → s.started_at ≡ some (t)
    → ((mark_completed now output s).0 ≡ ok tt)
      × ((mark_completed now output s).1.status ≡ StepStatus.completed)
      × ((mark_completed now output s).1.output ≡ output)
      × (duration (mark_completed now output s).1 ≡ some (now - t))
unfolding mark_completed transitions duration
duration-mark_completed now t output s v r b = ground arith

-- Completion is accepted in a running step alone.
pub mark_completed_iff :
    (now : ℕ) (output : Value) (s : Step)
    → ((mark_completed now output s).0 ≡ ok tt) ↔ (s.status ≡ StepStatus.running)
unfolding mark_completed transitions
mark_completed_iff now output s = (λ h. ground arith, λ h. ground arith)

-- Failure is accepted exactly with a reason and before the end.
pub mark_failed_iff :
    (now : ℕ) (error : String) (s : Step)
    → ((mark_failed now error s).0 ≡ ok tt)
      ↔ ((is_empty error ≡ false) × (is_terminal s.status ≡ false))
unfolding mark_failed transitions
mark_failed_iff now error s = (λ h. ground arith, λ h. ground arith)
