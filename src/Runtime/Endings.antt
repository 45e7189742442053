-- ===== src/Runtime/Endings.antt =====
-- The handlers of `_run_execution` of runtime.py bring a running execution to its end.
use agenyx.Base.{
  ℕ, ◌≡◌, refl, sym, subst, true, false, Option, none, String, is_empty, Error, Value,
  cancelled_error, execution_cancelled,
}
use agenyx.Execution.{state}
use agenyx.Execution.States.{ExecutionState, is_final}
use agenyx.Execution.Snapshot.{ExecutionResult}
use agenyx.Execution.Invariant.{IsValid}
use agenyx.Runtime.{Runtime, World, publish}
use agenyx.Runtime.Monad.{Exception, Attempt, returns, throws, Run, pure, settle, ◌>>◌}
use agenyx.Runtime.Lifecycle.{
  keep_result, clean_up, on_cancelled_execution, on_cancelled_task, on_failure, handlers,
}
use agenyx.Runtime.Leads.{Lands, Leads-bind, Lands-bind}
use agenyx.Runtime.Keeps.{IsRunning, LoudAs}
use agenyx.Runtime.Stopping.{
  IsStopped, IsTold, IsKept, IsStage, end_of, IsStage-carries, IsRunning-carries,
  cancel_token-Leads, add_error-Leads, persist-Leads, mark_failed-Leads, transition-Leads,
  unless-Lands, keep-Leads, publish-Leads,
}

abbrev pub IsConcluded : ExecutionState → Runtime → Type 0
IsConcluded t s = IsStopped t s × (IsTold t s × IsKept t s)

-- a handler's or the body's end
abbrev pub IsAtEnd : Runtime → Type 0
IsAtEnd s = (t : ExecutionState) × ((is_final t ≡ true) × IsConcluded t s)

told_stable :
    (t : ExecutionState) (s : Runtime) (o : Option ExecutionResult)
    → IsTold t s
    → IsTold t (record s { result = o })
told_stable t s o h = h

module _ {A : Type 0} (t : ExecutionState) (final : is_final t ≡ true) where
  concludes : (r : Run Runtime A) → ((s : Runtime) → (r s).1 ≡ s) → Lands (IsConcluded t) IsAtEnd r
  concludes r same = record { at = λ s v. subst IsAtEnd (sym (same s)) (t, (final, v)) }

  -- the last lines of the handlers
  tells :
      (r : Run Runtime A)
      → ((s : Runtime) → (r s).1 ≡ s)
      → Lands (IsStage t) IsAtEnd (publish (end_of t) >> (keep_result Value.null >> r))
  tells r same =
      Lands-bind _ (λ s. IsStopped t s × IsTold t s) _ _ _ (publish-Leads t)
        λ _.
          Lands-bind _ (IsConcluded t) _ _ _ (keep-Leads t Value.null (IsTold t) (told_stable t))
            λ _. concludes r same

abbrev FailedStage : Runtime → Type 0
FailedStage = IsStage ExecutionState.failed

abbrev CancelledStage : Runtime → Type 0
CancelledStage = IsStage ExecutionState.cancelled

settle_same : {A : Type 0} (r : Attempt A) (s : Runtime) → (settle r s).1 ≡ s
unfolding settle
settle_same r s = refl

pure_same : {A : Type 0} (a : A) (s : Runtime) → (pure a s).1 ≡ s
unfolding pure
pure_same a s = refl

module _ (w : World) (reliable : (n : ℕ) → w.persists n ≡ returns tt) where
  on_failure-Lands :
      (e : Exception) → is_empty e.text ≡ false → Lands IsRunning IsAtEnd (on_failure w e)
  unfolding on_failure
  on_failure-Lands e full = unless-Lands w IsAtEnd _ _ (
      Lands-bind _ FailedStage _ _ _
        (Leads-bind _ FailedStage _ _ _ (mark_failed-Leads w e.text full)
          λ _. persist-Leads FailedStage (IsStage-carries ExecutionState.failed) w reliable)
        λ _.
          Lands-bind _ FailedStage _ _ _
            (add_error-Leads FailedStage (IsStage-carries ExecutionState.failed) e.text full)
            λ _. tells ExecutionState.failed refl _ (settle_same (throws e)))

  on_cancelled_execution-Lands :
      (text : String)
      → is_empty text ≡ false
      → Lands IsRunning IsAtEnd (on_cancelled_execution w text)
  unfolding on_cancelled_execution
  on_cancelled_execution-Lands text full =
      Lands-bind _ IsRunning _ _ _ (add_error-Leads IsRunning IsRunning-carries text full) λ _.
        unless-Lands w IsAtEnd _ _ (
          Lands-bind _ CancelledStage _ _ _
            (Leads-bind _ CancelledStage _ _ _ (transition-Leads w) λ _.
              persist-Leads CancelledStage (IsStage-carries ExecutionState.cancelled) w reliable)
            λ _. tells ExecutionState.cancelled refl _ (pure_same none))

  on_cancelled_task-Lands : Lands IsRunning IsAtEnd (on_cancelled_task w)
  unfolding on_cancelled_task
  on_cancelled_task-Lands =
      Lands-bind _ IsRunning _ _ _ (cancel_token-Leads IsRunning IsRunning-carries) λ _.
        Lands-bind _ IsRunning _ _ _ (add_error-Leads IsRunning IsRunning-carries _ refl) λ _.
          unless-Lands w IsAtEnd _ _ (
            Lands-bind _ CancelledStage _ _ _ (transition-Leads w)
              λ _. tells ExecutionState.cancelled refl _ (pure_same none))

  pub handlers-Lands :
      (kind : Error) (e : Exception)
      → e.kind ≡ kind
      → LoudAs false kind e.text
      → Lands IsRunning IsAtEnd (handlers w kind e)
  handlers-Lands execution_cancelled e same h = on_cancelled_execution-Lands e.text h
  handlers-Lands cancelled_error e same h = on_cancelled_task-Lands
  handlers-Lands _ e same h = on_failure-Lands e h

-- The execution is valid and at its end, the last event alone tells this end, the result has its
-- status, the execution is not active and its stream is closed.
pub record IsEnded (s : Runtime) : Type 0 where
  pub valid : IsValid s.execution
  pub over : is_final (state s.execution) ≡ true
  pub told : IsTold (state s.execution) s
  pub kept : IsKept (state s.execution) s
  pub idle : s.active ≡ false
  pub closed : s.streaming ≡ false

pub cleaned : (s : Runtime) → IsAtEnd s → IsEnded (clean_up s)
unfolding clean_up
cleaned s (t, (final, (v, (told, kept)))) = record {
  valid = v.valid;
  over = rw v.over final;
  told = rw v.over told;
  kept = rw v.over kept;
  idle = refl;
  closed = refl;
}
