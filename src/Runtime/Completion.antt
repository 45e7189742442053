-- ===== src/Runtime/Completion.antt =====
-- The last lines of the body of `_run_execution` of runtime.py, and how the body comes out.
use agenyx.Base.{
  ℕ, suc, ◌≡◌, refl, false, Option, some, String, arith, Error, Value, Result, ok, raise, inl, inr,
  ◌⊎◌,
}
use agenyx.Execution.{Execution, state, status_of, call, transition}
use agenyx.Execution
use agenyx.Execution.States.{ExecutionState}
use agenyx.Execution.Invariant.{call-raise_unchanged}
use agenyx.Runtime.{
  Runtime, World, execution_completed, publish, on_execution, persist_execution, transition_to,
  read,
}
use agenyx.Runtime.Monad.{Attempt, returns, throws, Run, pure, settle, modify, ◌>>=◌, ◌>>◌}
use agenyx.Runtime.Lifecycle.{keep_result}
use agenyx.Runtime.Leads.{Returned, Leads, Leads-bind}
use agenyx.Runtime.Keeps.{IsRunning, IsLoud, Keeps, LoudAs, full-LoudAs}
use agenyx.Runtime.Stopping.{
  IsStopped, IsQuiet, IsKept, IsStage, IsStage-carries, IsRunning-carries, stops, persist-Leads,
  keep-Leads, publish-Leads, transition-IsValid,
}
use agenyx.Runtime.Endings.{IsConcluded, IsAtEnd}

-- where the body of the `try` comes out
abbrev pub Outcome : {A : Type 0} → Attempt A → Runtime → Type 0
Outcome (returns _) s = IsAtEnd s
Outcome (throws e) s = IsRunning s × LoudAs false e.kind e.text

pub record Ends {A : Type 0} (m : Run Runtime A) : Type 0 where
  pub at : (s : Runtime) → IsRunning s → Outcome (m s).0 (m s).1

module _ {A B : Type 0} where
  ends_after :
      (f : A → Run Runtime B)
      → ((a : A) → Ends (f a))
      → (r : Attempt A) (s : Runtime) → IsRunning s
      → IsLoud false r
      → Outcome ((settle r >>= f) s).0 ((settle r >>= f) s).1
  unfolding ◌>>=◌ settle
  ends_after f ef (returns a) s v h = (ef a).at s v
  ends_after f ef (throws e) s v h = (v, h)

  pub Ends-bind :
      (m : Run Runtime A) (f : A → Run Runtime B)
      → Keeps false m
      → ((a : A) → Ends (f a))
      → Ends (m >>= f)
  unfolding ◌>>=◌ settle
  Ends-bind m f km ef = record {
    at = λ s v. let (r, s') = m s in ends_after f ef r s' (km.at s v).0 (km.at s v).1;
  }

returned_at_end : {A : Type 0} (r : Attempt A) (s : Runtime) → Returned r → IsAtEnd s → Outcome r s
returned_at_end (returns a) s h v = v
returned_at_end (throws e) s h v = elim h [ ]

result_cases : (r : Result (Unit {0})) → (r ≡ ok tt) ⊎ ((x : Error) × (r ≡ raise x))
result_cases (ok _) = inl refl
result_cases (raise x) = inr (x, refl)

completes_completed :
    (a b : ℕ) (e : Execution)
    → (Execution.transition_to a b ExecutionState.completed e).0 ≡ ok tt
    → state (Execution.transition_to a b ExecutionState.completed e).1 ≡ ExecutionState.completed
unfolding Execution.transition_to
completes_completed a b e h = ground arith

refused_unchanged :
    (a b : ℕ) (e : Execution) (x : Error)
    → (Execution.transition_to a b ExecutionState.completed e).0 ≡ raise x
    → (Execution.transition_to a b ExecutionState.completed e).1 ≡ e
unfolding call
refused_unchanged a b e x h = call-raise_unchanged (transition a b ExecutionState.completed) e h

abbrev done : ExecutionState
done = ExecutionState.completed

module _ (w : World) (reliable : (n : ℕ) → w.persists n ≡ returns tt) where
  IsKept-told :
      Leads
        (λ s. IsStopped done s × (IsQuiet s × IsKept done s))
        (IsConcluded done)
        (publish execution_completed)
  unfolding publish modify
  IsKept-told = record {
    at = λ s (v, (q, k)).
        let (r, (v', told)) = (publish-Leads done).at s (v, q) in (r, (v', (told, k)));
  }

  -- the completed execution is stored, its result kept and its end told
  pub stored_told :
      (output : String)
      → Leads (IsStage done) IsAtEnd (
          persist_execution w
          >> (keep_result (Value.str output)
              >> (publish execution_completed >> pure (some output))))
  unfolding pure
  stored_told output =
      Leads-bind _ (IsStage done) _ _ _
        (persist-Leads (IsStage done) (IsStage-carries done) w reliable)
        λ _.
          Leads-bind _ (λ s. IsStopped done s × (IsQuiet s × IsKept done s)) _ _ _
            (keep-Leads done (Value.str output) IsQuiet λ s o q. q)
            λ _.
              Leads-bind _ (IsConcluded done) _ _ _ IsKept-told
                λ _. record { at = λ s v. (tt, (done, (refl, v))) }

  module _ (rest : Run Runtime (Option String)) (l : Leads (IsStage done) IsAtEnd rest) where
    pub completing : Ends (transition_to w done >> rest)
    unfolding transition_to read on_execution ◌>>=◌
    completing = record {
      at = λ s v.
          let a = w.utc_now s.ticks in
          let b = w.utc_now (suc s.ticks) in
          let e = s.execution in
          elim (result_cases (Execution.transition_to a b done e).0) [
            | inl h ↦
                let stage =
                  stops done s _ (suc (suc s.ticks)) v (transition-IsValid a b done e v.valid)
                    (completes_completed a b e h) in
                rw h (returned_at_end _ _ (l.at _ stage).0 (l.at _ stage).1)
            | inr (x, h) ↦ rw h (
                rw (refused_unchanged a b e x h) (
                  IsRunning-carries s s.context s.cancelled (suc (suc s.ticks)) v,
                  full-LoudAs false x "error" refl,
                ))
          ];
    }
