-- ===== src/Runtime/Ends.antt =====
-- `_run_execution` of runtime.py brings every created execution to its end.
use agenyx.Base.{ℕ, ◌≡◌, refl, true, Option, String}
use agenyx.Execution.{new}
use agenyx.Execution.States.{ExecutionState}
use agenyx.Execution.Invariant.{new-IsValid}
use agenyx.Runtime.{Runtime, World, Config, execution_started, publish}
use agenyx.Runtime.Monad.{Attempt, returns, throws, settle, modify, try, finally}
use agenyx.Runtime.Lifecycle.{
  conclude, run_execution, create_execution, handlers, run_body, run_tried,
}
use agenyx.Runtime.Leads.{Leads, Lands, Lands-bind}
use agenyx.Runtime.Keeps.{IsRunning}
use agenyx.Runtime.Stopping.{IsRunning-carries, persist-Leads}
use agenyx.Runtime.Endings.{IsAtEnd, IsEnded, handlers-Lands, cleaned}
use agenyx.Runtime.Completion.{Outcome, Ends, Ends-bind, completing, stored_told}
use agenyx.Runtime.Running.{
  IsLoudWorld, check_cancellation-Keeps, publish-Keeps, persist-Keeps, transition-Keeps,
}
use agenyx.Runtime.Executing.{execute-Keeps}

module _ (w : World) (reliable : (n : ℕ) → w.persists n ≡ returns tt) where
  module _ (loud : IsLoudWorld w) (c : Config) where
    run_body-Ends : (intent task : String) → Ends (run_body w c intent task)
    unfolding run_body conclude
    run_body-Ends intent task = Ends-bind _ _ (check_cancellation-Keeps w loud) λ _.
        Ends-bind _ _ (transition-Keeps w loud ExecutionState.planning refl) λ _.
          Ends-bind _ _ (persist-Keeps w loud) λ _.
            Ends-bind _ _ (execute-Keeps w loud c intent task) λ output.
              Ends-bind _ _ (check_cancellation-Keeps w loud)
                λ _. completing w reliable _ (stored_told w reliable output)

    handled :
        (r : Attempt (Option String)) (s : Runtime)
        → Outcome r s
        → IsAtEnd (try (settle r) (λ e. handlers w e.kind e) s).1
    unfolding try settle
    handled (returns o) s v = v
    handled (throws e) s v = (handlers-Lands w reliable e.kind e refl v.1).at s v.0

    tried_ends :
        (intent task : String)
        → Lands IsRunning IsAtEnd (try (run_body w c intent task) (λ e. handlers w e.kind e))
    unfolding try settle
    tried_ends intent task = record {
      at = λ s v.
          let (r, s') = run_body w c intent task s in
          handled r s' ((run_body-Ends intent task).at s v);
    }

    run_tried-Lands : (intent task : String) → Lands IsRunning IsEnded (run_tried w c intent task)
    unfolding run_tried finally
    run_tried-Lands intent task = record { at = λ s v. cleaned _ ((tried_ends intent task).at s v) }

    started_Leads : Leads IsRunning IsRunning (publish execution_started)
    unfolding publish modify
    started_Leads = record {
      at = λ s v. (tt, ((publish-Keeps {b = true} execution_started refl).at s v).0);
    }

    -- An execution that was created comes to its end, whatever the model, the tools, the approvals
    -- and the tasks answer, and at whichever await outside of the storing of its state a cancellation
    -- falls: it is in a final state, one event tells this end and is the last, the result has the
    -- status of the state, the execution is no longer active and its stream is closed. The
    -- conditions are that every storing of its state returns, so that it neither fails nor is
    -- cancelled there, and that no exception from outside has an empty text but for cancellations
    -- and for timeouts under a handler.
    pub run_execution-IsEnded :
        (id a b : ℕ) (session_id intent task : String)
        → IsEnded (run_execution w c intent task (create_execution id a b session_id task)).1
    unfolding run_execution create_execution new
    run_execution-IsEnded id a b session_id intent task =
        (Lands-bind _ IsRunning _ _ _ (persist-Leads IsRunning IsRunning-carries w reliable)
            λ _. Lands-bind _ IsRunning _ _ _ started_Leads λ _. run_tried-Lands intent task).at
          (create_execution id a b session_id task)
          (record {
            valid = new-IsValid id a b;
            unfinished = refl;
            streaming = refl;
            active = refl;
            no_result = refl;
            no_end = tt;
          })
