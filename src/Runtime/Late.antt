-- ===== src/Runtime/Late.antt =====
-- `_run_execution` of runtime.py, cancelled while it stores the completed execution.
use agenyx.Base.{
  ◌≡◌, refl, true, some, String, [], ◌∷◌, ◌++◌, Value, cancelled_error, ok, arith, ℕ, suc,
}
use agenyx.Execution.{Execution, state}
use agenyx.Execution
use agenyx.Execution.StateMachine
use agenyx.Execution.States.{ExecutionState}
use agenyx.Execution.Snapshot.{from_execution}
use agenyx.Context.{add_error}
use agenyx.Runtime.{
  Runtime, World, on_execution, on_context, read, publish, persist_execution, transition_to,
  cancel_token, execution_was_cancelled,
}
use agenyx.Runtime.Monad.{throws, settle, gets, modify, try, pure, ◌>>=◌}
use agenyx.Runtime.Lifecycle.{conclude, handlers, keep_result, on_cancelled_task}

concludes :
    (a b : ℕ) (e : Execution)
    → state e ≡ ExecutionState.inference
    → ((Execution.transition_to a b ExecutionState.completed e).0 ≡ ok tt)
      × (state (Execution.transition_to a b ExecutionState.completed e).1
          ≡ ExecutionState.completed)
unfolding Execution.transition_to StateMachine.transition_to
concludes a b e h = ground arith

-- When an active execution with an open stream is in inference and has its output, and the storing
-- of its completed state is cancelled, it is told as cancelled though it is completed: its state is
-- completed, the one event that its stream gets is that of a cancellation, and its result is that of
-- the completed execution without the output.
pub late_cancellation :
    (w : World) (output text : String) (s : Runtime)
    → s.active ≡ true
    → s.streaming ≡ true
    → state s.execution ≡ ExecutionState.inference
    → w.persists (suc (suc s.ticks)) ≡ throws (record { kind = cancelled_error; text = text })
    → let s' = (try (conclude w output) (λ e. handlers w e.kind e) s).1 in
      (state s'.execution ≡ ExecutionState.completed)
      × (s'.stream ≡ s.stream ++ execution_was_cancelled ∷ [])
      × (s'.result ≡ some (from_execution Value.null s'.execution))
unfolding try conclude transition_to persist_execution read on_execution settle ◌>>=◌
    on_cancelled_task cancel_token on_context add_error gets modify publish keep_result pure
late_cancellation w output text s active streaming inferring failing =
    let (accepted, completed) =
      concludes (w.utc_now s.ticks) (w.utc_now (suc s.ticks)) s.execution inferring in
    rw (accepted, failing) (rw (completed, active, streaming) (completed, refl, refl))
