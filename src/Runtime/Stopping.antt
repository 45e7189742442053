-- ===== src/Runtime/Stopping.antt =====
-- The handlers of `_run_execution` of runtime.py bring a running execution to its end.
use agenyx.Base.{
  suc, ℕ, ◌≡◌, refl, Bool, true, false, Option, none, some, String, List, [], ◌∷◌, ◌++◌, All,
  is_empty, Value, ok, arith,
}
use agenyx.Execution.{Execution, state, status_of, call, fail, transition}
use agenyx.Execution
use agenyx.Execution.States.{ExecutionState, ExecutionStatus, is_final}
use agenyx.Execution.Invariant.{IsValid, call-IsValid}
use agenyx.Execution.Snapshot.{ExecutionResult, from_execution}
use agenyx.Context.{ExecutionContext, add_error}
use agenyx.Runtime.{
  Runtime, World, AgentEventType, execution_completed, execution_failed, execution_was_cancelled,
  publish, on_context, on_execution, cancel_token, persist_execution, transition_to, read,
}
use agenyx.Runtime.Monad.{returns, Run, settle, gets, modify, ◌>>=◌, ◌>>◌}
use agenyx.Runtime.Lifecycle.{keep_result, unless_final, mark_failed}
use agenyx.Runtime.Leads.{Leads, Lands}
use agenyx.Runtime.Keeps.{is_end, IsRunning}

unfinished_fails :
    (a b : ℕ) (text : String) (x : Option String) (e : Execution)
    → is_empty text ≡ false
    → is_final (state e) ≡ false
    → (Execution.mark_failed a b text x e).0 ≡ ok tt
unfolding Execution.mark_failed
unfinished_fails a b text x e h k = ground arith

fails_failed :
    (a b : ℕ) (text : String) (x : Option String) (e : Execution)
    → is_empty text ≡ false
    → is_final (state e) ≡ false
    → state (Execution.mark_failed a b text x e).1 ≡ ExecutionState.failed
unfolding Execution.mark_failed
fails_failed a b text x e h k = ground arith

unfinished_cancels :
    (a b : ℕ) (e : Execution)
    → is_final (state e) ≡ false
    → (Execution.transition_to a b ExecutionState.cancelled e).0 ≡ ok tt
unfolding Execution.transition_to
unfinished_cancels a b e k = ground arith

cancels_cancelled :
    (a b : ℕ) (e : Execution)
    → is_final (state e) ≡ false
    → state (Execution.transition_to a b ExecutionState.cancelled e).1 ≡ ExecutionState.cancelled
unfolding Execution.transition_to
cancels_cancelled a b e k = ground arith

fails-IsValid :
    (a b : ℕ) (text : String) (x : Option String) (e : Execution)
    → IsValid e
    → IsValid (Execution.mark_failed a b text x e).1
unfolding call
fails-IsValid a b text x e v = call-IsValid (fail a b text x) e v

pub transition-IsValid :
    (a b : ℕ) (t : ExecutionState) (e : Execution)
    → IsValid e
    → IsValid (Execution.transition_to a b t e).1
unfolding call
transition-IsValid a b t e v = call-IsValid (transition a b t) e v

-- the event that tells the end of a state
abbrev pub end_of : ExecutionState → AgentEventType
end_of ExecutionState.completed = execution_completed
end_of ExecutionState.failed = execution_failed
end_of _ = execution_was_cancelled

-- Between the last transition and the end of the coroutine.
pub record IsStopped (t : ExecutionState) (s : Runtime) : Type 0 where
  pub valid : IsValid s.execution
  pub over : state s.execution ≡ t
  pub streaming : s.streaming ≡ true
  pub active : s.active ≡ true

abbrev pub IsQuiet : Runtime → Type 0
IsQuiet s = All (λ t. is_end t ≡ false) s.stream

-- Nothing tells an end but the last event.
abbrev pub IsTold : ExecutionState → Runtime → Type 0
IsTold t s =
    (before : List AgentEventType) × ((s.stream ≡ before ++ end_of t ∷ [])
      × All (λ x. is_end x ≡ false) before)

abbrev pub status_kept : Runtime → Option ExecutionStatus
status_kept s = elim s.result [ none ↦ none | some r ↦ some r.status ]

abbrev pub IsKept : ExecutionState → Runtime → Type 0
IsKept t s = status_kept s ≡ some (status_of t)

module _ (t : ExecutionState) where
  pub quiet_then_told :
      (s : Runtime)
      → IsStopped t s
      → IsQuiet s
      → IsStopped t (publish (end_of t) s).1 × IsTold t (publish (end_of t) s).1
  unfolding publish modify
  quiet_then_told s v q = (
    record { valid = v.valid; over = v.over; streaming = v.streaming; active = v.active },
    (s.stream, (rw (v.active, v.streaming) refl, q)),
  )

  pub publish-Leads :
      Leads (λ s. IsStopped t s × IsQuiet s) (λ s. IsStopped t s × IsTold t s) (publish (end_of t))
  unfolding publish modify
  publish-Leads = record { at = λ s (v, q). (tt, quiet_then_told s v q) }

  pub keep-Leads :
      (output : Value) (P : Runtime → Type 0)
      → ((s : Runtime) (o : Option ExecutionResult) → P s → P (record s { result = o }))
      → Leads
          (λ s. IsStopped t s × P s)
          (λ s. IsStopped t s × (P s × IsKept t s))
          (keep_result output)
  unfolding keep_result modify from_execution
  keep-Leads output P stable = record {
    at = λ s (v, p). (
      tt,
      (
        record { valid = v.valid; over = v.over; streaming = v.streaming; active = v.active },
        (stable s _ p, rw (v.valid.synced, v.over) refl),
      ),
    );
  }

abbrev pub IsStage : ExecutionState → Runtime → Type 0
IsStage t s = IsStopped t s × IsQuiet s

-- `IsStage` and `IsRunning` do not ask for the context, the token and the clock.
pub IsStage-carries :
    (t : ExecutionState) (s : Runtime) (c : ExecutionContext) (b : Bool) (n : ℕ)
    → IsStage t s
    → IsStage t (record s { context = c; cancelled = b; ticks = n })
IsStage-carries t s c b n (v, q) =
    (record { valid = v.valid; over = v.over; streaming = v.streaming; active = v.active }, q)

pub IsRunning-carries :
    (s : Runtime) (c : ExecutionContext) (b : Bool) (n : ℕ)
    → IsRunning s
    → IsRunning (record s { context = c; cancelled = b; ticks = n })
IsRunning-carries s c b n v = record {
  valid = v.valid;
  unfinished = v.unfinished;
  streaming = v.streaming;
  active = v.active;
  no_result = v.no_result;
  no_end = v.no_end;
}

pub stops :
    (t : ExecutionState) (s : Runtime) (e : Execution) (n : ℕ)
    → IsRunning s
    → IsValid e
    → state e ≡ t
    → IsStage t (record s { execution = e; ticks = n })
stops t s e n v valid over =
    (record { valid = valid; over = over; streaming = v.streaming; active = v.active }, v.no_end)

module _ (P : Runtime → Type 0)
    (carries : (s : Runtime) (c : ExecutionContext) (b : Bool) (n : ℕ)
      → P s
      → P (record s { context = c; cancelled = b; ticks = n })) where
  pub cancel_token-Leads : Leads P P cancel_token
  unfolding cancel_token modify
  cancel_token-Leads = record { at = λ s v. (tt, carries s s.context true s.ticks v) }

  pub add_error-Leads :
      (text : String) → is_empty text ≡ false → Leads P P (on_context (add_error text))
  unfolding on_context add_error
  add_error-Leads text h = record { at = λ s v. rw h (tt, carries s _ s.cancelled s.ticks v) }

  pub persist-Leads :
      (w : World) → ((n : ℕ) → w.persists n ≡ returns tt) → Leads P P (persist_execution w)
  unfolding persist_execution read settle ◌>>=◌
  persist-Leads w h = record {
    at = λ s v. (rw (h s.ticks) tt, carries s s.context s.cancelled _ v);
  }

module _ (w : World) where
  pub mark_failed-Leads :
      (text : String)
      → is_empty text ≡ false
      → Leads IsRunning (IsStage ExecutionState.failed) (mark_failed w text)
  unfolding mark_failed read on_execution ◌>>=◌
  mark_failed-Leads text full = record {
    at = λ s v.
        let a = w.utc_now s.ticks in
        let b = w.utc_now (suc s.ticks) in
        (
          rw (unfinished_fails a b text (some "Exception") s.execution full v.unfinished) tt,
          stops ExecutionState.failed s _ _ v
              (fails-IsValid a b text (some "Exception") s.execution v.valid)
              (fails_failed a b text (some "Exception") s.execution full v.unfinished),
        );
  }

  pub transition-Leads :
      Leads IsRunning (IsStage ExecutionState.cancelled) (transition_to w ExecutionState.cancelled)
  unfolding transition_to read on_execution ◌>>=◌
  transition-Leads = record {
    at = λ s v.
        let a = w.utc_now s.ticks in
        let b = w.utc_now (suc s.ticks) in
        (
          rw (unfinished_cancels a b s.execution v.unfinished) tt,
          stops ExecutionState.cancelled s _ _ v
              (transition-IsValid a b ExecutionState.cancelled s.execution v.valid)
              (cancels_cancelled a b s.execution v.unfinished),
        );
  }

  pub unless-Lands :
      {A : Type 0} (R : Runtime → Type 0) (m : Run Runtime (Unit {0})) (n : Run Runtime A)
      → Lands IsRunning R (m >> n)
      → Lands IsRunning R (
          gets (λ (s : Runtime). state s.execution) >>= λ now. unless_final w (is_final now) m >> n)
  unfolding gets ◌>>=◌
  unless-Lands R m n l = record { at = λ s v. rw v.unfinished (l.at s v) }
