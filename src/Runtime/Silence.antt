-- ===== src/Runtime/Silence.antt =====
-- `except Exception` of `_run_execution` in runtime.py, on an exception without a text.
use agenyx.Base.{
  ◌≡◌, refl, true, false, Option, none, some, String, All, is_empty, raise, value_error, arith, ℕ,
  suc,
}
use agenyx.Execution.{Execution, state}
use agenyx.Execution
use agenyx.Execution.States.{is_final}
use agenyx.Runtime.{Runtime, World, on_execution, read}
use agenyx.Runtime.Monad.{Exception, gets, ◌>>=◌}
use agenyx.Runtime.Lifecycle.{clean_up, mark_failed, on_failure}
use agenyx.Runtime.Keeps.{is_end, IsRunning}

silent_refused :
    (a b : ℕ) (text : String) (x : Option String) (e : Execution)
    → is_empty text ≡ true
    → Execution.mark_failed a b text x e ≡ (raise value_error, e)
unfolding Execution.mark_failed
silent_refused a b text x e h = ground arith

-- After an exception whose text is empty, as that of a bare `raise ValueError()`, a running
-- execution is left as it was: it is not at an end, it has no result, and no event told an end,
-- though it is no longer active and its stream is closed.
pub on_failure-silent :
    (w : World) (e : Exception) (s : Runtime)
    → is_empty e.text ≡ true
    → IsRunning s
    → let s' = clean_up (on_failure w e s).1 in
      (s'.execution ≡ s.execution)
      × (is_final (state s'.execution) ≡ false)
      × (s'.result ≡ none)
      × All (λ t. is_end t ≡ false) s'.stream
      × (s'.active ≡ false)
      × (s'.streaming ≡ false)
unfolding on_failure mark_failed read on_execution gets clean_up ◌>>=◌
on_failure-silent w e s h v =
    rw
      (
        v.unfinished,
        silent_refused (w.utc_now s.ticks) (w.utc_now (suc s.ticks)) e.text (some "Exception")
            s.execution h,
      )
      (refl, v.unfinished, v.no_result, v.no_end, refl, refl)
