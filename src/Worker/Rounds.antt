-- ===== src/Worker/Rounds.antt =====
-- What the loop of the worker survives, and how it ends: see worker.py.
use agenyx.Base.{◌≡◌, Bool, true, false, string_eq, cancelled_error}
use agenyx.Worker.{Valkey, Session}
use agenyx.Runtime.Monad.{Attempt, returns, throws, Run}

-- An outcome that is no exception but a cancellation.
abbrev pub IsCancelled : {A : Type 0} → Attempt A → Type 0
IsCancelled (returns _) = Unit
IsCancelled (throws e) = e.kind ≡ cancelled_error

-- a coroutine that raises nothing but a cancellation
record Survives {S A : Type 0} (m : Run S A) : Type 0 where
  at : (s : S) → IsCancelled (m s).0

-- How a loop that is watched for some rounds may be found: it has left and the shutdown is
-- requested, it still runs, or it was cancelled.
abbrev pub IsLoopEnd : {V : Valkey} → Attempt Bool × Session V → Type 0
IsLoopEnd (returns true, s) = s.shutdown ≡ true
IsLoopEnd (returns false, s) = Unit
IsLoopEnd (throws e, s) = e.kind ≡ cancelled_error
