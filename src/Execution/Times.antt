-- ===== src/Execution/Times.antt =====
-- The timestamps of an execution under a clock that never goes back.
use agenyx.Base.{ℕ, ◌+◌, ◌-◌, ◌≤◌, ◌≡◌, Option, none, some, arith, List, [], ◌∷◌, map}
use agenyx.Execution.States.{ExecutionState}
use agenyx.Execution.{
  Execution, Call, transition, start, complete, fail, cancel, record_step, call, calls, duration,
  new,
}
use agenyx.Execution.Invariant.{IsValid, new-IsValid, call-IsValid}

-- A time that is set lies between two bounds.
abbrev Between : ℕ → ℕ → Option ℕ → Type 0
Between lo hi none = Unit
Between lo hi (some t) = (lo ≤ t) × (t ≤ hi)

-- the later of a start and the creation
abbrev since : ℕ → Option ℕ → ℕ
since created none = created
since created (some t) = t

-- created ≤ started ≤ completed ≤ now, as far as they are set
pub record IsOrdered (now : ℕ) (e : Execution) : Type 0 where
  pub born : e.created_at ≤ now
  pub started : Between e.created_at now e.started_at
  pub ended : Between (since e.created_at e.started_at) now e.completed_at

-- the readings of the clock in a call, the last one given: they do not decrease
abbrev pub Ticks : ℕ → Call → ℕ → Type 0
Ticks now (transition a b _) last = (now ≤ a) × (a ≤ b) × (b ≤ last)
Ticks now (start a b) last = (now ≤ a) × (a ≤ b) × (b ≤ last)
Ticks now (complete a b c) last = (now ≤ a) × (a ≤ b) × (b ≤ c) × (c ≤ last)
Ticks now (fail a b _ _) last = (now ≤ a) × (a ≤ b) × (b ≤ last)
Ticks now (cancel a b) last = (now ≤ a) × (a ≤ b) × (b ≤ last)
Ticks now (record_step _) last = now ≤ last

call-IsOrdered :
    (now last : ℕ) (c : Call) (e : Execution)
    → Ticks now c last
    → IsValid e
    → IsOrdered now e
    → IsOrdered last (call c e).1
unfolding call
call-IsOrdered now last (transition a b ExecutionState.planning) e t v o = ground arith
call-IsOrdered now last (transition a b s) e t v o = ground arith
call-IsOrdered now last (start a b) e t v o = ground arith
call-IsOrdered now last (complete a b c) e t v o = ground arith
call-IsOrdered now last (fail a b x y) e t v o = ground arith
call-IsOrdered now last (cancel a b) e t v o = ground arith
call-IsOrdered now last (record_step s) e t v o = ground arith

-- each call with its last reading of the clock
abbrev pub AllTick : ℕ → List (Call × ℕ) → ℕ → Type 0
AllTick now [] last = now ≡ last
AllTick now ((c, t) ∷ cs) last = Ticks now c t × AllTick t cs last

abbrev pub run : List (Call × ℕ) → Execution → Execution
run cs = calls (map (λ c. c.0) cs)

-- Under a clock that never goes back, the timestamps stay in order over any calls.
pub run-IsOrdered :
    (now last : ℕ) (cs : List (Call × ℕ)) (e : Execution)
    → AllTick now cs last
    → IsValid e
    → IsOrdered now e
    → IsOrdered last (run cs e)
unfolding calls
run-IsOrdered now last [] e t v o = rw (← t) o
run-IsOrdered now last ((c, n) ∷ cs) e t v o =
    run-IsOrdered n last cs (call c e).1 t.1 (call-IsValid c e v) (call-IsOrdered now n c e t.0 v o)

pub new-IsOrdered : (id a b : ℕ) → a ≤ b → IsOrdered b (new id a b)
unfolding new
new-IsOrdered id a b h = ground arith

duration_ordered :
    (now t u : ℕ) (e : Execution)
    → IsOrdered now e
    → e.started_at ≡ some (t)
    → e.completed_at ≡ some u
    → (d : ℕ) × (duration e ≡ some d) × (u ≡ t + d)
unfolding duration
duration_ordered now t u e o s c = (u - t, ground arith, ground arith)

-- From a new execution, under such a clock, the duration of an execution that has its start and
-- its end is exactly the time between them: the cut at zero never shows.
pub duration_exact :
    (id a b last t u : ℕ) (cs : List (Call × ℕ))
    → a ≤ b
    → AllTick b cs last
    → (run cs (new id a b)).started_at ≡ some t
    → (run cs (new id a b)).completed_at ≡ some u
    → (d : ℕ) × (duration (run cs (new id a b)) ≡ some d) × (u ≡ t + d)
duration_exact id a b last t u cs h k s c =
    duration_ordered last t u (run cs (new id a b))
      (run-IsOrdered b last cs (new id a b) k (new-IsValid id a b) (new-IsOrdered id a b h)) s c
