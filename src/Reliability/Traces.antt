-- ===== src/Reliability/Traces.antt =====
-- The manager over any calls, for any providers and in any order.
use agenyx.Base.{
  ℕ, ◌+◌, ◌≡◌, refl, Bool, true, false, not, none, some, String, string_eq, arith, List, [], ◌∷◌,
  map, All, length, ok, ℤ, pos, leb_ℤ, ◌==◌, ==_iff, Bool-cases, inl, inr, Option-cases, last?, ◌∙◌,
  ap, lookup-insert,
}
use native.Mathlib.Nat.{zero-add}
use agenyx.Reliability.{
  ReliabilityManager, init, register, allow_request, record_success, record_failure, new_state,
}
use agenyx.Reliability.Invariant.{IsValid}
use agenyx.Reliability.Record.{record_success-IsValid, record_failure-IsValid, missing_raises}
use agenyx.Reliability.Allow.{allow_request-IsValid}
use agenyx.Reliability.Register.{init-IsValid, register-IsValid}
use agenyx.Reliability.Breaker.{
  Breaker, closed, tripped, probing, admit, strike, view, view-none, failure_refines,
  success_refines, allow_refines,
}

pub data Call : Type 0 where
  enrol : String → Call
  allow : String → ℕ → Call
  succeeded : String → ℕ → Call
  failed : String → ℕ → Call

unfoldable pub call : Call → ReliabilityManager → ReliabilityManager
call (enrol k) m = (register k m).1
call (allow k now) m = (allow_request k now m).1
call (succeeded k now) m = (record_success k now m).1
call (failed k now) m = (record_failure k now m).1

unfoldable pub run : List Call → ReliabilityManager → ReliabilityManager
run [] m = m
run (c ∷ cs) m = run cs (call c m)

pub call-IsValid : (c : Call) (m : ReliabilityManager) → IsValid m → IsValid (call c m)
unfolding call
call-IsValid (enrol k) m v = register-IsValid k m v
call-IsValid (allow k now) m v = allow_request-IsValid k now m v
call-IsValid (succeeded k now) m v = record_success-IsValid k now m v
call-IsValid (failed k now) m v = record_failure-IsValid k now m v

pub run-IsValid : (cs : List Call) (m : ReliabilityManager) → IsValid m → IsValid (run cs m)
unfolding run
run-IsValid [] m v = v
run-IsValid (c ∷ cs) m v = run-IsValid cs (call c m) (call-IsValid c m v)

-- Every manager that the constructor accepts stays valid over any calls.
pub init-run-IsValid :
    (low high timeout : ℤ) (cs : List Call) (m : ReliabilityManager)
    → init low high timeout ≡ ok m
    → IsValid (run cs m)
init-run-IsValid low high timeout cs m h = run-IsValid cs m (init-IsValid low high timeout m h)

-- The call records no outcome for the provider.
abbrev pub leaves_open : String → Call → Bool
leaves_open k (enrol _) = true
leaves_open k (allow _ _) = true
leaves_open k (succeeded j _) = not (j == k)
leaves_open k (failed j _) = not (j == k)

register-view :
    (j k : String) (m : ReliabilityManager) (b : Breaker)
    → view k m ≡ some b
    → view k (register j m).1 ≡ some b
unfolding register view
register-view j k m b h = ground (arith, ==_iff j k, lookup-insert k j (new_state j) m.states)

-- A call that names no registered provider changes nothing.
missing_unchanged :
    (j : String) (now : ℕ) (m : ReliabilityManager)
    → view j m ≡ none
    → (call (allow j now) m ≡ m) × (call (succeeded j now) m ≡ m) × (call (failed j now) m ≡ m)
unfolding call
missing_unchanged j now m h = ground (arith, missing_raises j now m (view-none j m h))

call_keeps_probe :
    (k : String) (c : Call) (m : ReliabilityManager)
    → IsValid m
    → leaves_open k c ≡ true
    → view k m ≡ some probing
    → view k (call c m) ≡ some probing
unfolding call admit
call_keeps_probe k (enrol j) m v l h = register-view j k m probing h
call_keeps_probe k (allow j now) m v l h = elim (Option-cases (view j m)) [
  | inl e ↦ rw ((missing_unchanged j now m e).0) h
  | inr (b, e) ↦ ground (arith, allow_refines j k now m b v e, ==_iff j k)
]
call_keeps_probe k (succeeded j now) m v l h = elim (Option-cases (view j m)) [
  | inl e ↦ rw ((missing_unchanged j now m e).1) h
  | inr (b, e) ↦ ground (arith, success_refines j k now m b v e)
]
call_keeps_probe k (failed j now) m v l h = elim (Option-cases (view j m)) [
  | inl e ↦ rw ((missing_unchanged j now m e).2) h
  | inr (b, e) ↦ ground (arith, failure_refines j k now m b v e)
]

pub run_keeps_probe :
    (k : String) (cs : List Call) (m : ReliabilityManager)
    → IsValid m
    → All (λ c. leaves_open k c ≡ true) cs
    → view k m ≡ some probing
    → view k (run cs m) ≡ some probing
unfolding run
run_keeps_probe k [] m v l h = h
run_keeps_probe k (c ∷ cs) m v l h =
    run_keeps_probe k cs (call c m) (call-IsValid c m v) l.1 (call_keeps_probe k c m v l.0 h)

-- While a probe of `k` runs, every further request to `k` is rejected, whatever else is called and
-- however much time passes, until an outcome of `k` is recorded.
pub probe_excludes :
    (k : String) (now : ℕ) (cs : List Call) (m : ReliabilityManager)
    → IsValid m
    → view k m ≡ some probing
    → All (λ c. leaves_open k c ≡ true) cs
    → (allow_request k now (run cs m)).0 ≡ ok false
unfolding admit
probe_excludes k now cs m v h l =
    (allow_refines k k now (run cs m) probing (run-IsValid cs m v) (run_keeps_probe k cs m v l h)).0

-- failures of `k` at given times
abbrev pub failures : String → List ℕ → List Call
failures k = map (failed k)

-- the breaker after failures at given times
abbrev strikes : ℤ → List ℕ → Breaker → Breaker
strikes threshold [] b = b
strikes threshold (t ∷ ts) b = strikes threshold ts (strike threshold t b)

failed-threshold :
    (k : String) (now : ℕ) (m : ReliabilityManager)
    → (call (failed k now) m).unhealthy_failure_threshold ≡ m.unhealthy_failure_threshold
unfolding call record_failure
failed-threshold k now m = ground arith

failed_strikes :
    (k : String) (t : ℕ) (m : ReliabilityManager) (b : Breaker)
    → IsValid m
    → view k m ≡ some b
    → view k (call (failed k t) m) ≡ some (strike m.unhealthy_failure_threshold t b)
unfolding call
failed_strikes k t m b v h = ground (arith, failure_refines k k t m b v h, ==_iff k k)

run-failures :
    (k : String) (threshold : ℤ) (ts : List ℕ) (m : ReliabilityManager) (b : Breaker)
    → m.unhealthy_failure_threshold ≡ threshold
    → IsValid m
    → view k m ≡ some b
    → view k (run (failures k ts) m) ≡ some (strikes threshold ts b)
unfolding run
run-failures k threshold [] m b q v h = h
run-failures k threshold (t ∷ ts) m b q v h =
    run-failures k threshold ts (call (failed k t) m) (strike threshold t b)
      (failed-threshold k t m ∙ q) (call-IsValid (failed k t) m v)
      (rw (← q) (failed_strikes k t m b v h))

strikes_tripped :
    (threshold : ℤ) (ts : List ℕ) (t u : ℕ)
    → last? (t ∷ ts) ≡ some u
    → strikes threshold ts (tripped t) ≡ tripped u
unfolding strike
strikes_tripped threshold [] t u h = cc
strikes_tripped threshold (x ∷ ts) t u h = strikes_tripped threshold ts x u h

strikes_below :
    (threshold : ℤ) (ts : List ℕ) (n : ℕ)
    → leb_ℤ threshold (pos (n + length ts)) ≡ false
    → strikes threshold ts (closed n) ≡ closed (n + length ts)
unfolding strike
strikes_below threshold [] n h = ground arith
strikes_below threshold (t ∷ ts) n h = ground (arith, strikes_below threshold ts (n + 1))

strikes_above :
    (threshold : ℤ) (ts : List ℕ) (n u : ℕ)
    → leb_ℤ threshold (pos n) ≡ false
    → leb_ℤ threshold (pos (n + length ts)) ≡ true
    → last? ts ≡ some u
    → strikes threshold ts (closed n) ≡ tripped u
unfolding strike
strikes_above threshold [] n u a h l = cc
strikes_above threshold (t ∷ ts) n u a h l = elim (Bool-cases (leb_ℤ threshold (pos (n + 1)))) [
  | inl reached ↦ rw reached (strikes_tripped threshold ts t u l)
  | inr under ↦
      rw under (strikes_above threshold ts (n + 1) u under (ground arith) (later ts u h under l))
]
  where
    later :
        (ts : List ℕ) (u : ℕ)
        → leb_ℤ threshold (pos (n + length (t ∷ ts))) ≡ true
        → leb_ℤ threshold (pos (n + 1)) ≡ false
        → last? (t ∷ ts) ≡ some u
        → last? ts ≡ some u
    later [] u h under l = ground arith
    later (x ∷ ts) u h under l = l

-- From a closed breaker with no failures, failures of `k` below the threshold are counted, and
-- once they reach it the breaker is open since the last of them.
pub run-failures_lem :
    (k : String) (ts : List ℕ) (u : ℕ) (m : ReliabilityManager)
    → IsValid m
    → view k m ≡ some (closed 0)
    → last? ts ≡ some u
    → (leb_ℤ m.unhealthy_failure_threshold (pos (length ts)) ≡ false
        → view k (run (failures k ts) m) ≡ some (closed (length ts)))
      × (leb_ℤ m.unhealthy_failure_threshold (pos (length ts)) ≡ true
          → view k (run (failures k ts) m) ≡ some (tripped u))
run-failures_lem k ts u m v h l =
    let to_strikes = run-failures k m.unhealthy_failure_threshold ts m (closed 0) refl v h in
    (
      λ below.
          to_strikes
          ∙ ap some (
              strikes_below m.unhealthy_failure_threshold ts 0 (rw zero-add below)
              ∙ ap closed (zero-add (length ts))),
      λ reached.
          to_strikes
          ∙ ap some (
              strikes_above m.unhealthy_failure_threshold ts 0 u (ground (arith, v.configured))
                (rw zero-add reached) l),
    )
