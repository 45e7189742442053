-- ===== src/Runtime/Outputs.antt =====
-- The outputs of the steps that runtime.py completes.
use agenyx.Base.{
  ℕ, zero, suc, ◌≡◌, refl, sym, ◌∙◌, Option, none, some, List, [], ◌∷◌, get_elem?, set, ok, raise,
  arith, Value, Result,
}
use agenyx.Step.{Step}
use agenyx.Step
use agenyx.Runtime.{Runtime, World, on_step, read, complete_step}
use agenyx.Runtime.Monad.{returns, ◌>>=◌, described}

get_elem?-set :
    {A : Type 0} (l : List A) (i : ℕ) (x y : A)
    → get_elem? l i ≡ some x
    → get_elem? (set l i y) i ≡ some y
get_elem?-set (a ∷ l) zero x y h = refl
get_elem?-set (a ∷ l) (suc i) x y h = get_elem?-set l i x y h
get_elem?-set [] i x y h = ground arith

completed_empty :
    (now : ℕ) (step : Step)
    → (Step.mark_completed now Value.null step).0 ≡ ok tt
    → (Step.mark_completed now Value.null step).1.output ≡ Value.null
unfolding Step.mark_completed
completed_empty now step h = ground arith

described_ok : (r : Result (Unit {0})) → described r ≡ returns tt → r ≡ ok tt
described_ok (ok _) h = refl
described_ok (raise e) h = ground arith

-- the output of the step at a position
abbrev pub output_at : ℕ → Runtime → Option Value
output_at i s = elim (get_elem? s.execution.steps i) [ none ↦ none | some step ↦ some step.output ]

module _ (w : World) (i : ℕ) (v : Value) where
  completing :
      (s : Runtime) (step : Step)
      → get_elem? s.execution.steps i ≡ some step
      → (complete_step w i v s).0
        ≡ described
            (Step.mark_completed (w.utc_now s.ticks) Value.null (record step { output = v })).0
  unfolding complete_step on_step read ◌>>=◌
  completing s step h =
      rw (h, get_elem?-set s.execution.steps i step (record step { output = v }) h) refl

  -- A step that is completed after its output was set ends without an output: when the runtime
  -- sets an output of a step and completes the step, and that returns, the step's output is null.
  pub complete_step-output :
      (s : Runtime) (step : Step)
      → get_elem? s.execution.steps i ≡ some step
      → (complete_step w i v s).0 ≡ returns tt
      → output_at i (complete_step w i v s).1 ≡ some Value.null
  unfolding complete_step on_step read ◌>>=◌
  complete_step-output s step h r =
      let now = w.utc_now s.ticks in
      let filled = record step { output = v } in
      let ended = (Step.mark_completed now Value.null filled).1 in
      let first = get_elem?-set s.execution.steps i step filled h in
      let second = get_elem?-set (set s.execution.steps i filled) i filled ended first in
      let answer = completing s step h in
      rw (h, first)
        (rw (second, output_at)
          (rw (completed_empty now filled (described_ok _ (sym answer ∙ r))) refl))
