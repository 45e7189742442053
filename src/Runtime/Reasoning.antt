-- ===== src/Runtime/Reasoning.antt =====
-- `_execute_tool_calls` and `_execute` of runtime.py keep the execution running.
use agenyx.Base.{
  subst, sym, ℕ, suc, ◌≡◌, refl, Bool, true, false, String, List, [], ◌∷◌, All, Error, Value, ℤ,
  Dict, cancelled_error, string_eq,
}
use agenyx.Planner.{AgentDecision}
use agenyx.Runtime.{Runtime, World, Config}
use agenyx.Runtime.Monad.{Exception, Attempt, returns, throws, Run, pure, throw, settle, try, ◌>>=◌}
use agenyx.Runtime.Admission.{Admitted}
use agenyx.Runtime.Batch.{outcome, run_batch, run_task}
use agenyx.Runtime.Calls.{
  Results, first_failure, raise_as, raise_first, apply_results, run_tasks, execute_tool_calls,
}
use agenyx.Runtime.Keeps.{
  Keeps-try_awaited, LoudAs, IsRunning, IsLoud, Keeps, Keeps-pure, Keeps-settle,
}
use agenyx.Runtime.Running.{IsLoudWorld, step_rules, world_rules, config_rules}
use agenyx.Runtime.Batches.{
  admit-Keeps, run_call-Keeps, run_task-Keeps, run_batch-Keeps, record_results-Keeps,
}
use agenyx.Runtime.Approvals.{
  add_call_steps-Keeps, mark_waiting-Keeps, handle_required_approvals-Keeps, of_gathering-Keeps,
}

-- What holds of the value that a coroutine returns.
abbrev Post : {A : Type 0} → (A → Type 0) → Attempt A → Type 0
Post Q (returns a) = Q a
Post Q (throws e) = Unit

record Gives {A : Type 0} (Q : A → Type 0) (m : Run Runtime A) : Type 0 where
  at : (s : Runtime) → IsRunning s → Post Q (m s).0

module _ {A B : Type 0} (P : A → Type 0) where
  given-Keeps :
      (f : A → Run Runtime B)
      → ((a : A) → P a → Keeps false (f a))
      → (r : Attempt A) (s : Runtime) → IsRunning s
      → IsLoud false r
      → Post P r
      → IsRunning ((settle r >>= f) s).1 × IsLoud false ((settle r >>= f) s).0
  unfolding ◌>>=◌ settle
  given-Keeps f kf (returns a) s v h p = (kf a p).at s v
  given-Keeps f kf (throws e) s v h p = (v, h)

  Keeps-given :
      (m : Run Runtime A) (f : A → Run Runtime B)
      → Keeps false m
      → Gives P m
      → ((a : A) → P a → Keeps false (f a))
      → Keeps false (m >>= f)
  unfolding ◌>>=◌ settle
  Keeps-given m f km gm kf = record {
    at = λ s v. let (r, s') = m s in given-Keeps f kf r s' (km.at s v).0 (km.at s v).1 (gm.at s v);
  }

  then-Gives :
      (Q : B → Type 0) (f : A → Run Runtime B)
      → ((a : A) → P a → Gives Q (f a))
      → (r : Attempt A) (s : Runtime) → IsRunning s
      → Post P r
      → Post Q ((settle r >>= f) s).0
  unfolding ◌>>=◌ settle
  then-Gives Q f gf (returns a) s v p = (gf a p).at s v
  then-Gives Q f gf (throws e) s v p = tt

  Gives-bind :
      (Q : B → Type 0) (m : Run Runtime A) (f : A → Run Runtime B)
      → Keeps false m
      → Gives P m
      → ((a : A) → P a → Gives Q (f a))
      → Gives Q (m >>= f)
  unfolding ◌>>=◌ settle
  Gives-bind Q m f km gm gf = record {
    at = λ s v. let (r, s') = m s in then-Gives Q f gf r s' (km.at s v).0 (gm.at s v);
  }

Gives-pure : {A : Type 0} (Q : A → Type 0) (a : A) → Q a → Gives Q (pure a)
unfolding pure
Gives-pure Q a h = record { at = λ s v. h }

-- the failures of a batch
abbrev AllLoud : Results → Type 0
AllLoud = All (λ r. IsLoud false r.1)

module _ (w : World) (c : Config) where
  raise_as-Keeps :
      (kind : Error) (e : Exception)
      → e.kind ≡ kind
      → LoudAs false kind e.text
      → Keeps false (raise_as w c kind e)
  raise_as-Keeps cancelled_error e same h = search step_rules
  raise_as-Keeps _ e same h =
      Keeps-settle (throws e) (subst (λ x. LoudAs false x e.text) (sym same) h)

  raise_first-Keeps : (l : Results) → AllLoud l → Keeps false (raise_first w c (first_failure l))
  unfolding first_failure
  raise_first-Keeps [] h = Keeps-pure tt
  raise_first-Keeps ((a, returns v) ∷ l) h = raise_first-Keeps l h.1
  raise_first-Keeps ((a, throws e) ∷ l) h = raise_as-Keeps e.kind e refl h.0

module _ (w : World) (loud : IsLoudWorld w) (c : Config) where
  IsLoud-settled :
      (r : Attempt Value) (s : Runtime)
      → IsLoud false r
      → Post (IsLoud false) (outcome w c (settle r) s).0
  unfolding outcome settle try pure ◌>>=◌
  IsLoud-settled (returns v) s h = tt
  IsLoud-settled (throws e) s h = h

  IsLoud-outcome : (m : Run Runtime Value) → Keeps false m → Gives (IsLoud false) (outcome w c m)
  unfolding outcome settle try pure ◌>>=◌
  IsLoud-outcome m k = record { at = λ s v. let (r, s') = m s in IsLoud-settled r s' (k.at s v).1 }

  IsLoud-task :
      (begun : Bool) (t : ℤ) (k j i : ℕ)
      → Gives (IsLoud false) (outcome w c (run_task w c begun t k j i))
  unfolding throw
  IsLoud-task true t k j i = IsLoud-outcome _ (run_call-Keeps w loud c t k j i)
  IsLoud-task false t k j i =
      IsLoud-outcome (throw cancelled_error "") (record { at = λ s v. (v, tt) })

  batch-AllLoud :
      (t : ℤ) (k j : ℕ) (steps : Dict String ℕ) (l : List Admitted)
      → Gives AllLoud (run_batch w c t k j steps l)
  unfolding run_batch
  batch-AllLoud t k j steps [] = Gives-pure AllLoud [] tt
  batch-AllLoud t k j steps (a ∷ l) =
      Gives-bind (IsLoud false) AllLoud _ _ (run_task-Keeps w loud c (w.begins k j) t k j _)
        (IsLoud-task (w.begins k j) t k j _)
        λ r h.
          Gives-bind AllLoud AllLoud _ _ (run_batch-Keeps w loud c t k (suc j) steps l)
            (batch-AllLoud t k (suc j) steps l) λ others hs. Gives-pure AllLoud _ (h, hs)

  apply_results-Keeps : (k : ℕ) (l : Results) → AllLoud l → Keeps false (apply_results w c k l)
  unfolding apply_results
  apply_results-Keeps k l h =
      let gathered = loud.gathers k in
      search
        (
          world_rules,
          Keeps-try_awaited,
          of_gathering-Keeps w loud c,
          record_results-Keeps w loud c,
          raise_first-Keeps w c,
          gathered,
        )
        depth 30 fits 3000

  run_tasks-Keeps :
      (t : ℤ) (k : ℕ) (steps : Dict String ℕ) (l : List Admitted)
      → Keeps false (run_tasks w c t k steps l)
  unfolding run_tasks
  run_tasks-Keeps t k steps l =
      Keeps-given AllLoud _ _ (run_batch-Keeps w loud c t k 0 steps l) (batch-AllLoud t k 0 steps l)
        (apply_results-Keeps k)

  pub execute_tool_calls-Keeps :
      (response : Value) (d : AgentDecision) (t : ℤ) (k : ℕ)
      → Keeps false (execute_tool_calls w c response d t k)
  unfolding execute_tool_calls
  execute_tool_calls-Keeps response d t k =
      search
        (
          config_rules, admit-Keeps, add_call_steps-Keeps, handle_required_approvals-Keeps,
          mark_waiting-Keeps, run_tasks-Keeps,
        )
        depth 60 fits 6000
