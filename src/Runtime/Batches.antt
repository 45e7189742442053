-- ===== src/Runtime/Batches.antt =====
-- The calls of a batch of runtime.py keep the execution running, whatever they await.
use agenyx.Base.{
  ℕ, ◌≡◌, refl, sym, subst, Bool, true, false, Option, none, some, String, string_eq, List, [], ◌∷◌,
  is_empty, Error, Dict, Value, ℤ, Bool-cases, inl, inr, cancelled_error, timeout_error,
}
use agenyx.Tools.{ToolResult}
use agenyx.Planner.{ToolCall}
use agenyx.Runtime.{World, Config, tool_call_completed}
use agenyx.Runtime.Monad.{Exception, returns, throws, pure, throw, try, ◌>>=◌}
use agenyx.Runtime.Admission.{Admitted, Usage, admit_one, admit}
use agenyx.Runtime.Batch.{
  of_timeout, error_text, output_of, execute_single_tool, run_call, run_task, outcome, run_batch,
  record_tool_result, record_results,
}
use agenyx.Runtime.Calls.{Results}
use agenyx.Runtime.Keeps.{
  Keeps, Keeps-pure, Keeps-settle, Keeps-bind, Keeps-try, Keeps-try_awaited, LoudAs, full-LoudAs,
}
use agenyx.Runtime.Running.{IsLoudWorld, step_rules, config_rules, publish-Keeps}

module _ (w : World) (loud : IsLoudWorld w) (c : Config) where
  admit_one-Keeps : {b : Bool} → (t : ℤ) (u : Usage) (a : Admitted) → Keeps b (admit_one w c t u a)
  unfolding admit_one
  admit_one-Keeps t u a = search config_rules depth 30 fits 3000

  pub admit-Keeps :
      {b : Bool} → (t : ℤ) (u : Usage) (calls : List ToolCall) → Keeps b (admit w c t u calls)
  unfolding admit
  admit-Keeps {b} t u [] = Keeps-pure []
  admit-Keeps {b} t u (x ∷ xs) =
      let rest = λ (v : Usage). admit-Keeps {b = b} t v xs in
      search (config_rules, admit_one-Keeps, rest) depth 30 fits 3000

  of_timeout-Keeps :
      {b : Bool}
      → (kind : Error) (e : Exception) → e.kind ≡ kind
      → LoudAs true kind e.text
      → Keeps b (of_timeout w c kind e)
  of_timeout-Keeps {b} cancelled_error e same h =
      Keeps-settle (throws e) (subst (λ x. LoudAs b x e.text) (sym same) tt)
  of_timeout-Keeps {b} timeout_error e same h = search step_rules
  of_timeout-Keeps {b} _ e same h =
      Keeps-bind _ _ (publish-Keeps tool_call_completed refl)
        (λ _. Keeps-settle (throws e) (full-LoudAs b e.kind e.text h))

  error_text_full : (o : Option String) → is_empty (error_text w c o) ≡ false
  error_text_full none = refl
  error_text_full (some text) = elim (Bool-cases (is_empty text)) [
    | inl empty ↦ rw empty refl
    | inr full ↦ rw full full
  ]

  output_of-Keeps : {b : Bool} → (r : ToolResult) → Keeps b (output_of w c r)
  unfolding output_of
  output_of-Keeps r = search (config_rules, error_text_full) depth 30 fits 3000

  execute_single_tool-Keeps :
      {b : Bool} → (t : ℤ) (k j : ℕ) → Keeps b (execute_single_tool w c t k j)
  unfolding execute_single_tool
  execute_single_tool-Keeps t k j =
      let asked = loud.executes k j in
      search (config_rules, Keeps-try_awaited, of_timeout-Keeps, output_of-Keeps, asked) depth 30
        fits 3000

  pub run_call-Keeps : {b : Bool} → (t : ℤ) (k j i : ℕ) → Keeps b (run_call w c t k j i)
  unfolding run_call
  run_call-Keeps t k j i =
      search (config_rules, Keeps-try, execute_single_tool-Keeps) depth 30 fits 3000

  cancelled_task-Keeps : {b : Bool} → Keeps b (outcome w c (throw cancelled_error ""))
  unfolding outcome try throw pure ◌>>=◌
  cancelled_task-Keeps = record { at = λ s v. (v, tt) }

  pub run_task-Keeps :
      {b : Bool} (begun : Bool) (t : ℤ) (k j i : ℕ)
      → Keeps b (outcome w c (run_task w c begun t k j i))
  unfolding outcome
  run_task-Keeps true t k j i = search (config_rules, Keeps-try, run_call-Keeps) depth 30 fits 3000
  run_task-Keeps false t k j i = cancelled_task-Keeps

  pub run_batch-Keeps :
      {b : Bool}
      → (t : ℤ) (k j : ℕ) (steps : Dict String ℕ) (l : List Admitted)
      → Keeps b (run_batch w c t k j steps l)
  unfolding run_batch
  run_batch-Keeps {b} t k j steps [] = Keeps-pure []
  run_batch-Keeps {b} t k j steps (a ∷ l) =
      let rest = λ (n : ℕ). run_batch-Keeps {b = b} t k n steps l in
      search (config_rules, run_task-Keeps, rest) depth 30 fits 3000

  record_tool_result-Keeps :
      {b : Bool} → (a : Admitted) (v : Value) → Keeps b (record_tool_result w c a v)
  unfolding record_tool_result
  record_tool_result-Keeps a v = search config_rules depth 40 fits 4000

  pub record_results-Keeps : {b : Bool} → (l : Results) → Keeps b (record_results w c l)
  unfolding record_results
  record_results-Keeps {b} [] = Keeps-pure tt
  record_results-Keeps {b} ((a, returns v) ∷ l) =
      let rest = λ (_ : Unit {0}). record_results-Keeps {b = b} l in
      search (config_rules, record_tool_result-Keeps, rest) depth 30 fits 3000
  record_results-Keeps {b} ((a, throws e) ∷ l) =
      let rest = λ (_ : Unit {0}). record_results-Keeps {b = b} l in
      search (config_rules, rest) depth 30 fits 3000
