-- ===== src/Runtime/Budgets.antt =====
-- The batches of `_execute_tool_calls` of runtime.py stay within the limits of an execution.
use agenyx.Base.{
  ◌+◌, ◌≡◌, refl, some, String, List, [], ◌∷◌, lookup, lookup-insert, ==_iff, ◌==◌, string_eq,
  pair_eq, ℤ, pos, ◌≤ℤ◌, Result, ok, raise, arith, length, subst, Bool-cases, inl, inr,
}
use agenyx.Limits.{
  ExecutionLimits, validate_tool_call, validate_per_tool_call, validate_repeated_tool_call,
}
use agenyx.Planner.{ToolCall}
use agenyx.Runtime.{Runtime, World, Config}
use agenyx.Runtime.Monad.{Attempt, returns, throws, Run, pure, settle, lift, ◌>>=◌}
use agenyx.Runtime.Admission.{
  Key, Admitted, Usage, tool_count, key_count, use_call, within_budgets, admitted, admit_one, admit,
  use_all,
}

-- The usage is within the limits, those of the tools that have one included.
pub record IsWithin (l : ExecutionLimits) (u : Usage) : Type 0 where
  pub overall : pos u.global ≤ℤ l.max_tool_calls
  pub per_tool :
      (name : String) (limit : ℤ)
      → lookup name l.per_tool_limits ≡ some limit
      → pos (tool_count name u) ≤ℤ limit
  pub repeated : (key : Key) → pos (key_count key u) ≤ℤ l.max_repeated_tool_calls

module _ (l : ExecutionLimits) (name : String) (key : Key) (u : Usage) where
  budget_overall : within_budgets l name key u ≡ ok tt → pos (u.global + 1) ≤ℤ l.max_tool_calls
  unfolding within_budgets validate_tool_call
  budget_overall h = ground arith

  budget_repeated :
      within_budgets l name key u ≡ ok tt → pos (key_count key u + 1) ≤ℤ l.max_repeated_tool_calls
  unfolding within_budgets validate_tool_call validate_per_tool_call validate_repeated_tool_call
  budget_repeated h = ground arith

  budget_per_tool :
      (limit : ℤ)
      → within_budgets l name key u ≡ ok tt
      → lookup name l.per_tool_limits ≡ some limit
      → pos (tool_count name u + 1) ≤ℤ limit
  unfolding within_budgets validate_tool_call validate_per_tool_call
  budget_per_tool limit h k = ground arith

  use_call-IsWithin :
      within_budgets l name key u ≡ ok tt → IsWithin l u → IsWithin l (use_call name key u)
  use_call-IsWithin h v = record {
    overall = budget_overall h;
    per_tool = λ n limit k. elim (Bool-cases (name == n)) [
      | inl same ↦
          rw (lookup-insert n name (tool_count name u + 1) u.counts, same)
            (budget_per_tool limit h (rw ((==_iff name n).0 same) k))
      | inr differ ↦
          rw (lookup-insert n name (tool_count name u + 1) u.counts, differ) (v.per_tool n limit k)
    ];
    repeated = λ k. elim (Bool-cases (key == k)) [
      | inl same ↦
          rw (lookup-insert k key (key_count key u + 1) u.repeated, same) (budget_repeated h)
      | inr differ ↦
          rw (lookup-insert k key (key_count key u + 1) u.repeated, differ) (v.repeated k)
    ];
  }

-- what holds of the value that a coroutine returns, from any state
abbrev Post : {A : Type 0} → (A → Type 0) → Attempt A → Type 0
Post Q (returns a) = Q a
Post Q (throws e) = Unit

record Yields {A : Type 0} (Q : A → Type 0) (m : Run Runtime A) : Type 0 where
  at : (s : Runtime) → Post Q (m s).0

module _ {A B : Type 0} (P : A → Type 0) (Q : B → Type 0) where
  Yields-after :
      (f : A → Run Runtime B)
      → ((a : A) → P a → Yields Q (f a))
      → (r : Attempt A) (s : Runtime) → Post P r
      → Post Q ((settle r >>= f) s).0
  unfolding ◌>>=◌ settle
  Yields-after f g (returns a) s p = (g a p).at s
  Yields-after f g (throws e) s p = tt

  Yields-given :
      (m : Run Runtime A) (f : A → Run Runtime B)
      → Yields P m
      → ((a : A) → P a → Yields Q (f a))
      → Yields Q (m >>= f)
  unfolding ◌>>=◌ settle
  Yields-given m f g k = record { at = λ s. let (r, s') = m s in Yields-after f k r s' (g.at s) }

anything : {A : Type 0} (r : Attempt A) → Post (λ _. Unit {0}) r
anything (returns a) = tt
anything (throws e) = tt

Yields-then :
    {A B : Type 0} (Q : B → Type 0) (m : Run Runtime A) (f : A → Run Runtime B)
    → ((a : A) → Yields Q (f a))
    → Yields Q (m >>= f)
Yields-then Q m f k =
    Yields-given (λ _. Unit {0}) Q m f (record { at = λ s. anything (m s).0 }) λ a _. k a

Yields-lift : (r : Result (Unit {0})) → Yields (λ _. r ≡ ok tt) (lift r)
unfolding lift
Yields-lift (ok _) = record { at = λ s. refl }
Yields-lift (raise e) = record { at = λ s. tt }

known : {A : Type 0} {P : Type 0} → P → (r : Attempt A) → Post (λ _. P) r
known p (returns a) = p
known p (throws e) = tt

Yields-known : {A : Type 0} (P : Type 0) (m : Run Runtime A) → P → Yields (λ _. P) m
Yields-known P m p = record { at = λ s. known p (m s).0 }

module _ (w : World) (c : Config) where
  admit_one-Yields :
      (t : ℤ) (u : Usage) (a : Admitted)
      → Yields (λ _. within_budgets c.limits a.name a.key u ≡ ok tt) (admit_one w c t u a)
  unfolding admit_one
  admit_one-Yields t u a = Yields-then _ _ _ λ _. Yields-then _ _ _ λ _. Yields-then _ _ _ λ _.
      Yields-then _ _ _ λ _.
        Yields-given _ _ _ _ (Yields-lift (within_budgets c.limits a.name a.key u))
          λ _ h. Yields-known _ _ h

  admit-Yields :
      (t : ℤ) (u : Usage) (calls : List ToolCall)
      → IsWithin c.limits u
      → Yields
          (λ l. IsWithin c.limits (use_all l u) × (length l ≡ length calls))
          (admit w c t u calls)
  unfolding admit use_all pure
  admit-Yields t u [] v = record { at = λ s. (v, refl) }
  admit-Yields t u (x ∷ xs) v = Yields-given _ _ _ _ (admit_one-Yields t u (admitted w c x)) λ _ h.
      Yields-given _ _ _ _
        (admit-Yields t (use_call x.name (x.name, c.dumps x.arguments) u) xs
          (use_call-IsWithin c.limits x.name (x.name, c.dumps x.arguments) u h v))
        λ l k. record { at = λ s. (k.0, rw k.1 refl) }

  -- When a batch is admitted, all its calls are, and the limits still hold: if the usage before is
  -- within the global limit, the limits of the tools and the limit of repetitions, so is the usage
  -- with all the calls of the batch.
  pub admit-IsWithin :
      (t : ℤ) (u : Usage) (calls : List ToolCall) (l : List Admitted) (s : Runtime)
      → IsWithin c.limits u
      → (admit w c t u calls s).0 ≡ returns l
      → IsWithin c.limits (use_all l u) × (length l ≡ length calls)
  admit-IsWithin t u calls l s v h =
      subst (Post (λ l. IsWithin c.limits (use_all l u) × (length l ≡ length calls))) h
        ((admit-Yields t u calls v).at s)
