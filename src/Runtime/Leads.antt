-- ===== src/Runtime/Leads.antt =====
-- Coroutines that lead from one kind of state of the runtime to another.
use agenyx.Runtime.{Runtime}
use agenyx.Runtime.Monad.{Attempt, returns, throws, Run, settle, ◌>>=◌}

-- the coroutine returns, and leads from a state that has `P` to one that has `Q`
abbrev pub Returned : {A : Type 0} → Attempt A → Type 0
Returned (returns _) = Unit
Returned (throws _) = ⊥

pub record Leads {A : Type 0} (P Q : Runtime → Type 0) (m : Run Runtime A) : Type 0 where
  pub at : (s : Runtime) → P s → Returned (m s).0 × Q (m s).1

-- the same of a last coroutine, which may raise
pub record Lands {A : Type 0} (P Q : Runtime → Type 0) (m : Run Runtime A) : Type 0 where
  pub at : (s : Runtime) → P s → Q (m s).1

module _ {A B : Type 0} (P Q R : Runtime → Type 0) where
  after :
      (f : A → Run Runtime B)
      → ((a : A) → Lands Q R (f a))
      → (r : Attempt A) (s : Runtime) → Returned r
      → Q s
      → R ((settle r >>= f) s).1
  unfolding ◌>>=◌ settle
  after f lf (returns a) s h q = (lf a).at s q
  after f lf (throws e) s h q = elim h [ ]

  pub Lands-bind :
      (m : Run Runtime A) (f : A → Run Runtime B)
      → Leads P Q m
      → ((a : A) → Lands Q R (f a))
      → Lands P R (m >>= f)
  unfolding ◌>>=◌ settle
  Lands-bind m f lm lf = record {
    at = λ s p. let (r, s') = m s in after f lf r s' (lm.at s p).0 (lm.at s p).1;
  }

  leading :
      (f : A → Run Runtime B)
      → ((a : A) → Leads Q R (f a))
      → (r : Attempt A) (s : Runtime) → Returned r
      → Q s
      → Returned ((settle r >>= f) s).0 × R ((settle r >>= f) s).1
  unfolding ◌>>=◌ settle
  leading f lf (returns a) s h q = (lf a).at s q
  leading f lf (throws e) s h q = elim h [ ]

  pub Leads-bind :
      (m : Run Runtime A) (f : A → Run Runtime B)
      → Leads P Q m
      → ((a : A) → Leads Q R (f a))
      → Leads P R (m >>= f)
  unfolding ◌>>=◌ settle
  Leads-bind m f lm lf = record {
    at = λ s p. let (r, s') = m s in leading f lf r s' (lm.at s p).0 (lm.at s p).1;
  }
