-- ===== src/Runtime/Keeps.antt =====
-- What a running execution keeps while its coroutines run, and one rule for each way to build them.
use agenyx.Base.{
  ◌≡◌, refl, Bool, true, false, none, String, All, is_empty, Result, ok, raise, Error,
  cancelled_error, timeout_error,
}
use agenyx.Execution.{state}
use agenyx.Execution.States.{is_final}
use agenyx.Execution.Invariant.{IsValid}
use agenyx.Runtime.{
  Runtime, AgentEventType, execution_completed, execution_failed, execution_was_cancelled,
}
use agenyx.Runtime.Monad.{
  Exception, Attempt, returns, throws, Run, pure, throw, settle, gets, described, lift, throw_if,
  try, ◌>>=◌,
}

abbrev pub is_end : AgentEventType → Bool
is_end execution_completed = true
is_end execution_failed = true
is_end execution_was_cancelled = true
is_end _ = false

-- The execution is valid and not at its end, it is active with its stream, and neither a result nor a
-- terminal event is there.
pub record IsRunning (s : Runtime) : Type 0 where
  pub valid : IsValid s.execution
  pub unfinished : is_final (state s.execution) ≡ false
  pub streaming : s.streaming ≡ true
  pub active : s.active ≡ true
  pub no_result : s.result ≡ none
  pub no_end : All (λ t. is_end t ≡ false) s.stream

-- The text of an exception is not empty. Cancellations have none, and timeouts have none where
-- they are `awaited`, that is where a handler waits for them.
abbrev pub LoudAs : Bool → Error → String → Type 0
LoudAs awaited cancelled_error text = Unit
LoudAs true timeout_error text = Unit
LoudAs _ _ text = is_empty text ≡ false

abbrev pub IsLoud : {A : Type 0} → Bool → Attempt A → Type 0
IsLoud awaited (returns _) = Unit
IsLoud awaited (throws e) = LoudAs awaited e.kind e.text

pub full-LoudAs :
    (b : Bool) (kind : Error) (text : String) → is_empty text ≡ false → LoudAs b kind text
full-LoudAs b cancelled_error text h = tt
full-LoudAs true timeout_error text h = tt
full-LoudAs false timeout_error text h = h
full-LoudAs b _ text h = h

pub record Keeps {A : Type 0} (b : Bool) (m : Run Runtime A) : Type 0 where
  pub at : (s : Runtime) → IsRunning s → IsRunning (m s).1 × IsLoud b (m s).0

pub described-IsLoud : {A : Type 0} (b : Bool) (r : Result A) → IsLoud b (described r)
described-IsLoud b (ok a) = tt
described-IsLoud b (raise e) = full-LoudAs b e "error" refl

module _ {A : Type 0} {b : Bool} where
  pub Keeps-pure : (a : A) → Keeps b (pure a)
  unfolding pure
  Keeps-pure a = record { at = λ s v. (v, tt) }

  pub Keeps-throw :
      (kind : Error) (text : String) → is_empty text ≡ false → Keeps b (throw {A = A} kind text)
  unfolding throw
  Keeps-throw kind text h = record { at = λ s v. (v, full-LoudAs b kind text h) }

  pub Keeps-settle : (r : Attempt A) → IsLoud b r → Keeps b (settle r)
  unfolding settle
  Keeps-settle r h = record { at = λ s v. (v, h) }

  pub Keeps-gets : (f : Runtime → A) → Keeps b (gets f)
  unfolding gets
  Keeps-gets f = record { at = λ s v. (v, tt) }

  pub Keeps-lift : (r : Result A) → Keeps b (lift r)
  unfolding lift
  Keeps-lift r = record { at = λ s v. (v, described-IsLoud b r) }

pub Keeps-throw_if :
    {b : Bool} (c : Bool) (kind : Error) (text : String)
    → is_empty text ≡ false
    → Keeps b (throw_if c kind text)
unfolding throw_if
Keeps-throw_if true kind text h = Keeps-throw kind text h
Keeps-throw_if false kind text h = Keeps-pure tt

module _ {A B : Type 0} {b : Bool} where
  rest-Keeps :
      (f : A → Run Runtime B)
      → ((a : A) → Keeps b (f a))
      → (r : Attempt A) (s : Runtime) → IsRunning s
      → IsLoud b r
      → IsRunning ((settle r >>= f) s).1 × IsLoud b ((settle r >>= f) s).0
  unfolding ◌>>=◌ settle
  rest-Keeps f kf (returns a) s v h = (kf a).at s v
  rest-Keeps f kf (throws e) s v h = (v, h)

  pub Keeps-bind :
      (m : Run Runtime A) (f : A → Run Runtime B)
      → Keeps b m
      → ((a : A) → Keeps b (f a))
      → Keeps b (m >>= f)
  unfolding ◌>>=◌ settle
  Keeps-bind m f km kf = record {
    at = λ s v. let (r, s') = m s in rest-Keeps f kf r s' (km.at s v).0 (km.at s v).1;
  }

module _ {A : Type 0} {b : Bool} (body : Bool) where
  caught-Keeps :
      (h : Exception → Run Runtime A)
      → ((e : Exception) → IsLoud {A = A} body (throws e) → Keeps b (h e))
      → (r : Attempt A) (s : Runtime) → IsRunning s
      → IsLoud body r
      → IsRunning (try (settle r) h s).1 × IsLoud b (try (settle r) h s).0
  unfolding try settle
  caught-Keeps h kh (returns a) s v loud = (v, tt)
  caught-Keeps h kh (throws e) s v loud = (kh e loud).at s v

  tried-Keeps :
      (m : Run Runtime A) (h : Exception → Run Runtime A)
      → Keeps body m
      → ((e : Exception) → IsLoud {A = A} body (throws e) → Keeps b (h e))
      → Keeps b (try m h)
  unfolding try settle
  tried-Keeps m h km kh = record {
    at = λ s v. let (r, s') = m s in caught-Keeps h kh r s' (km.at s v).0 (km.at s v).1;
  }

module _ {A : Type 0} {b : Bool} (m : Run Runtime A) (h : Exception → Run Runtime A) where
  -- a handler that passes on what it gets
  pub Keeps-try :
      Keeps b m
      → ((e : Exception) → IsLoud {A = A} b (throws e) → Keeps b (h e))
      → Keeps b (try m h)
  Keeps-try km kh = tried-Keeps b m h km kh

  -- a handler that waits for timeouts
  pub Keeps-try_awaited :
      Keeps true m
      → ((e : Exception) → IsLoud {A = A} true (throws e) → Keeps b (h e))
      → Keeps b (try m h)
  Keeps-try_awaited km kh = tried-Keeps true m h km kh

pub ruleset keeps_rules =
    (Keeps-pure, Keeps-throw, Keeps-settle, Keeps-gets, Keeps-lift, Keeps-throw_if, Keeps-bind)
