-- ===== src/Inference/Deadline.antt =====
-- A call of the inference service keeps to its attempts and to its deadline: see inference/client.py.
use agenyx.Base.{
  ℕ, zero, suc, ◌+◌, ◌-◌, ◌*◌, ◌^◌, ◌<◌, ◌≡◌, refl, sym, ap, subst, ◌∙◌, true, false, Option, none,
  some, [], ◌∷◌, ◌++◌, length, length-append, All, All-append, pos, pos_part, ltb_ℤ, min,
  Bool-cases, inl, inr, ◌⊎◌, ok, arith, if◌then◌else◌,
}
use agenyx.Retry.{RetryPolicy, post_init, should_retry, get_delay}
use agenyx.Retry.Errors.{ErrorClass}
use agenyx.Inference.{
  Outcome, returns, raises, cancels, Wire, complete_once, Sleeps, is_late, on_outcome,
  attempts_from, complete, after_delay, sleep,
}

-- a sleep that ends before the deadline
abbrev pub IsPunctual : Option ℕ → ℕ × ℕ → Type 0
IsPunctual none s = Unit
IsPunctual (some deadline) s = s.0 + s.1 < deadline

-- one more sleep, before another attempt is left
retried :
    (p : RetryPolicy) (e : ErrorClass) (i : ℕ)
    → (should_retry p e (pos (suc i)) ≡ ok false)
      ⊎ ((should_retry p e (pos (suc i)) ≡ ok true) × (suc i < pos_part p.max_attempts))
unfolding should_retry
retried p e i = ground arith

not_below : (i : ℕ) → ltb_ℤ (pos (suc i)) (pos 1) ≡ false
not_below i = ground arith

delayed :
    (p : RetryPolicy) (f : ℕ → ℕ) (i : ℕ) → (delay : ℕ) × (get_delay p f (pos (suc i)) ≡ ok delay)
unfolding get_delay
delayed p f i =
    let capped_delay : ℕ = min (pos_part p.base_delay * 2 ^ (suc i - 1)) (pos_part p.max_delay) in
    let delay : ℕ = if p.jitter then f capped_delay else capped_delay in
    (delay, rw (not_below i) refl)

in_time :
    (deadline : Option ℕ) (now delay : ℕ)
    → is_late deadline now delay ≡ false
    → IsPunctual deadline (now, delay)
in_time none now delay h = tt
in_time (some deadline) now delay h = ground arith

module _ (p : RetryPolicy) (w : Wire) (deadline : Option ℕ) where
  -- what a call comes to
  abbrev IsGood : Outcome × Sleeps → Type 0
  IsGood (o, sleeps) =
      All (IsPunctual deadline) sleeps
      × (length sleeps < pos_part p.max_attempts)
      × ((o ≡ complete_once (w.post (length sleeps))) ⊎ (o ≡ cancels))

  -- the sleeps before the attempt `i + 1`
  abbrev IsBefore : ℕ → Sleeps → Type 0
  IsBefore i sleeps = (length sleeps ≡ i) × All (IsPunctual deadline) sleeps

  ended :
      (i : ℕ) (o : Outcome) (sleeps : Sleeps)
      → i < pos_part p.max_attempts
      → (o ≡ complete_once (w.post i)) ⊎ (o ≡ cancels)
      → IsBefore i sleeps
      → IsGood (o, sleeps)
  ended i o sleeps few same (count, punctual) = (
    punctual,
    subst (λ n. n < pos_part p.max_attempts) (sym count) few,
    subst (λ n. (o ≡ complete_once (w.post n)) ⊎ (o ≡ cancels)) (sym count) same,
  )

  slept :
      (i delay : ℕ) (sleeps : Sleeps)
      → is_late deadline (w.monotonic i) delay ≡ false
      → IsBefore i sleeps
      → IsBefore (suc i) (sleeps ++ (w.monotonic i, delay) ∷ [])
  slept i delay sleeps early (count, punctual) = (
    length-append sleeps ((w.monotonic i, delay) ∷ []) ∙ ap (λ n. n + 1) count ∙ next i,
    All-append (IsPunctual deadline) sleeps ((w.monotonic i, delay) ∷ []) punctual
        (in_time deadline (w.monotonic i) delay early, tt),
  )
    where
      next : (i : ℕ) → i + 1 ≡ suc i
      next i = omega arith

  module _ (i : ℕ) (few : i < pos_part p.max_attempts) (next : Sleeps → Outcome × Sleeps)
      (good : suc i < pos_part p.max_attempts
        → (sleeps : Sleeps) → IsBefore (suc i) sleeps
        → IsGood (next sleeps)) where
    sleep-IsGood :
        (delay : ℕ) (sleeps : Sleeps)
        → suc i < pos_part p.max_attempts
        → is_late deadline (w.monotonic i) delay ≡ false
        → IsBefore i sleeps
        → IsGood (sleep p w deadline i delay next sleeps)
    sleep-IsGood delay sleeps more early before = elim (Bool-cases (w.interrupted i)) [
      | inl stop ↦ rw stop (ended i cancels sleeps few (inr refl) before)
      | inr goes ↦ rw goes (good more _ (slept i delay sleeps early before))
    ]

    delay-IsGood :
        (e : ErrorClass) (delay : ℕ) (sleeps : Sleeps)
        → suc i < pos_part p.max_attempts
        → raises e ≡ complete_once (w.post i)
        → IsBefore i sleeps
        → IsGood (after_delay p w deadline e i (ok delay) next sleeps)
    delay-IsGood e delay sleeps more same before =
        elim (Bool-cases (is_late deadline (w.monotonic i) delay)) [
          | inl late ↦ rw late (ended i (raises e) sleeps few (inl same) before)
          | inr early ↦ rw early (sleep-IsGood delay sleeps more early before)
        ]

    on_outcome-IsGood :
        (o : Outcome) (sleeps : Sleeps)
        → o ≡ complete_once (w.post i)
        → IsBefore i sleeps
        → IsGood (on_outcome p w deadline i o next sleeps)
    unfolding on_outcome
    on_outcome-IsGood (returns d) sleeps same before =
        ended i (returns d) sleeps few (inl same) before
    on_outcome-IsGood cancels sleeps same before = ended i cancels sleeps few (inr refl) before
    on_outcome-IsGood (raises e) sleeps same before = elim (retried p e i) [
      | inl last ↦ rw last (ended i (raises e) sleeps few (inl same) before)
      | inr (again, more) ↦
          let (delay, given) = delayed p (w.uniform i) i in
          rw (again, given) (delay-IsGood e delay sleeps more same before)
    ]

  attempts_from-IsGood :
      (left i : ℕ) (sleeps : Sleeps)
      → i + left ≡ pos_part p.max_attempts
      → i < pos_part p.max_attempts
      → IsBefore i sleeps
      → IsGood (attempts_from p w deadline left i sleeps)
  unfolding attempts_from
  attempts_from-IsGood zero i sleeps e few before = let no : ⊥ = omega arith in elim no [ ]
  attempts_from-IsGood (suc left) i sleeps e few before =
      on_outcome-IsGood i few (attempts_from p w deadline left (suc i))
        (λ more sleeps' before'.
          attempts_from-IsGood left (suc i) sleeps' (omega arith) more before')
        (complete_once (w.post i)) sleeps refl before

  some_attempt : post_init p ≡ ok p → 0 < pos_part p.max_attempts
  unfolding post_init
  some_attempt h = ground arith

  -- With a policy that its constructor accepts, a call of the inference service makes at most
  -- `max_attempts` attempts and every sleep between two of them ends before the deadline, if there is
  -- one. The call returns or raises what its last attempt came to, unless it is cancelled in between;
  -- so the RuntimeError after the loop is never raised.
  pub complete_lem :
      post_init p ≡ ok p
      → let (o, sleeps) = complete p w deadline in
        All (IsPunctual deadline) sleeps
        × (length sleeps < pos_part p.max_attempts)
        × ((o ≡ complete_once (w.post (length sleeps))) ⊎ (o ≡ cancels))
  unfolding complete
  complete_lem valid =
      attempts_from-IsGood (pos_part p.max_attempts) 0 [] (omega arith) (some_attempt valid)
        (refl, tt)
