-- ===== src/Backend/Transient.antt =====
-- Which answer a call of a provider ends with: see `chat_completion` of backend.py.
use agenyx.Base.{
  ℕ, zero, suc, ◌+◌, ◌≤◌, ◌<◌, ◌≡◌, refl, sym, ap, subst, ◌∙◌, Bool, true, false, Option, none,
  some, ◌⊎◌, inl, inr, Value, Bool-cases, ltb, arith, if◌then◌else◌, String,
}
use agenyx.Backend.{
  OpenAiCompatibleBackend, Posted, answered, timed_out, failed_request, failed, cancelled, Wire,
  Metrics, Raised, timeout_exception, request_error, http_status_error, runtime_error_raised,
  other_exception, cancelled_call, Outcome, returns, raises, Step, done, again, is_retryable,
  backoff, checked_json, read_response, status_error, on_response, on_lost, on_posted, continued,
  attempts_from, chat_completion, count_error, http_error, count_retry, observe,
}

-- a response with a status of `RETRYABLE_STATUS_CODES`, a timeout or another error of the request
abbrev pub is_transient : Posted → Bool
is_transient (answered status bad json) = is_retryable status
is_transient timed_out = true
is_transient failed_request = true
is_transient _ = false

abbrev object_or_error : Option Value → Outcome
object_or_error (some (Value.object fields)) = returns fields
object_or_error _ = raises runtime_error_raised

-- what an answer means to the caller
abbrev pub outcome_of : Posted → Outcome
outcome_of (answered status bad json) =
    if bad then raises http_status_error else object_or_error json
outcome_of timed_out = raises timeout_exception
outcome_of failed_request = raises request_error
outcome_of (failed name) = raises (other_exception name)
outcome_of cancelled = raises cancelled_call

-- an attempt of which it is known whether another one is left
abbrev IsMeant : Bool → Bool → Posted → Step → Type 0
IsMeant more stop p (done o) =
    ((o ≡ outcome_of p) × ((more ≡ false) ⊎ (is_transient p ≡ false)))
    ⊎ ((o ≡ raises cancelled_call) × (stop ≡ true) × (more ≡ true))
IsMeant more stop p again = (is_transient p ≡ true) × (more ≡ true)

checked_json-done :
    (json : Option Value) (m : Metrics) → (checked_json json m).0 ≡ done (object_or_error json)
checked_json-done none m = refl
checked_json-done (some (Value.object fields)) m = refl
checked_json-done (some _) m = refl

read_response-done :
    (status : ℕ) (bad : Bool) (json : Option Value) (m : Metrics)
    → (read_response status bad json m).0 ≡ done (outcome_of (answered status bad json))
read_response-done status true json m = refl
read_response-done status false json m = checked_json-done json _

module _ (b : OpenAiCompatibleBackend) (w : Wire) (attempt : ℕ) where
  abbrev more : Bool
  more = ltb attempt b.max_retries

  abbrev Meant : Posted → Step → Type 0
  Meant p st = IsMeant more (w.interrupted attempt) p st

  backoff-Meant :
      (p : Posted) (m : Metrics)
      → is_transient p ≡ true
      → more ≡ true
      → Meant p (backoff w attempt m).0
  unfolding backoff
  backoff-Meant p m t h = elim (Bool-cases (w.interrupted attempt)) [
    | inl stop ↦ rw stop (inr (refl, refl, h))
    | inr goes ↦ rw goes (t, h)
  ]

  decided-Meant :
      (p : Posted) (st : Step)
      → st ≡ done (outcome_of p)
      → (more ≡ false) ⊎ (is_transient p ≡ false)
      → Meant p st
  decided-Meant p st same h = subst (Meant p) (sym same) (inl (refl, h))

  module _ (status : ℕ) (bad : Bool) (json : Option Value) (m : Metrics) where
    abbrev noted : Metrics
    noted = record m { retryable_error = m.retryable_error + 1 }

    response_again :
        is_retryable status ≡ true
        → more ≡ true
        → on_response b w attempt status bad json m
          ≡ backoff w attempt (count_retry (http_error status) noted)
    unfolding on_response
    response_again r h = rw (r, h) refl

    response_last :
        is_retryable status ≡ true
        → more ≡ false
        → on_response b w attempt status bad json m ≡ (
            if bad
            then status_error (count_error (http_error status) noted)
            else read_response status bad json (count_error (http_error status) noted))
    unfolding on_response
    response_last r h = rw (r, h) refl

    response_read :
        is_retryable status ≡ false
        → on_response b w attempt status bad json m ≡ read_response status bad json m
    unfolding on_response
    response_read r = rw r refl

  last-done :
      (status : ℕ) (bad : Bool) (json : Option Value) (m : Metrics)
      → (if bad then status_error m else read_response status bad json m).0
        ≡ done (outcome_of (answered status bad json))
  last-done status true json m = refl
  last-done status false json m = read_response-done status false json m

  on_response-Meant :
      (status : ℕ) (bad : Bool) (json : Option Value) (m : Metrics)
      → Meant (answered status bad json) (on_response b w attempt status bad json m).0
  on_response-Meant status bad json m = elim (Bool-cases (is_retryable status)) [
    | inl retryable ↦ elim (Bool-cases more) [
      | inl h ↦
          subst (λ (x : Step × Metrics). Meant (answered status bad json) x.0)
            (sym (response_again status bad json m retryable h))
            (backoff-Meant (answered status bad json) _ retryable h)
      | inr h ↦
          decided-Meant (answered status bad json) _
            (ap step_of (response_last status bad json m retryable h) ∙ last-done status bad json _)
            (inl h)
    ]
    | inr final ↦
        decided-Meant (answered status bad json) _
          (ap step_of (response_read status bad json m final)
            ∙ read_response-done status bad json m)
          (inr final)
  ]
    where
      step_of : Step × Metrics → Step
      step_of x = x.0

  on_lost-Meant :
      (p : Posted) (e : Raised) (name : String) (m : Metrics)
      → is_transient p ≡ true
      → outcome_of p ≡ raises e
      → Meant p (on_lost b w attempt e name m).0
  on_lost-Meant p e name m t same = elim (Bool-cases more) [
    | inl h ↦
        subst (λ (x : Step × Metrics). Meant p x.0) (sym (lost_again h)) (backoff-Meant p _ t h)
    | inr h ↦ decided-Meant p _ (lost_last h ∙ ap done (sym same)) (inl h)
  ]
    where
      lost_again :
          more ≡ true
          → on_lost b w attempt e name m
            ≡ backoff w attempt (count_retry name (count_error name (observe m)))
      lost_again h = unfold on_lost in rw h refl

      lost_last : more ≡ false → (on_lost b w attempt e name m).0 ≡ done (raises e)
      lost_last h = unfold on_lost in rw h refl

  on_posted-Meant : (p : Posted) (m : Metrics) → Meant p (on_posted b w attempt p m).0
  unfolding on_posted
  on_posted-Meant (answered status bad json) m = on_response-Meant status bad json (observe m)
  on_posted-Meant timed_out m = on_lost-Meant timed_out timeout_exception "timeout" m refl refl
  on_posted-Meant failed_request m =
      on_lost-Meant failed_request request_error "network_error" m refl refl
  on_posted-Meant (failed name) m = inl (refl, inr refl)
  on_posted-Meant cancelled m = inl (refl, inr refl)

-- The attempt that decides a call from the attempt `i` on: the ones before it were transient, and the
-- call ends with what its answer means, unless the wait after it was cancelled.
pub record Decides (b : OpenAiCompatibleBackend) (w : Wire) (i : ℕ) (o : Outcome) : Type 0 where
  pub attempt : ℕ
  pub from : i ≤ attempt
  pub few : attempt ≤ b.max_retries
  pub before : (k : ℕ) → i ≤ k → k < attempt → is_transient (w.post k) ≡ true
  pub decided :
      ((o ≡ outcome_of (w.post attempt))
        × ((attempt ≡ b.max_retries) ⊎ (is_transient (w.post attempt) ≡ false)))
      ⊎ ((o ≡ raises cancelled_call) × (w.interrupted attempt ≡ true) × (attempt < b.max_retries))

module _ (b : OpenAiCompatibleBackend) (w : Wire) where
  done-Decides :
      (attempt : ℕ) (o : Outcome)
      → attempt ≤ b.max_retries
      → IsMeant (ltb attempt b.max_retries) (w.interrupted attempt) (w.post attempt) (done o)
      → Decides b w attempt o
  done-Decides attempt o few meant = record {
    attempt = attempt;
    from = omega arith;
    few = few;
    before = λ k h h'. let no : ⊥ = omega arith in elim no [ ];
    decided = by_meaning meant;
  }
    where
      at_most : ltb attempt b.max_retries ≡ false → attempt ≡ b.max_retries
      at_most h = ground arith

      below : ltb attempt b.max_retries ≡ true → attempt < b.max_retries
      below h = ground arith

      by_meaning :
          IsMeant (ltb attempt b.max_retries) (w.interrupted attempt) (w.post attempt) (done o)
          → ((o ≡ outcome_of (w.post attempt))
              × ((attempt ≡ b.max_retries) ⊎ (is_transient (w.post attempt) ≡ false)))
            ⊎ ((o ≡ raises cancelled_call)
                × (w.interrupted attempt ≡ true)
                × (attempt < b.max_retries))
      by_meaning (inl (same, inl h)) = inl (same, inl (at_most h))
      by_meaning (inl (same, inr h)) = inl (same, inr h)
      by_meaning (inr (same, stop, h)) = inr (same, stop, below h)

  again-Decides :
      (attempt : ℕ) (o : Outcome)
      → is_transient (w.post attempt) ≡ true
      → Decides b w (suc attempt) o
      → Decides b w attempt o
  again-Decides attempt o t d = record {
    attempt = d.attempt;
    from = let after = d.from in omega arith;
    few = d.few;
    before = λ k h h'. by_place k h h' (Bool-cases (ltb attempt k));
    decided = d.decided;
  }
    where
      here : (k : ℕ) → attempt ≤ k → ltb attempt k ≡ false → k ≡ attempt
      here k h e = ground arith

      later : (k : ℕ) → ltb attempt k ≡ true → suc attempt ≤ k
      later k e = ground arith

      by_place :
          (k : ℕ)
          → attempt ≤ k
          → k < d.attempt
          → (ltb attempt k ≡ true) ⊎ (ltb attempt k ≡ false)
          → is_transient (w.post k) ≡ true
      by_place k h h' (inl e) = d.before k (later k e) h'
      by_place k h h' (inr e) = subst (λ j. is_transient (w.post j) ≡ true) (sym (here k h e)) t

  step-Decides :
      (attempt : ℕ) (rest : Metrics → Outcome × Metrics) (st : Step × Metrics)
      → attempt ≤ b.max_retries
      → IsMeant (ltb attempt b.max_retries) (w.interrupted attempt) (w.post attempt) st.0
      → (ltb attempt b.max_retries ≡ true → (m : Metrics) → Decides b w (suc attempt) (rest m).0)
      → Decides b w attempt (continued rest st).0
  step-Decides attempt rest (done o, m) few meant k = done-Decides attempt o few meant
  step-Decides attempt rest (again, m) few (t, h) k = again-Decides attempt (rest m).0 t (k h m)

  none_left : (attempt : ℕ) → attempt + 0 ≡ b.max_retries → ltb attempt b.max_retries ≡ true → ⊥
  none_left attempt e h = ground arith

  attempts_from-Decides :
      (left attempt : ℕ) (m : Metrics)
      → attempt + left ≡ b.max_retries
      → Decides b w attempt (attempts_from b w (suc left) attempt m).0
  unfolding attempts_from
  attempts_from-Decides zero attempt m e =
      step-Decides attempt (attempts_from b w zero (suc attempt)) _ (omega arith)
        (on_posted-Meant b w attempt (w.post attempt) m) λ h m'. elim (none_left attempt e h) [ ]
  attempts_from-Decides (suc left) attempt m e =
      step-Decides attempt (attempts_from b w (suc left) (suc attempt)) _ (omega arith)
        (on_posted-Meant b w attempt (w.post attempt) m)
        λ h m'. attempts_from-Decides left (suc attempt) m' (omega arith)

  -- A call of a provider makes at most `max_retries + 1` attempts and ends with the answer of the first
  -- one that is not transient, or of the last one: the attempts before it all were transient (a status
  -- of 500, 502, 503 or 504, a timeout or another error of the request), so that another status of 5xx,
  -- as 501, ends the call. What that answer means is what the caller gets; only a cancelled backoff ends the call otherwise. So the RuntimeError
  -- after the loop is never raised.
  pub chat_completion-Decides : (m : Metrics) → Decides b w 0 (chat_completion b w m).0
  unfolding chat_completion
  chat_completion-Decides m = attempts_from-Decides b.max_retries 0 m (omega arith)
