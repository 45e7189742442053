-- ===== src/Backend/Retries.antt =====
-- The retries of a call of a provider, and what is counted of it: see backend.py.
use agenyx.Base.{
  List, Fields, ℕ, zero, suc, ◌+◌, ◌*◌, ◌≤◌, ◌≡◌, ◌≢◌, refl, sym, ap, subst, ◌∙◌, Bool, true, false,
  Option, none, some, inl, inr, Value, Bool-cases, ltb, leb, arith, if◌then◌else◌, ◌&&◌, String,
}
use agenyx.Backend.{
  Closing, complete, stream_timed_out, stream_failed, stream_cancelled, refused, broke,
  close_stream, chat_completion_stream, OpenAiCompatibleBackend, Posted, answered, timed_out,
  failed_request, failed, cancelled, Wire, Metrics, Raised, timeout_exception, request_error,
  cancelled_call, Outcome, returns, raises, Step, done, again, is_retryable, delay, backoff,
  checked_json, read_response, status_error, on_response, on_lost, on_posted, continued,
  attempts_from, chat_completion, count_error, http_error,
}

-- one call is one success, one error, or a cancellation
abbrev pub IsSettled : Outcome → Metrics → Metrics → Type 0
IsSettled (returns _) m m' = (m'.success ≡ m.success + 1) × (m'.error ≡ m.error)
IsSettled (raises cancelled_call) m m' = (m'.success ≡ m.success) × (m'.error ≡ m.error)
IsSettled (raises _) m m' = (m'.success ≡ m.success) × (m'.error ≡ m.error + 1)

-- the longest wait before an attempt: the delay and its jitter
abbrev pub longest_wait : ℕ
longest_wait = 10250000

abbrev IsStep : Bool → Metrics → Step × Metrics → Type 0
IsStep more m (done o, m') =
    IsSettled o m m' × (m'.slept ≡ m.slept) × (m'.durations ≤ m.durations + 1)
IsStep more m (again, m') =
    (more ≡ true)
    × (m'.success ≡ m.success)
    × (m'.error ≡ m.error)
    × (m'.slept ≤ m.slept + longest_wait)
    × (m'.durations ≤ m.durations + 1)

short_delay : (attempt : ℕ) → delay attempt ≤ 10000000
unfolding delay
short_delay attempt = ground arith

raise-IsSettled :
    (e : Raised) (m m' : Metrics)
    → e ≢ cancelled_call
    → m'.success ≡ m.success
    → m'.error ≡ m.error + 1
    → IsSettled (raises e) m m'
raise-IsSettled cancelled_call m m' plain a b = elim (plain refl) [ ]
raise-IsSettled _ m m' plain a b = (a, b)

module _ (w : Wire) (steady : (n : ℕ) → w.jitter n ≤ 250000) where
  backoff-IsStep :
      (attempt : ℕ) (m m' : Metrics)
      → m'.success ≡ m.success
      → m'.error ≡ m.error
      → m'.slept ≡ m.slept
      → m'.durations ≤ m.durations + 1
      → IsStep true m (backoff w attempt m')
  unfolding backoff
  backoff-IsStep attempt m m' a b c d = elim (Bool-cases (w.interrupted attempt)) [
    | inl stop ↦ rw stop ((a, b), c, d)
    | inr goes ↦
        let short = short_delay attempt in
        let calm = steady attempt in rw goes (refl, a, b, omega arith, d)
  ]

  checked_json-IsStep :
      (more : Bool) (json : Option Value) (m m' : Metrics)
      → m'.success ≡ m.success
      → m'.error ≡ m.error
      → m'.slept ≡ m.slept
      → m'.durations ≤ m.durations + 1
      → IsStep more m (checked_json json m')
  checked_json-IsStep more none m m' a b c d = ((a, omega arith), c, d)
  checked_json-IsStep more (some (Value.object fields)) m m' a b c d = ((omega arith, b), c, d)
  checked_json-IsStep more (some _) m m' a b c d = ((a, omega arith), c, d)

  read_response-IsStep :
      (more : Bool) (status : ℕ) (bad : Bool) (json : Option Value) (m m' : Metrics)
      → m'.success ≡ m.success
      → m'.error ≡ m.error
      → m'.slept ≡ m.slept
      → m'.durations ≤ m.durations + 1
      → IsStep more m (read_response status bad json m')
  read_response-IsStep more status bad json m m' a b c d =
      by_client (leb 400 status && ltb status 500) bad
    where
      by_client :
          (client bad : Bool)
          → IsStep more m (
              if bad
              then status_error
                  (if client then record m' { client_error = m'.client_error + 1 } else m')
              else checked_json json
                  (if client then record m' { client_error = m'.client_error + 1 } else m'))
      by_client true true = ((a, omega arith), c, d)
      by_client false true = ((a, omega arith), c, d)
      by_client true false =
          checked_json-IsStep more json m (record m' { client_error = m'.client_error + 1 }) a b c d
      by_client false false = checked_json-IsStep more json m m' a b c d

  on_lost-IsStep :
      (b : OpenAiCompatibleBackend) (attempt : ℕ) (e : Raised) (name : String) (m : Metrics)
      → e ≢ cancelled_call
      → IsStep (ltb attempt b.max_retries) m (on_lost b w attempt e name m)
  unfolding on_lost
  on_lost-IsStep b attempt e name m plain = elim (Bool-cases (ltb attempt b.max_retries)) [
    | inl more ↦ rw more (backoff-IsStep attempt m _ refl refl refl (omega arith))
    | inr last ↦ rw last (raise-IsSettled e m _ plain refl refl, refl, omega arith)
  ]

  on_response-IsStep :
      (b : OpenAiCompatibleBackend) (attempt status : ℕ) (bad : Bool) (json : Option Value)
      (m m' : Metrics)
      → m'.success ≡ m.success
      → m'.error ≡ m.error
      → m'.slept ≡ m.slept
      → m'.durations ≤ m.durations + 1
      → IsStep (ltb attempt b.max_retries) m (on_response b w attempt status bad json m')
  unfolding on_response
  on_response-IsStep b attempt status bad json m m' x y z d =
      elim (Bool-cases (is_retryable status)) [
        | inl retryable ↦ rw retryable (elim (Bool-cases (ltb attempt b.max_retries)) [
          | inl more ↦ rw more (backoff-IsStep attempt m _ x y z d)
          | inr last ↦ rw last (by_status bad)
        ])
        | inr final ↦
            rw final (read_response-IsStep (ltb attempt b.max_retries) status bad json m m' x y z d)
      ]
    where
      counted : Metrics
      counted =
          count_error (http_error status) (record m' { retryable_error = m'.retryable_error + 1 })

      by_status :
          (bad : Bool)
          → IsStep false m
              (if bad then status_error counted else read_response status bad json counted)
      by_status true = ((x, omega arith), z, d)
      by_status false = read_response-IsStep false status false json m counted x y z d

  on_posted-IsStep :
      (b : OpenAiCompatibleBackend) (attempt : ℕ) (p : Posted) (m : Metrics)
      → IsStep (ltb attempt b.max_retries) m (on_posted b w attempt p m)
  unfolding on_posted
  on_posted-IsStep b attempt (answered status bad json) m =
      on_response-IsStep b attempt status bad json m _ refl refl refl (omega arith)
  on_posted-IsStep b attempt timed_out m =
      on_lost-IsStep b attempt timeout_exception "timeout" m (λ h. cc)
  on_posted-IsStep b attempt failed_request m =
      on_lost-IsStep b attempt request_error "network_error" m (λ h. cc)
  on_posted-IsStep b attempt (failed name) m = ((refl, omega arith), refl, omega arith)
  on_posted-IsStep b attempt cancelled m = ((refl, refl), refl, omega arith)

  -- what a call leaves: it is settled, and it waited and observed at most so often
  abbrev IsEnd : ℕ → Metrics → Outcome × Metrics → Type 0
  IsEnd left m (o, m') =
      IsSettled o m m'
      × (m'.slept ≤ m.slept + left * longest_wait)
      × (m'.durations ≤ m.durations + suc left)

  moved-IsSettled :
      (o : Outcome) (m m1 m' : Metrics)
      → m1.success ≡ m.success
      → m1.error ≡ m.error
      → IsSettled o m1 m'
      → IsSettled o m m'
  moved-IsSettled (returns _) m m1 m' a b (h, k) = (omega arith, omega arith)
  moved-IsSettled (raises cancelled_call) m m1 m' a b (h, k) = (omega arith, omega arith)
  moved-IsSettled (raises _) m m1 m' a b (h, k) = (omega arith, omega arith)

  after_last :
      (st : Step × Metrics) (m : Metrics) (rest : Metrics → Outcome × Metrics)
      → IsStep false m st
      → IsEnd 0 m (continued rest st)
  after_last (done o, m') m rest (a, c, d) = (a, omega arith, omega arith)
  after_last (again, m') m rest (more, a, c, d, f) = cc

  after_more :
      (st : Step × Metrics) (m : Metrics) (left : ℕ) (more : Bool)
      (rest : Metrics → Outcome × Metrics)
      → IsStep more m st
      → ((m' : Metrics) → IsEnd left m' (rest m'))
      → IsEnd (suc left) m (continued rest st)
  after_more (done o, m') m left more rest (a, c, d) k = (a, omega arith, omega arith)
  after_more (again, m') m left more rest (_, a, c, d, f) k =
      let (settled, slept, durations) = k m' in
      (moved-IsSettled (rest m').0 m m' (rest m').1 a c settled, omega arith, omega arith)

  last : (n : ℕ) → ltb n n ≡ false
  last n = ground arith

  attempts_from-IsEnd :
      (b : OpenAiCompatibleBackend) (left attempt : ℕ) (m : Metrics)
      → attempt + left ≡ b.max_retries
      → IsEnd left m (attempts_from b w (suc left) attempt m)
  unfolding attempts_from
  attempts_from-IsEnd b zero attempt m e =
      let same : attempt ≡ b.max_retries = omega arith in
      let never : ltb attempt b.max_retries ≡ false =
        ap (λ n. ltb attempt n) (sym same) ∙ last attempt in
      after_last _ m (attempts_from b w zero (suc attempt)) (
        subst (λ more. IsStep more m (on_posted b w attempt (w.post attempt) m)) never
          (on_posted-IsStep b attempt (w.post attempt) m))
  attempts_from-IsEnd b (suc left) attempt m e =
      after_more _ m left (ltb attempt b.max_retries) (attempts_from b w (suc left) (suc attempt))
        (on_posted-IsStep b attempt (w.post attempt) m)
        λ m'. attempts_from-IsEnd b left (suc attempt) m' (omega arith)

  -- A call of a provider is counted once: a result adds one to its successes, an exception one to its
  -- errors, and a cancellation neither, however often it was retried. It waits in its backoffs for at
  -- most 10.25 s per retry, and it observes at most one duration per attempt, of which there are
  -- `max_retries + 1`. The jitter is at most 0.25 s.
  pub chat_completion_counts :
      (b : OpenAiCompatibleBackend) (m : Metrics)
      → let (outcome, m') = chat_completion b w m in
        IsSettled outcome m m'
        × (m'.slept ≤ m.slept + b.max_retries * longest_wait)
        × (m'.durations ≤ m.durations + suc b.max_retries)
  unfolding chat_completion
  chat_completion_counts b m = attempts_from-IsEnd b b.max_retries 0 m (omega arith)

-- how a stream ended, as the outcome of a call
abbrev ending : Option Raised → Outcome
ending none = returns Fields.end
ending (some e) = raises e

-- A stream is counted once, as a call is, however it ends.
pub chat_completion_stream_counts :
    (chunks : List String) (closing : Closing) (m : Metrics)
    → let (_, (raised, m')) = chat_completion_stream chunks closing m in
      IsSettled (ending raised) m m'
unfolding chat_completion_stream close_stream
chat_completion_stream_counts chunks complete m = (refl, refl)
chat_completion_stream_counts chunks stream_timed_out m = (refl, refl)
chat_completion_stream_counts chunks stream_failed m = (refl, refl)
chat_completion_stream_counts chunks stream_cancelled m = (refl, refl)
chat_completion_stream_counts chunks (refused status) m = (refl, refl)
chat_completion_stream_counts chunks (broke name) m = (refl, refl)
