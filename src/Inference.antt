-- ===== src/Inference.antt =====
-- inference/client.py of the agent: the client of the inference service, with its retries. An error
-- is its class; `foreign_error` is one of no class of the agent. The clock and the deadline are in
-- microseconds.
mod Deadline
mod Tests
use agenyx.Base.{
  ℕ, zero, suc, ◌+◌, ◌-◌, Bool, true, false, Option, none, some, String, List, [], ◌∷◌, ◌++◌, ℤ,
  pos, pos_part, leb, Value, Items, Fields, field?, Result, ok, raise, if◌then◌else◌,
}
use agenyx.Retry.{RetryPolicy, should_retry, get_delay}
use agenyx.Retry.Errors.{
  ErrorClass, llm_connection_error, llm_timeout_error, llm_response_error, foreign_error,
}

-- What awaiting the HTTP client's `post` gives: a response with its status and its JSON, or nothing
-- when it is not JSON; its exceptions; another one; or the cancellation of the call.
pub data Posted : Type 0 where
  answered : ℕ → Option Value → Posted
  connect_error timed_out http_error failed cancelled : Posted

pub data Outcome : Type 0 where
  returns : Fields → Outcome
  raises : ErrorClass → Outcome
  cancels : Outcome

-- by the number of the attempt, from 0 on
pub record Wire : Type 0 where
  pub post : ℕ → Posted
  pub uniform : ℕ → ℕ → ℕ
  pub monotonic : ℕ → ℕ
  pub interrupted : ℕ → Bool

abbrev is_object : Option Value → Bool
is_object (some (Value.object _)) = true
is_object _ = false

abbrev has_message : Value → Bool
has_message (Value.object choice) = is_object (field? "message" choice)
has_message _ = false

abbrev has_choice : Option Value → Bool
has_choice (some (Value.array (Items.cons choice _))) = has_message choice
has_choice _ = false

-- `_validate_response`
unfoldable pub validate_response : Fields → Outcome
validate_response d =
    if has_choice (field? "choices" d) then returns d else raises llm_response_error

abbrev read_json : Option Value → Outcome
read_json none = raises llm_response_error
read_json (some (Value.object d)) = validate_response d
read_json (some _) = raises llm_response_error

-- `_complete_once`
unfoldable pub complete_once : Posted → Outcome
unfolding validate_response
complete_once (answered status json) =
    if leb 500 status
    then raises llm_connection_error
    else if leb 400 status
    then raises llm_response_error
    else read_json json
complete_once connect_error = raises llm_connection_error
complete_once timed_out = raises llm_timeout_error
complete_once http_error = raises llm_connection_error
complete_once failed = raises foreign_error
complete_once cancelled = cancels

-- the sleeps of a call: the time of each and its delay
abbrev pub Sleeps : Type 0
Sleeps = List (ℕ × ℕ)

-- whether the deadline forbids a delay
abbrev pub is_late : Option ℕ → ℕ → ℕ → Bool
is_late none now delay = false
is_late (some deadline) now delay = if leb deadline now then true else leb (deadline - now) delay

module _ (p : RetryPolicy) (w : Wire) (deadline : Option ℕ) where
  abbrev pub sleep : ℕ → ℕ → (Sleeps → Outcome × Sleeps) → Sleeps → Outcome × Sleeps
  sleep i delay next sleeps =
      if w.interrupted i then (cancels, sleeps) else next (sleeps ++ (w.monotonic i, delay) ∷ [])

  abbrev pub after_delay :
      ErrorClass → ℕ → Result ℕ → (Sleeps → Outcome × Sleeps) → Sleeps → Outcome × Sleeps
  after_delay e i (raise _) next sleeps = (raises foreign_error, sleeps)
  after_delay e i (ok delay) next sleeps =
      if is_late deadline (w.monotonic i) delay
      then (raises e, sleeps)
      else sleep i delay next sleeps

  abbrev pub when_retried :
      ErrorClass → ℕ → Result Bool → (Sleeps → Outcome × Sleeps) → Sleeps → Outcome × Sleeps
  when_retried e i (raise _) next sleeps = (raises foreign_error, sleeps)
  when_retried e i (ok false) next sleeps = (raises e, sleeps)
  when_retried e i (ok true) next sleeps =
      after_delay e i (get_delay p (w.uniform i) (pos (suc i))) next sleeps

  -- one round of the loop, with the attempt `i + 1`
  unfoldable pub on_outcome : ℕ → Outcome → (Sleeps → Outcome × Sleeps) → Sleeps → Outcome × Sleeps
  on_outcome i (returns d) next sleeps = (returns d, sleeps)
  on_outcome i cancels next sleeps = (cancels, sleeps)
  on_outcome i (raises e) next sleeps =
      when_retried e i (should_retry p e (pos (suc i))) next sleeps

  -- the loop, with the attempts that are left
  unfoldable pub attempts_from : ℕ → ℕ → Sleeps → Outcome × Sleeps
  unfolding on_outcome
  attempts_from zero i sleeps = (raises foreign_error, sleeps)
  attempts_from (suc left) i sleeps =
      on_outcome i (complete_once (w.post i)) (attempts_from left (suc i)) sleeps

  unfoldable pub complete : Outcome × Sleeps
  unfolding attempts_from
  complete = attempts_from (pos_part p.max_attempts) 0 []
