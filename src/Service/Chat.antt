-- ===== src/Service/Chat.antt =====
-- `chat_completions` of main.py: the admission of a request, its failover, and its answer. While
-- it waits, other requests take and give back slots, and use the providers.
use agenyx.Base.{
  Bool, ℕ, ◌+◌, Option, none, some, String, List, Dict, lookup, insert, string_eq, pair_eq, Value,
  ℤ, pos, ◌+ℤ◌, ◌-ℤ◌, Result, ok, raise, if◌then◌else◌,
}
use agenyx.Concurrency.{InferenceConcurrencyLimiter, try_acquire, release}
use agenyx.Concurrency.Slots
use agenyx.Failover.{FailoverManager, Failure, Reply, chat_completion}
use agenyx.Failover
use agenyx.Models.{ModelRegistry}
use agenyx.Reliability.{ReliabilityManager}
use agenyx.Service.{ApiError, api_error, Settings, Request, passes, rejects, validate, as_dict}

-- The objects of the module that a request changes. `in_progress` is the gauge of each model and
-- `requests_total` counts by provider, model and status: what this request adds to them.
pub record Service : Type 0 where
  pub limiter : InferenceConcurrencyLimiter
  pub reliability : ReliabilityManager
  pub in_progress : Dict String ℤ
  pub requests_total : Dict (String × (String × String)) ℕ

-- What the environment does while the request waits; and `renders` is whether a JSONResponse can be
-- built of a content and the two headers, a provider and a model: a number that JSON does not have, or
-- a name outside Latin-1, makes it raise.
pub record World : Type 0 where
  pub calls : Failover.World
  pub slots : List Slots.Event
  pub renders : Value → String → String → Bool

-- How a request ends: by a response with its provider and model, by an error of the API, by an
-- exception of the failover that passes on, by the RuntimeError of a release without a holder, or by
-- the exception of a response that cannot be built.
pub data Ending : Type 0 where
  responds : Value → String → String → Ending
  refuses : ApiError → Ending
  escapes : Failure → Ending
  over_released : Ending
  unrendered : Ending

abbrev pub value_or_zero : Option ℤ → ℤ
value_or_zero none = pos 0
value_or_zero (some n) = n

-- the gauge of a model
abbrev pub gauge : String → Dict String ℤ → ℤ
gauge model d = value_or_zero (lookup model d)

abbrev count_or_zero : Option ℕ → ℕ
count_or_zero none = 0
count_or_zero (some n) = n

abbrev pub counted : String → String → String → Service → Service
counted provider model status s = record s {
  requests_total =
      insert (provider, (model, status))
        (count_or_zero (lookup (provider, (model, status)) s.requests_total) + 1) s.requests_total;
}

-- `INFERENCE_REQUESTS_IN_PROGRESS.labels(...).inc()`, and `dec()`
abbrev pub inc : String → Service → Service
inc model s = record s {
  in_progress = insert model (gauge model s.in_progress +ℤ pos 1) s.in_progress;
}

abbrev pub dec : String → Service → Service
dec model s = record s {
  in_progress = insert model (gauge model s.in_progress -ℤ pos 1) s.in_progress;
}

-- the handlers of the exceptions of the failover
unfoldable pub on_failure : String → Failure → Service → Ending × Service
on_failure model Failure.no_route s = (refuses (api_error 503 "MODEL_UNAVAILABLE"), s)
on_failure model Failure.unknown_provider s = (refuses (api_error 503 "MODEL_UNAVAILABLE"), s)
on_failure model Failure.untracked s = (refuses (api_error 503 "MODEL_UNAVAILABLE"), s)
on_failure model Failure.all_failed s =
    (refuses (api_error 503 "INFERENCE_FAILED"), counted "failover" model "error" s)
on_failure model Failure.none_available s =
    (refuses (api_error 503 "INFERENCE_FAILED"), counted "failover" model "error" s)
on_failure model Failure.bad_payload s = (escapes Failure.bad_payload, s)
on_failure model Failure.cancelled s = (escapes Failure.cancelled, s)

unfoldable pub on_reply : String → Reply → Service → Ending × Service
unfolding on_failure
on_reply model (Reply.returned result) s =
    (responds result.response result.provider model, counted result.provider model "success" s)
on_reply model (Reply.raised failure) s = on_failure model failure s

abbrev pub released : Ending → Result (Unit {0}) → Ending
released ending (ok _) = ending
released ending (raise _) = over_released

-- `finally`
unfoldable pub give_back : String → Ending × Service → Ending × Service
give_back model (ending, s) =
    let (r, limiter) = release s.limiter in
    (released ending r, record (dec model s) { limiter = limiter })

-- the request, once it has its slot
unfoldable pub run_admitted :
    FailoverManager → World → Dict String Value → String → Service → Ending × Service
unfolding on_reply give_back
run_admitted f w payload model s =
    let (reply, reliability) =
      chat_completion f w.calls (insert "model" (Value.str model) payload) s.reliability in
    let (_, limiter) = Slots.run w.slots s.limiter.active s.limiter in
    give_back model
      (on_reply model reply (record (inc model s) { reliability = reliability; limiter = limiter }))

-- `return JSONResponse(...)`, after the `finally`
abbrev pub respond : World → Ending × Service → Ending × Service
respond w (responds response provider model, s) =
    if w.renders response provider model
    then (responds response provider model, s)
    else (unrendered, s)
respond w o = o

unfoldable pub admit :
    FailoverManager → World → Dict String Value → String → Service → Ending × Service
unfolding run_admitted
admit f w payload model s =
    let (acquired, limiter) = try_acquire s.limiter in
    if acquired
    then respond w (run_admitted f w payload model (record s { limiter = limiter }))
    else (refuses (api_error 429 "INFERENCE_CONCURRENCY_LIMIT"), s)

unfoldable pub chat_completions :
    Settings → ModelRegistry → FailoverManager → World → Request → Service → Ending × Service
unfolding admit
chat_completions c models f w r s = elim (validate c models r) [
  | rejects e ↦ (refuses e, s)
  | passes (payload, model) ↦ admit f w (as_dict payload) model.model_id s
]

-- what the client gets: the status, and the code of an error; a cancelled request gets nothing
unfoldable pub status_of : Ending → Option (ℕ × Option String)
status_of (responds response provider model) = some (200, none)
status_of (refuses e) = some (e.status_code, some e.code)
status_of (escapes Failure.cancelled) = none
status_of (escapes _) = some (500, some "INTERNAL_SERVER_ERROR")
status_of over_released = some (500, some "INTERNAL_SERVER_ERROR")
status_of unrendered = some (500, some "INTERNAL_SERVER_ERROR")
