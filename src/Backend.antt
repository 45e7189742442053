-- ===== src/Backend.antt =====
-- backend.py and providers/openai_compatible.py of the inference service: the client of a provider.
-- The HTTP client is the `Wire`, by the number of the attempt.
mod Retries
mod Transient
mod Tests
use agenyx.Base.{
  ℕ, zero, suc, ◌+◌, ◌*◌, ◌^◌, Bool, true, false, Option, none, some, String, List, [], ◌∷◌, Dict,
  lookup, insert, string_eq, pair_eq, ℤ, pos, ltb_ℤ, leb_ℤ, pos_part, leb, ltb, is_empty, strip,
  rstrip, Value, Fields, Error, value_error, runtime_error, cancelled_error, Result, ok, raise,
  if◌then◌else◌, ◌&&◌, ◌||◌, nat_beq, min, str_of,
}
use Prim.Native.Char.{code}
use Prim.Native.String.{◌++◌ as ◌<>◌}
use agenyx.Providers.{Provider}

-- the arguments of the constructor, with times in microseconds
pub record Arguments : Type 0 where
  pub provider_name : String
  pub base_url : String
  pub timeout : ℤ
  pub max_retries : ℤ
  pub max_connections : ℤ
  pub max_keepalive_connections : ℤ

pub record OpenAiCompatibleBackend : Type 0 where
  pub provider_name : String
  pub base_url : String
  pub timeout : ℕ
  pub max_retries : ℕ

-- `s.rstrip("/")`
unfoldable pub rstrip_slashes : String → String
rstrip_slashes String.[] = String.[]
rstrip_slashes (String.◌∷◌ c s) =
    let rest = rstrip_slashes s in
    if nat_beq (code c) 47 && is_empty rest then String.[] else String.◌∷◌ c rest

-- `__init__`, without the client
unfoldable pub init : Arguments → Result OpenAiCompatibleBackend
unfolding rstrip_slashes
init a =
    if is_empty a.provider_name || is_empty a.base_url
    then raise value_error
    else if leb_ℤ a.timeout (pos 0)
    then raise value_error
    else if ltb_ℤ a.max_retries (pos 0)
    then raise value_error
    else if leb_ℤ a.max_connections (pos 0) || leb_ℤ a.max_keepalive_connections (pos 0)
    then raise value_error
    else ok (record {
      provider_name = a.provider_name;
      base_url = rstrip_slashes a.base_url;
      timeout = pos_part a.timeout;
      max_retries = pos_part a.max_retries;
    })

-- `OpenAICompatibleProvider.__init__`: a provider is its name here
unfoldable pub init_provider : Arguments → Result Provider
unfolding init
init_provider a = elim (init (record a { provider_name = strip a.provider_name })) [
  | raise e ↦ raise e
  | ok backend ↦ ok (record { name = backend.provider_name })
]

-- What awaiting the client's `post` gives: a response, with its status, whether `raise_for_status`
-- raises, and its JSON, or nothing when it is not JSON; a TimeoutException; another RequestError;
-- another exception, by the name of its class; or the cancellation of the call.
pub data Posted : Type 0 where
  answered : ℕ → Bool → Option Value → Posted
  timed_out failed_request : Posted
  failed : String → Posted
  cancelled : Posted

pub record Wire : Type 0 where
  pub post : ℕ → Posted
  pub jitter : ℕ → ℕ
  -- whether the sleep before the next attempt is cancelled
  pub interrupted : ℕ → Bool

-- The metrics of the provider and the model: PROVIDER_REQUESTS_TOTAL by its four statuses,
-- PROVIDER_ERRORS_TOTAL by type and PROVIDER_RETRIES_TOTAL by reason, how many durations were observed,
-- and how long the backoffs took.
pub record Metrics : Type 0 where
  pub retryable_error : ℕ
  pub client_error : ℕ
  pub success : ℕ
  pub error : ℕ
  pub errors : Dict String ℕ
  pub retries : Dict String ℕ
  pub durations : ℕ
  pub slept : ℕ

pub data Raised : Type 0 where
  timeout_exception request_error http_status_error : Raised
  runtime_error_raised : Raised
  other_exception : String → Raised
  cancelled_call : Raised

pub data Outcome : Type 0 where
  returns : Fields → Outcome
  raises : Raised → Outcome

-- how an attempt ends: the loop ends with it, or goes on
pub data Step : Type 0 where
  done : Outcome → Step
  again : Step

abbrev pub count_or_zero : Option ℕ → ℕ
count_or_zero none = 0
count_or_zero (some n) = n

abbrev pub bump : String → Dict String ℕ → Dict String ℕ
bump label d = insert label (count_or_zero (lookup label d) + 1) d

abbrev pub observe : Metrics → Metrics
observe m = record m { durations = m.durations + 1 }

abbrev pub count_error : String → Metrics → Metrics
count_error error_type m = record m { errors = bump error_type m.errors }

abbrev pub count_retry : String → Metrics → Metrics
count_retry reason m = record m { retries = bump reason m.retries }

abbrev pub count_failure : Metrics → Metrics
count_failure m = record m { error = m.error + 1 }

-- `RETRYABLE_STATUS_CODES`
abbrev pub is_retryable : ℕ → Bool
is_retryable status =
    nat_beq status 500 || nat_beq status 502 || nat_beq status 503 || nat_beq status 504

abbrev pub http_error : ℕ → String
http_error status = "http_" <> str_of (pos status)

-- `_backoff`, in microseconds
unfoldable pub delay : ℕ → ℕ
delay attempt = min (500000 * 2 ^ attempt) 10000000

unfoldable pub backoff : Wire → ℕ → Metrics → Step × Metrics
unfolding delay
backoff w attempt m =
    if w.interrupted attempt
    then (done (raises cancelled_call), m)
    else (again, record m { slept = m.slept + (delay attempt + w.jitter attempt) })

-- `except httpx.HTTPStatusError`
abbrev pub status_error : Metrics → Step × Metrics
status_error m = (done (raises http_status_error), count_failure (count_error "http_error" m))

-- `except Exception`
abbrev pub unexpected : Raised → String → Metrics → Step × Metrics
unexpected e name m = (done (raises e), count_failure (count_error name m))

abbrev pub checked_json : Option Value → Metrics → Step × Metrics
checked_json none m = unexpected runtime_error_raised "RuntimeError" (count_error "invalid_json" m)
checked_json (some (Value.object fields)) m =
    (done (returns fields), record m { success = m.success + 1 })
checked_json (some _) m =
    unexpected runtime_error_raised "RuntimeError" (count_error "invalid_response" m)

-- from `if 400 <= response.status_code < 500` on
abbrev pub read_response : ℕ → Bool → Option Value → Metrics → Step × Metrics
read_response status bad json m =
    let m' =
      (if leb 400 status && ltb status 500
        then record m { client_error = m.client_error + 1 }
        else m) in
    if bad then status_error m' else checked_json json m'

unfoldable pub on_response :
    OpenAiCompatibleBackend → Wire → ℕ → ℕ → Bool → Option Value → Metrics → Step × Metrics
unfolding backoff
on_response b w attempt status bad json m =
    if is_retryable status
    then (let m' = record m { retryable_error = m.retryable_error + 1 } in
        if ltb attempt b.max_retries
        then backoff w attempt (count_retry (http_error status) m')
        else if bad
        then status_error (count_error (http_error status) m')
        else read_response status bad json (count_error (http_error status) m'))
    else read_response status bad json m

-- `except httpx.TimeoutException`, and `except httpx.RequestError`
unfoldable pub on_lost :
    OpenAiCompatibleBackend → Wire → ℕ → Raised → String → Metrics → Step × Metrics
unfolding backoff
on_lost b w attempt e name m =
    let m' = count_error name (observe m) in
    if ltb attempt b.max_retries
    then backoff w attempt (count_retry name m')
    else (done (raises e), count_failure m')

-- one attempt
unfoldable pub on_posted : OpenAiCompatibleBackend → Wire → ℕ → Posted → Metrics → Step × Metrics
unfolding on_response on_lost
on_posted b w attempt (answered status bad json) m =
    on_response b w attempt status bad json (observe m)
on_posted b w attempt timed_out m = on_lost b w attempt timeout_exception "timeout" m
on_posted b w attempt failed_request m = on_lost b w attempt request_error "network_error" m
on_posted b w attempt (failed name) m = unexpected (other_exception name) name m
on_posted b w attempt cancelled m = (done (raises cancelled_call), m)

abbrev pub continued : (Metrics → Outcome × Metrics) → Step × Metrics → Outcome × Metrics
continued rest (done o, m) = (o, m)
continued rest (again, m) = rest m

-- the loop over `range(max_retries + 1)`, with the attempts that are left
unfoldable pub attempts_from : OpenAiCompatibleBackend → Wire → ℕ → ℕ → Metrics → Outcome × Metrics
unfolding on_posted
attempts_from b w zero attempt m = (raises runtime_error_raised, m)
attempts_from b w (suc left) attempt m =
    continued (attempts_from b w left (suc attempt)) (on_posted b w attempt (w.post attempt) m)

unfoldable pub chat_completion : OpenAiCompatibleBackend → Wire → Metrics → Outcome × Metrics
unfolding attempts_from
chat_completion b w m = attempts_from b w (suc b.max_retries) 0 m

-- `health`, where the client's `get` gives whether the response is a success, or raises
unfoldable pub health : Option Bool → Bool
health none = false
health (some is_success) = is_success

-- How a stream of a provider ends, after its chunks: it is complete, an exception of the client, a
-- status that `raise_for_status` refuses, another exception, or a cancellation.
pub data Closing : Type 0 where
  complete stream_timed_out stream_failed stream_cancelled : Closing
  refused : ℕ → Closing
  broke : String → Closing

abbrev some_chunks : List String → List String
some_chunks [] = []
some_chunks (chunk ∷ chunks) =
    let rest = some_chunks chunks in if is_empty chunk then rest else chunk ∷ rest

abbrev stream_error : String → Metrics → Metrics
stream_error error_type m = count_failure (count_error error_type (observe m))

-- what is counted at the end of a stream, and what is raised
unfoldable pub close_stream : Closing → Metrics → Option Raised × Metrics
close_stream complete m = (none, let m' = observe m in record m' { success = m'.success + 1 })
close_stream stream_timed_out m = (some timeout_exception, stream_error "timeout" m)
close_stream stream_failed m = (some request_error, stream_error "network_error" m)
close_stream stream_cancelled m = (some cancelled_call, m)
close_stream (refused status) m = (some http_status_error, stream_error (http_error status) m)
close_stream (broke name) m = (some (other_exception name), stream_error name m)

-- `chat_completion_stream`: the chunks that it yields, what it raises, and the metrics
unfoldable pub chat_completion_stream :
    List String → Closing → Metrics → List String × (Option Raised × Metrics)
unfolding close_stream
chat_completion_stream chunks closing m = (some_chunks chunks, close_stream closing m)
