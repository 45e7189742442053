-- ===== src/Failover.antt =====
-- failover/manager.py of the inference service: a request tries the providers of its model in
-- order. While it waits for a provider, other requests use the reliability manager: their calls,
-- the answers and the clock are the `World`, by the position in the route.
pub mod Routes
mod Order
mod Health
mod Cancel
mod Tests
use agenyx.Base.{
  ℕ, suc, ◌+◌, Bool, true, false, Option, none, some, String, List, [], ◌∷◌, ◌++◌, Dict, lookup,
  contains, string_eq, Value, leb, ltb, is_empty, is_blank, Error, value_error, key_error, Result,
  ok, raise, if◌then◌else◌, ◌&&◌, not, ltb_ℤ, pos, pos_part, ℤ,
}
use agenyx.Providers.{Provider, ProviderRegistry, get}
use agenyx.Reliability.{ReliabilityManager, allow_request, record_success, record_failure}
use agenyx.Reliability
use agenyx.Reliability.Traces

pub record FailoverAttempt : Type 0 where
  pub provider : String
  pub success : Bool
  pub error : Option String

pub record FailoverResult : Type 0 where
  pub response : Value
  pub provider : String
  pub attempts : List FailoverAttempt

pub record FailoverManager : Type 0 where
  pub registry : ProviderRegistry
  pub model_routes : Dict String (List String)
  pub max_attempts : ℕ

-- one provider of a route is known to the registry
abbrev all_known : ProviderRegistry → List String → Bool
all_known r [] = true
all_known r (name ∷ names) = contains name r && all_known r names

-- `_validate_routes`: every branch that raises raises ValueError
unfoldable pub validate_routes : ProviderRegistry → Dict String (List String) → Result (Unit {0})
validate_routes r [] = ok tt
validate_routes r ((model_id, []) ∷ routes) = raise value_error
validate_routes r ((model_id, name ∷ names) ∷ routes) =
    let rest = validate_routes r routes in
    if is_blank model_id
    then raise value_error
    else if not (all_known r (name ∷ names))
    then raise value_error
    else rest

abbrev no_routes : Dict String (List String) → Bool
no_routes [] = true
no_routes (_ ∷ _) = false

-- `__init__`
unfoldable pub init : ProviderRegistry → Dict String (List String) → ℤ → Result FailoverManager
unfolding validate_routes
init registry model_routes max_attempts =
    if no_routes model_routes
    then raise value_error
    else if ltb_ℤ max_attempts (pos 1)
    then raise value_error
    else elim (validate_routes registry model_routes) [
      | raise e ↦ raise e
      | ok _ ↦ ok (record {
        registry = registry;
        model_routes = model_routes;
        max_attempts = pos_part max_attempts;
      })
    ]

-- What awaiting a provider gives: its response, an exception with its text, or the cancellation of
-- the request, which `except Exception` does not catch.
pub data Answer : Type 0 where
  responds : Value → Answer
  fails : String → Answer
  cancels : Answer

pub record World : Type 0 where
  pub allowed_at : ℕ → ℕ
  pub recorded_at : ℕ → ℕ
  pub answer : ℕ → Answer
  pub others : ℕ → List Traces.Call

-- How a request ends other than by a result. `all_failed` and `none_available` are the two
-- RuntimeErrors at the end of the loop; the three before them are ValueError and KeyErrors.
pub data Failure : Type 0 where
  bad_payload no_route unknown_provider untracked : Failure
  all_failed none_available : Failure
  cancelled : Failure

pub data Reply : Type 0 where
  returned : FailoverResult → Reply
  raised : Failure → Reply

-- the variables of the loop
pub record Progress : Type 0 where
  pub attempts : List FailoverAttempt
  pub attempted_count : ℕ
  pub last_error : Option String

abbrev pub exhausted : Option String → Failure
exhausted none = none_available
exhausted (some _) = all_failed

abbrev pub note : String → Bool → Option String → Progress → Progress
note name success error p = record p {
  attempts = p.attempts ++ record { provider = name; success = success; error = error } ∷ [];
}

-- the rest of the loop, from the next provider on
abbrev pub Next : Type 0
Next = Progress → ReliabilityManager → Reply × ReliabilityManager

-- the outcome is recorded, unless the manager does not know the provider
abbrev pub recording :
    Result (Unit {0}) × ReliabilityManager
    → (ReliabilityManager → Reply × ReliabilityManager)
    → Reply × ReliabilityManager
recording (ok _, m) k = k m
recording (raise _, m) k = (raised untracked, m)

unfoldable pub on_answer : Answer → String → ℕ → Next → Next
on_answer (responds response) name now next p m = recording (record_success name now m) λ m'. (
  returned (record {
    response = response;
    provider = name;
    attempts = (note name true none p).attempts;
  }),
  m',
)
on_answer (fails error) name now next p m =
    recording (record_failure name now m)
      λ m'. next (note name false (some error) (record p { last_error = some error })) m'
on_answer cancels name now next p m = (raised cancelled, m)

unfoldable pub on_allowed : Result Bool → World → ℕ → String → Next → Next
unfolding on_answer
on_allowed (raise _) w i name next p m = (raised untracked, m)
on_allowed (ok false) w i name next p m =
    next (note name false (some "Provider circuit is open") p) m
on_allowed (ok true) w i name next p m =
    on_answer (w.answer i) name (w.recorded_at i) next
      (record p { attempted_count = p.attempted_count + 1 }) (Traces.run (w.others i) m)

-- the body of the loop, for one provider
unfoldable pub try_provider : World → ℕ → Provider → Next → Next
unfolding on_allowed
try_provider w i provider next p m =
    let (allowed, m') = allow_request provider.name (w.allowed_at i) m in
    on_allowed allowed w i provider.name next p m'

-- the loop over the route, from its position `i` on
unfoldable pub attempt_from : FailoverManager → World → ℕ → List String → Next
attempt_from f w i [] p m = (raised (exhausted p.last_error), m)
attempt_from f w i (name ∷ route) p m =
    let next = attempt_from f w (suc i) route in
    if leb f.max_attempts p.attempted_count
    then (raised (exhausted p.last_error), m)
    else elim (get name f.registry) [
      | raise _ ↦ (raised unknown_provider, m)
      | ok provider ↦ try_provider w i provider next p m
    ]

abbrev pub fresh : Progress
fresh = record { attempts = []; attempted_count = 0; last_error = none }

abbrev pub model_of : Option Value → Option String
model_of (some (Value.str s)) = if is_empty s then none else some s
model_of _ = none

unfoldable pub chat_completion :
    FailoverManager → World → Dict String Value → ReliabilityManager → Reply × ReliabilityManager
unfolding attempt_from
chat_completion f w payload m = elim (model_of (lookup "model" payload)) [
  | none ↦ (raised bad_payload, m)
  | some model_id ↦ elim (lookup model_id f.model_routes) [
    | none ↦ (raised no_route, m)
    | some route ↦ attempt_from f w 0 route fresh m
  ]
]
