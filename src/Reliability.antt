-- ===== src/Reliability.antt =====
-- reliability/state.py and reliability/manager.py of the inference service: the circuit breaker of
-- each provider. `now` is what `datetime.now` returns in a method, in microseconds; each method
-- runs under the manager's lock, so a call is one step.
pub mod Invariant
pub mod Record
pub mod Allow
pub mod Register
pub mod Breaker
pub mod Traces
mod Tests
use agenyx.Base.{
  ℕ, suc, ◌+◌, Bool, true, false, Option, none, some, String, List, [], Dict, lookup, insert,
  contains, string_eq, elem, add, discard, ℤ, pos, pos_part, ltb_ℤ, leb_ℤ, leb, ◌||◌, Error,
  value_error, key_error, Result, ok, raise, Action, pure, throw, gets, modify, raise_if, ◌>>=◌,
  ◌>>◌, if◌then◌else◌, is_blank, values,
}

pub data ProviderStatus : Type 0 where
  healthy degraded unhealthy : ProviderStatus

pub data CircuitState : Type 0 where
  closed opened half_open : CircuitState

pub record ProviderHealthState : Type 0 where
  pub provider_name : String
  pub status : ProviderStatus
  pub circuit_state : CircuitState
  pub consecutive_failures : ℕ
  pub total_failures : ℕ
  pub total_successes : ℕ
  pub last_failure_at : Option ℕ
  pub last_success_at : Option ℕ
  pub circuit_opened_at : Option ℕ
  pub circuit_half_opened_at : Option ℕ

-- what the five gauges of a provider were last set to
pub record Gauges : Type 0 where
  pub circuit : ℕ
  pub health : ℕ
  pub consecutive : ℕ
  pub failures : ℕ
  pub successes : ℕ

pub record ReliabilityManager : Type 0 where
  pub degraded_failure_threshold : ℤ
  pub unhealthy_failure_threshold : ℤ
  pub recovery_timeout : ℕ
  pub states : Dict String ProviderHealthState
  pub half_open_probe : List String
  pub metrics : Dict String Gauges

-- `__init__`, the timeout given in microseconds
unfoldable pub init : ℤ → ℤ → ℤ → Result ReliabilityManager
init degraded_threshold unhealthy_threshold timeout =
    if ltb_ℤ degraded_threshold (pos 1)
    then raise value_error
    else if ltb_ℤ unhealthy_threshold degraded_threshold
    then raise value_error
    else if leb_ℤ timeout (pos 0)
    then raise value_error
    else ok (record {
      degraded_failure_threshold = degraded_threshold;
      unhealthy_failure_threshold = unhealthy_threshold;
      recovery_timeout = pos_part timeout;
      states = [];
      half_open_probe = [];
      metrics = [];
    })

-- `_CIRCUIT_STATE_VALUES`
abbrev pub circuit_value : CircuitState → ℕ
circuit_value CircuitState.closed = 0
circuit_value CircuitState.opened = 1
circuit_value CircuitState.half_open = 2

-- `_HEALTH_STATE_VALUES`
abbrev pub health_value : ProviderStatus → ℕ
health_value unhealthy = 0
health_value degraded = 1
health_value healthy = 2

abbrev pub gauges_of : ProviderHealthState → Gauges
gauges_of st = record {
  circuit = circuit_value st.circuit_state;
  health = health_value st.status;
  consecutive = st.consecutive_failures;
  failures = st.total_failures;
  successes = st.total_successes;
}

-- `_update_metrics`
abbrev update_metrics : ProviderHealthState → ReliabilityManager → ReliabilityManager
update_metrics st m = record m { metrics = insert st.provider_name (gauges_of st) m.metrics }

-- the object under a name after it was changed in place
abbrev put_state : String → ProviderHealthState → ReliabilityManager → ReliabilityManager
put_state name st m = record m { states = insert name st m.states }

abbrev new_state : String → ProviderHealthState
new_state name = record {
  provider_name = name;
  status = healthy;
  circuit_state = CircuitState.closed;
  consecutive_failures = 0;
  total_failures = 0;
  total_successes = 0;
  last_failure_at = none;
  last_success_at = none;
  circuit_opened_at = none;
  circuit_half_opened_at = none;
}

unfoldable pub register : String → Action ReliabilityManager (Unit {0})
register name = do
  raise_if (is_blank name) value_error
  λ m. raise_if (contains name m.states) value_error m
  modify (put_state name (new_state name))
  modify (update_metrics (new_state name))

-- `_get_state`
abbrev pub get_state : String → Action ReliabilityManager ProviderHealthState
get_state name m = (elim (lookup name m.states) [ none ↦ raise key_error | some st ↦ ok st ], m)

-- `get`: the snapshot is a value, so the copy is not told from the original.
unfoldable pub get : String → Action ReliabilityManager ProviderHealthState
get = get_state

-- `list_states`
unfoldable pub list_states : ReliabilityManager → List ProviderHealthState
list_states m = values m.states

-- `circuit_opened_at is not None and now - circuit_opened_at >= recovery_timeout`
abbrev pub cooled : ℕ → ℕ → Option ℕ → Bool
cooled now timeout none = false
cooled now timeout (some t) = leb (t + timeout) now

abbrev half_opened : ℕ → ProviderHealthState → ProviderHealthState
half_opened now st = record st {
  circuit_state = CircuitState.half_open;
  circuit_half_opened_at = some now;
}

-- `if name in probes: return False`, else the probe is taken
abbrev take_probe : String → Action ReliabilityManager Bool
take_probe name m =
    if elem name m.half_open_probe
    then (ok false, m)
    else (ok true, record m { half_open_probe = add name m.half_open_probe })

abbrev allow_in : CircuitState → String → ℕ → ProviderHealthState → Action ReliabilityManager Bool
allow_in CircuitState.closed name now st = pure true
allow_in CircuitState.opened name now st = λ m.
    if cooled now m.recovery_timeout st.circuit_opened_at
    then take_probe name
        (update_metrics (half_opened now st) (put_state name (half_opened now st) m))
    else (ok false, m)
allow_in CircuitState.half_open name now st = take_probe name

unfoldable pub allow_request : String → ℕ → Action ReliabilityManager Bool
allow_request name now = do st ← get_state name; allow_in st.circuit_state name now st

-- `is_available`
unfoldable pub is_available : String → ℕ → Action ReliabilityManager Bool
unfolding allow_request
is_available = allow_request

abbrev pub succeed : ℕ → ProviderHealthState → ProviderHealthState
succeed now st = record st {
  total_successes = st.total_successes + 1;
  consecutive_failures = 0;
  last_success_at = some now;
  status = healthy;
  circuit_state = CircuitState.closed;
  circuit_opened_at = none;
  circuit_half_opened_at = none;
}

abbrev release_probe : String → ReliabilityManager → ReliabilityManager
release_probe name m = record m { half_open_probe = discard name m.half_open_probe }

unfoldable pub record_success : String → ℕ → Action ReliabilityManager (Unit {0})
record_success name now = do
  st ← get_state name
  modify (put_state name (succeed now st))
  modify (release_probe name)
  modify (update_metrics (succeed now st))

abbrev counted : ℕ → ProviderHealthState → ProviderHealthState
counted now st = record st {
  total_failures = st.total_failures + 1;
  consecutive_failures = st.consecutive_failures + 1;
  last_failure_at = some now;
}

abbrev reopen : ℕ → ProviderHealthState → ProviderHealthState
reopen now st = record st {
  status = unhealthy;
  circuit_state = CircuitState.opened;
  circuit_opened_at = some now;
  circuit_half_opened_at = none;
}

abbrev is_half_open : CircuitState → Bool
is_half_open CircuitState.half_open = true
is_half_open _ = false

-- the branches of `record_failure`, after the counters
abbrev judge : ReliabilityManager → ℕ → ProviderHealthState → ProviderHealthState
judge m now st =
    if is_half_open st.circuit_state
    then reopen now st
    else if leb_ℤ m.unhealthy_failure_threshold (pos st.consecutive_failures)
    then reopen now st
    else if leb_ℤ m.degraded_failure_threshold (pos st.consecutive_failures)
    then record st { status = degraded }
    else st

unfoldable pub record_failure : String → ℕ → Action ReliabilityManager (Unit {0})
record_failure name now = do
  st ← get_state name
  modify (release_probe name)
  λ m. modify (put_state name (judge m now (counted now st))) m
  λ m. modify (update_metrics (judge m now (counted now st))) m
