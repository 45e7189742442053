-- ===== src/Reliability/Invariant.antt =====
-- What holds of the manager between two calls.
use agenyx.Base.{
  ◌≤◌, ◌≡◌, ◌≢◌, inl, inr, Bool, true, false, none, some, is_some, String, List, string_eq, arith,
  lookup, insert, elem, pos, ◌≤ℤ◌, lookup-insert, ==_iff, leb_ℤ, ℤ, ◌==◌, Bool-cases,
}
use agenyx.Reliability.{
  ReliabilityManager, ProviderHealthState, healthy, degraded, unhealthy, CircuitState, gauges_of,
}

-- Of a provider under two thresholds, with or without a running probe: the circuit is closed
-- exactly below the second threshold, where the first tells degraded from healthy; off it the
-- provider is unhealthy, and half open means a running probe.
pub record IsSteady (low high : ℤ) (probing : Bool) (st : ProviderHealthState) : Type 0 where
  pub below :
      st.circuit_state ≡ CircuitState.closed → leb_ℤ high (pos st.consecutive_failures) ≡ false
  pub above :
      leb_ℤ high (pos st.consecutive_failures) ≡ false → st.circuit_state ≡ CircuitState.closed
  pub rested :
      st.circuit_state ≡ CircuitState.closed
      → leb_ℤ low (pos st.consecutive_failures) ≡ false
      → st.status ≡ healthy
  pub strained :
      st.circuit_state ≡ CircuitState.closed
      → leb_ℤ low (pos st.consecutive_failures) ≡ true
      → st.status ≡ degraded
  pub down : st.circuit_state ≢ CircuitState.closed → st.status ≡ unhealthy
  pub unopened : st.circuit_state ≡ CircuitState.closed → st.circuit_opened_at ≡ none
  pub dated : st.circuit_state ≢ CircuitState.closed → is_some st.circuit_opened_at ≡ true
  pub held : st.circuit_state ≡ CircuitState.half_open → probing ≡ true
  pub idle : probing ≡ true → st.circuit_state ≡ CircuitState.half_open

pub record IsSound (m : ReliabilityManager) (name : String) (st : ProviderHealthState)
    : Type 0 where
  pub named : st.provider_name ≡ name
  pub measured : lookup name m.metrics ≡ some (gauges_of st)
  pub steady :
      IsSteady m.degraded_failure_threshold m.unhealthy_failure_threshold
        (elem name m.half_open_probe)
        st

pub record IsConfigured (m : ReliabilityManager) : Type 0 where
  pub positive : pos 1 ≤ℤ m.degraded_failure_threshold
  pub ordered : m.degraded_failure_threshold ≤ℤ m.unhealthy_failure_threshold
  pub waits : 1 ≤ m.recovery_timeout

abbrev pub AllSound : ReliabilityManager → Type 0
AllSound m =
    (name : String) (st : ProviderHealthState) → lookup name m.states ≡ some st → IsSound m name st

-- A probe belongs to a registered provider.
abbrev pub AllOwned : ReliabilityManager → Type 0
AllOwned m = (name : String) → lookup name m.states ≡ none → elem name m.half_open_probe ≡ false

pub record IsValid (m : ReliabilityManager) : Type 0 where
  pub configured : IsConfigured m
  pub sound : AllSound m
  pub owned : AllOwned m

-- The manager after a provider has changed, with its metrics and the probes.
abbrev pub settled :
    String → ProviderHealthState → List String → ReliabilityManager → ReliabilityManager
settled k st probes m = record m {
  states = insert k st m.states;
  half_open_probe = probes;
  metrics = insert k (gauges_of st) m.metrics;
}

-- Only the probe of `k` has changed.
abbrev pub SameBut : String → List String → List String → Type 0
SameBut k old probes = (j : String) → k == j ≡ false → elem j probes ≡ elem j old

pub settled-IsValid :
    (k : String) (st : ProviderHealthState) (probes : List String) (m : ReliabilityManager)
    → st.provider_name ≡ k
    → SameBut k m.half_open_probe probes
    → IsSteady m.degraded_failure_threshold m.unhealthy_failure_threshold (elem k probes) st
    → IsValid m
    → IsValid (settled k st probes m)
settled-IsValid k st probes m n same steady v = record {
  configured = ground arith;
  sound = λ j s h. elim (Bool-cases (k == j)) [
    | inl e ↦ here j s e (rw (lookup-insert, e) at h)
    | inr e ↦ there j s e (v.sound j s (rw (lookup-insert, e) at h))
  ];
  owned = λ j h. elim (Bool-cases (k == j)) [
    | inl e ↦ cc (rw (lookup-insert, e) at h)
    | inr e ↦ rw (same j e) (v.owned j (rw (lookup-insert, e) at h))
  ];
}
  where
    here :
        (j : String) (s : ProviderHealthState)
        → k == j ≡ true
        → some st ≡ some s
        → IsSound (settled k st probes m) j s
    here j s e h = ground (arith, ==_iff k j, lookup-insert j k (gauges_of st) m.metrics)

    there :
        (j : String) (s : ProviderHealthState)
        → k == j ≡ false
        → IsSound m j s
        → IsSound (settled k st probes m) j s
    there j s e h = ground (arith, same j e, lookup-insert j k (gauges_of st) m.metrics)
