-- ===== src/Reliability/Allow.antt =====
-- `allow_request` on every branch; it keeps the invariant.
use agenyx.Base.{
  ℕ, ◌≡◌, refl, inl, inr, true, false, some, String, List, string_eq, arith, lookup, elem, add, ok,
  elem-add, ==_refl, Bool-cases, Option-cases,
}
use agenyx.Reliability.{
  ReliabilityManager, ProviderHealthState, CircuitState, allow_request, half_opened, cooled,
}
use agenyx.Reliability.Invariant.{IsSteady, IsSound, IsValid, settled, SameBut, settled-IsValid}
use agenyx.Reliability.Record.{missing_raises}

SameBut-add : (k : String) (old : List String) → SameBut k old (add k old)
SameBut-add k old j e = rw (elem-add, e)

module _ (k : String) (now : ℕ) (m : ReliabilityManager) (st : ProviderHealthState) (v : IsValid m)
    (e : lookup k m.states ≡ some st) where
  -- Closed: the request passes.
  pub allow_closed : st.circuit_state ≡ CircuitState.closed → allow_request k now m ≡ (ok true, m)
  unfolding allow_request
  allow_closed c = ground arith

  -- Half open: the probe is running, so the request is rejected.
  pub allow_half_open :
      st.circuit_state ≡ CircuitState.half_open → allow_request k now m ≡ (ok false, m)
  unfolding allow_request
  allow_half_open c = ground (arith, (v.sound k st e).steady)

  -- Open and not cooled down: rejected.
  pub allow_open_early :
      st.circuit_state ≡ CircuitState.opened
      → cooled now m.recovery_timeout st.circuit_opened_at ≡ false
      → allow_request k now m ≡ (ok false, m)
  unfolding allow_request
  allow_open_early c h = ground arith

  -- Open and cooled down: the request becomes the probe.
  pub allow_open_late :
      st.circuit_state ≡ CircuitState.opened
      → cooled now m.recovery_timeout st.circuit_opened_at ≡ true
      → allow_request k now m
        ≡ (ok true, settled k (half_opened now st) (add k m.half_open_probe) m)
  unfolding allow_request
  allow_open_late c h = ground (arith, (v.sound k st e).steady, (v.sound k st e).named)

half_opened-IsSteady :
    (k : String) (now : ℕ) (m : ReliabilityManager) (st : ProviderHealthState)
    → IsSound m k st
    → st.circuit_state ≡ CircuitState.opened
    → IsSteady m.degraded_failure_threshold m.unhealthy_failure_threshold
        (elem k (add k m.half_open_probe))
        (half_opened now st)
half_opened-IsSteady k now m st s c = ground (arith, elem-add k k m.half_open_probe, ==_refl k)

pub allow_request-IsValid :
    (k : String) (now : ℕ) (m : ReliabilityManager) → IsValid m → IsValid (allow_request k now m).1
allow_request-IsValid k now m v = elim (Option-cases (lookup k m.states)) [
  | inl e ↦ rw ((missing_raises k now m e).2) v
  | inr (st, e) ↦ by_state st e st.circuit_state refl
]
  where
    late :
        (st : ProviderHealthState)
        → lookup k m.states ≡ some st
        → st.circuit_state ≡ CircuitState.opened
        → IsValid (settled k (half_opened now st) (add k m.half_open_probe) m)
    late st e c =
        settled-IsValid k (half_opened now st) (add k m.half_open_probe) m (v.sound k st e).named
          (SameBut-add k m.half_open_probe) (half_opened-IsSteady k now m st (v.sound k st e) c) v

    by_state :
        (st : ProviderHealthState)
        → lookup k m.states ≡ some st
        → (c : CircuitState) → st.circuit_state ≡ c
        → IsValid (allow_request k now m).1
    by_state st e CircuitState.closed h = rw (allow_closed k now m st v e h) v
    by_state st e CircuitState.half_open h = rw (allow_half_open k now m st v e h) v
    by_state st e CircuitState.opened h =
        elim (Bool-cases (cooled now m.recovery_timeout st.circuit_opened_at)) [
          | inl t ↦ rw (allow_open_late k now m st v e h t) (late st e h)
          | inr f ↦ rw (allow_open_early k now m st v e h f) v
        ]
