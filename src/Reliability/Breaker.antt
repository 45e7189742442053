-- ===== src/Reliability/Breaker.antt =====
-- The circuit breaker that the manager promises for each provider, and that it keeps to it.
use agenyx.Base.{
  ℕ, ◌+◌, ◌≡◌, refl, Bool, true, false, Option, none, some, String, arith, lookup, string_eq,
  discard, add, ℤ, pos, leb_ℤ, leb, ok, if◌then◌else◌, Bool-cases, inl, inr, ◌==◌, lookup-insert,
  List, Option-cases, ◌∙◌, ==_iff,
}
use agenyx.Reliability.{
  ReliabilityManager, ProviderHealthState, CircuitState, allow_request, record_success,
  record_failure, judge, counted, succeed, half_opened, cooled,
}
use agenyx.Reliability.Invariant.{IsValid, IsSound, settled}
use agenyx.Reliability.Record.{record_failure_settles, record_success_settles}
use agenyx.Reliability.Allow.{allow_closed, allow_half_open, allow_open_early, allow_open_late}

-- Closed with a number of failures in a row, open since a time, or half open with its probe.
pub data Breaker : Type 0 where
  closed : ℕ → Breaker
  tripped : ℕ → Breaker
  probing : Breaker

-- A closed breaker lets through; a tripped one lets one probe through after the timeout.
unfoldable pub admit : ℕ → ℕ → Breaker → Bool × Breaker
admit timeout now (closed n) = (true, closed n)
admit timeout now (tripped t) =
    if leb (t + timeout) now then (true, probing) else (false, tripped t)
admit timeout now probing = (false, probing)

unfoldable pub recover : Breaker → Breaker
recover b = closed 0

unfoldable pub strike : ℤ → ℕ → Breaker → Breaker
strike threshold now (closed n) =
    if leb_ℤ threshold (pos (n + 1)) then tripped now else closed (n + 1)
strike threshold now (tripped t) = tripped now
strike threshold now probing = tripped now

abbrev time_of : Option ℕ → ℕ
time_of none = 0
time_of (some t) = t

abbrev breaker_in : CircuitState → ProviderHealthState → Breaker
breaker_in CircuitState.closed st = closed st.consecutive_failures
breaker_in CircuitState.opened st = tripped (time_of st.circuit_opened_at)
breaker_in CircuitState.half_open st = probing

-- What a provider's state stands for.
abbrev pub view_state : ProviderHealthState → Breaker
view_state st = breaker_in st.circuit_state st

-- What the manager holds for a provider; nothing for one that is not registered.
unfoldable pub view : String → ReliabilityManager → Option Breaker
view k m = elim (lookup k m.states) [ none ↦ none | some st ↦ some (view_state st) ]

view-settled :
    (k j : String) (st : ProviderHealthState) (probes : List String) (m : ReliabilityManager)
    → view j (settled k st probes m) ≡ (if k == j then some (view_state st) else view j m)
unfolding view
view-settled k j st probes m = ground (arith, lookup-insert j k st m.states)

view_failure :
    (k : String) (now : ℕ) (m : ReliabilityManager) (st : ProviderHealthState)
    → IsValid m
    → IsSound m k st
    → view_state (judge m now (counted now st))
      ≡ strike m.unhealthy_failure_threshold now (view_state st)
unfolding strike
view_failure k now m st v s = ground (arith, s.steady, v.configured)

pub view-some :
    (k : String) (m : ReliabilityManager) (b : Breaker)
    → view k m ≡ some b
    → (st : ProviderHealthState) × (lookup k m.states ≡ some st) × (view_state st ≡ b)
unfolding view
view-some k m b h = elim (Option-cases (lookup k m.states)) [
  | inl e ↦ cc
  | inr (st, e) ↦ (st, e, ground arith)
]

module _ (k j : String) (now : ℕ) (m : ReliabilityManager) (b : Breaker) (v : IsValid m)
    (h : view k m ≡ some b) where
  -- A failure strikes the breaker of its provider and no other.
  pub failure_refines :
      ((record_failure k now m).0 ≡ ok tt)
      × (view j (record_failure k now m).1
          ≡ (if k == j then some (strike m.unhealthy_failure_threshold now b) else view j m))
  failure_refines =
      let (st, e, is) = view-some k m b h in
      rw (record_failure_settles k now m st v e) (
        refl,
        view-settled k j (judge m now (counted now st)) (discard k m.half_open_probe) m
            ∙ rw (view_failure k now m st v (v.sound k st e), is),
      )

  -- In a valid manager, recording a success of a registered provider succeeds, closes the breaker of
  -- that provider, whether it was closed, tripped or probing, and leaves every other as it is.
  pub success_refines :
      ((record_success k now m).0 ≡ ok tt)
      × (view j (record_success k now m).1 ≡ (if k == j then some (recover b) else view j m))
  unfolding recover
  success_refines =
      let (st, e, is) = view-some k m b h in
      rw (record_success_settles k now m st v e)
        (refl, view-settled k j (succeed now st) (discard k m.half_open_probe) m)

  view_same : view j m ≡ (if k == j then some b else view j m)
  view_same = elim (Bool-cases (k == j)) [ inl e ↦ rw e (rw (← (==_iff k j).0 e) h) | inr e ↦ rw e ]

  admit_by_state :
      (st : ProviderHealthState)
      → lookup k m.states ≡ some st
      → view_state st ≡ b
      → (c : CircuitState) → st.circuit_state ≡ c
      → ((allow_request k now m).0 ≡ ok (admit m.recovery_timeout now b).0)
        × (view j (allow_request k now m).1
            ≡ (if k == j then some (admit m.recovery_timeout now b).1 else view j m))
  unfolding admit
  admit_by_state st e is CircuitState.closed c =
      ground (arith, allow_closed k now m st v e c, view_same)
  admit_by_state st e is CircuitState.half_open c =
      ground (arith, allow_half_open k now m st v e c, view_same)
  admit_by_state st e is CircuitState.opened c =
      elim (Bool-cases (cooled now m.recovery_timeout st.circuit_opened_at)) [
        | inl late ↦ ground (
          arith,
          allow_open_late k now m st v e c late,
          view-settled k j (half_opened now st) (add k m.half_open_probe) m,
          (v.sound k st e).steady,
        )
        | inr early ↦
            ground
              (arith, allow_open_early k now m st v e c early, view_same, (v.sound k st e).steady)
      ]

  -- A request is admitted exactly as the breaker of its provider says, and moves no other breaker.
  pub allow_refines :
      ((allow_request k now m).0 ≡ ok (admit m.recovery_timeout now b).0)
      × (view j (allow_request k now m).1
          ≡ (if k == j then some (admit m.recovery_timeout now b).1 else view j m))
  allow_refines =
      let (st, e, is) = view-some k m b h in admit_by_state st e is st.circuit_state refl

pub view-none : (k : String) (m : ReliabilityManager) → view k m ≡ none → lookup k m.states ≡ none
unfolding view
view-none k m h = ground arith
