-- ===== src/Reliability/Record.antt =====
-- `record_success` and `record_failure` keep the invariant.
use agenyx.Base.{
  ℕ, ◌≡◌, inl, inr, none, some, String, List, string_eq, arith, lookup, elem, discard, ok, raise,
  key_error, ◌∙◌, elem-discard, ==_refl, Option-cases,
}
use agenyx.Reliability.{
  ReliabilityManager, ProviderHealthState, judge, allow_request, record_success, record_failure,
  counted, succeed,
}
use agenyx.Reliability.Invariant.{
  IsSteady, IsSound, IsConfigured, IsValid, settled, SameBut, settled-IsValid,
}

SameBut-discard : (k : String) (old : List String) → SameBut k old (discard k old)
SameBut-discard k old j e = rw (elem-discard, e)

judge_named :
    (m : ReliabilityManager) (now : ℕ) (st : ProviderHealthState)
    → (judge m now (counted now st)).provider_name ≡ st.provider_name
judge_named m now st = ground arith

pub record_failure_settles :
    (k : String) (now : ℕ) (m : ReliabilityManager) (st : ProviderHealthState)
    → IsValid m
    → lookup k m.states ≡ some st
    → record_failure k now m
      ≡ (ok tt, settled k (judge m now (counted now st)) (discard k m.half_open_probe) m)
unfolding record_failure
record_failure_settles k now m st v e = ground (arith, judge_named m now st, (v.sound k st e).named)

judge-IsSteady :
    (k : String) (now : ℕ) (m : ReliabilityManager) (st : ProviderHealthState)
    → IsConfigured m
    → IsSound m k st
    → IsSteady m.degraded_failure_threshold m.unhealthy_failure_threshold
        (elem k (discard k m.half_open_probe))
        (judge m now (counted now st))
judge-IsSteady k now m st c s = ground (arith, elem-discard k k m.half_open_probe, ==_refl k)

pub missing_raises :
    (k : String) (now : ℕ) (m : ReliabilityManager)
    → lookup k m.states ≡ none
    → (record_failure k now m ≡ (raise key_error, m))
      × (record_success k now m ≡ (raise key_error, m))
      × (allow_request k now m ≡ (raise key_error, m))
unfolding record_failure record_success allow_request
missing_raises k now m e = (ground arith, ground arith, ground arith)

pub record_failure-IsValid :
    (k : String) (now : ℕ) (m : ReliabilityManager) → IsValid m → IsValid (record_failure k now m).1
record_failure-IsValid k now m v = elim (Option-cases (lookup k m.states)) [
  | inl e ↦ rw ((missing_raises k now m e).0) v
  | inr (st, e) ↦ rw (record_failure_settles k now m st v e) (
      settled-IsValid k (judge m now (counted now st)) (discard k m.half_open_probe) m
        (judge_named m now st ∙ (v.sound k st e).named) (SameBut-discard k m.half_open_probe)
        (judge-IsSteady k now m st v.configured (v.sound k st e)) v)
]

pub record_success_settles :
    (k : String) (now : ℕ) (m : ReliabilityManager) (st : ProviderHealthState)
    → IsValid m
    → lookup k m.states ≡ some st
    → record_success k now m ≡ (ok tt, settled k (succeed now st) (discard k m.half_open_probe) m)
unfolding record_success
record_success_settles k now m st v e = ground (arith, (v.sound k st e).named)

succeed-IsSteady :
    (k : String) (now : ℕ) (m : ReliabilityManager) (st : ProviderHealthState)
    → IsConfigured m
    → IsSteady m.degraded_failure_threshold m.unhealthy_failure_threshold
        (elem k (discard k m.half_open_probe))
        (succeed now st)
succeed-IsSteady k now m st c = ground (arith, elem-discard k k m.half_open_probe, ==_refl k)

pub record_success-IsValid :
    (k : String) (now : ℕ) (m : ReliabilityManager) → IsValid m → IsValid (record_success k now m).1
record_success-IsValid k now m v = elim (Option-cases (lookup k m.states)) [
  | inl e ↦ rw ((missing_raises k now m e).1) v
  | inr (st, e) ↦ rw (record_success_settles k now m st v e) (
      settled-IsValid k (succeed now st) (discard k m.half_open_probe) m (v.sound k st e).named
        (SameBut-discard k m.half_open_probe) (succeed-IsSteady k now m st v.configured) v)
]
