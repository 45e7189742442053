-- ===== src/Reliability/Register.antt =====
-- `__init__` and `register` establish the invariant.
use agenyx.Base.{
  ◌≡◌, ◌⊎◌, refl, inl, inr, false, none, String, [], string_eq, arith, lookup, elem, ok, ℤ,
}
use agenyx.Reliability.{ReliabilityManager, init, register, new_state}
use agenyx.Reliability.Invariant.{IsSteady, IsConfigured, IsValid, settled, settled-IsValid}

init_parts :
    (low high timeout : ℤ) (m : ReliabilityManager)
    → init low high timeout ≡ ok m
    → IsConfigured m × (m.states ≡ []) × (m.half_open_probe ≡ [])
unfolding init
init_parts low high timeout m h = ground arith

-- What the constructor accepts is valid.
pub init-IsValid :
    (low high timeout : ℤ) (m : ReliabilityManager) → init low high timeout ≡ ok m → IsValid m
unfolding lookup elem
init-IsValid low high timeout m h =
    let (c, empty, none_probing) = init_parts low high timeout m h in
    record {
      configured = c;
      sound = λ name st e. cc (rw empty at e);
      owned = λ name e. rw none_probing;
    }

register_cases :
    (k : String) (m : ReliabilityManager)
    → ((register k m).1 ≡ m)
      ⊎ ((lookup k m.states ≡ none)
          × ((register k m).1 ≡ settled k (new_state k) m.half_open_probe m))
unfolding register
register_cases k m = ground arith

new_state-IsSteady :
    (k : String) (m : ReliabilityManager)
    → IsConfigured m
    → elem k m.half_open_probe ≡ false
    → IsSteady m.degraded_failure_threshold m.unhealthy_failure_threshold
        (elem k m.half_open_probe)
        (new_state k)
new_state-IsSteady k m c h = ground arith

pub register-IsValid : (k : String) (m : ReliabilityManager) → IsValid m → IsValid (register k m).1
register-IsValid k m v = elim (register_cases k m) [
  | inl same ↦ rw same v
  | inr (absent, settles) ↦ rw settles (
      settled-IsValid k (new_state k) m.half_open_probe m refl (λ j e. refl)
        (new_state-IsSteady k m v.configured (v.owned k absent)) v)
]
