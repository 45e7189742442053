-- ===== src/Approval/Invariant.antt =====
-- What the manager of approvals keeps: the event of an id is set exactly when its request is resolved.
use agenyx.Base.{
  ◌≡◌, refl, Bool, true, false, not, Option, Dict, Value, Bool-cases, inl, inr, sym, subst, Result,
  ok, raise, approval_not_found, approval_already_resolved, none, some, String, List, [], ◌∷◌,
  lookup, lookup-insert, string_eq, arith, ==_iff, if◌then◌else◌,
}
use agenyx.Approval.{
  ApprovalRequest, ApprovalStatus, new_request, ApprovalManager, is_pending, put_request, set_event,
  init, Call, creates, approves, rejects, create_request, approve, reject, call, run,
}

-- Each request has its own event, and no event is without one.
abbrev pub told : Option ApprovalRequest → Option Bool
told none = none
told (some r) = some (not (is_pending r.status))

pub record IsSignalled (m : ApprovalManager) : Type 0 where
  pub events_told : (k : String) → lookup k m.events ≡ told (lookup k m.requests)
  pub named : (k : String) (r : ApprovalRequest) → lookup k m.requests ≡ some r → r.approval_id ≡ k

pub init-IsSignalled : IsSignalled init
unfolding lookup
init-IsSignalled = record { events_told = λ k. refl; named = λ k r h. ground arith }

pub create_request-IsSignalled :
    (id execution_id call_id tool_name : String) (arguments : Dict String Value)
    (m : ApprovalManager)
    → IsSignalled m
    → IsSignalled (create_request id execution_id call_id tool_name arguments m).1
unfolding create_request
create_request-IsSignalled id execution_id call_id tool_name arguments m v =
    let r = new_request id execution_id call_id tool_name arguments in
    record {
      events_told = λ k. ground (
        arith,
        v.events_told k,
        lookup-insert k id false m.events,
        lookup-insert k id r m.requests,
      );
      named = λ k q h. ground (arith, v.named k q, ==_iff id k, lookup-insert k id r m.requests);
    }

-- Both decisions, by their status.
abbrev pub decided : ApprovalStatus → String → ApprovalRequest → ApprovalManager → ApprovalManager
decided status id r m = set_event id (put_request id (record r { status = status }) m)

abbrev pub resolve_in :
    Option ApprovalRequest
    → ApprovalStatus
    → String
    → ApprovalManager
    → Result ApprovalRequest × ApprovalManager
resolve_in none status id m = (raise approval_not_found, m)
resolve_in (some r) status id m =
    if is_pending r.status
    then (ok (record r { status = status }), decided status id r m)
    else (raise approval_already_resolved, m)

abbrev pub resolve :
    ApprovalStatus → String → ApprovalManager → Result ApprovalRequest × ApprovalManager
resolve status id m = resolve_in (lookup id m.requests) status id m

pub approve_lem :
    (id : String) (m : ApprovalManager) → approve id m ≡ resolve ApprovalStatus.approved id m
unfolding approve
approve_lem id m = ground arith

pub reject_lem :
    (id : String) (m : ApprovalManager) → reject id m ≡ resolve ApprovalStatus.rejected id m
unfolding reject
reject_lem id m = ground arith

module _ (status : ApprovalStatus) (final : is_pending status ≡ false) (id : String) where
  decided-IsSignalled :
      (r : ApprovalRequest) (m : ApprovalManager)
      → lookup id m.requests ≡ some r
      → IsSignalled m
      → IsSignalled (decided status id r m)
  decided-IsSignalled r m h v = record {
    events_told = λ k. ground (
      arith,
      ==_iff id k,
      v.events_told k,
      v.events_told id,
      lookup-insert k id (record r { status = status }) m.requests,
      lookup-insert k id true m.events,
    );
    named = λ k q e. ground (
      arith,
      ==_iff id k,
      v.named k q,
      v.named id r,
      lookup-insert k id (record r { status = status }) m.requests,
    );
  }

  resolve_in-IsSignalled :
      (o : Option ApprovalRequest) (m : ApprovalManager)
      → lookup id m.requests ≡ o
      → IsSignalled m
      → IsSignalled (resolve_in o status id m).1
  resolve_in-IsSignalled none m h v = v
  resolve_in-IsSignalled (some r) m h v = elim (Bool-cases (is_pending r.status)) [
    | inl undecided ↦ rw undecided (decided-IsSignalled r m h v)
    | inr over ↦ rw over v
  ]

  pub resolve-IsSignalled :
      (m : ApprovalManager) → IsSignalled m → IsSignalled (resolve status id m).1
  resolve-IsSignalled m v = resolve_in-IsSignalled (lookup id m.requests) m refl v

pub call-IsSignalled : (c : Call) (m : ApprovalManager) → IsSignalled m → IsSignalled (call c m)
unfolding call
call-IsSignalled (creates id e c t a) m v = create_request-IsSignalled id e c t a m v
call-IsSignalled (approves id) m v =
    subst (λ x. IsSignalled x.1) (sym (approve_lem id m))
      (resolve-IsSignalled ApprovalStatus.approved refl id m v)
call-IsSignalled (rejects id) m v =
    subst (λ x. IsSignalled x.1) (sym (reject_lem id m))
      (resolve-IsSignalled ApprovalStatus.rejected refl id m v)

-- Whatever is called, the event of an id is set exactly when its request is resolved, and every request stands under its own id.
pub run-IsSignalled :
    (cs : List Call) (m : ApprovalManager) → IsSignalled m → IsSignalled (run cs m)
unfolding run
run-IsSignalled [] m v = v
run-IsSignalled (c ∷ cs) m v = run-IsSignalled cs (call c m) (call-IsSignalled c m v)
