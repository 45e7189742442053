-- ===== src/Approval/History.antt =====
-- What becomes of a request in the manager of approvals, over any calls.
use agenyx.Base.{
  ◌≡◌, refl, sym, subst, ap, ◌∙◌, Bool, true, false, Option, none, some, String, Dict, Value, List,
  [], ◌∷◌, lookup, lookup-insert, string_eq, arith, ==_iff,
}
use agenyx.Approval.{
  ApprovalRequest, ApprovalStatus, approved, rejected, new_request, ApprovalManager, is_pending,
  Call, creates, approves, rejects, create_request, call, run,
}
use agenyx.Approval.Invariant.{resolve_in, resolve, approve_lem, reject_lem}

-- What a request may have become.
abbrev pub Follows : ApprovalRequest → Option ApprovalRequest → Type 0
Follows r none = ◌≡◌ {A = Bool} true false
Follows r (some q) = (q ≡ record r { status = q.status }) × (is_pending r.status ≡ false → q ≡ r)

Follows-trans :
    (r q : ApprovalRequest) (o : Option ApprovalRequest)
    → Follows r (some q)
    → Follows q o
    → Follows r o
Follows-trans r q none h g = g
Follows-trans r q (some p) h g = (
  g.0 ∙ ap (λ (x : ApprovalRequest). record x { status = p.status }) h.0,
  λ final.
      let same = h.1 final in
      g.1 (subst (λ (x : ApprovalRequest). is_pending x.status ≡ false) (sym same) final) ∙ same,
)

resolve_in-Follows :
    (o : Option ApprovalRequest) (status : ApprovalStatus) (id k : String) (m : ApprovalManager)
    (r : ApprovalRequest)
    → lookup id m.requests ≡ o
    → lookup k m.requests ≡ some r
    → Follows r (lookup k (resolve_in o status id m).1.requests)
resolve_in-Follows none status id k m r e h = ground (arith)
resolve_in-Follows (some q) status id k m r e h =
    ground (arith, ==_iff id k, lookup-insert k id (record q { status = status }) m.requests)

resolve-Follows :
    (status : ApprovalStatus) (id k : String) (m : ApprovalManager) (r : ApprovalRequest)
    → lookup k m.requests ≡ some r
    → Follows r (lookup k (resolve status id m).1.requests)
resolve-Follows status id k m r h = resolve_in-Follows (lookup id m.requests) status id k m r refl h

create-Follows :
    (id e c t : String) (a : Dict String Value) (k : String) (m : ApprovalManager)
    (r : ApprovalRequest)
    → lookup k m.requests ≡ some r
    → Follows r (lookup k (create_request id e c t a m).1.requests)
unfolding create_request
create-Follows id e c t a k m r h =
    ground (arith, ==_iff id k, lookup-insert k id (new_request id e c t a) m.requests)

call-Follows :
    (x : Call) (k : String) (m : ApprovalManager) (r : ApprovalRequest)
    → lookup k m.requests ≡ some r
    → Follows r (lookup k (call x m).requests)
unfolding call
call-Follows (creates id e c t a) k m r h = create-Follows id e c t a k m r h
call-Follows (approves id) k m r h =
    subst (λ x. Follows r (lookup k x.1.requests)) (sym (approve_lem id m))
      (resolve-Follows approved id k m r h)
call-Follows (rejects id) k m r h =
    subst (λ x. Follows r (lookup k x.1.requests)) (sym (reject_lem id m))
      (resolve-Follows rejected id k m r h)

Follows-bind :
    (o p : Option ApprovalRequest) (r : ApprovalRequest)
    → Follows r o
    → ((q : ApprovalRequest) → o ≡ some q → Follows q p)
    → Follows r p
Follows-bind none p r h g = cc
Follows-bind (some q) p r h g = Follows-trans r q p h (g q refl)

-- A request that is resolved stays as it is.
Follows-settled :
    (o : Option ApprovalRequest) (r : ApprovalRequest)
    → is_pending r.status ≡ false
    → Follows r o
    → o ≡ some r
Follows-settled none r settled h = cc
Follows-settled (some q) r settled h = ap some (h.1 settled)

pub run-Follows :
    (cs : List Call) (k : String) (m : ApprovalManager) (r : ApprovalRequest)
    → lookup k m.requests ≡ some r
    → Follows r (lookup k (run cs m).requests)
unfolding run
run-Follows [] k m r h = ground arith
run-Follows (c ∷ cs) k m r h =
    Follows-bind (lookup k (call c m).requests) (lookup k (run cs (call c m)).requests) r
      (call-Follows c k m r h) (λ q e. run-Follows cs k (call c m) q e)

pub run_settled :
    (cs : List Call) (k : String) (m : ApprovalManager) (r : ApprovalRequest)
    → lookup k m.requests ≡ some r
    → is_pending r.status ≡ false
    → lookup k (run cs m).requests ≡ some r
run_settled cs k m r h settled =
    Follows-settled (lookup k (run cs m).requests) r settled (run-Follows cs k m r h)
