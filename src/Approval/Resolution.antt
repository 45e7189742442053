-- ===== src/Approval/Resolution.antt =====
-- How decisions and waiters meet in the manager of approvals.
use agenyx.Base.{
  ◌≡◌, refl, sym, subst, ap, ◌∙◌, true, false, not, Option, none, some, String, List, lookup,
  lookup-insert, string_eq, arith, ==_iff, Result, ok, raise, approval_already_resolved,
}
use agenyx.Approval.{
  ApprovalRequest, ApprovalStatus, approved, rejected, ApprovalManager, is_pending, Call, approve,
  reject, get, resolved, await, begin_wait, end_wait, is_set, run,
}
use agenyx.Approval.Invariant.{
  IsSignalled, resolve, approve_lem, reject_lem, run-IsSignalled, resolve-IsSignalled,
}
use agenyx.Approval.History.{Follows, run-Follows, run_settled}

get_found :
    (k : String) (m : ApprovalManager) (r : ApprovalRequest)
    → lookup k m.requests ≡ some r
    → get k m ≡ (ok r, m)
unfolding get
get_found k m r h = ground arith

end_wait_found :
    (k : String) (m : ApprovalManager) (r : ApprovalRequest)
    → lookup k m.requests ≡ some r
    → end_wait k m ≡ (ok r, m)
unfolding end_wait
end_wait_found k m r h = get_found k m r h

refuses_settled :
    (k : String) (m : ApprovalManager) (r : ApprovalRequest)
    → lookup k m.requests ≡ some r
    → is_pending r.status ≡ false
    → (begin_wait k m ≡ (ok (resolved r), m))
      × ((approve k m ≡ (raise approval_already_resolved, m))
          × (reject k m ≡ (raise approval_already_resolved, m)))
unfolding begin_wait approve reject
refuses_settled k m r h settled = (ground arith, (ground arith, ground arith))

-- Once a request is resolved, no call changes it: after any calls it is found and waited for as it is, and a further decision raises ApprovalAlreadyResolvedError.
pub resolved_lasts :
    (cs : List Call) (k : String) (m : ApprovalManager) (r : ApprovalRequest)
    → lookup k m.requests ≡ some r
    → is_pending r.status ≡ false
    → (get k (run cs m) ≡ (ok r, run cs m))
      × ((begin_wait k (run cs m) ≡ (ok (resolved r), run cs m))
          × ((approve k (run cs m) ≡ (raise approval_already_resolved, run cs m))
              × (reject k (run cs m) ≡ (raise approval_already_resolved, run cs m))))
resolved_lasts cs k m r h settled =
    let kept = run_settled cs k m r h settled in
    (get_found k (run cs m) r kept, refuses_settled k (run cs m) r kept settled)

is_set_told :
    (k : String) (m : ApprovalManager) (r : ApprovalRequest)
    → IsSignalled m
    → lookup k m.requests ≡ some r
    → is_set k m ≡ not (is_pending r.status)
is_set_told k m r v h = ground (arith, v.events_told k)

-- Where the decision on a pending request leads: the waiters of `k` wake with `r` resolved.
abbrev pub Wakes :
    ApprovalStatus → String → ApprovalRequest → Result ApprovalRequest × ApprovalManager → Type 0
Wakes status k r x =
    (x.0 ≡ ok (record r { status = status }))
    × ((cs : List Call)
        → (is_set k (run cs x.1) ≡ true)
          × (end_wait k (run cs x.1) ≡ (ok (record r { status = status }), run cs x.1)))

resolve-stores :
    (status : ApprovalStatus) (k : String) (m : ApprovalManager) (r : ApprovalRequest)
    → lookup k m.requests ≡ some r
    → is_pending r.status ≡ true
    → ((resolve status k m).0 ≡ ok (record r { status = status }))
      × (lookup k (resolve status k m).1.requests ≡ some (record r { status = status }))
resolve-stores status k m r h undecided = (
  ground arith,
  ground (arith, ==_iff k k, lookup-insert k k (record r { status = status }) m.requests),
)

resolve-Wakes :
    (status : ApprovalStatus)
    → is_pending status ≡ false
    → (k : String) (m : ApprovalManager) (r : ApprovalRequest) → IsSignalled m
    → lookup k m.requests ≡ some r
    → is_pending r.status ≡ true
    → Wakes status k r (resolve status k m)
resolve-Wakes status final k m r v h undecided =
    let both = resolve-stores status k m r h undecided in
    let m' = (resolve status k m).1 in
    let v' = resolve-IsSignalled status final k m v in
    (
      both.0,
      λ cs.
          let kept = run_settled cs k m' (record r { status = status }) both.1 final in
          (
            is_set_told k (run cs m') (record r { status = status }) (run-IsSignalled cs m' v') kept
                ∙ ap not final,
            end_wait_found k (run cs m') (record r { status = status }) kept,
          ),
    )

-- A pending request is decided by the first call that decides it. It gets the status of that call, its waiters wake, and they find it so whatever is called in between.
pub decision-Wakes :
    (k : String) (m : ApprovalManager) (r : ApprovalRequest)
    → IsSignalled m
    → lookup k m.requests ≡ some r
    → is_pending r.status ≡ true
    → Wakes approved k r (approve k m) × Wakes rejected k r (reject k m)
decision-Wakes k m r v h undecided = (
  subst (Wakes approved k r) (sym (approve_lem k m))
      (resolve-Wakes approved refl k m r v h undecided),
  subst (Wakes rejected k r) (sym (reject_lem k m))
      (resolve-Wakes rejected refl k m r v h undecided),
)

begin_wait_awaits :
    (k : String) (m : ApprovalManager) (r : ApprovalRequest)
    → IsSignalled m
    → lookup k m.requests ≡ some r
    → is_pending r.status ≡ true
    → begin_wait k m ≡ (ok await, m)
unfolding begin_wait
begin_wait_awaits k m r v h undecided = ground (arith, v.events_told k)

woken :
    (k : String) (m : ApprovalManager) (r : ApprovalRequest) (o : Option ApprovalRequest)
    → IsSignalled m
    → lookup k m.requests ≡ o
    → Follows r o
    → is_set k m ≡ true
    → (s : ApprovalStatus) × (is_pending s ≡ false)
      × (end_wait k m ≡ (ok (record r { status = s }), m))
woken k m r none v h follows set = cc
woken k m r (some q) v h follows set = (
  q.status,
  ground (arith, is_set_told k m q v h),
  end_wait_found k m q h ∙ ap (λ (x : ApprovalRequest). (ok x, m)) follows.0,
)

-- Who waits for a pending request waits for its event, and when the event is set, whatever was called until then, finds the same request, resolved.
pub wait_resolves :
    (k : String) (m : ApprovalManager) (r : ApprovalRequest)
    → IsSignalled m
    → lookup k m.requests ≡ some r
    → is_pending r.status ≡ true
    → (begin_wait k m ≡ (ok await, m))
      × ((cs : List Call)
          → is_set k (run cs m) ≡ true
          → (s : ApprovalStatus) × (is_pending s ≡ false)
            × (end_wait k (run cs m) ≡ (ok (record r { status = s }), run cs m)))
wait_resolves k m r v h undecided = (
  begin_wait_awaits k m r v h undecided,
  λ cs set.
      woken k (run cs m) r (lookup k (run cs m).requests) (run-IsSignalled cs m v) refl
        (run-Follows cs k m r h) set,
)
