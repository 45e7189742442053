-- ===== src/Approval.antt =====
-- approval.py of the agent: the in-memory manager of human approvals. No method but
-- `wait_for_resolution` suspends, and it does so once: `begin_wait` is what it does before its
-- `await event.wait()`, `end_wait` what it does after. The event of an id is never replaced, so
-- `events` keeps for each id whether its event is set.
mod Invariant
mod History
mod Resolution
mod Tests
use agenyx.Base.{
  Bool, true, false, not, Option, none, some, String, string_eq, List, [], ◌∷◌, Dict, lookup,
  insert, contains, elem, Value, Error, value_error, approval_not_found, approval_already_resolved,
  Result, ok, raise, Action, pure, throw, is_empty, raise_if, modify, ◌>>=◌, ◌>>◌, if◌then◌else◌,
}

pub data ApprovalStatus : Type 0 where
  pending approved rejected : ApprovalStatus

abbrev pub is_pending : ApprovalStatus → Bool
is_pending pending = true
is_pending _ = false

pub record ApprovalRequest : Type 0 where
  pub approval_id : String
  pub execution_id : String
  pub call_id : String
  pub tool_name : String
  pub arguments : Dict String Value
  pub status : ApprovalStatus

pub record ApprovalManager : Type 0 where
  pub requests : Dict String ApprovalRequest
  pub events : Dict String Bool

-- `ApprovalManager.__init__`
abbrev pub init : ApprovalManager
init = record { requests = []; events = [] }

-- `AllowListApprovalPolicy.requires_approval`
unfoldable pub requires_approval : List String → String → Bool
requires_approval approval_required_tools tool_name = elem tool_name approval_required_tools

-- the pending request that `create_request` builds
abbrev pub new_request : String → String → String → String → Dict String Value → ApprovalRequest
new_request approval_id execution_id call_id tool_name arguments = record {
  approval_id = approval_id;
  execution_id = execution_id;
  call_id = call_id;
  tool_name = tool_name;
  arguments = arguments;
  status = pending;
}

-- the request and its event, stored
abbrev store_request : String → ApprovalRequest → ApprovalManager → ApprovalManager
store_request id r m = record m {
  requests = insert id r m.requests;
  events = insert id false m.events;
}

unfoldable pub create_request :
    String → String → String → String → Dict String Value → Action ApprovalManager ApprovalRequest
create_request approval_id execution_id call_id tool_name arguments = do
  raise_if (is_empty approval_id) value_error
  raise_if (is_empty execution_id) value_error
  raise_if (is_empty call_id) value_error
  raise_if (is_empty tool_name) value_error
  λ m. raise_if (contains approval_id m.requests) value_error m
  modify
      (store_request approval_id (new_request approval_id execution_id call_id tool_name arguments))
  pure (new_request approval_id execution_id call_id tool_name arguments)

unfoldable pub get : String → Action ApprovalManager ApprovalRequest
get id m = elim (lookup id m.requests) [ none ↦ (raise approval_not_found, m) | some r ↦ (ok r, m) ]

-- `if event is not None: event.set()`
abbrev pub set_event : String → ApprovalManager → ApprovalManager
set_event id m = record m {
  events = if contains id m.events then insert id true m.events else m.events;
}

abbrev pub put_request : String → ApprovalRequest → ApprovalManager → ApprovalManager
put_request id r m = record m { requests = insert id r m.requests }

unfoldable pub approve : String → Action ApprovalManager ApprovalRequest
unfolding get
approve id = do
  request ← get id
  raise_if (not (is_pending request.status)) approval_already_resolved
  modify (put_request id (record request { status = approved }))
  modify (set_event id)
  pure (record request { status = approved })

unfoldable pub reject : String → Action ApprovalManager ApprovalRequest
unfolding get
reject id = do
  request ← get id
  raise_if (not (is_pending request.status)) approval_already_resolved
  modify (put_request id (record request { status = rejected }))
  modify (set_event id)
  pure (record request { status = rejected })

-- What a waiter does next: it has its request, or it waits for the event of the id.
pub data Waiting : Type 0 where
  resolved : ApprovalRequest → Waiting
  await : Waiting

abbrev await_event : String → ApprovalRequest → Action ApprovalManager Waiting
await_event id request m =
    if is_pending request.status
    then (if contains id m.events then (ok await, m) else (raise approval_not_found, m))
    else (ok (resolved request), m)

unfoldable pub begin_wait : String → Action ApprovalManager Waiting
unfolding get
begin_wait id = do request ← get id; await_event id request

-- whether the event of an id is set, so that its waiters run again
abbrev pub is_set : String → ApprovalManager → Bool
is_set id m = elim (lookup id m.events) [ none ↦ false | some set ↦ set ]

unfoldable pub end_wait : String → Action ApprovalManager ApprovalRequest
unfolding get
end_wait id = get id

pub data Call : Type 0 where
  creates : String → String → String → String → Dict String Value → Call
  approves rejects : String → Call

unfoldable pub call : Call → ApprovalManager → ApprovalManager
unfolding create_request approve reject
call (creates id execution_id call_id tool_name arguments) m =
    (create_request id execution_id call_id tool_name arguments m).1
call (approves id) m = (approve id m).1
call (rejects id) m = (reject id m).1

unfoldable pub run : List Call → ApprovalManager → ApprovalManager
unfolding call
run [] m = m
run (c ∷ cs) m = run cs (call c m)
