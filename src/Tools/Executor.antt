-- ===== src/Tools/Executor.antt =====
-- tools/executor.py: a tool call passes discovery, authorization and idempotency before it reaches
-- the sandbox. This is the call of one caller; what concurrent callers do is in Idempotency.Race.
mod Replay
mod Tests
use Prim.Native.String.{◌++◌}
use agenyx.Base.{
  ℕ, Bool, true, false, not, Option, none, some, String, List, [], ◌∷◌, Dict, Value, Error, Result,
  ok, raise, string_eq, if◌then◌else◌,
}
use agenyx.Idempotency.{
  IdempotencyStore, get, claim, put, release, Waiting, found, absent, await, begin_wait,
}
use agenyx.Tools.{ToolRegistry, ToolResult, has, authorize}

-- What awaiting the sandbox gives: its output, or an exception with its text and class.
pub data Sandboxed : Type 0 where
  outputs : Value → Sandboxed
  raises : String → String → Sandboxed

pub record ToolExecutor : Type 0 where
  pub registry : ToolRegistry
  pub authorization : Option (List String)

-- The call's arguments that matter, with the text of the two errors that name the tool.
pub record Request : Type 0 where
  pub name : String
  pub idempotency_key : Option String
  pub has_context : Bool
  pub duration : ℕ

abbrev pub Store : Type 0
Store = IdempotencyStore ToolResult

-- How a call ends: with a result, by an exception of the store, or waiting for another caller's
-- event. `sandboxed` tells whether the sandbox was asked.
pub data Reply : Type 0 where
  done : ToolResult → Reply
  raised : Reply
  blocked : ℕ → Reply

pub record Outcome : Type 0 where
  pub reply : Reply
  pub store : Store
  pub sandboxed : Bool

abbrev pub failure : Request → String → String → ToolResult
failure q error error_type = record {
  success = false;
  output = Value.null;
  error = some error;
  metadata = ("error_type", error_type) ∷ ("tool_name", q.name) ∷ [];
  duration_seconds = q.duration;
}

abbrev pub success_of : Request → Value → ToolResult
success_of q output = record {
  success = true;
  output = output;
  error = none;
  metadata = ("tool_name", q.name) ∷ [];
  duration_seconds = q.duration;
}

abbrev pub refused : Request → String → String → Store → Outcome
refused q error error_type s = record {
  reply = done (failure q error error_type);
  store = s;
  sandboxed = false;
}

abbrev released : Option String → Store → Store
released none s = s
released (some key) s = release key s

abbrev recorded : Option String → ToolResult → Store → Store
recorded none r s = s
recorded (some key) r s = put key r s

-- steps 4 and 5
unfoldable pub run_sandbox : Request → Sandboxed → Store → Outcome
run_sandbox q (outputs v) s = record {
  reply = done (success_of q v);
  store = recorded q.idempotency_key (success_of q v) s;
  sandboxed = true;
}
run_sandbox q (raises text class) s = record {
  reply = done (failure q text class);
  store = released q.idempotency_key s;
  sandboxed = true;
}

abbrev answer_of : Waiting ToolResult → Reply
answer_of (found r) = done r
answer_of absent = raised
answer_of (await e) = blocked e

-- step 3
unfoldable pub run_claimed : Request → Sandboxed → Option String → Store → Outcome
unfolding run_sandbox
run_claimed q sandbox none s = run_sandbox q sandbox s
run_claimed q sandbox (some key) s = elim (get key s) [
  | some r ↦ record { reply = done r; store = s; sandboxed = false }
  | none ↦
      let (claimed, s') = claim key s in
      if claimed
      then run_sandbox q sandbox s'
      else record { reply = answer_of (begin_wait key s'); store = s'; sandboxed = false }
]

-- step 2
abbrev pub authorized : Option (List String) → Request → Result (Unit {0})
authorized none q = ok tt
authorized (some allowed) q = authorize allowed q.name

abbrev pub lacks_context : Option (List String) → Request → Bool
lacks_context none q = false
lacks_context (some _) q = not q.has_context

unfoldable pub execute : ToolExecutor → Request → Sandboxed → Store → Outcome
unfolding run_claimed authorize
execute x q sandbox s =
    if not (has q.name x.registry)
    then refused q ("Unknown tool: " ++ q.name) "unknown_tool" s
    else if lacks_context x.authorization q
    then refused q "Execution context is required for tool authorization"
        "authorization_context_missing" s
    else elim (authorized x.authorization q) [
      | raise _ ↦ refused q ("Tool '" ++ q.name ++ "' is not authorized") "tool_not_authorized" s
      | ok _ ↦ run_claimed q sandbox q.idempotency_key s
    ]
