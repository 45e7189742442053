-- ===== src/Tools/Executor/Tests.antt =====
-- An executor with one tool and a policy.
use agenyx.Base.{◌≡◌, refl, true, false, some, string_eq, [], ◌∷◌, Value, lookup, elem, add, insert}
use agenyx.Idempotency.{get, claim}
use agenyx.Tools.{Tool, gives, has}
use agenyx.Tools.Executor.{
  ToolExecutor, Request, outputs, raises, Store, done, success_of, failure, execute, run_claimed,
}
use agenyx.Tools.Executor.Replay.{
  IsAdmitted, sandboxed-IsAdmitted, execute_replays, execute_retries,
}

abbrev echo_tool : Tool
echo_tool = record {
  name = "echo";
  description = "";
  input_schema = Value.null;
  run = λ v. gives v;
}

abbrev executor : ToolExecutor
executor = record { registry = ("echo", echo_tool) ∷ []; authorization = some ("echo" ∷ []) }

abbrev request : Request
request = record { name = "echo"; idempotency_key = some "k"; has_context = true; duration = 3 }

abbrev bare : Store
bare = record { records = []; claimed = []; events = []; set_events = []; next_event = 0 }

runs_once : (execute executor request (outputs Value.null) bare).sandboxed ≡ true
unfolding execute has lookup elem run_claimed get claim add insert
runs_once = refl

fails_once : (execute executor request (raises "timeout" "TimeoutError") bare).sandboxed ≡ true
unfolding execute has lookup elem run_claimed get claim add insert
fails_once = refl

sandboxed-IsAdmitted_example : IsAdmitted executor request
sandboxed-IsAdmitted_example =
    sandboxed-IsAdmitted executor request (outputs Value.null) bare runs_once

request-IsAdmitted : IsAdmitted executor request
request-IsAdmitted = sandboxed-IsAdmitted executor request (outputs Value.null) bare runs_once

execute_replays_example :
    execute executor request
      (raises "x" "y")
      (execute executor request (outputs Value.null) bare).store
    ≡ record {
      reply = done (success_of request Value.null);
      store = (execute executor request (outputs Value.null) bare).store;
      sandboxed = false;
    }
execute_replays_example =
    execute_replays executor request request Value.null "k" (raises "x" "y") bare refl refl
      request-IsAdmitted runs_once

execute_retries_example :
    ((execute executor request (raises "timeout" "TimeoutError") bare).reply
      ≡ done (failure request "timeout" "TimeoutError"))
    × ((execute executor request
          (outputs Value.null)
          (execute executor request (raises "timeout" "TimeoutError") bare).store).sandboxed
        ≡ true)
execute_retries_example =
    execute_retries executor request request "timeout" "TimeoutError" "k" (outputs Value.null) bare
      refl refl request-IsAdmitted fails_once
