-- ===== src/Runtime/Tests.antt =====
-- One execution whose model answers at once, and whose persistence and model may be taken from it.
use agenyx.Base.{
  ◌≡◌, refl, true, false, none, some, [], ◌∷◌, All, length, lookup, string_eq, Value, timeout_error,
  Fields, pos, ◌-ℤ◌, arith, value_error, cancelled_error, ◌++◌,
}
use agenyx.Execution.{state, new, call, calls, transition}
use agenyx.Execution
use agenyx.Execution.StateMachine
use agenyx.Execution.Snapshot.{from_execution}
use agenyx.Execution.States.{is_final, ExecutionState}
use agenyx.Execution.Invariant.{new-IsValid}
use agenyx.Step.{StepType, Step}
use agenyx.Step
use agenyx.Limits.{
  validate_tool_call, validate_per_tool_call, validate_repeated_tool_call, validate_timeout,
}
use agenyx.Tools.{Tool, gives, has}
use agenyx.Planner.{ToolCall, decoded}
use agenyx.Runtime.{
  execution_was_cancelled, Runtime, World, Config, check_cancellation, check_timeout, new_step,
  complete_step,
}
use agenyx.Runtime.Monad.{returns, throws, try, gets, throw_if, lift, ◌>>=◌}
use agenyx.Runtime.Admission.{Usage, admit, admit_one, within_budgets, use_all, admitted}
use agenyx.Runtime.Lifecycle.{
  conclude, handlers, create_execution, run_execution, on_failure, clean_up,
}
use agenyx.Runtime.Keeps.{is_end, IsRunning}
use agenyx.Runtime.Running.{IsLoudWorld}
use agenyx.Runtime.Endings.{IsEnded}
use agenyx.Runtime.Ends.{run_execution-IsEnded}
use agenyx.Runtime.Budgets.{IsWithin, admit-IsWithin}
use agenyx.Runtime.Silence.{on_failure-silent}
use agenyx.Runtime.Late.{late_cancellation}
use agenyx.Runtime.Outputs.{output_at, complete_step-output}

abbrev shell : Tool
shell = record {
  name = "shell";
  description = "runs a command";
  input_schema = Value.null;
  run = λ v. gives v;
}

abbrev config : Config
config = record {
  limits = record {
    max_steps = pos 3;
    max_tool_calls = pos 2;
    max_repeated_tool_calls = pos 2;
    timeout_seconds = pos 1000;
    per_tool_limits = ("shell", pos 2) ∷ [];
    max_parallel_tool_calls = pos 2;
  };
  planner = record {
    tools = ("shell", shell) ∷ [];
    loads = λ s. decoded (Value.object Fields.end);
  };
  budget = none;
  count = length;
  approval_required = none;
  system_prompt = "You are an agent.";
  dumps = λ a. "{}";
  show = λ v. "?";
}

abbrev answer : Value
answer = Value.object (
    Fields.field "message"
      (Value.object (
        Fields.field "role" (Value.str "assistant")
          (Fields.field "content" (Value.str "done") Fields.end)))
      Fields.end)

-- the model answers, and every tool times out without a text
abbrev world : World
world = record {
  monotonic = λ n. pos n;
  utc_now = λ n. n;
  uuid = λ n. n;
  cancels = λ n. false;
  persists = λ n. returns tt;
  route = returns ("model", "provider");
  complete = λ k. returns answer;
  asks_approval = λ k id. returns tt;
  approves = λ k id. returns true;
  begins = λ k j. true;
  executes = λ k j. throws (record { kind = timeout_error; text = "" });
  gathers = λ k. returns tt;
}

world-IsLoud : IsLoudWorld world
world-IsLoud = record {
  persists = λ b n. tt;
  route = tt;
  complete = λ k. tt;
  asks_approval = λ b k id. tt;
  approves = λ k id. tt;
  executes = λ k j. tt;
  gathers = λ k. tt;
}

abbrev created : Runtime
created = create_execution 1 0 0 "s1" "say done"

run_execution-IsEnded_example :
    IsEnded
      (run_execution world config "intent" "say done" (create_execution 1 0 0 "s1" "say done")).1
run_execution-IsEnded_example =
    run_execution-IsEnded world (λ n. refl) world-IsLoud config 1 0 0 "s1" "intent" "say done"

created-IsRunning : IsRunning created
unfolding create_execution new
created-IsRunning = record {
  valid = new-IsValid 1 0 0;
  unfinished = refl;
  streaming = refl;
  active = refl;
  no_result = refl;
  no_end = tt;
}

on_failure-silent_example :
    let s' = clean_up (on_failure world (record { kind = value_error; text = "" }) created).1 in
    (s'.execution ≡ created.execution)
    × (is_final (state s'.execution) ≡ false)
    × (s'.result ≡ none)
    × All (λ t. is_end t ≡ false) s'.stream
    × (s'.active ≡ false)
    × (s'.streaming ≡ false)
on_failure-silent_example =
    on_failure-silent world (record { kind = value_error; text = "" }) created refl
      created-IsRunning

abbrev begun : Step
begun = (Step.mark_started 4 (new_step 7 1 StepType.plan)).1

abbrev planning : Runtime
planning = record created { execution = record created.execution { steps = begun ∷ [] } }

complete_step-output_example :
    output_at 0 (complete_step world 0 (Value.str "say done") planning).1 ≡ some Value.null
unfolding complete_step Step.mark_completed Step.mark_started ◌>>=◌
complete_step-output_example =
    complete_step-output world 0 (Value.str "say done") planning begun refl refl

abbrev unused : Usage
unused = record { global = 0; counts = []; repeated = [] }

abbrev listing : ToolCall
listing = record { name = "shell"; arguments = Fields.end; call_id = some "c1" }

unused-IsWithin : IsWithin config.limits unused
unfolding lookup
unused-IsWithin = record {
  overall = ground arith;
  per_tool = λ name limit h. ground arith;
  repeated = λ key. ground arith;
}

-- the call is admitted
listing-admitted :
    (admit world config (pos 0) unused (listing ∷ []) created).0
    ≡ returns (admitted world config listing ∷ [])
unfolding admit admit_one within_budgets validate_tool_call ◌>>=◌ check_cancellation gets throw_if
    create_execution has lookup lift validate_per_tool_call validate_repeated_tool_call
    check_timeout validate_timeout ◌-ℤ◌
listing-admitted = refl

admit-IsWithin_example :
    let l = admitted world config listing ∷ [] in
    IsWithin config.limits (use_all l unused) × (length l ≡ 1)
admit-IsWithin_example =
    admit-IsWithin world config (pos 0) unused (listing ∷ []) (admitted world config listing ∷ [])
      created unused-IsWithin listing-admitted

-- the model has answered, and the task is cancelled at the next storing
abbrev inferring : Runtime
inferring = record created {
  execution =
      calls (transition 1 2 ExecutionState.planning ∷ transition 3 4 ExecutionState.inference ∷ [])
        created.execution;
}

abbrev stopping_world : World
stopping_world = record world {
  persists = λ n. throws (record { kind = cancelled_error; text = "" });
}

is_inferring : state inferring.execution ≡ ExecutionState.inference
unfolding calls call Execution.transition_to StateMachine.transition_to create_execution new
is_inferring = refl

late_cancellation_example :
    let s' =
      (try (conclude stopping_world "done") (λ e. handlers stopping_world e.kind e) inferring).1 in
    (state s'.execution ≡ ExecutionState.completed)
    × (s'.stream ≡ inferring.stream ++ execution_was_cancelled ∷ [])
    × (s'.result ≡ some (from_execution Value.null s'.execution))
unfolding create_execution
late_cancellation_example =
    late_cancellation stopping_world "done" "" inferring refl refl is_inferring refl
