-- ===== src/Planner.antt =====
-- planner.py and domain/decision.py: what a response of the inference service asks the runtime to do.
-- `json.loads` is a parameter; the values that it gives hold no floats. Where the source tests that
-- its context is an ExecutionContext with an execution, the types say so.
mod Decisions
mod Batches
mod Tests
use agenyx.Base.{
  Bool, true, false, not, Option, none, some, String, string_eq, List, [], ◌∷◌, Value, Items,
  Fields, field?, ℤ, pos, leb_ℤ, ltb_ℤ, is_empty, strip, Error, value_error, agent_protocol_error,
  planning_error, Result, ok, raise, if◌then◌else◌, ◌==◌, lookup, is_some,
}
use agenyx.Tools.{ToolRegistry, has}

pub data DecisionType : Type 0 where
  final tool_call continue fail : DecisionType

pub record ToolCall : Type 0 where
  pub name : String
  pub arguments : Fields
  pub call_id : Option String

pub record AgentDecision : Type 0 where
  pub type : DecisionType
  pub content : Option String
  pub tool_calls : List ToolCall
  pub tool_name : Option String
  pub arguments : Fields
  pub call_id : Option String
  pub error : Option String

abbrev legacy_call : Option String → AgentDecision → List ToolCall
legacy_call none d = []
legacy_call (some name) d =
    record { name = name; arguments = d.arguments; call_id = d.call_id } ∷ []

abbrev calls_or : List ToolCall → List ToolCall → List ToolCall
calls_or [] other = other
calls_or (c ∷ cs) other = c ∷ cs

unfoldable pub normalized_tool_calls : AgentDecision → List ToolCall
normalized_tool_calls d = calls_or d.tool_calls (legacy_call d.tool_name d)

-- What `json.loads` gives: a value, a JSONDecodeError, or another exception.
pub data Loaded : Type 0 where
  decoded : Value → Loaded
  decode_error other_failure : Loaded

pub record Planner : Type 0 where
  pub tools : ToolRegistry
  pub loads : String → Loaded

abbrev pub protocol : {A : Type 0} → Result A
protocol = raise agent_protocol_error

infixl 5 ◌>>=◌
abbrev pub ◌>>=◌ : {A B : Type 0} → Result A → (A → Result B) → Result B
ok a >>= f = f a
raise e >>= f = raise e

-- `response["choices"][0]`, with the checks of its shape
abbrev first_choice : Option Value → Result Fields
first_choice (some (Value.array (Items.cons (Value.object choice) _))) = ok choice
first_choice _ = protocol

abbrev check_role : Option Value → Fields → Result Fields
check_role none message = ok message
check_role (some Value.null) message = ok message
check_role (some (Value.str role)) message = if role == "assistant" then ok message else protocol
check_role (some _) message = protocol

abbrev message_of : Option Value → Result Fields
message_of (some (Value.object message)) = check_role (field? "role" message) message
message_of _ = protocol

-- `_extract_message`
unfoldable pub extract_message : Value → Result Fields
unfolding field?
extract_message (Value.object response) = do
  choice ← first_choice (field? "choices" response)
  message_of (field? "message" choice)
extract_message _ = protocol

-- each tool call is an object
unfoldable pub all_objects : Items → Result (List Fields)
all_objects Items.nil = ok []
all_objects (Items.cons (Value.object call) rest) = do calls ← all_objects rest; ok (call ∷ calls)
all_objects (Items.cons _ rest) = protocol

-- `_extract_tool_calls`, from `message.get("tool_calls")`
unfoldable pub extract_tool_calls : Option Value → Result (List Fields)
unfolding all_objects
extract_tool_calls none = ok []
extract_tool_calls (some Value.null) = ok []
extract_tool_calls (some (Value.array calls)) = all_objects calls
extract_tool_calls (some _) = protocol

abbrev final_of : String → Result AgentDecision
final_of content =
    if is_empty content
    then protocol
    else ok (record {
      type = final;
      content = some content;
      tool_calls = [];
      tool_name = none;
      arguments = Fields.end;
      call_id = none;
      error = none;
    })

-- `_plan_final_response`, from `message.get("content")`
unfoldable pub plan_final_response : Option Value → Result AgentDecision
unfolding strip
plan_final_response (some (Value.str content)) = final_of (strip content)
plan_final_response _ = protocol

-- `_extract_call_id` and `_extract_tool_name`: a text that is not blank, stripped
unfoldable pub extract_text : Option Value → Result String
unfolding strip
extract_text (some (Value.str s)) = if is_empty (strip s) then protocol else ok (strip s)
extract_text _ = protocol

-- `_extract_function`
abbrev pub extract_function : Option Value → Result Fields
extract_function (some (Value.object function)) = ok function
extract_function _ = protocol

-- the text that `json.loads` is given
unfoldable pub raw_arguments : Option Value → Result String
unfolding strip
raw_arguments none = ok "{}"
raw_arguments (some (Value.str raw)) = ok (if is_empty (strip raw) then "{}" else strip raw)
raw_arguments (some _) = protocol

abbrev arguments_of : Loaded → Result Fields
arguments_of (decoded (Value.object arguments)) = ok arguments
arguments_of (decoded _) = protocol
arguments_of decode_error = protocol
arguments_of other_failure = raise value_error

-- `_extract_arguments`
unfoldable pub extract_arguments : Planner → Option Value → Result Fields
unfolding raw_arguments
extract_arguments p raw = do text ← raw_arguments raw; arguments_of (p.loads text)

-- `_validate_tool`
unfoldable pub validate_tool : Planner → String → ℤ → Result Bool
validate_tool p name current_step =
    if not (has name p.tools)
    then protocol
    else if leb_ℤ current_step (pos 0)
    then protocol
    else ok true

-- the body of the loop of `_plan_tool_calls`
unfoldable pub plan_tool_call : Planner → ℤ → Fields → Result ToolCall
plan_tool_call p current_step call = do
  call_id ← extract_text (field? "id" call)
  function ← extract_function (field? "function" call)
  name ← extract_text (field? "name" function)
  arguments ← extract_arguments p (field? "arguments" function)
  _ ← validate_tool p name current_step
  ok (record { name = name; arguments = arguments; call_id = some call_id })

unfoldable pub plan_each : Planner → ℤ → List Fields → Result (List ToolCall)
unfolding plan_tool_call
plan_each p current_step [] = ok []
plan_each p current_step (call ∷ rest) = do
  first ← plan_tool_call p current_step call
  others ← plan_each p current_step rest
  ok (first ∷ others)

abbrev pub tool_decision : List ToolCall → Result AgentDecision
tool_decision [] = protocol
tool_decision (first ∷ others) = ok (record {
  type = tool_call;
  content = none;
  tool_calls = first ∷ others;
  tool_name = some first.name;
  arguments = first.arguments;
  call_id = first.call_id;
  error = none;
})

-- `_plan_tool_calls`
unfoldable pub plan_tool_calls : Planner → ℤ → List Fields → Result AgentDecision
unfolding plan_each
plan_tool_calls p current_step calls = do
  planned ← plan_each p current_step calls
  tool_decision planned

abbrev pub plan_calls_or : Planner → ℤ → Fields → List Fields → Result AgentDecision
plan_calls_or p current_step message [] = plan_final_response (field? "content" message)
plan_calls_or p current_step message (c ∷ cs) = plan_tool_calls p current_step (c ∷ cs)

-- `except AgentProtocolError: raise`, `except Exception: raise PlanningError`
abbrev pub guarded : {A : Type 0} → Result A → Result A
guarded (ok a) = ok a
guarded (raise agent_protocol_error) = raise agent_protocol_error
guarded (raise _) = raise planning_error

abbrev pub plan_message : Planner → ℤ → Fields → Result AgentDecision
plan_message p current_step message = do
  calls ← extract_tool_calls (field? "tool_calls" message)
  plan_calls_or p current_step message calls

unfoldable pub plan : Planner → Value → ℤ → Result AgentDecision
plan p response current_step = guarded (
    if ltb_ℤ current_step (pos 0)
    then protocol
    else (extract_message response >>= plan_message p current_step))
