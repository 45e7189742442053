-- ===== src/Context.antt =====
-- context_manager.py and domain/context.py: the messages of one execution, and the part of them that
-- fits into the input budget of the model. A message is a dict; the copies that the code makes of
-- messages are the messages themselves.
pub mod Tokens
mod Fit
mod Order
mod Tests
use agenyx.Base.{
  ℕ, suc, ◌+◌, ◌-◌, Bool, true, false, not, Option, none, some, String, string_eq, List, [], ◌∷◌,
  ◌++◌, Dict, map, reverse, Value, Fields, field?, length, ltb, leb, nat_beq, ℤ, pos, pos_part,
  leb_ℤ, ltb_ℤ, is_empty, Error, value_error, Result, ok, raise, Action, raise_if, modify, pure,
  ◌>>=◌, ◌>>◌, if◌then◌else◌, ◌==◌,
}

abbrev pub Message : Type 0
Message = Fields

pub record ExecutionContext : Type 0 where
  pub messages : List Message
  pub current_plan : Option String
  pub current_step : ℕ
  pub tool_calls : List Fields
  pub observations : List String
  pub errors : List String
  pub metadata : Dict String Value

unfoldable pub add_error : String → Action ExecutionContext (Unit {0})
add_error error = do
  raise_if (is_empty error) value_error
  modify (λ (c : ExecutionContext). record c { errors = c.errors ++ error ∷ [] })

abbrev text_of : Option Value → Option String
text_of (some (Value.str s)) = if is_empty s then none else some s
text_of _ = none

-- `message.get("role")`, if it is a text that is not empty
unfoldable pub role : Message → Option String
role m = text_of (field? "role" m)

-- `ContextManager.add_message`
unfoldable pub add_message : Message → Action ExecutionContext (Unit {0})
unfolding role
add_message message = elim (role message) [
  | none ↦ λ c. (raise value_error, c)
  | some _ ↦ modify (λ (c : ExecutionContext). record c { messages = c.messages ++ message ∷ [] })
]

abbrev pub system_message : String → Message
system_message content =
    Fields.field "role" (Value.str "system") (Fields.field "content" (Value.str content) Fields.end)

abbrev pub user_message : String → Message
user_message content =
    Fields.field "role" (Value.str "user") (Fields.field "content" (Value.str content) Fields.end)

abbrev pub tool_message : String → String → String → Message
tool_message call_id name content = Fields.field "role" (Value.str "tool") (
    Fields.field "tool_call_id" (Value.str call_id) (
      Fields.field "name" (Value.str name) (Fields.field "content" (Value.str content) Fields.end)))

unfoldable pub add_system_message : String → Action ExecutionContext (Unit {0})
unfolding add_message
add_system_message content = add_message (system_message content)

unfoldable pub add_user_message : String → Action ExecutionContext (Unit {0})
unfolding add_message
add_user_message content = add_message (user_message content)

-- whether the role of a message is the one given
abbrev pub has_role : String → Message → Bool
has_role name m = elim (field? "role" m) [ some (Value.str s) ↦ s == name | _ ↦ false ]

unfoldable pub add_assistant_message : Message → Action ExecutionContext (Unit {0})
unfolding add_message
add_assistant_message message = do
  raise_if (not (has_role "assistant" message)) value_error
  add_message message

unfoldable pub add_tool_message : String → String → String → Action ExecutionContext (Unit {0})
unfolding add_message
add_tool_message call_id name content = do
  raise_if (is_empty call_id) value_error
  raise_if (is_empty name) value_error
  add_message (tool_message call_id name content)

unfoldable pub add_tool_call : Fields → Action ExecutionContext (Unit {0})
add_tool_call tool_call =
    modify (λ (c : ExecutionContext). record c { tool_calls = c.tool_calls ++ tool_call ∷ [] })

unfoldable pub add_observation : String → Action ExecutionContext (Unit {0})
add_observation observation =
    modify
      (λ (c : ExecutionContext). record c { observations = c.observations ++ observation ∷ [] })

unfoldable pub clear : ExecutionContext → ExecutionContext
clear c = record c { messages = []; tool_calls = []; observations = [] }

pub record ContextBudget : Type 0 where
  pub max_context_tokens : ℕ
  pub reserved_output_tokens : ℕ

-- `ContextBudget.__post_init__`
unfoldable pub budget : ℤ → ℤ → Result ContextBudget
budget max_context_tokens reserved_output_tokens =
    if leb_ℤ max_context_tokens (pos 0)
    then raise value_error
    else if ltb_ℤ reserved_output_tokens (pos 0)
    then raise value_error
    else if leb_ℤ max_context_tokens reserved_output_tokens
    then raise value_error
    else ok (record {
      max_context_tokens = pos_part max_context_tokens;
      reserved_output_tokens = pos_part reserved_output_tokens;
    })

abbrev pub available_input_tokens : ContextBudget → ℕ
available_input_tokens b = b.max_context_tokens - b.reserved_output_tokens

-- `TokenCounter.count_message_tokens`
abbrev pub TokenCounter : Type 0
TokenCounter = List Message → ℕ

-- the first system message, and the other messages in their order
unfoldable pub split_system : List Message → Option Message × List Message
split_system [] = (none, [])
split_system (m ∷ ms) =
    let (system, rest) = split_system ms in
    if has_role "system" m then (some m, ms) else (system, m ∷ rest)

module _ (count : TokenCounter) where
  unfoldable pub remaining_input_tokens : Option ContextBudget → List Message → Option ℕ
  remaining_input_tokens none messages = none
  remaining_input_tokens (some b) messages = some (available_input_tokens b - count messages)

  unfoldable pub exceeds_budget : Option ContextBudget → List Message → Bool
  exceeds_budget none messages = false
  exceeds_budget (some b) messages = ltb (available_input_tokens b) (count messages)

  -- the loop over the messages from the newest on; `acc` is what it has selected
  unfoldable pub select : ℕ → List Message → List Message → List Message
  select left [] acc = acc
  select left (m ∷ older) acc =
      let skipped = select left older acc in
      let taken = select (left - count (m ∷ [])) older (m ∷ acc) in
      if ltb left (count (m ∷ []))
      then skipped
      else if leb left (count (m ∷ []))
      then m ∷ acc
      else taken

  unfoldable pub select_with : ℕ → Option Message → List Message → List Message
  unfolding select
  select_with available none newest = select available newest []
  select_with available (some system) newest =
      if ltb available (count (system ∷ []))
      then []
      else system ∷ select (available - count (system ∷ [])) newest []

  -- `_trim_messages`
  unfoldable pub trim_messages : ContextBudget → List Message → List Message
  unfolding split_system select_with
  trim_messages b messages =
      select_with (available_input_tokens b) (split_system messages).0
        (reverse (split_system messages).1)

  -- `get_messages_for_inference`
  abbrev trim_if : Option ContextBudget → List Message → List Message
  trim_if none messages = messages
  trim_if (some b) messages = trim_messages b messages

  unfoldable pub get_messages_for_inference : Option ContextBudget → List Message → List Message
  unfolding exceeds_budget trim_messages
  get_messages_for_inference b messages =
      if exceeds_budget b messages then trim_if b messages else messages

  unfoldable pub trim_to_budget : Option ContextBudget → ExecutionContext → ExecutionContext
  unfolding get_messages_for_inference
  trim_to_budget b c = record c { messages = get_messages_for_inference b c.messages }
