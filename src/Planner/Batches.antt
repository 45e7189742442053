-- ===== src/Planner/Batches.antt =====
-- A batch of calls, written as the service writes it, and read back by the planner.
use agenyx.Base.{
  ◌≡◌, refl, true, false, none, some, String, string_eq, List, [], ◌∷◌, map, Value, Items, Fields,
  field?, ℤ, pos, ltb_ℤ, leb_ℤ, is_empty, strip, arith, All, ok,
}
use agenyx.Tools.{has}
use agenyx.Planner.{
  tool_call, ToolCall, AgentDecision, Planner, decoded, extract_text, extract_arguments,
  validate_tool, plan_tool_call, plan_each, plan_tool_calls, extract_message, extract_tool_calls,
  all_objects, plan, normalized_tool_calls, tool_decision, plan_message,
}

-- A call as it is asked for, with its id.
pub record Asked : Type 0 where
  pub id : String
  pub name : String
  pub arguments : Fields

abbrev pub planned : Asked → ToolCall
planned a = record { name = a.name; arguments = a.arguments; call_id = some a.id }

module _ (dumps : Fields → String) where
  -- one call in the service's format
  abbrev pub call_object : Asked → Fields
  call_object a = Fields.field "id" (Value.str a.id) (
      Fields.field "type" (Value.str "function") (
        Fields.field "function"
          (Value.object (
            Fields.field "name" (Value.str a.name)
              (Fields.field "arguments" (Value.str (dumps a.arguments)) Fields.end)))
          Fields.end))

  abbrev pub call_objects : List Asked → Items
  call_objects [] = Items.nil
  call_objects (a ∷ rest) = Items.cons (Value.object (call_object a)) (call_objects rest)

  abbrev pub message_with : List Asked → Fields
  message_with asked = Fields.field "role" (Value.str "assistant") (
      Fields.field "content" Value.null
        (Fields.field "tool_calls" (Value.array (call_objects asked)) Fields.end))

  -- a response whose message asks for the calls
  abbrev pub response_of : List Asked → Value
  response_of asked = Value.object (
      Fields.field "choices"
        (Value.array (
          Items.cons
            (Value.object (Fields.field "message" (Value.object (message_with asked)) Fields.end))
            Items.nil))
        Fields.end)

  module _ (p : Planner) where
    -- What is asked of a call: texts that strip keeps and that are not empty, a known tool, and arguments whose JSON text is read back.
    pub record IsAskable (a : Asked) : Type 0 where
      pub id_kept : strip a.id ≡ a.id
      pub id_full : is_empty a.id ≡ false
      pub name_kept : strip a.name ≡ a.name
      pub name_full : is_empty a.name ≡ false
      pub known : has a.name p.tools ≡ true
      pub text_kept : strip (dumps a.arguments) ≡ dumps a.arguments
      pub text_full : is_empty (dumps a.arguments) ≡ false
      pub read_back : p.loads (dumps a.arguments) ≡ decoded (Value.object a.arguments)

    objects_read :
        (asked : List Asked) → all_objects (call_objects asked) ≡ ok (map call_object asked)
    unfolding all_objects
    objects_read [] = refl
    objects_read (a ∷ rest) = rw (objects_read rest)

    text_read :
        (s : String) → strip s ≡ s → is_empty s ≡ false → extract_text (some (Value.str s)) ≡ ok s
    unfolding extract_text
    text_read s kept full = rw (kept, full)

    call_read :
        (step : ℤ) (a : Asked)
        → leb_ℤ step (pos 0) ≡ false
        → IsAskable a
        → plan_tool_call p step (call_object a) ≡ ok (planned a)
    unfolding plan_tool_call field? extract_arguments validate_tool
    call_read step a later v = rw (
      text_read a.id v.id_kept v.id_full,
      text_read a.name v.name_kept v.name_full,
      v.text_kept,
      v.text_full,
      v.read_back,
      v.known,
      later,
    )

    each_read :
        (step : ℤ) (asked : List Asked)
        → leb_ℤ step (pos 0) ≡ false
        → All IsAskable asked
        → plan_each p step (map call_object asked) ≡ ok (map planned asked)
    unfolding plan_each
    each_read step [] later h = refl
    each_read step (a ∷ rest) later h =
        rw (call_read step a later h.0, each_read step rest later h.1)

    message_read :
        (asked : List Asked) → extract_message (response_of asked) ≡ ok (message_with asked)
    unfolding extract_message
    message_read asked = refl

    wanted_read :
        (asked : List Asked)
        → extract_tool_calls (field? "tool_calls" (message_with asked)) ≡ ok (map call_object asked)
    unfolding extract_tool_calls field?
    wanted_read asked = objects_read asked

    message_planned :
        (step : ℤ) (a : Asked) (rest : List Asked)
        → leb_ℤ step (pos 0) ≡ false
        → All IsAskable (a ∷ rest)
        → plan_message p step (message_with (a ∷ rest)) ≡ tool_decision (map planned (a ∷ rest))
    unfolding plan_tool_calls
    message_planned step a rest later h =
        rw (wanted_read (a ∷ rest), each_read step (a ∷ rest) later h)

    starts : (step : ℤ) → leb_ℤ step (pos 0) ≡ false → ltb_ℤ step (pos 0) ≡ false
    starts step later = ground arith

    plan_read :
        (step : ℤ) (a : Asked) (rest : List Asked)
        → leb_ℤ step (pos 0) ≡ false
        → All IsAskable (a ∷ rest)
        → plan p (response_of (a ∷ rest)) step ≡ tool_decision (map planned (a ∷ rest))
    unfolding plan
    plan_read step a rest later h =
        rw (starts step later, message_read (a ∷ rest), message_planned step a rest later h)

    -- The planner reads a batch of calls back, call by call and in order, at any positive step:
    -- from a response that asks for calls of known tools, each with an id, a name and the text of
    -- its arguments, none of them empty or with outer white space, and a text that the reader of
    -- JSON reads back, it makes the decision with just these calls, and the runtime is handed them.
    pub plan-response_of :
        (step : ℤ) (a : Asked) (rest : List Asked)
        → leb_ℤ step (pos 0) ≡ false
        → All IsAskable (a ∷ rest)
        → (d : AgentDecision) × (plan p (response_of (a ∷ rest)) step ≡ ok d)
          × (d.type ≡ tool_call)
          × (normalized_tool_calls d ≡ map planned (a ∷ rest))
    unfolding normalized_tool_calls
    plan-response_of step a rest later h = (
      record {
        type = tool_call;
        content = none;
        tool_calls = map planned (a ∷ rest);
        tool_name = some a.name;
        arguments = a.arguments;
        call_id = some a.id;
        error = none;
      },
      plan_read step a rest later h,
      refl,
      refl,
    )
