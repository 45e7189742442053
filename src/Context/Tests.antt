-- ===== src/Context/Tests.antt =====
-- A short history and a budget that it does not fit.
use agenyx.Base.{
  field?, ◌≡◌, refl, true, false, none, some, List, [], ◌∷◌, ◌++◌, arith, ok, pos, string_eq, ltb,
}
use agenyx.Context.{
  Message, ContextBudget, available_input_tokens, ExecutionContext, budget, exceeds_budget,
  get_messages_for_inference, trim_messages, system_message, user_message, tool_message, select,
  select_with,
}
use agenyx.Context.Tokens.{count_message_tokens, count_message_tokens_subadditive, count_value}
use agenyx.Context.Fit.{IsSubadditive, get_messages_for_inference_fits}
use agenyx.Context.Order.{trim_messages_order}
use mathlib.Core.List.{Sublist}

-- 32 tokens, of which 8 are reserved
abbrev small : ContextBudget
small = record { max_context_tokens = 32; reserved_output_tokens = 8 }

small_made : budget (pos 32) (pos 8) ≡ ok small
unfolding budget
small_made = refl

four : IsSubadditive (count_message_tokens 4)
unfolding count_message_tokens
four = record {
  empty = refl;
  parts = λ m ms. count_message_tokens_subadditive 4 m ms (omega arith);
}

abbrev older : List Message
older = user_message "an old question" ∷ []

abbrev newer : List Message
newer =
    user_message "what is it?"
    ∷ tool_message "c1" "shell" "a long answer of the tool that does not fit"
    ∷ user_message "go on"
    ∷ []

abbrev rules : Message
rules = system_message "be brief"

-- the long message is left out, and so is the oldest
trimmed :
    trim_messages (count_message_tokens 4) small (older ++ rules ∷ newer)
    ≡ rules ∷ user_message "what is it?" ∷ user_message "go on" ∷ []
unfolding trim_messages select_with select count_message_tokens count_value field?
trimmed = refl

get_messages_for_inference_fits_example :
    exceeds_budget
      (count_message_tokens 4)
      (some small)
      (get_messages_for_inference (count_message_tokens 4) (some small) (older ++ rules ∷ newer))
    ≡ false
get_messages_for_inference_fits_example =
    get_messages_for_inference_fits (count_message_tokens 4) four (some small)
      (older ++ rules ∷ newer)

abbrev history : ExecutionContext
history = record {
  messages = older ++ rules ∷ newer;
  current_plan = none;
  current_step = 1;
  tool_calls = [];
  observations = [];
  errors = [];
  metadata = [];
}

trim_messages_order_example :
    (ltb (available_input_tokens small) (count_message_tokens 4 (rules ∷ [])) ≡ true
      → trim_messages (count_message_tokens 4) small (older ++ rules ∷ newer) ≡ [])
    × (ltb (available_input_tokens small) (count_message_tokens 4 (rules ∷ [])) ≡ false
        → (kept : List Message) × Sublist kept (older ++ newer)
          × (trim_messages (count_message_tokens 4) small (older ++ rules ∷ newer) ≡ rules ∷ kept))
unfolding field?
trim_messages_order_example =
    trim_messages_order (count_message_tokens 4) small older rules newer (refl, tt) refl
