-- ===== src/Context/Fit.antt =====
-- Trimming brings the messages for inference into the budget.
use agenyx.Base.{
  ℕ, ◌+◌, ◌-◌, ◌≤◌, ◌≡◌, refl, false, Option, none, some, List, [], ◌∷◌, reverse, arith,
}
use agenyx.Context.{
  Message, ContextBudget, available_input_tokens, TokenCounter, ExecutionContext, exceeds_budget,
  split_system, select, select_with, trim_messages, get_messages_for_inference, trim_to_budget,
}

-- What the trimming relies on in a counter: messages taken apart count for no fewer tokens.
pub record IsSubadditive (count : TokenCounter) : Type 0 where
  pub empty : count [] ≡ 0
  pub parts : (m : Message) (ms : List Message) → count (m ∷ ms) ≤ count (m ∷ []) + count ms

module _ (count : TokenCounter) (v : IsSubadditive count) where
  select_fits :
      (left : ℕ) (newest acc : List Message) (available : ℕ)
      → count acc + left ≤ available
      → count (select count left newest acc) ≤ available
  unfolding select
  select_fits left [] acc available h = omega arith
  select_fits left (m ∷ older) acc available h = ground (
    arith,
    v.parts m acc,
    select_fits left older acc available,
    select_fits (left - count (m ∷ [])) older (m ∷ acc) available,
  )

  select_with_fits :
      (available : ℕ) (system : Option Message) (newest : List Message)
      → count (select_with count available system newest) ≤ available
  unfolding select_with
  select_with_fits available none newest =
      select_fits available newest [] available (omega (arith, v.empty))
  select_with_fits available (some s) newest =
      let left = available - count (s ∷ []) in
      ground
        (arith, v.empty, v.parts s (select count left newest []), select_fits left newest [] left)

  trim_fits :
      (b : ContextBudget) (messages : List Message)
      → count (trim_messages count b messages) ≤ available_input_tokens b
  unfolding trim_messages
  trim_fits b messages =
      select_with_fits (available_input_tokens b) (split_system messages).0
        (reverse (split_system messages).1)

  -- What is sent to inference never exceeds the budget, whatever the messages are, when the token
  -- counter is subadditive: no messages count nothing, and a list at most what its first message
  -- and the rest count apart.
  pub get_messages_for_inference_fits :
      (b : Option ContextBudget) (messages : List Message)
      → exceeds_budget count b (get_messages_for_inference count b messages) ≡ false
  unfolding get_messages_for_inference exceeds_budget
  get_messages_for_inference_fits none messages = refl
  get_messages_for_inference_fits (some b) messages = ground (arith, trim_fits b messages)

  fitting_kept :
      (b : Option ContextBudget) (messages : List Message)
      → exceeds_budget count b messages ≡ false
      → get_messages_for_inference count b messages ≡ messages
  unfolding get_messages_for_inference
  fitting_kept b messages h = rw h

  -- Trimming in place is idempotent for a subadditive token counter: the second call changes
  -- nothing.
  pub trim_to_budget_idempotent :
      (b : Option ContextBudget) (c : ExecutionContext)
      → trim_to_budget count b (trim_to_budget count b c) ≡ trim_to_budget count b c
  unfolding trim_to_budget
  trim_to_budget_idempotent b c = rw (
      fitting_kept b (get_messages_for_inference count b c.messages)
        (get_messages_for_inference_fits b c.messages))
