-- ===== src/Context/Tokens.antt =====
-- `CharacterTokenCounter` of context_manager.py: an estimate of tokens from the length of the texts.
use native.Mathlib.Nat.{lt-div-mul-add, div-lt_iff_lt-mul, add-mul}
use agenyx.Base.{
  text_length, ℕ, zero, suc, ◌+◌, ◌-◌, ◌*◌, ◌≤◌, ◌<◌, true, false, List, [], ◌∷◌, Value, Items,
  Fields, ℤ, pos, negsuc, ltb, leb_ℤ, nat_beq, pos_part, value_error, Result, ok, raise, arith,
  if◌then◌else◌,
}
use Prim.Native.Nat.{◌/◌}

-- The number of decimal digits: `n + 1` rounds are enough, since each divides by ten.
digits_in : ℕ → ℕ → ℕ
digits_in zero n = 1
digits_in (suc f) n = let rest = suc (digits_in f (n / 10)) in if ltb n 10 then 1 else rest

-- `len(str(n))`
unfoldable pub int_length : ℤ → ℕ
unfolding digits_in
int_length (pos n) = digits_in (suc n) n
int_length (negsuc n) = suc (digits_in (suc (suc n)) (suc n))

-- `_count_value`; a list or a dict gives the sum over its parts
unfoldable mutual
  pub count_value : Value → ℕ
  count_value Value.null = 0
  count_value (Value.bool true) = 4
  count_value (Value.bool false) = 5
  count_value (Value.int n) = int_length n
  count_value (Value.str s) = text_length s
  count_value (Value.array vs) = count_items vs
  count_value (Value.object d) = count_fields d

  pub count_items : Items → ℕ
  count_items Items.nil = 0
  count_items (Items.cons v vs) = count_value v + count_items vs

  pub count_fields : Fields → ℕ
  count_fields Fields.end = 0
  count_fields (Fields.field k v d) = text_length k + count_value v + count_fields d

-- the loop over the messages
unfoldable pub total_characters : List Fields → ℕ
unfolding count_value
total_characters [] = 0
total_characters (m ∷ ms) = count_value (Value.object m) + total_characters ms

-- `CharacterTokenCounter.__post_init__`
unfoldable pub character_token_counter : ℤ → Result ℕ
character_token_counter characters_per_token =
    if leb_ℤ characters_per_token (pos 0)
    then raise value_error
    else ok (pos_part characters_per_token)

-- `total` characters, rounded up to whole tokens of `per_token`
unfoldable pub tokens_of : ℕ → ℕ → ℕ
tokens_of per_token total = if nat_beq total 0 then 0 else (total + per_token - 1) / per_token

unfoldable pub count_message_tokens : ℕ → List Fields → ℕ
unfolding total_characters tokens_of
count_message_tokens per_token messages = tokens_of per_token (total_characters messages)

le_tokens : (k a : ℕ) → 0 < k → a ≤ tokens_of k a * k
unfolding tokens_of
le_tokens k a h = ground (arith, lt-div-mul-add {a = a + k - 1} h)

tokens_le : (k a q : ℕ) → 0 < k → a ≤ q * k → tokens_of k a ≤ q
unfolding tokens_of
tokens_le k a q h le = ground (arith, (div-lt_iff_lt-mul {k = k} {x = a + k - 1} {y = suc q} h).1)

tokens_add : (k a b : ℕ) → 0 < k → tokens_of k (a + b) ≤ tokens_of k a + tokens_of k b
tokens_add k a b h =
    tokens_le k (a + b) (tokens_of k a + tokens_of k b) h
      (omega (arith, le_tokens k a h, le_tokens k b h, add-mul (tokens_of k a) (tokens_of k b) k))

-- Messages taken apart count for no fewer tokens than together.
pub count_message_tokens_subadditive :
    (per_token : ℕ) (m : Fields) (ms : List Fields)
    → 0 < per_token
    → count_message_tokens per_token (m ∷ ms)
      ≤ count_message_tokens per_token (m ∷ []) + count_message_tokens per_token ms
unfolding count_message_tokens count_value
count_message_tokens_subadditive k m ms h =
    grind (arith, tokens_add k (count_fields m) (total_characters ms))
