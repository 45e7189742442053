-- ===== src/Service/Messages.antt =====
-- The checks of the messages of a request: see `chat_completions` of main.py.
use agenyx.Base.{
  ℕ, ◌+◌, ◌≤◌, ◌≡◌, refl, ap, Bool, true, false, Option, none, some, string_eq, List, [], ◌∷◌,
  length, All, ltb, Value, Items, items, field?, ◌↔◌, inl, inr, arith, text_length, Bool-cases,
  subst,
}
use agenyx.Service.{
  ApiError, api_error, Settings, Checked, passes, rejects, ◌>>=◌, ◌>>◌, reject_if, check_content,
  check_message, check_each, check_messages, as_messages,
}

-- the characters of the content
abbrev pub size_of_content : Option Value → ℕ
size_of_content (some (Value.str s)) = text_length s
size_of_content _ = 0

abbrev pub size_of : Value → ℕ
size_of (Value.object m) = size_of_content (field? "content" m)
size_of _ = 0

abbrev pub sum_sizes : List Value → ℕ
sum_sizes [] = 0
sum_sizes (v ∷ vs) = size_of v + sum_sizes vs

-- a content is missing, null or a text that is short enough
abbrev pub IsContent : Settings → Option Value → Type 0
IsContent c none = Unit
IsContent c (some Value.null) = Unit
IsContent c (some (Value.str s)) = text_length s ≤ c.max_message_content_chars
IsContent c (some _) = ⊥

abbrev pub IsMessage : Settings → Value → Type 0
IsMessage c (Value.object m) = IsContent c (field? "content" m)
IsMessage c _ = ⊥

pub bind-passes :
    {A B : Type 0} (m : Checked A) (f : A → Checked B) (b : B)
    → m >>= f ≡ passes b
    → (a : A) × (m ≡ passes a) × (f a ≡ passes b)
bind-passes (passes a) f b h = (a, refl, h)
bind-passes (rejects e) f b h = cc

pub reject_if-passes : (b : Bool) (e : ApiError) (u : Unit) → reject_if b e ≡ passes u → b ≡ false
reject_if-passes true e u h = cc
reject_if-passes false e u h = refl

check_text :
    (n limit m : ℕ) (e : ApiError)
    → ((reject_if (ltb limit n) e >> passes n) ≡ passes m) ↔ ((n ≤ limit) × (m ≡ n))
check_text n limit m e = elim (Bool-cases (ltb limit n)) [
  | inl long ↦ rw long (λ h. cc, λ (h, k). ground arith)
  | inr short ↦ rw short (λ h. (ground arith, cc), λ (h, k). cc)
]

check_content_lem :
    (c : Settings) (o : Option Value) (n : ℕ)
    → (check_content c o ≡ passes n) ↔ (IsContent c o × (n ≡ size_of_content o))
unfolding check_content
check_content_lem c none n = (λ h. (tt, cc), λ (h, e). cc)
check_content_lem c (some Value.null) n = (λ h. (tt, cc), λ (h, e). cc)
check_content_lem c (some (Value.str s)) n =
    check_text (text_length s) c.max_message_content_chars n _
check_content_lem c (some _) n = (λ h. cc, λ (h, e). elim h [ ])

check_message_lem :
    (c : Settings) (v : Value) (n : ℕ)
    → (check_message c v ≡ passes n) ↔ (IsMessage c v × (n ≡ size_of v))
unfolding check_message
check_message_lem c (Value.object m) n = check_content_lem c (field? "content" m) n
check_message_lem c _ n = (λ h. cc, λ (h, e). elim h [ ])

check_each_passes :
    (c : Settings) (t n : ℕ) (vs : List Value)
    → check_each c t vs ≡ passes n
    → All (IsMessage c) vs × (n ≡ t + sum_sizes vs)
unfolding check_each
check_each_passes c t n [] h = (tt, let e : t ≡ n = cc in omega arith)
check_each_passes c t n (v ∷ vs) h =
    let (k, e, rest) = bind-passes (check_message c v) _ n h in
    let (fine, same) = (check_message_lem c v k).0 e in
    let (fine', same') = check_each_passes c (t + k) n vs rest in ((fine, fine'), omega arith)

pub passes-check_each :
    (c : Settings) (t : ℕ) (vs : List Value)
    → All (IsMessage c) vs
    → check_each c t vs ≡ passes (t + sum_sizes vs)
unfolding check_each
passes-check_each c t [] h = ap passes (omega arith)
passes-check_each c t (v ∷ vs) (h, k) =
    rw ((check_message_lem c v (size_of v)).1 (h, refl), passes-check_each c (t + size_of v) vs k)
      (ap passes (omega arith))

pub within : (limit n : ℕ) → ltb limit n ≡ false → n ≤ limit
within limit n h = ground arith

pub not_above : (limit n : ℕ) → n ≤ limit → ltb limit n ≡ false
not_above limit n h = ground arith

listed_as :
    (o : Option Value) (vs : List Value)
    → as_messages o ≡ passes vs
    → (v : Value) × (rest : Items) × (o ≡ some (Value.array (Items.cons v rest)))
      × (vs ≡ v ∷ items rest)
listed_as (some (Value.array (Items.cons v rest))) vs h = (v, rest, refl, cc)
listed_as (some (Value.array Items.nil)) vs h = cc
listed_as (some Value.null) vs h = cc
listed_as (some (Value.bool _)) vs h = cc
listed_as (some (Value.int _)) vs h = cc
listed_as (some (Value.str _)) vs h = cc
listed_as (some (Value.object _)) vs h = cc
listed_as none vs h = cc

-- the messages that `check_messages` lets through
unfoldable pub HasMessages : Settings → Option Value → Type 0
HasMessages c o =
    (v : Value) × (rest : Items) × (o ≡ some (Value.array (Items.cons v rest)))
    × (length (v ∷ items rest) ≤ c.max_messages)
    × All (IsMessage c) (v ∷ items rest)
    × (sum_sizes (v ∷ items rest) ≤ c.max_total_message_content_chars)

counted_messages :
    (c : Settings) (vs : List Value) (total : ℕ) (u : Unit)
    → check_each c 0 vs ≡ passes total
    → reject_if
        (ltb c.max_total_message_content_chars total)
        (api_error 400 "TOTAL_MESSAGE_CONTENT_TOO_LARGE")
      ≡ passes u
    → All (IsMessage c) vs × (sum_sizes vs ≤ c.max_total_message_content_chars)
counted_messages c vs total u h k =
    let (fine, same) = check_each_passes c 0 total vs h in
    let short = within _ _ (reject_if-passes _ _ _ k) in (fine, omega arith)

pub check_messages-HasMessages :
    (c : Settings) (o : Option Value) (u : Unit) → check_messages c o ≡ passes u → HasMessages c o
unfolding check_messages HasMessages
check_messages-HasMessages c o u h =
    let (vs, e, h1) = bind-passes (as_messages o) _ u h in
    let (v, rest, listed, same) = listed_as o vs e in
    let (_, few, h2) = bind-passes (reject_if _ _) _ u h1 in
    let (total, counts, h3) = bind-passes (check_each c 0 vs) _ u h2 in
    let (fine, short) = counted_messages c vs total u counts h3 in
    (
      v,
      rest,
      listed,
      subst (λ xs. length xs ≤ c.max_messages) same (within _ _ (reject_if-passes _ _ _ few)),
      subst (All (IsMessage c)) same fine,
      subst (λ xs. sum_sizes xs ≤ c.max_total_message_content_chars) same short,
    )
