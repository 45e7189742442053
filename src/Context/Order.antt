-- ===== src/Context/Order.antt =====
-- Trimming keeps the first system message in front and the others in their order.
use mathlib.Core.List.{
  Sublist, sublist-append_right, reverse-cons, reverse-reverse, append_assoc, append-nil,
}
use mathlib.Core.List.Sublist
use agenyx.Base.{
  ℕ, ◌-◌, ◌≡◌, sym, subst, true, false, some, inl, inr, List, [], ◌∷◌, ◌++◌, reverse, All, ltb, leb,
  Bool-cases,
}
use agenyx.Context.{
  Message, ContextBudget, available_input_tokens, TokenCounter, has_role, split_system, select,
  select_with, trim_messages,
}

split_system_lem :
    (before : List Message) (s : Message) (after : List Message)
    → All (λ m. has_role "system" m ≡ false) before
    → has_role "system" s ≡ true
    → split_system (before ++ s ∷ after) ≡ (some s, before ++ after)
unfolding split_system
split_system_lem [] s after h k = rw k
split_system_lem (m ∷ before) s after h k = rw (h.0, split_system_lem before s after h.1 k)

module _ (count : TokenCounter) where
  select-cases :
      (left : ℕ) (m : Message) (older acc : List Message) (P : List Message → Type 0)
      → P (select count left older acc)
      → P (m ∷ acc)
      → P (select count (left - count (m ∷ [])) older (m ∷ acc))
      → P (select count left (m ∷ older) acc)
  unfolding select
  select-cases left m older acc P skip last take = elim (Bool-cases (ltb left (count (m ∷ [])))) [
    | inl big ↦ rw big skip
    | inr fits ↦ elim (Bool-cases (leb left (count (m ∷ [])))) [
      | inl full ↦ rw (fits, full) last
      | inr more ↦ rw (fits, more) take
    ]
  ]

  select-Sublist :
      (left : ℕ) (newest acc whole : List Message)
      → Sublist acc whole
      → Sublist (select count left newest acc) (reverse newest ++ whole)
  unfolding select
  select-Sublist left [] acc whole h = h
  select-Sublist left (m ∷ older) acc whole h =
      let moved : reverse (m ∷ older) ++ whole ≡ reverse older ++ m ∷ whole =
        rw (reverse-cons m older) (append_assoc (reverse older) (m ∷ []) whole) in
      subst (λ l. Sublist (select count left (m ∷ older) acc) l) (sym moved)
        (select-cases left m older acc (λ l. Sublist l (reverse older ++ m ∷ whole))
          (select-Sublist left older acc (m ∷ whole) (Sublist.cons m h))
          (Sublist.trans (Sublist.cons-cons m h) (sublist-append_right (reverse older) (m ∷ whole)))
          (select-Sublist (left - count (m ∷ [])) older (m ∷ acc) (m ∷ whole)
            (Sublist.cons-cons m h)))

  select-all : (left : ℕ) (rest : List Message) → Sublist (select count left (reverse rest) []) rest
  select-all left rest =
      subst (λ l. Sublist (select count left (reverse rest) []) l)
        (rw (append-nil (reverse (reverse rest))) (reverse-reverse rest))
        (select-Sublist left (reverse rest) [] [] (Sublist.refl []))

  -- Of a history with a system message, the first system message comes first after trimming, and
  -- the other messages that are kept stand in their order. When the system message alone is larger
  -- than the budget, nothing is kept.
  pub trim_messages_order :
      (b : ContextBudget) (before : List Message) (s : Message) (after : List Message)
      → All (λ m. has_role "system" m ≡ false) before
      → has_role "system" s ≡ true
      → (ltb (available_input_tokens b) (count (s ∷ [])) ≡ true
          → trim_messages count b (before ++ s ∷ after) ≡ [])
        × (ltb (available_input_tokens b) (count (s ∷ [])) ≡ false
            → (kept : List Message) × Sublist kept (before ++ after)
              × (trim_messages count b (before ++ s ∷ after) ≡ s ∷ kept))
  unfolding trim_messages select_with
  trim_messages_order b before s after h k =
      let left = available_input_tokens b - count (s ∷ []) in
      let split = split_system_lem before s after h k in
      (
        λ big. rw (split, big),
        λ fits. (
          select count left (reverse (before ++ after)) [],
          select-all left (before ++ after),
          rw (split, fits),
        ),
      )
