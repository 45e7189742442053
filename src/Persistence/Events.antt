-- ===== src/Persistence/Events.antt =====
-- The event store keeps the events of an execution in the order of their sequences, and gives them back.
use mathlib.Core.List.{append_assoc, append-nil}
use agenyx.Base.{
  ℕ, ◌≡◌, refl, sym, subst, ◌∙◌, Bool, true, false, List, [], ◌∷◌, ◌++◌, ℤ, pos, ltb_ℤ, ok, raise,
  arith, lookup, lookup-insert, nat_eq, ◌==◌, ==_iff, Error, if◌then◌else◌, Dict, Bool-cases, inl,
  inr,
}
use agenyx.Persistence.{
  ExecutionEventRecord, InMemoryExecutionEventStore, events_of, last_sequence, out_of_order,
  put_event, post_init, append, after, list, batch_valid, append_many, put_all, grouped,
  batches_valid,
}

abbrev Events : Type 0
Events = Dict ℕ (List ExecutionEventRecord)

-- the events of one execution
abbrev pub mine : ℕ → List ExecutionEventRecord → List ExecutionEventRecord
mine id [] = []
mine id (e ∷ l) = let others = mine id l in if e.execution_id == id then e ∷ others else others

put_event_lem :
    (id : ℕ) (e : ExecutionEventRecord) (d : Events)
    → events_of id (put_event e d) ≡ events_of id d ++ mine id (e ∷ [])
unfolding put_event
put_event_lem id e d = elim (Bool-cases (e.execution_id == id)) [
  | inl same ↦
      rw (lookup-insert id e.execution_id (events_of e.execution_id d ++ e ∷ []) d, same)
        (rw ((==_iff e.execution_id id).0 same) refl)
  | inr differ ↦
      rw (lookup-insert id e.execution_id (events_of e.execution_id d ++ e ∷ []) d, differ)
        (sym (append-nil (events_of id d)))
]

mine_cons :
    (id : ℕ) (e : ExecutionEventRecord) (l : List ExecutionEventRecord)
    → mine id (e ∷ l) ≡ mine id (e ∷ []) ++ mine id l
mine_cons id e l = ground arith

put_all_lem :
    (id : ℕ) (l : List ExecutionEventRecord) (d : Events)
    → events_of id (put_all l d) ≡ events_of id d ++ mine id l
unfolding put_all
put_all_lem id [] d = sym (append-nil (events_of id d))
put_all_lem id (e ∷ l) d =
    put_all_lem id l (put_event e d)
    ∙ (rw (put_event_lem id e d)
        (append_assoc (events_of id d) (mine id (e ∷ [])) (mine id l) ∙ rw (mine_cons id e l) refl))

batch_append :
    (p : ℤ) (l k : List ExecutionEventRecord)
    → batch_valid p l ≡ true
    → batch_valid (last_sequence p l) k ≡ true
    → batch_valid p (l ++ k) ≡ true
unfolding batch_valid
batch_append p [] k h g = g
batch_append p (e ∷ l) k h g = ground (arith, batch_append e.sequence l k)

batches_lem :
    (stored groups : Events) (id : ℕ)
    → batches_valid stored groups ≡ true
    → batch_valid (last_sequence (pos 0) (events_of id stored)) (events_of id groups) ≡ true
unfolding batches_valid lookup batch_valid
batches_lem stored [] id h = refl
batches_lem stored ((j, batch) ∷ rest) id h =
    ground (arith, ==_iff j id, batches_lem stored rest id)

grouped_lem :
    (l : List ExecutionEventRecord) (groups : Events) → grouped l groups ≡ put_all l groups
unfolding grouped put_all
grouped_lem [] groups = refl
grouped_lem (e ∷ l) groups = grouped_lem l (put_event e groups)

-- In the events of every execution each sequence exceeds the one before, and the first is positive.
pub record IsOrdered (s : InMemoryExecutionEventStore) : Type 0 where
  pub ordered : (id : ℕ) → batch_valid (pos 0) (events_of id s.events) ≡ true

single_valid :
    (e : ExecutionEventRecord) (l : List ExecutionEventRecord)
    → post_init e ≡ ok e
    → out_of_order e l ≡ false
    → batch_valid (last_sequence (pos 0) l) (e ∷ []) ≡ true
unfolding batch_valid post_init
single_valid e [] h k = ground arith
single_valid e (x ∷ l) h k = ground arith

ordered_after :
    (e : ExecutionEventRecord) (s : InMemoryExecutionEventStore)
    → post_init e ≡ ok e
    → IsOrdered s
    → out_of_order e (events_of e.execution_id s.events) ≡ false
    → (id : ℕ) → batch_valid (pos 0) (events_of id (put_event e s.events)) ≡ true
unfolding batch_valid
ordered_after e s h v fine id =
    rw (put_event_lem id e s.events) (elim (Bool-cases (e.execution_id == id)) [
      | inl same ↦ rw same (
          batch_append (pos 0) (events_of id s.events) (e ∷ []) (v.ordered id) (
            single_valid e (events_of id s.events) h (
              subst (λ i. out_of_order e (events_of i s.events) ≡ false)
                ((==_iff e.execution_id id).0 same) fine)))
      | inr differ ↦ rw (differ, append-nil (events_of id s.events)) (v.ordered id)
    ])

append_iff :
    (e : ExecutionEventRecord) (s : InMemoryExecutionEventStore) (late : Bool)
    → out_of_order e (events_of e.execution_id s.events) ≡ late
    → (append e s).1 ≡ (if late then s else record s { events = put_event e s.events })
unfolding append
append_iff e s true h = ground arith
append_iff e s false h = ground arith

pub append-IsOrdered :
    (e : ExecutionEventRecord) (s : InMemoryExecutionEventStore)
    → post_init e ≡ ok e
    → IsOrdered s
    → IsOrdered (append e s).1
append-IsOrdered e s h v = elim (Bool-cases (out_of_order e (events_of e.execution_id s.events))) [
  | inl late ↦ subst IsOrdered (sym (append_iff e s true late)) v
  | inr fine ↦
      subst IsOrdered (sym (append_iff e s false fine))
        (record { ordered = λ id. ordered_after e s h v fine id })
]

mine-grouped : (id : ℕ) (l : List ExecutionEventRecord) → events_of id (grouped l []) ≡ mine id l
unfolding lookup
mine-grouped id l = rw (grouped_lem l []) (put_all_lem id l [])

put_all-IsOrdered :
    (l : List ExecutionEventRecord) (s : InMemoryExecutionEventStore)
    → IsOrdered s
    → batches_valid s.events (grouped l []) ≡ true
    → IsOrdered (record s { events = put_all l s.events })
put_all-IsOrdered l s v h = record {
  ordered = λ id. rw (put_all_lem id l s.events) (
      batch_append (pos 0) (events_of id s.events) (mine id l) (v.ordered id)
        (rw (sym (mine-grouped id l)) (batches_lem s.events (grouped l []) id h)));
}

after-append : (n : ℤ) (l k : List ExecutionEventRecord) → after n (l ++ k) ≡ after n l ++ after n k
unfolding after
after-append n [] k = refl
after-append n (e ∷ l) k = ground (arith, after-append n l k)

list-put_all :
    (l : List ExecutionEventRecord) (s : InMemoryExecutionEventStore) (id : ℕ) (n : ℤ)
    → ltb_ℤ n (pos 0) ≡ false
    → list id n (record s { events = put_all l s.events })
      ≡ ok (after n (events_of id s.events) ++ after n (mine id l))
unfolding list
list-put_all l s id n h =
    rw (h, put_all_lem id l s.events, after-append n (events_of id s.events) (mine id l)) refl

appended :
    (e : ExecutionEventRecord) (rest : List ExecutionEventRecord) (s : InMemoryExecutionEventStore)
    → IsOrdered s
    → (id : ℕ) (n : ℤ) → ltb_ℤ n (pos 0) ≡ false
    → (append_many (e ∷ rest) s).0 ≡ ok tt
    → IsOrdered (append_many (e ∷ rest) s).1
      × (list id n (append_many (e ∷ rest) s).1
          ≡ ok (after n (events_of id s.events) ++ after n (mine id (e ∷ rest))))
unfolding append_many
appended e rest s v id n k h = elim (Bool-cases (batches_valid s.events (grouped (e ∷ rest) []))) [
  | inl valid ↦ rw valid (put_all-IsOrdered (e ∷ rest) s v valid, list-put_all (e ∷ rest) s id n k)
  | inr invalid ↦ ground arith
]

-- A batch that is refused leaves the store as it was.
append_many-raise_unchanged :
    (l : List ExecutionEventRecord) (s : InMemoryExecutionEventStore) (x : Error)
    → (append_many l s).0 ≡ raise x
    → (append_many l s).1 ≡ s
unfolding append_many
append_many-raise_unchanged [] s x h = refl
append_many-raise_unchanged (e ∷ rest) s x h = ground arith

module _ (l : List ExecutionEventRecord) (s : InMemoryExecutionEventStore) (v : IsOrdered s) where
  -- On a store whose sequences increase in every execution, a batch that is appended keeps them
  -- increasing, and then `list` after any sequence that is not negative gives, for every execution,
  -- what it gave before followed by the events of the batch after that sequence that are of the
  -- execution, in their order.
  pub append_many-list :
      (append_many l s).0 ≡ ok tt
      → (id : ℕ) (n : ℤ) → ltb_ℤ n (pos 0) ≡ false
      → IsOrdered (append_many l s).1
        × (list id n (append_many l s).1
            ≡ ok (after n (events_of id s.events) ++ after n (mine id l)))
  unfolding append_many list after lookup
  append_many-list h id n k =
      elim l
          as (λ l'.
            (append_many l' s).0 ≡ ok tt
            → IsOrdered (append_many l' s).1
              × (list id n (append_many l' s).1
                  ≡ ok (after n (events_of id s.events) ++ after n (mine id l')))) [
                    | [] ↦ λ _. (v, rw (k, append-nil (after n (events_of id s.events))) refl)
                    | e ∷ rest ↦ λ h'. appended e rest s v id n k h'
                  ]
        h
