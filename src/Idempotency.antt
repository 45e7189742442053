-- ===== src/Idempotency.antt =====
-- idempotency.py: the in-memory store of results by key. Each method but `wait` runs under the
-- store's lock, so a call is one step; `wait` is one step before and one after `event.wait()`.
-- An `asyncio.Event` is a number, and `set_events` holds those that are set.
pub mod Race
mod Safety
mod Once
mod Tests
use agenyx.Base.{
  ℕ, ◌+◌, Bool, true, false, Option, none, some, String, List, [], ◌∷◌, Dict, lookup, insert,
  contains, string_eq, nat_eq, elem, add, discard, Error, runtime_error, Result, ok, raise,
  if◌then◌else◌,
}

pub record IdempotencyStore (R : Type 0) : Type 0 where
  pub records : Dict String R
  pub claimed : List String
  pub events : Dict String ℕ
  pub set_events : List ℕ
  pub next_event : ℕ

-- How `wait` begins: with the record, with an error, or waiting for an event.
pub data Waiting (R : Type 0) : Type 0 where
  found : R → Waiting R
  absent : Waiting R
  await : ℕ → Waiting R

module _ {R : Type 0} where
  unfoldable pub empty : IdempotencyStore R
  empty = record { records = []; claimed = []; events = []; set_events = []; next_event = 0 }

  unfoldable pub get : String → IdempotencyStore R → Option R
  get key s = lookup key s.records

  unfoldable pub claim : String → IdempotencyStore R → Bool × IdempotencyStore R
  claim key s =
      if elem key s.claimed then (false, s) else if contains key s.records then (false, s) else (
        true,
        record s {
          claimed = add key s.claimed;
          events = insert key s.next_event s.events;
          next_event = s.next_event + 1;
        },
      )

  -- `event.set()` on the event of a key, if there is one
  abbrev signal : String → IdempotencyStore R → IdempotencyStore R
  signal key s = record s {
    set_events = elim (lookup key s.events) [ none ↦ s.set_events | some e ↦ add e s.set_events ];
  }

  unfoldable pub put : String → R → IdempotencyStore R → IdempotencyStore R
  put key result s =
      signal key
        (record s { records = insert key result s.records; claimed = discard key s.claimed })

  unfoldable pub release : String → IdempotencyStore R → IdempotencyStore R
  release key s = signal key (record s { claimed = discard key s.claimed })

  unfoldable pub begin_wait : String → IdempotencyStore R → Waiting R
  begin_wait key s = elim (lookup key s.records) [
    | some r ↦ found r
    | none ↦ elim (lookup key s.events) [ none ↦ absent | some e ↦ await e ]
  ]

  -- after the event: the record, or RuntimeError
  unfoldable pub end_wait : String → IdempotencyStore R → Result R
  end_wait key s = elim (lookup key s.records) [ none ↦ raise runtime_error | some r ↦ ok r ]
