-- ===== src/Events.antt =====
-- events.py, event_stream.py and cancellation.py: the events of one execution on their way to those
-- who read them, and the token that asks for the end of the execution. Any number of consumers may
-- read one stream; each event goes to one of them.
mod Order
mod Tests
use agenyx.Base.{
  ℕ, ◌+◌, Bool, true, false, Option, none, some, String, is_empty, List, [], ◌∷◌, ◌++◌, Dict, Value,
  Error, value_error, runtime_error, execution_cancelled, Result, ok, raise, Action, raise_if,
  modify, ◌>>◌, if◌then◌else◌, ◌||◌,
}

pub record AgentEvent : Type 0 where
  pub type : String
  pub execution_id : String
  pub «data» : Dict String Value

unfoldable pub post_init : AgentEvent → Result AgentEvent
post_init e = if is_empty e.type || is_empty e.execution_id then raise value_error else ok e

-- an item of the queue: an event, or `_CLOSED`
pub data Item : Type 0 where
  event : AgentEvent → Item
  closed_mark : Item

pub record EventStream : Type 0 where
  pub queue : List Item
  pub closed : Bool

abbrev pub init : EventStream
init = record { queue = []; closed = false }

abbrev pub put : Item → EventStream → EventStream
put item s = record s { queue = s.queue ++ item ∷ [] }

unfoldable pub publish : AgentEvent → Action EventStream (Unit {0})
publish e = do λ (s : EventStream). raise_if s.closed runtime_error s; modify (put (event e))

unfoldable pub close : EventStream → EventStream
close s = if s.closed then s else put closed_mark (record s { closed = true })

-- `await self._queue.get()` of a consumer: nothing while the queue is empty, since the consumer waits
abbrev first_of : List Item → Option (Item × List Item)
first_of [] = none
first_of (x ∷ xs) = some (x, xs)

unfoldable pub get : EventStream → Option (Item × EventStream)
get s = elim (first_of s.queue) [
  | none ↦ none
  | some (x, rest) ↦ some (x, record s { queue = rest })
]

-- What one round of `events` gives a consumer: an event, or the end of its iteration.
pub record Consumers : Type 0 where
  pub received : List AgentEvent
  pub ended : ℕ

abbrev pub consume : Item → Consumers → Consumers
consume (event e) c = record c { received = c.received ++ e ∷ [] }
consume closed_mark c = record c { ended = c.ended + 1 }

-- a round of `events`, of any of the consumers
unfoldable pub events : EventStream × Consumers → EventStream × Consumers
unfolding get
events (s, c) = elim (get s) [ none ↦ (s, c) | some (item, s') ↦ (s', consume item c) ]

-- `CancellationToken`
pub record CancellationToken : Type 0 where
  pub cancelled : Bool

unfoldable pub cancel : CancellationToken → CancellationToken
cancel t = record t { cancelled = true }

unfoldable pub raise_if_cancelled : Action CancellationToken (Unit {0})
raise_if_cancelled t = (if t.cancelled then raise execution_cancelled else ok tt, t)
