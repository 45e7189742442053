-- ===== src/Events/Order.antt =====
-- The events of a stream in any order of publishing, closing and reading: see event_stream.py.
use agenyx.Base.{
  ℕ, zero, suc, ◌+◌, ◌≡◌, refl, sym, ap, subst, ◌∙◌, Bool, true, false, List, [], ◌∷◌, ◌++◌, map,
  Bool-cases, ◌⊎◌, inl, inr,
}
use mathlib.Core.List.{append-nil, append_assoc}
use agenyx.Events.{
  AgentEvent, Item, event, closed_mark, EventStream, init, put, publish, close, get, Consumers,
  consume, events,
}

-- what the producer and the consumers do
pub data Act : Type 0 where
  publishes : AgentEvent → Act
  closes reads : Act

-- a stream with its consumers, and the events that it has accepted
pub record State : Type 0 where
  pub stream : EventStream
  pub consumers : Consumers
  pub accepted : List AgentEvent

abbrev accept : Bool → AgentEvent → List AgentEvent → List AgentEvent
accept true e l = l
accept false e l = l ++ e ∷ []

unfoldable pub act : Act → State → State
act (publishes e) x = record x {
  stream = (publish e x.stream).1;
  accepted = accept x.stream.closed e x.accepted;
}
act closes x = record x { stream = close x.stream }
act reads x = let (s, c) = events (x.stream, x.consumers) in record x { stream = s; consumers = c }

unfoldable pub run : List Act → State → State
unfolding act
run [] x = x
run (a ∷ as_) x = run as_ (act a x)

abbrev pub fresh : State
fresh = record { stream = init; consumers = record { received = []; ended = 0 }; accepted = [] }

-- The items of the queue: events, and behind them the mark of a closed stream, until a consumer has
-- taken it.
abbrev IsQueue : Bool → ℕ → List AgentEvent → List Item → Type 0
IsQueue false zero es q = q ≡ map event es
IsQueue false (suc _) es q = ⊥
IsQueue true zero es q = q ≡ map event es ++ closed_mark ∷ []
IsQueue true (suc zero) es q = (q ≡ []) × (es ≡ [])
IsQueue true (suc (suc _)) es q = ⊥

record IsOrdered (x : State) : Type 0 where
  rest : List AgentEvent
  queue : IsQueue x.stream.closed x.consumers.ended rest x.stream.queue
  order : x.accepted ≡ x.consumers.received ++ rest

map-event :
    (es : List AgentEvent) (e : AgentEvent)
    → map event (es ++ e ∷ []) ≡ map event es ++ event e ∷ []
map-event [] e = refl
map-event (x ∷ es) e = ap (λ r. event x ∷ r) (map-event es e)

publish_closed : (e : AgentEvent) (s : EventStream) → s.closed ≡ true → (publish e s).1 ≡ s
unfolding publish
publish_closed e s h = rw h refl

publish_open :
    (e : AgentEvent) (s : EventStream) → s.closed ≡ false → (publish e s).1 ≡ put (event e) s
unfolding publish
publish_open e s h = rw h refl

queue_open :
    (ended : ℕ) (es : List AgentEvent) (e : AgentEvent) (q : List Item)
    → IsQueue false ended es q
    → IsQueue false ended (es ++ e ∷ []) (q ++ event e ∷ [])
queue_open zero es e q h = ap (λ r. r ++ event e ∷ []) h ∙ sym (map-event es e)
queue_open (suc _) es e q h = h

queue_marked :
    (ended : ℕ) (es : List AgentEvent) (q : List Item)
    → IsQueue false ended es q
    → IsQueue true ended es (q ++ closed_mark ∷ [])
queue_marked zero es q h = ap (λ r. r ++ closed_mark ∷ []) h
queue_marked (suc _) es q h = elim h [ ]

same_queue :
    (x : State) (o : IsOrdered x)
    → x.stream.closed ≡ true
    → IsOrdered (record x { stream = record { queue = x.stream.queue; closed = true } })
same_queue x o shut = record {
  rest = o.rest;
  queue = subst (λ b. IsQueue b x.consumers.ended o.rest x.stream.queue) shut o.queue;
  order = o.order;
}

publish-IsOrdered : (e : AgentEvent) (x : State) → IsOrdered x → IsOrdered (act (publishes e) x)
unfolding act
publish-IsOrdered e x o = elim (Bool-cases x.stream.closed) [
  | inl shut ↦ rw (publish_closed e x.stream shut, shut) (same_queue x o shut)
  | inr open_ ↦
      rw (publish_open e x.stream open_, open_)
        (record {
          rest = o.rest ++ e ∷ [];
          queue =
              queue_open x.consumers.ended o.rest e x.stream.queue
                (subst (λ b. IsQueue b x.consumers.ended o.rest x.stream.queue) open_ o.queue);
          order = ap (λ l. l ++ e ∷ []) o.order ∙ append_assoc x.consumers.received o.rest (e ∷ []);
        })
]

close-IsOrdered : (x : State) → IsOrdered x → IsOrdered (act closes x)
unfolding act close
close-IsOrdered x o = elim (Bool-cases x.stream.closed) [
  | inl shut ↦ rw shut (same_queue x o shut)
  | inr open_ ↦ rw open_ (record {
    rest = o.rest;
    queue =
        queue_marked x.consumers.ended o.rest x.stream.queue
          (subst (λ b. IsQueue b x.consumers.ended o.rest x.stream.queue) open_ o.queue);
    order = o.order;
  })
]

took_event :
    (closed : Bool) (ended : ℕ) (es : List AgentEvent) (e : AgentEvent) (q : List Item)
    → IsQueue closed ended es (event e ∷ q)
    → (rest : List AgentEvent) × (es ≡ e ∷ rest) × IsQueue closed ended rest q
took_event false zero [] e q h = cc
took_event false zero (x ∷ es) e q h = (es, cc, cc)
took_event false (suc _) es e q h = elim h [ ]
took_event true zero [] e q h = cc
took_event true zero (x ∷ es) e q h = (es, cc, cc)
took_event true (suc zero) es e q (h, k) = cc
took_event true (suc (suc _)) es e q h = elim h [ ]

took_mark :
    (closed : Bool) (ended : ℕ) (es : List AgentEvent) (q : List Item)
    → IsQueue closed ended es (closed_mark ∷ q)
    → (es ≡ []) × IsQueue closed (ended + 1) [] q
took_mark false zero [] q h = cc
took_mark false zero (x ∷ es) q h = cc
took_mark false (suc _) es q h = elim h [ ]
took_mark true zero [] q h = (refl, (cc, refl))
took_mark true zero (x ∷ es) q h = cc
took_mark true (suc zero) es q (h, k) = cc
took_mark true (suc (suc _)) es q h = elim h [ ]

abbrev taken : List Item → State → State
taken q x = record x { stream = record x.stream { queue = q } }

reads_nothing : (x : State) → x.stream.queue ≡ [] → act reads x ≡ taken [] x
unfolding act events get
reads_nothing x h = rw h refl

reads_item :
    (x : State) (item : Item) (q : List Item)
    → x.stream.queue ≡ item ∷ q
    → act reads x ≡ record (taken q x) { consumers = consume item x.consumers }
unfolding act events get
reads_item x item q h = rw h refl

reads-IsOrdered : (x : State) → IsOrdered x → IsOrdered (act reads x)
reads-IsOrdered x o = by_queue x.stream.queue refl
  where
    at : (q : List Item) → x.stream.queue ≡ q → IsQueue x.stream.closed x.consumers.ended o.rest q
    at q h = subst (IsQueue x.stream.closed x.consumers.ended o.rest) h o.queue

    by_queue : (q : List Item) → x.stream.queue ≡ q → IsOrdered (act reads x)
    by_queue [] h =
        subst IsOrdered (sym (reads_nothing x h))
          (record { rest = o.rest; queue = at [] h; order = o.order })
    by_queue (event e ∷ q) h =
        let (rest, same, queue) =
          took_event x.stream.closed x.consumers.ended o.rest e q (at (event e ∷ q) h) in
        subst IsOrdered (sym (reads_item x (event e) q h)) (record {
          rest = rest;
          queue = queue;
          order =
              o.order
              ∙ ap (λ l. x.consumers.received ++ l) same
              ∙ sym (append_assoc x.consumers.received (e ∷ []) rest);
        })
    by_queue (closed_mark ∷ q) h =
        let (same, queue) =
          took_mark x.stream.closed x.consumers.ended o.rest q (at (closed_mark ∷ q) h) in
        subst IsOrdered (sym (reads_item x closed_mark q h)) (record {
          rest = [];
          queue = queue;
          order = o.order ∙ ap (λ l. x.consumers.received ++ l) same;
        })

act-IsOrdered : (a : Act) (x : State) → IsOrdered x → IsOrdered (act a x)
act-IsOrdered (publishes e) x o = publish-IsOrdered e x o
act-IsOrdered closes x o = close-IsOrdered x o
act-IsOrdered reads x o = reads-IsOrdered x o

run-IsOrdered : (acts : List Act) (x : State) → IsOrdered x → IsOrdered (run acts x)
unfolding run
run-IsOrdered [] x o = o
run-IsOrdered (a ∷ acts) x o = run-IsOrdered acts (act a x) (act-IsOrdered a x o)

fresh-IsOrdered : IsOrdered fresh
fresh-IsOrdered = record { rest = []; queue = refl; order = refl }

few_ended :
    (closed : Bool) (ended : ℕ) (es : List AgentEvent) (q : List Item)
    → IsQueue closed ended es q
    → (ended ≡ 0) ⊎ ((ended ≡ 1) × (closed ≡ true) × (es ≡ []))
few_ended closed zero es q h = inl refl
few_ended false (suc _) es q h = elim h [ ]
few_ended true (suc zero) es q (h, k) = inr (refl, refl, k)
few_ended true (suc (suc _)) es q h = elim h [ ]

-- In any order of publishing, closing and reading, what the consumers of a new stream received is a
-- beginning of what was accepted, in the order of publication. No consumer has ended, or, however
-- many read, exactly one: then the stream is closed and every accepted event was received.
pub events_order :
    (acts : List Act)
    → let x = run acts fresh in
      ((rest : List AgentEvent) × (x.accepted ≡ x.consumers.received ++ rest))
      × ((x.consumers.ended ≡ 0)
          ⊎ ((x.consumers.ended ≡ 1)
              × (x.stream.closed ≡ true)
              × (x.consumers.received ≡ x.accepted)))
events_order acts =
    let x = run acts fresh in
    let o = run-IsOrdered acts fresh fresh-IsOrdered in
    (
      (o.rest, o.order),
      elim (few_ended x.stream.closed x.consumers.ended o.rest x.stream.queue o.queue) [
        | inl none_yet ↦ inl none_yet
        | inr (one, shut, empty) ↦ inr (
          one,
          shut,
          sym (
              o.order
              ∙ ap (λ l. x.consumers.received ++ l) empty
              ∙ append-nil x.consumers.received),
        )
      ],
    )
