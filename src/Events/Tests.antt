-- ===== src/Events/Tests.antt =====
-- A stream with two readers.
use agenyx.Base.{◌⊎◌, ◌≡◌, true, List, [], ◌∷◌, ◌++◌}
use agenyx.Events.{AgentEvent}
use agenyx.Events.Order.{Act, publishes, closes, reads, fresh, run, events_order}

abbrev started : AgentEvent
started = record { type = "execution.started"; execution_id = "e1"; «data» = [] }

abbrev acts : List Act
acts = publishes started ∷ reads ∷ closes ∷ publishes started ∷ reads ∷ reads ∷ []

events_order_example :
    let x = run acts fresh in
    ((rest : List AgentEvent) × (x.accepted ≡ x.consumers.received ++ rest))
    × ((x.consumers.ended ≡ 0)
        ⊎ ((x.consumers.ended ≡ 1)
            × (x.stream.closed ≡ true)
            × (x.consumers.received ≡ x.accepted)))
events_order_example = events_order acts
