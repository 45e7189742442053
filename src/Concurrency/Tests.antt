-- ===== src/Concurrency/Tests.antt =====
-- A limiter of two slots.
use agenyx.Base.{◌≡◌, refl, List, [], ◌∷◌}
use agenyx.Concurrency.{InferenceConcurrencyLimiter, try_acquire, release}
use agenyx.Concurrency.Slots.{Event, acquire, release_slot, run}

abbrev two : InferenceConcurrencyLimiter
two = record { max_concurrency = 2; active = 0 }

abbrev busy : List Event
busy = release_slot ∷ acquire ∷ acquire ∷ acquire ∷ release_slot ∷ []

busy_holds : (run busy 0 two).0 ≡ 1
unfolding run try_acquire release
busy_holds = refl
