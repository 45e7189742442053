-- ===== src/Idempotency/Tests.antt =====
-- Three callers of one key: the first fails, the second succeeds, the third waits for it.
use agenyx.Base.{ℕ, ◌≡◌, ◌≤◌, refl, List, [], ◌∷◌, lookup, insert, elem, add, discard}
use agenyx.Idempotency.{empty, get, claim, put, release, begin_wait, end_wait}
use agenyx.Idempotency.Race.{
  running, served, failed, Event, checks, claims, succeeds, fails, begins_wait, wakes, step, run,
  start,
}
use agenyx.Idempotency.Once.{executes_once}

abbrev race : List (Event ℕ)
race =
    checks 1
    ∷ checks 2
    ∷ claims 1
    ∷ fails 1 7
    ∷ claims 2
    ∷ checks 3
    ∷ claims 3
    ∷ begins_wait 3
    ∷ wakes 3
    ∷ succeeds 2 42
    ∷ wakes 3
    ∷ []

waiter_returns : (run "k" race start).callers 3 ≡ served 42
unfolding run step start empty get claim put release begin_wait end_wait lookup insert elem add
    discard
waiter_returns = refl

loser_returns : (run "k" race start).callers 1 ≡ failed 7
unfolding run step start empty get claim put release begin_wait end_wait lookup insert elem add
    discard
loser_returns = refl

executes_once_example :
    ((i j : ℕ)
      → (run "k" race start).callers i ≡ running
      → (run "k" race start).callers j ≡ running
      → i ≡ j)
    × ((run "k" race start).executions ≤ 1)
    × ((i : ℕ) (r : ℕ)
        → (run "k" race start).callers i ≡ served r
        → (run "k" race start).executions ≡ 1)
    × ((i j : ℕ) (q r : ℕ)
        → (run "k" race start).callers i ≡ served q
        → (run "k" race start).callers j ≡ served r
        → q ≡ r)
executes_once_example = executes_once "k" race
