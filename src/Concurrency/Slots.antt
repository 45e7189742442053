-- ===== src/Concurrency/Slots.antt =====
-- The limiter keeps the number of holders exactly, and never above the maximum.
use agenyx.Base.{
  ℕ, ◌+◌, ◌-◌, ◌≤◌, ◌<◌, ◌≡◌, true, List, [], ◌∷◌, ℤ, arith, ok, if◌then◌else◌, is_ok, pos_part,
  ◌↔◌,
}
use agenyx.Concurrency.{InferenceConcurrencyLimiter, init, try_acquire, release}

-- Requests come and go in any order.
pub data Event : Type 0 where
  acquire release_slot : Event

-- The number of slots that are held, and the limiter, after the events. A release without a
-- holder raises and is not counted.
unfoldable pub run : List Event → ℕ → InferenceConcurrencyLimiter → ℕ × InferenceConcurrencyLimiter
run [] held l = (held, l)
run (acquire ∷ es) held l =
    let (got, l') = try_acquire l in run es (if got then held + 1 else held) l'
run (release_slot ∷ es) held l =
    let (r, l') = release l in run es (if is_ok r then held - 1 else held) l'

try_acquire_lem :
    (held : ℕ) (l : InferenceConcurrencyLimiter)
    → l.active ≡ held
    → l.active ≤ l.max_concurrency
    → let (got, l') = try_acquire l in
      (l'.active ≡ (if got then held + 1 else held))
      × (l'.active ≤ l'.max_concurrency)
      × (l'.max_concurrency ≡ l.max_concurrency)
unfolding try_acquire
try_acquire_lem held l e h = ground arith

release_lem :
    (held : ℕ) (l : InferenceConcurrencyLimiter)
    → l.active ≡ held
    → l.active ≤ l.max_concurrency
    → let (r, l') = release l in
      (l'.active ≡ (if is_ok r then held - 1 else held))
      × (l'.active ≤ l'.max_concurrency)
      × (l'.max_concurrency ≡ l.max_concurrency)
unfolding release
release_lem held l e h = ground arith

pub run-counts_from :
    (es : List Event) (held : ℕ) (l : InferenceConcurrencyLimiter)
    → l.active ≡ held
    → l.active ≤ l.max_concurrency
    → ((run es held l).1.active ≡ (run es held l).0) × ((run es held l).0 ≤ l.max_concurrency)
unfolding run
run-counts_from [] held l e h = (e, omega arith)
run-counts_from (acquire ∷ es) held l e h =
    let (counts, within, same) = try_acquire_lem held l e h in
    let (exact, capped) =
      run-counts_from es (if (try_acquire l).0 then held + 1 else held) (try_acquire l).1 counts
        within in
    (exact, omega arith)
run-counts_from (release_slot ∷ es) held l e h =
    let (counts, within, same) = release_lem held l e h in
    let (exact, capped) =
      run-counts_from es (if is_ok (release l).0 then held - 1 else held) (release l).1 counts
        within in
    (exact, omega arith)

-- From a new limiter, after any requests and releases, the count of the limiter is the number of
-- holders, these are at most the maximum, and the next request gets a slot exactly while there
-- are fewer.
pub run_counts :
    (n : ℤ) (es : List Event) (l : InferenceConcurrencyLimiter)
    → init n ≡ ok l
    → let (held, l') = run es 0 l in
      (l'.active ≡ held)
      × (held ≤ pos_part n)
      × (((try_acquire l').0 ≡ true) ↔ (held < l'.max_concurrency))
unfolding init try_acquire
run_counts n es l h =
    let (exact, capped) = run-counts_from es 0 l (ground arith) (ground arith) in
    (exact, ground arith, (λ got. ground arith, λ room. ground arith))
