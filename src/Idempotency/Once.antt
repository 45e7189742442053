-- ===== src/Idempotency/Once.antt =====
-- One execution for each key, over all interleavings.
use agenyx.Base.{
  ℕ, ◌∙◌, ◌≤◌, ◌≡◌, ◌≢◌, subst, refl, sym, Bool, true, false, Option, none, some, String, string_eq,
  List, [], ◌∷◌, lookup, elem, nat_eq, arith, Result, ok, raise, Bool-cases, inl, inr,
}
use agenyx.Idempotency.{empty, get, claim, Waiting, found, absent, await, begin_wait, end_wait}
use agenyx.Idempotency.Race.{
  Stage, fresh, checked, running, lost, waiting, served, wait_failed, System, Event, checks, claims,
  succeeds, fails, begins_wait, wakes, set_stage, woken, check_in, claim_in, succeed_in, fail_in,
  wait_in, wake_in, step, run, start, IsSafe,
}
use agenyx.Idempotency.Safety.{
  set_stage-IsSafe, refused_lem, claim-IsSafe, put-IsSafe, release-IsSafe,
}

module _ {R : Type 0} (key : String) (s : System R) (v : IsSafe key s) where
  plain :
      (i : ℕ) (st : Stage R)
      → st ≢ running
      → ((r : R) → st ≡ served r → lookup key s.store.records ≡ some r)
      → IsSafe key (set_stage i st s)
  plain i st idle fair = set_stage-IsSafe key i st s idle fair v

  recorded :
      (i : ℕ) (r : R) → lookup key s.store.records ≡ some r → IsSafe key (set_stage i (served r) s)
  recorded i r e = plain i (served r) (λ h. cc) (λ q h. cc)

  check-IsSafe :
      (i : ℕ) (st : Stage R) (o : Option R)
      → lookup key s.store.records ≡ o
      → IsSafe key (check_in st i o s)
  check-IsSafe i fresh none e = plain i checked (λ h. cc) (λ r h. cc)
  check-IsSafe i fresh (some r) e = recorded i r e
  check-IsSafe i _ o e = v

  try-IsSafe :
      (i : ℕ) (st : Stage R) (b : Bool)
      → (claim key s.store).0 ≡ b
      → IsSafe key (claim_in st i (b, (claim key s.store).1) s)
  try-IsSafe i checked true e = claim-IsSafe key i s v e
  try-IsSafe i checked false e =
      subst (λ t. IsSafe key (set_stage i lost (record s { store = t })))
        (sym (refused_lem key s.store e)) (plain i lost (λ h. cc) (λ r h. cc))
  try-IsSafe i _ b e = v

  succeed-IsSafe :
      (i : ℕ) (r : R) (st : Stage R) → s.callers i ≡ st → IsSafe key (succeed_in st i key r s)
  succeed-IsSafe i r running e = put-IsSafe key i s v r e
  succeed-IsSafe i r _ e = v

  fail-IsSafe :
      (i : ℕ) (r : R) (st : Stage R) → s.callers i ≡ st → IsSafe key (fail_in st i key r s)
  fail-IsSafe i r running e = release-IsSafe key i s v r e
  fail-IsSafe i r _ e = v

  wait-IsSafe :
      (i : ℕ) (st : Stage R) (o : Waiting R)
      → ((r : R) → o ≡ found r → lookup key s.store.records ≡ some r)
      → IsSafe key (wait_in st i o s)
  wait-IsSafe i lost (found r) h = recorded i r (h r refl)
  wait-IsSafe i lost absent h = plain i wait_failed (λ k. cc) (λ r k. cc)
  wait-IsSafe i lost (await e) h = plain i (waiting e) (λ k. cc) (λ r k. cc)
  wait-IsSafe i _ o h = v

  woken-IsSafe :
      (i : ℕ) (o : Result R)
      → ((r : R) → o ≡ ok r → lookup key s.store.records ≡ some r)
      → IsSafe key (woken i o s)
  woken-IsSafe i (ok r) h = recorded i r (h r refl)
  woken-IsSafe i (raise _) h = plain i wait_failed (λ k. cc) (λ r k. cc)

  wake-IsSafe :
      (i : ℕ) (st : Stage R) (o : Result R)
      → ((r : R) → o ≡ ok r → lookup key s.store.records ≡ some r)
      → IsSafe key (wake_in st i o s)
  wake-IsSafe i (waiting e) o h = elim (Bool-cases (elem e s.store.set_events)) [
    | inl is_set ↦ rw is_set (woken-IsSafe i o h)
    | inr unset ↦ rw unset v
  ]
  wake-IsSafe i _ o h = v

  begin_wait-found :
      (r : R) → begin_wait key s.store ≡ found r → lookup key s.store.records ≡ some r
  unfolding begin_wait
  begin_wait-found r h = ground arith

  end_wait-ok : (r : R) → end_wait key s.store ≡ ok r → lookup key s.store.records ≡ some r
  unfolding end_wait
  end_wait-ok r h = ground arith

  step-IsSafe : (e : Event R) → IsSafe key (step key e s)
  unfolding step get
  step-IsSafe (checks i) = check-IsSafe i (s.callers i) (lookup key s.store.records) refl
  step-IsSafe (claims i) = try-IsSafe i (s.callers i) (claim key s.store).0 refl
  step-IsSafe (succeeds i r) = succeed-IsSafe i r (s.callers i) refl
  step-IsSafe (fails i r) = fail-IsSafe i r (s.callers i) refl
  step-IsSafe (begins_wait i) =
      wait-IsSafe i (s.callers i) (begin_wait key s.store) begin_wait-found
  step-IsSafe (wakes i) = wake-IsSafe i (s.callers i) (end_wait key s.store) end_wait-ok

run-IsSafe :
    {R : Type 0} (key : String) (es : List (Event R)) (s : System R)
    → IsSafe key s
    → IsSafe key (run key es s)
unfolding run
run-IsSafe key [] s v = v
run-IsSafe key (e ∷ es) s v = run-IsSafe key es (step key e s) (step-IsSafe key s v e)

start-IsSafe : {R : Type 0} (key : String) → IsSafe {R = R} key start
unfolding start empty lookup elem
start-IsSafe key = record {
  alone = λ i j h k. cc;
  holds = λ i h. cc;
  open_yet = λ h. refl;
  honest = λ i r h. cc;
  counted = refl;
}

-- However many callers use one key and however they interleave: never do two of them run the tool
-- at once; the sandbox succeeds at most once; when a caller is served it has succeeded exactly once;
-- and all callers that are served, by their own successful run or by the record, have the same
-- result.
pub executes_once :
    {R : Type 0} (key : String) (es : List (Event R))
    → let s = run key es start in
      ((i j : ℕ) → s.callers i ≡ running → s.callers j ≡ running → i ≡ j)
      × (s.executions ≤ 1)
      × ((i : ℕ) (r : R) → s.callers i ≡ served r → s.executions ≡ 1)
      × ((i j : ℕ) (q r : R) → s.callers i ≡ served q → s.callers j ≡ served r → q ≡ r)
executes_once {R} key es =
    let s : System R = run key es start in
    let v : IsSafe key s = run-IsSafe key es start (start-IsSafe key) in
    (
      v.alone,
      at_most key s v,
      λ i r h. v.counted ∙ rw (v.honest i r h),
      λ i j q r hq hr. cc (v.honest i q hq, v.honest j r hr),
    )
  where
    at_most : (key : String) (s : System R) → IsSafe key s → s.executions ≤ 1
    at_most key s v = ground (arith, v.counted)
