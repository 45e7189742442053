-- ===== src/Idempotency/Race.antt =====
-- Any number of callers of `ToolExecutor.execute` with one key, interleaved at every await: steps 3
-- to 5 of tools/executor.py on a shared store.
use agenyx.Base.{
  ℕ, ◌+◌, ◌≡◌, Bool, true, false, Option, none, some, is_some, String, string_eq, List, [], ◌∷◌,
  lookup, elem, nat_eq, nat_beq, Result, ok, raise, if◌then◌else◌,
}
use agenyx.Idempotency.{
  IdempotencyStore, empty, get, claim, put, release, Waiting, found, absent, await, begin_wait,
  end_wait,
}

-- Where a caller stands. Two of the ways to end return a result: `served` with that of a successful run,
-- its own or the recorded one, and `failed` with the failed result of its own run; `wait_failed` raises.
pub data Stage (R : Type 0) : Type 0 where
  fresh : Stage R
  checked : Stage R
  running : Stage R
  lost : Stage R
  waiting : ℕ → Stage R
  served : R → Stage R
  failed : R → Stage R
  wait_failed : Stage R

-- `executions` counts the runs of the sandbox that succeeded.
pub record System (R : Type 0) : Type 0 where
  pub store : IdempotencyStore R
  pub callers : ℕ → Stage R
  pub executions : ℕ

-- What happens next, and to which caller.
pub data Event (R : Type 0) : Type 0 where
  checks : ℕ → Event R
  claims : ℕ → Event R
  succeeds : ℕ → R → Event R
  fails : ℕ → R → Event R
  begins_wait : ℕ → Event R
  wakes : ℕ → Event R

module _ {R : Type 0} where
  abbrev pub set_stage : ℕ → Stage R → System R → System R
  set_stage i st s = record s { callers = λ j. if nat_beq j i then st else s.callers j }

  -- `existing = await store.get(key)`
  abbrev pub check_in : Stage R → ℕ → Option R → System R → System R
  check_in fresh i none s = set_stage i checked s
  check_in fresh i (some r) s = set_stage i (served r) s
  check_in _ _ _ s = s

  -- `claimed = await store.claim(key)`
  abbrev pub claim_in : Stage R → ℕ → Bool × IdempotencyStore R → System R → System R
  claim_in checked i (true, store) s = set_stage i running (record s { store = store })
  claim_in checked i (false, store) s = set_stage i lost (record s { store = store })
  claim_in _ _ _ s = s

  -- the sandbox returns, and the result is put
  abbrev pub succeed_in : Stage R → ℕ → String → R → System R → System R
  succeed_in running i key r s =
      set_stage i (served r) (record s { store = put key r s.store; executions = s.executions + 1 })
  succeed_in _ _ _ _ s = s

  -- the sandbox raises: the claim is released, and the caller returns a failed result
  abbrev pub fail_in : Stage R → ℕ → String → R → System R → System R
  fail_in running i key r s = set_stage i (failed r) (record s { store = release key s.store })
  fail_in _ _ _ _ s = s

  abbrev pub wait_in : Stage R → ℕ → Waiting R → System R → System R
  wait_in lost i (found r) s = set_stage i (served r) s
  wait_in lost i absent s = set_stage i wait_failed s
  wait_in lost i (await e) s = set_stage i (waiting e) s
  wait_in _ _ _ s = s

  abbrev pub woken : ℕ → Result R → System R → System R
  woken i (ok r) s = set_stage i (served r) s
  woken i (raise _) s = set_stage i wait_failed s

  -- a waiter goes on only when its event is set
  abbrev pub wake_in : Stage R → ℕ → Result R → System R → System R
  wake_in (waiting e) i o s = if elem e s.store.set_events then woken i o s else s
  wake_in _ _ _ s = s

  unfoldable pub step : String → Event R → System R → System R
  step key (checks i) s = check_in (s.callers i) i (get key s.store) s
  step key (claims i) s = claim_in (s.callers i) i (claim key s.store) s
  step key (succeeds i r) s = succeed_in (s.callers i) i key r s
  step key (fails i r) s = fail_in (s.callers i) i key r s
  step key (begins_wait i) s = wait_in (s.callers i) i (begin_wait key s.store) s
  step key (wakes i) s = wake_in (s.callers i) i (end_wait key s.store) s

  unfoldable pub run : String → List (Event R) → System R → System R
  run key [] s = s
  run key (e ∷ es) s = run key es (step key e s)

  unfoldable pub start : System R
  start = record { store = empty; callers = λ i. fresh; executions = 0 }

  -- At most one caller runs, under the claim and before there is a record; whoever is served has
  -- the result of the record; and the record counts the successful runs.
  pub record IsSafe (key : String) (s : System R) : Type 0 where
    pub alone : (i j : ℕ) → s.callers i ≡ running → s.callers j ≡ running → i ≡ j
    pub holds : (i : ℕ) → s.callers i ≡ running → elem key s.store.claimed ≡ true
    pub open_yet : elem key s.store.claimed ≡ true → lookup key s.store.records ≡ none
    pub honest : (i : ℕ) (r : R) → s.callers i ≡ served r → lookup key s.store.records ≡ some r
    pub counted : s.executions ≡ (if is_some (lookup key s.store.records) then 1 else 0)
