-- ===== src/Tools/Executor/Replay.antt =====
-- When a call reaches the sandbox, and what a repeated call finds.
use agenyx.Base.{
  ◌≡◌, refl, ap, ◌∙◌, true, false, Option, none, some, is_some, String, string_eq, List, Value,
  elem, ok, arith, ==_refl, lookup-insert, elem-discard, add,
}
use agenyx.Idempotency.{get, claim, put, release}
use agenyx.Tools.{ToolResult, has, authorize}
use agenyx.Tools.Executor.{
  ToolExecutor, Request, Sandboxed, outputs, raises, Store, done, success_of, failure, run_sandbox,
  run_claimed, authorized, lacks_context, execute,
}

-- The tool is registered, and the policy, if there is one, has a context and allows the tool.
pub record IsAdmitted (x : ToolExecutor) (q : Request) : Type 0 where
  pub known : has q.name x.registry ≡ true
  pub informed : is_some x.authorization ≡ true → q.has_context ≡ true
  pub allowed : (l : List String) → x.authorization ≡ some l → elem q.name l ≡ true

gates :
    (x : ToolExecutor) (q : Request) (sandbox : Sandboxed) (s : Store)
    → (execute x q sandbox s).sandboxed ≡ true
    → (has q.name x.registry ≡ true)
      × (lacks_context x.authorization q ≡ false)
      × (authorized x.authorization q ≡ ok tt)
unfolding execute
gates x q sandbox s h = ground arith

-- The sandbox is asked only for an admitted call.
pub sandboxed-IsAdmitted :
    (x : ToolExecutor) (q : Request) (sandbox : Sandboxed) (s : Store)
    → (execute x q sandbox s).sandboxed ≡ true
    → IsAdmitted x q
unfolding authorize
sandboxed-IsAdmitted x q sandbox s h =
    let (known, informed, allowed) = gates x q sandbox s h in
    record { known = known; informed = λ e. ground arith; allowed = λ l e. ground arith }

execute_admitted :
    (x : ToolExecutor) (q : Request) (sandbox : Sandboxed) (s : Store)
    → IsAdmitted x q
    → execute x q sandbox s ≡ run_claimed q sandbox q.idempotency_key s
unfolding execute authorize
execute_admitted x q sandbox s a = by_policy x.authorization refl
  where
    by_policy :
        (o : Option (List String))
        → x.authorization ≡ o
        → execute x q sandbox s ≡ run_claimed q sandbox q.idempotency_key s
    by_policy none e = ground (arith, a.known)
    by_policy (some l) e = ground (arith, a.known, a.informed, a.allowed l e)

put-recorded : (key : String) (r : ToolResult) (s : Store) → get key (put key r s) ≡ some r
unfolding get put
put-recorded key r s = ground (arith, lookup-insert key key r s.records, ==_refl key)

run_claimed-outputs :
    (q : Request) (v : Value) (key : String) (s : Store)
    → q.idempotency_key ≡ some key
    → (run_claimed q (outputs v) (some key) s).sandboxed ≡ true
    → get key (run_claimed q (outputs v) (some key) s).store ≡ some (success_of q v)
unfolding run_claimed run_sandbox
run_claimed-outputs q v key s k h =
    ground (arith, put-recorded key (success_of q v) (claim key s).1)

-- Once a call with a key has run in the sandbox with success, every admitted call with that key,
-- whatever its tool and whatever the sandbox would do, gives that result: the sandbox is not asked
-- again, and the store stays as it is.
pub execute_replays :
    (x : ToolExecutor) (q q' : Request) (v : Value) (key : String) (sandbox : Sandboxed) (s : Store)
    → q.idempotency_key ≡ some key
    → q'.idempotency_key ≡ some key
    → IsAdmitted x q'
    → (execute x q (outputs v) s).sandboxed ≡ true
    → let s' = (execute x q (outputs v) s).store in
      execute x q' sandbox s'
      ≡ record { reply = done (success_of q v); store = s'; sandboxed = false }
unfolding run_claimed
execute_replays x q q' v key sandbox s k k' a h =
    let first : execute x q (outputs v) s ≡ run_claimed q (outputs v) (some key) s =
      execute_admitted x q (outputs v) s (sandboxed-IsAdmitted x q (outputs v) s h)
      ∙ ap (λ o. run_claimed q (outputs v) o s) k in
    let stored : get key (execute x q (outputs v) s).store ≡ some (success_of q v) =
      rw first (run_claimed-outputs q v key s k (rw first at h)) in
    execute_admitted x q' sandbox (execute x q (outputs v) s).store a
    ∙ ap (λ o. run_claimed q' sandbox o (execute x q (outputs v) s).store) k'
    ∙ ground (arith, stored)

claim_released :
    (key : String) (s : Store)
    → (claim key s).0 ≡ true
    → (get key (release key (claim key s).1) ≡ none)
      × ((claim key (release key (claim key s).1)).0 ≡ true)
unfolding claim get release
claim_released key s h = ground (arith, elem-discard key key (add key s.claimed), ==_refl key)

run_sandbox-asks :
    (q : Request) (sandbox : Sandboxed) (s : Store) → (run_sandbox q sandbox s).sandboxed ≡ true
unfolding run_sandbox
run_sandbox-asks q (outputs v) s = refl
run_sandbox-asks q (raises text class) s = refl

run_claimed-raises :
    (q : Request) (text class key : String) (s : Store)
    → q.idempotency_key ≡ some key
    → (run_claimed q (raises text class) (some key) s).sandboxed ≡ true
    → ((run_claimed q (raises text class) (some key) s).reply ≡ done (failure q text class))
      × ((run_claimed q (raises text class) (some key) s).store ≡ release key (claim key s).1)
      × ((claim key s).0 ≡ true)
unfolding run_claimed run_sandbox
run_claimed-raises q text class key s k h = ground arith

run_claimed-free :
    (q : Request) (sandbox : Sandboxed) (key : String) (s : Store)
    → get key s ≡ none
    → (claim key s).0 ≡ true
    → (run_claimed q sandbox (some key) s).sandboxed ≡ true
unfolding run_claimed
run_claimed-free q sandbox key s n c = ground (arith, run_sandbox-asks q sandbox (claim key s).1)

-- When a call with a key has run in the sandbox and the sandbox raised, the call returns the failed
-- result of that exception, and the next admitted call with the key, whatever its tool, runs in the
-- sandbox again.
pub execute_retries :
    (x : ToolExecutor) (q q' : Request) (text class key : String) (sandbox : Sandboxed) (s : Store)
    → q.idempotency_key ≡ some key
    → q'.idempotency_key ≡ some key
    → IsAdmitted x q'
    → (execute x q (raises text class) s).sandboxed ≡ true
    → ((execute x q (raises text class) s).reply ≡ done (failure q text class))
      × ((execute x q' sandbox (execute x q (raises text class) s).store).sandboxed ≡ true)
execute_retries x q q' text class key sandbox s k k' a h =
    let first : execute x q (raises text class) s ≡ run_claimed q (raises text class) (some key) s =
      execute_admitted x q (raises text class) s (sandboxed-IsAdmitted x q (raises text class) s h)
      ∙ ap (λ o. run_claimed q (raises text class) o s) k in
    let (failed, kept, got) = run_claimed-raises q text class key s k (rw first at h) in
    let (bare, free) = claim_released key s got in
    (
      rw first failed,
      rw (execute_admitted x q' sandbox (execute x q (raises text class) s).store a) (
          ap (λ o. (run_claimed q' sandbox o (execute x q (raises text class) s).store).sandboxed)
            k'
          ∙ rw (first, kept)
              (run_claimed-free q' sandbox key (release key (claim key s).1) bare free)),
    )
