-- ===== src/Failover/Tests.antt =====
-- Requests over two providers, and the theorems at them.
use agenyx.Base.{
  ℕ, zero, suc, ◌≡◌, refl, true, false, none, some, String, string_eq, List, [], ◌∷◌, ok, pos,
  arith, Bool, Dict, Value, lookup, insert, elem, add, discard, is_blank, ==_iff, if◌then◌else◌,
  ◌==◌, Option,
}
use agenyx.Providers.{Provider, ProviderRegistry, get, health}
use agenyx.Providers.Laws.{IsNamed, lookup-health}
use agenyx.Reliability.{ReliabilityManager, allow_request, record_success, record_failure}
use agenyx.Reliability
use agenyx.Reliability.Invariant.{IsValid}
use agenyx.Reliability.Breaker.{view, tripped}
use agenyx.Reliability.Traces.{enrol, failed, allow, run, call, init-run-IsValid}
use agenyx.Failover.{
  FailoverManager, FailoverResult, init, validate_routes, World, Answer, responds, fails, cancels,
  cancelled, returned, raised, chat_completion, attempt_from, try_provider, fresh, on_answer,
  on_allowed,
}
use agenyx.Failover.Order.{IsFair, chat_completion-IsFair}
use agenyx.Failover.Cancel.{cancelled_probe_lasts}

abbrev registry : ProviderRegistry
registry = ("a", record { name = "a" }) ∷ ("b", record { name = "b" }) ∷ []

abbrev routes : Dict String (List String)
routes = ("qwen", "a" ∷ "b" ∷ []) ∷ []

abbrev failover : FailoverManager
failover = record { registry = registry; model_routes = routes; max_attempts = 2 }

failover_made : init registry routes (pos 2) ≡ ok failover
unfolding init validate_routes is_blank lookup
failover_made = refl

registry-IsNamed : IsNamed registry
unfolding get lookup
registry-IsNamed name p h = ground (arith, ==_iff "a" name, ==_iff "b" name)

abbrev manager : ReliabilityManager
manager = record {
  degraded_failure_threshold = pos 1;
  unhealthy_failure_threshold = pos 1;
  recovery_timeout = 10;
  states = [];
  half_open_probe = [];
  metrics = [];
}

manager_made : Reliability.init (pos 1) (pos 1) (pos 10) ≡ ok manager
unfolding Reliability.init
manager_made = refl

abbrev ready : ReliabilityManager
ready = run (enrol "a" ∷ enrol "b" ∷ []) manager

ready-IsValid : IsValid ready
ready-IsValid =
    init-run-IsValid (pos 1) (pos 1) (pos 10) (enrol "a" ∷ enrol "b" ∷ []) manager manager_made

abbrev answers : ℕ → Answer
answers zero = fails "connection refused"
answers (suc _) = responds (Value.str "hello")

abbrev first_down : World
first_down = record {
  allowed_at = λ i. 1;
  recorded_at = λ i. 2;
  answer = answers;
  others = λ i. [];
}

abbrev payload : Dict String Value
payload = ("model", Value.str "qwen") ∷ []

abbrev reply : FailoverResult
reply = record {
  response = Value.str "hello";
  provider = "b";
  attempts =
      record { provider = "a"; success = false; error = some "connection refused" }
      ∷ record { provider = "b"; success = true; error = none }
      ∷ [];
}

second_answers : (chat_completion failover first_down payload ready).0 ≡ returned reply
unfolding chat_completion attempt_from try_provider on_allowed on_answer run call
    Reliability.register allow_request record_failure record_success get lookup insert elem add
    discard is_blank
second_answers = refl

chat_completion-IsFair_example :
    (model_id : String) × (route : List String) × (lookup "model" payload
      ≡ some (Value.str model_id))
    × (lookup model_id routes ≡ some route)
    × IsFair 2 route reply
chat_completion-IsFair_example =
    chat_completion-IsFair failover first_down payload ready reply registry-IsNamed second_answers

abbrev down : ReliabilityManager
down = run (enrol "a" ∷ enrol "b" ∷ failed "a" 5 ∷ []) manager

down-IsValid : IsValid down
down-IsValid =
    init-run-IsValid (pos 1) (pos 1) (pos 10) (enrol "a" ∷ enrol "b" ∷ failed "a" 5 ∷ []) manager
      manager_made

down_open : view "a" down ≡ some (tripped 5)
unfolding run call view Reliability.register record_failure lookup insert elem discard is_blank
down_open = refl

abbrev hang_up : World
hang_up = record {
  allowed_at = λ i. 20;
  recorded_at = λ i. 21;
  answer = λ i. cancels;
  others = λ i. failed "b" 20 ∷ [];
}

cancelled_probe_lasts_example :
    ((try_provider hang_up 0
        (record { name = "a" })
        (attempt_from failover hang_up 1 [])
        fresh
        down).0
      ≡ raised cancelled)
    × ((allow_request "a" 90000000000 (
          run
            (allow "a" 50 ∷ [])
            (try_provider hang_up 0
              (record { name = "a" })
              (attempt_from failover hang_up 1 [])
              fresh
              down).1)).0
        ≡ ok false)
unfolding run call record_failure lookup Reliability.register is_blank insert
cancelled_probe_lasts_example =
    cancelled_probe_lasts hang_up 0 5 (record { name = "a" }) (attempt_from failover hang_up 1 [])
      fresh down down-IsValid down_open (omega arith) 90000000000 (allow "a" 50 ∷ []) refl
      (refl, tt) (refl, tt)

abbrev ask : Provider → Option Bool
ask p = if p.name == "a" then none else some true

lookup-health_example : lookup "a" (health ask registry) ≡ some false
unfolding lookup
lookup-health_example = lookup-health ask "a" registry
