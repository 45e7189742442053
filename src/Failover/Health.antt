-- ===== src/Failover/Health.antt =====
-- What a request does to the reliability manager, with the traffic of other requests in between.
use agenyx.Base.{
  ℕ, suc, Bool, true, false, Option, none, some, String, string_eq, List, [], ◌∷◌, Value, Dict,
  lookup, leb, Result, ok, raise, Bool-cases, inl, inr,
}
use agenyx.Providers.{Provider, get}
use agenyx.Reliability.{ReliabilityManager, allow_request, record_success, record_failure}
use agenyx.Reliability.Invariant.{IsValid}
use agenyx.Reliability.Record.{record_success-IsValid, record_failure-IsValid}
use agenyx.Reliability.Allow.{allow_request-IsValid}
use agenyx.Reliability.Traces.{run-IsValid}
use agenyx.Failover.{
  FailoverManager, Answer, responds, fails, cancels, World, Failure, Reply, raised, Progress,
  recording, on_answer, on_allowed, try_provider, attempt_from, fresh, chat_completion, Next,
  model_of,
}

-- A continuation that keeps the manager valid.
abbrev KeepsValid : Next → Type 0
KeepsValid next = (p : Progress) (m : ReliabilityManager) → IsValid m → IsValid (next p m).1

recording-IsValid :
    (rm : Result (Unit {0}) × ReliabilityManager)
    (k : ReliabilityManager → Reply × ReliabilityManager)
    → IsValid rm.1
    → ((m : ReliabilityManager) → IsValid m → IsValid (k m).1)
    → IsValid (recording rm k).1
recording-IsValid (ok _, m) k v h = h m v
recording-IsValid (raise _, m) k v h = v

on_answer-IsValid :
    (a : Answer) (name : String) (now : ℕ) (next : Next) (p : Progress) (m : ReliabilityManager)
    → KeepsValid next
    → IsValid m
    → IsValid (on_answer a name now next p m).1
unfolding on_answer
on_answer-IsValid (responds v) name now next p m k h =
    recording-IsValid (record_success name now m) _ (record_success-IsValid name now m h)
      (λ m' h'. h')
on_answer-IsValid (fails x) name now next p m k h =
    recording-IsValid (record_failure name now m) _ (record_failure-IsValid name now m h)
      (λ m' h'. k _ m' h')
on_answer-IsValid cancels name now next p m k h = h

on_allowed-IsValid :
    (a : Result Bool) (w : World) (i : ℕ) (name : String) (next : Next) (p : Progress)
    (m : ReliabilityManager)
    → KeepsValid next
    → IsValid m
    → IsValid (on_allowed a w i name next p m).1
unfolding on_allowed
on_allowed-IsValid (raise _) w i name next p m k h = h
on_allowed-IsValid (ok false) w i name next p m k h = k _ m h
on_allowed-IsValid (ok true) w i name next p m k h =
    on_answer-IsValid (w.answer i) name (w.recorded_at i) next _ _ k (run-IsValid (w.others i) m h)

attempt_from-IsValid :
    (f : FailoverManager) (w : World) (i : ℕ) (route : List String)
    → KeepsValid (attempt_from f w i route)
unfolding attempt_from try_provider
attempt_from-IsValid f w i [] p m h = h
attempt_from-IsValid f w i (name ∷ route) p m h =
    elim (Bool-cases (leb f.max_attempts p.attempted_count)) [
      | inl full ↦ rw full h
      | inr room ↦
          rw room (by_registry (get name f.registry) (attempt_from-IsValid f w (suc i) route))
    ]
  where
    by_registry :
        (g : Result Provider)
        → KeepsValid (attempt_from f w (suc i) route)
        → IsValid
            (elim g as (λ _. Reply × ReliabilityManager) [
              | raise _ ↦ (raised Failure.unknown_provider, m)
              | ok provider ↦ try_provider w i provider (attempt_from f w (suc i) route) p m
            ]).1
    by_registry (raise _) k = h
    by_registry (ok provider) k =
        on_allowed-IsValid (allow_request provider.name (w.allowed_at i) m).0 w i provider.name
          (attempt_from f w (suc i) route) p _ k
          (allow_request-IsValid provider.name (w.allowed_at i) m h)

-- A request keeps the reliability manager valid, however it ends and whatever other requests do.
pub chat_completion-IsValid :
    (f : FailoverManager) (w : World) (payload : Dict String Value) (m : ReliabilityManager)
    → IsValid m
    → IsValid (chat_completion f w payload m).1
unfolding chat_completion
chat_completion-IsValid f w payload m h = by_model (model_of (lookup "model" payload))
  where
    by_route :
        (o : Option (List String))
        → IsValid
            (elim o as (λ _. Reply × ReliabilityManager) [
              | none ↦ (raised Failure.no_route, m)
              | some route ↦ attempt_from f w 0 route fresh m
            ]).1
    by_route none = h
    by_route (some route) = attempt_from-IsValid f w 0 route fresh m h

    by_model :
        (o : Option String)
        → IsValid
            (elim o as (λ _. Reply × ReliabilityManager) [
              | none ↦ (raised Failure.bad_payload, m)
              | some model_id ↦ elim (lookup model_id f.model_routes) [
                | none ↦ (raised Failure.no_route, m)
                | some route ↦ attempt_from f w 0 route fresh m
              ]
            ]).1
    by_model none = h
    by_model (some model_id) = by_route (lookup model_id f.model_routes)
