-- ===== src/Service/Endings.antt =====
-- How a request of `chat_completions` can end: see main.py.
use agenyx.Base.{
  ℕ, suc, ◌≡◌, refl, subst, Bool, true, false, Option, none, some, String, List, [], ◌∷◌, Dict,
  lookup, insert, lookup-insert, string_eq, Value, Result, ok, raise, Bool-cases, inl, inr, leb,
  is_empty, is_some, contains,
}
use agenyx.Failover.{
  FailoverManager, Answer, Failure, Reply, returned, raised, chat_completion, attempt_from,
  try_provider, on_allowed, on_answer, recording, Next, Progress, exhausted, model_of, fresh,
}
use agenyx.Failover
use agenyx.Providers.{Provider, get}
use agenyx.Reliability.{ReliabilityManager, allow_request, record_success, record_failure}
use agenyx.Service.Chat.{
  Service, World, Ending, responds, refuses, escapes, over_released, unrendered, released, respond,
  on_failure, on_reply,
}

-- The loop over a route does not raise what the checks before it raise.
abbrev pub IsFromRoute : Reply → Type 0
IsFromRoute (raised Failure.bad_payload) = ⊥
IsFromRoute (raised Failure.no_route) = ⊥
IsFromRoute _ = Unit

abbrev StaysOnRoute : Next → Type 0
StaysOnRoute next = (p : Progress) (m : ReliabilityManager) → IsFromRoute (next p m).0

recording-IsFromRoute :
    (rm : Result (Unit {0}) × ReliabilityManager)
    (k : ReliabilityManager → Reply × ReliabilityManager)
    → ((m : ReliabilityManager) → IsFromRoute (k m).0)
    → IsFromRoute (recording rm k).0
recording-IsFromRoute (ok _, m) k h = h m
recording-IsFromRoute (raise _, m) k h = tt

on_answer-StaysOnRoute :
    (a : Answer) (name : String) (now : ℕ) (next : Next)
    → StaysOnRoute next
    → StaysOnRoute (on_answer a name now next)
unfolding on_answer
on_answer-StaysOnRoute (Answer.responds v) name now next k p m =
    recording-IsFromRoute (record_success name now m) _ λ m'. tt
on_answer-StaysOnRoute (Answer.fails x) name now next k p m =
    recording-IsFromRoute (record_failure name now m) _ λ m'. k _ m'
on_answer-StaysOnRoute Answer.cancels name now next k p m = tt

on_allowed-StaysOnRoute :
    (a : Result Bool) (w : Failover.World) (i : ℕ) (name : String) (next : Next)
    → StaysOnRoute next
    → StaysOnRoute (on_allowed a w i name next)
unfolding on_allowed
on_allowed-StaysOnRoute (raise _) w i name next k p m = tt
on_allowed-StaysOnRoute (ok false) w i name next k p m = k _ m
on_allowed-StaysOnRoute (ok true) w i name next k p m =
    on_answer-StaysOnRoute (w.answer i) name (w.recorded_at i) next k _ _

exhausted-IsFromRoute : (o : Option String) → IsFromRoute (raised (exhausted o))
exhausted-IsFromRoute none = tt
exhausted-IsFromRoute (some x) = tt

tried-IsFromRoute :
    (o : Result Provider) (w : Failover.World) (i : ℕ) (next : Next)
    → StaysOnRoute next
    → (p : Progress) (m : ReliabilityManager)
    → IsFromRoute
        (elim o as (λ _. Reply × ReliabilityManager) [
          | raise _ ↦ (raised Failure.unknown_provider, m)
          | ok provider ↦ try_provider w i provider next p m
        ]).0
unfolding try_provider
tried-IsFromRoute (raise _) w i next k p m = tt
tried-IsFromRoute (ok provider) w i next k p m =
    on_allowed-StaysOnRoute (allow_request provider.name (w.allowed_at i) m).0 w i provider.name
      next k p _

attempt_from-StaysOnRoute :
    (f : FailoverManager) (w : Failover.World) (i : ℕ) (route : List String)
    → StaysOnRoute (attempt_from f w i route)
unfolding attempt_from
attempt_from-StaysOnRoute f w i [] p m = exhausted-IsFromRoute p.last_error
attempt_from-StaysOnRoute f w i (name ∷ route) p m =
    elim (Bool-cases (leb f.max_attempts p.attempted_count)) [
      | inl full ↦ rw full (exhausted-IsFromRoute p.last_error)
      | inr room ↦ rw room (
          tried-IsFromRoute (get name f.registry) w i (attempt_from f w (suc i) route)
            (attempt_from-StaysOnRoute f w (suc i) route) p m)
    ]

known-IsFromRoute :
    (f : FailoverManager) (w : Failover.World) (o : Option (List String)) (m : ReliabilityManager)
    → is_some o ≡ true
    → IsFromRoute
        (elim o as (λ _. Reply × ReliabilityManager) [
          | none ↦ (raised Failure.no_route, m)
          | some route ↦ attempt_from f w 0 route fresh m
        ]).0
known-IsFromRoute f w none m h = cc
known-IsFromRoute f w (some route) m h = attempt_from-StaysOnRoute f w 0 route fresh m

model-IsFromRoute :
    (f : FailoverManager) (w : Failover.World) (model : String) (m : ReliabilityManager)
    (o : Option String)
    → contains model f.model_routes ≡ true
    → o ≡ some model
    → IsFromRoute
        (elim o as (λ _. Reply × ReliabilityManager) [
          | none ↦ (raised Failure.bad_payload, m)
          | some model_id ↦ elim (lookup model_id f.model_routes) [
            | none ↦ (raised Failure.no_route, m)
            | some route ↦ attempt_from f w 0 route fresh m
          ]
        ]).0
model-IsFromRoute f w model m none k h = cc
model-IsFromRoute f w model m (some id) k h =
    let same : model ≡ id = cc in
    known-IsFromRoute f w (lookup id f.model_routes) m
      (subst (λ x. contains x f.model_routes ≡ true) same k)

model_named :
    (payload : Dict String Value) (model : String)
    → is_empty model ≡ false
    → model_of (lookup "model" (insert "model" (Value.str model) payload)) ≡ some model
model_named payload model named =
    rw (lookup-insert "model" "model" (Value.str model) payload) (rw named refl)

-- a payload with the id of a model that has a route
pub chat_completion-IsFromRoute :
    (f : FailoverManager) (w : Failover.World) (payload : Dict String Value) (model : String)
    (m : ReliabilityManager)
    → is_empty model ≡ false
    → contains model f.model_routes ≡ true
    → IsFromRoute (chat_completion f w (insert "model" (Value.str model) payload) m).0
unfolding chat_completion
chat_completion-IsFromRoute f w payload model m named known =
    model-IsFromRoute f w model m _ known (model_named payload model named)

-- An exception that passes on is the cancellation of the request.
abbrev pub IsOwn : Ending → Type 0
IsOwn (escapes e) = e ≡ Failure.cancelled
IsOwn unrendered = ⊥
IsOwn _ = Unit

pub on_reply-IsOwn :
    (model : String) (reply : Reply) (s : Service)
    → IsFromRoute reply
    → IsOwn (on_reply model reply s).0
unfolding on_reply on_failure
on_reply-IsOwn model (returned result) s h = tt
on_reply-IsOwn model (raised Failure.bad_payload) s h = elim h [ ]
on_reply-IsOwn model (raised Failure.cancelled) s h = refl
on_reply-IsOwn model (raised _) s h = tt

pub released-IsOwn : (o : Ending) (r : Result (Unit {0})) → IsOwn o → IsOwn (released o r)
released-IsOwn o (ok _) h = h
released-IsOwn o (raise _) h = tt

pub respond-IsOwn :
    (w : World) (o : Ending × Service)
    → ((v : Value) (provider model : String) → w.renders v provider model ≡ true)
    → IsOwn o.0
    → IsOwn (respond w o).0
respond-IsOwn w (responds v provider model, s) built h = rw (built v provider model) tt
respond-IsOwn w (unrendered, s) built h = elim h [ ]
respond-IsOwn w (refuses _, s) built h = h
respond-IsOwn w (escapes _, s) built h = h
respond-IsOwn w (over_released, s) built h = h
