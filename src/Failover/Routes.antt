-- ===== src/Failover/Routes.antt =====
-- The routes that the constructor accepts, and what they spare a request.
use agenyx.Base.{
  ℕ, suc, ◌≤◌, ◌≡◌, ◌≢◌, refl, sym, Bool, true, false, Option, none, some, String, string_eq, List,
  [], ◌∷◌, Value, Dict, lookup, contains, arith, leb, Result, ok, raise, All, ℤ, Bool-cases, inl,
  inr, ◌==◌, subst, ◌∙◌, is_some, key_error,
}
use agenyx.Providers.{Provider, ProviderRegistry, get}
use agenyx.Reliability.{ReliabilityManager, allow_request, record_success, record_failure}
use agenyx.Failover.{
  FailoverManager, init, validate_routes, all_known, Answer, responds, fails, cancels, World,
  Failure, Reply, raised, unknown_provider, Progress, recording, exhausted, on_answer, on_allowed,
  try_provider, attempt_from, fresh, chat_completion, Next, model_of,
}

abbrev pub IsKnown : ProviderRegistry → List String → Type 0
IsKnown r = All (λ name. contains name r ≡ true)

all_known-IsKnown :
    (r : ProviderRegistry) (names : List String) → all_known r names ≡ true → IsKnown r names
all_known-IsKnown r [] h = tt
all_known-IsKnown r (name ∷ names) h = (ground arith, all_known-IsKnown r names (ground arith))

validated_head :
    (r : ProviderRegistry) (j name : String) (names : List String)
    (routes : Dict String (List String))
    → validate_routes r ((j, name ∷ names) ∷ routes) ≡ ok tt
    → IsKnown r (name ∷ names) × (validate_routes r routes ≡ ok tt)
unfolding validate_routes
validated_head r j name names routes v =
    (all_known-IsKnown r (name ∷ names) (ground arith), ground arith)

validated-IsKnown :
    (r : ProviderRegistry) (routes : Dict String (List String)) (model_id : String)
    (route : List String)
    → validate_routes r routes ≡ ok tt
    → lookup model_id routes ≡ some route
    → IsKnown r route × (route ≢ [])
unfolding validate_routes lookup
validated-IsKnown r [] model_id route v l = cc
validated-IsKnown r ((j, []) ∷ routes) model_id route v l = cc
validated-IsKnown r ((j, name ∷ names) ∷ routes) model_id route v l =
    let (known, rest) = validated_head r j name names routes v in
    elim (Bool-cases (j == model_id)) [
      | inl e ↦
          let is : some (name ∷ names) ≡ some route = rw e at l in
          let same : (name ∷ names) ≡ route = cc in
          (subst (IsKnown r) same known, λ empty. cc (same ∙ empty))
      | inr e ↦ validated-IsKnown r routes model_id route rest (rw e at l)
    ]

pub init_parts :
    (r : ProviderRegistry) (routes : Dict String (List String)) (n : ℤ) (f : FailoverManager)
    → init r routes n ≡ ok f
    → (f.registry ≡ r)
      × (f.model_routes ≡ routes)
      × (validate_routes r routes ≡ ok tt)
      × (1 ≤ f.max_attempts)
unfolding init
init_parts r routes n f h = ground arith

-- A continuation that never fails for an unknown provider.
abbrev Spares : Next → Type 0
Spares next = (p : Progress) (m : ReliabilityManager) → (next p m).0 ≢ raised unknown_provider

recording-spares :
    (rm : Result (Unit {0}) × ReliabilityManager)
    (k : ReliabilityManager → Reply × ReliabilityManager)
    → ((m : ReliabilityManager) → (k m).0 ≢ raised unknown_provider)
    → (recording rm k).0 ≢ raised unknown_provider
recording-spares (ok _, m) k h = h m
recording-spares (raise _, m) k h = λ e. cc

on_answer-Spares :
    (a : Answer) (name : String) (now : ℕ) (next : Next)
    → Spares next
    → Spares (on_answer a name now next)
unfolding on_answer
on_answer-Spares (responds v) name now next k p m =
    recording-spares (record_success name now m) _ (λ m' e. cc)
on_answer-Spares (fails x) name now next k p m =
    recording-spares (record_failure name now m) _ (λ m'. k _ m')
on_answer-Spares cancels name now next k p m = λ e. cc

on_allowed-Spares :
    (a : Result Bool) (w : World) (i : ℕ) (name : String) (next : Next)
    → Spares next
    → Spares (on_allowed a w i name next)
unfolding on_allowed
on_allowed-Spares (raise _) w i name next k p m = λ e. cc
on_allowed-Spares (ok false) w i name next k p m = k _ m
on_allowed-Spares (ok true) w i name next k p m =
    on_answer-Spares (w.answer i) name (w.recorded_at i) next k _ _

exhausted-spares : (o : Option String) → raised (exhausted o) ≢ raised unknown_provider
exhausted-spares none e = cc
exhausted-spares (some x) e = cc

attempt_from-Spares :
    (f : FailoverManager) (w : World) (i : ℕ) (route : List String)
    → IsKnown f.registry route
    → Spares (attempt_from f w i route)
unfolding attempt_from try_provider get
attempt_from-Spares f w i [] known p m = exhausted-spares p.last_error
attempt_from-Spares f w i (name ∷ route) known p m =
    elim (Bool-cases (leb f.max_attempts p.attempted_count)) [
      | inl full ↦ rw full (exhausted-spares p.last_error)
      | inr room ↦ rw room (
          by_registry (lookup name f.registry) known.0
            (attempt_from-Spares f w (suc i) route known.1))
    ]
  where
    by_registry :
        (o : Option Provider)
        → is_some o ≡ true
        → Spares (attempt_from f w (suc i) route)
        → (elim (elim o as (λ _. Result Provider) [ none ↦ raise key_error | some q ↦ ok q ])
            as (λ _. Reply × ReliabilityManager) [
              | raise _ ↦ (raised unknown_provider, m)
              | ok provider ↦ try_provider w i provider (attempt_from f w (suc i) route) p m
            ]).0
          ≢ raised unknown_provider
    by_registry none h k = cc
    by_registry (some provider) h k =
        on_allowed-Spares (allow_request provider.name (w.allowed_at i) m).0 w i provider.name
          (attempt_from f w (suc i) route) k p _

-- What the constructor accepts has a positive limit, routes that are not empty, and only providers
-- that the registry holds; so no request ever ends in an unknown provider.
pub init_spares :
    (registry : ProviderRegistry) (routes : Dict String (List String)) (limit : ℤ)
    (f : FailoverManager)
    → init registry routes limit ≡ ok f
    → (1 ≤ f.max_attempts)
      × ((model_id : String) (route : List String)
          → lookup model_id f.model_routes ≡ some route
          → IsKnown f.registry route × (route ≢ []))
      × ((w : World) (payload : Dict String Value) (m : ReliabilityManager)
          → (chat_completion f w payload m).0 ≢ raised unknown_provider)
unfolding chat_completion
init_spares registry routes limit f h =
    (parts.3, known, λ w payload m. by_model w m (model_of (lookup "model" payload)))
  where
    parts :
        (f.registry ≡ registry)
        × (f.model_routes ≡ routes)
        × (validate_routes registry routes ≡ ok tt)
        × (1 ≤ f.max_attempts)
    parts = init_parts registry routes limit f h

    known :
        (model_id : String) (route : List String)
        → lookup model_id f.model_routes ≡ some route
        → IsKnown f.registry route × (route ≢ [])
    known model_id route l =
        subst (λ r. IsKnown r route × (route ≢ [])) (sym parts.0)
          (validated-IsKnown registry routes model_id route parts.2 (rw (parts.1) at l))

    by_route :
        (w : World) (m : ReliabilityManager) (model_id : String) (o : Option (List String))
        → lookup model_id f.model_routes ≡ o
        → (elim o as (λ _. Reply × ReliabilityManager) [
          | none ↦ (raised Failure.no_route, m)
          | some route ↦ attempt_from f w 0 route fresh m
        ]).0
          ≢ raised unknown_provider
    by_route w m model_id none l = λ e. cc
    by_route w m model_id (some route) l =
        attempt_from-Spares f w 0 route (known model_id route l).0 fresh m

    by_model :
        (w : World) (m : ReliabilityManager) (o : Option String)
        → (elim o as (λ _. Reply × ReliabilityManager) [
          | none ↦ (raised Failure.bad_payload, m)
          | some model_id ↦ elim (lookup model_id f.model_routes) [
            | none ↦ (raised Failure.no_route, m)
            | some route ↦ attempt_from f w 0 route fresh m
          ]
        ]).0
          ≢ raised unknown_provider
    by_model w m none = λ e. cc
    by_model w m (some model_id) = by_route w m model_id (lookup model_id f.model_routes) refl
