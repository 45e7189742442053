-- ===== src/Failover/Order.antt =====
-- What a request that returns has tried: the route in its order, up to the provider that answered.
use agenyx.Base.{
  ℕ, suc, ◌+◌, ◌≤◌, ◌<◌, ◌≡◌, refl, ap, subst, ◌∙◌, Bool, true, false, Option, none, some, String,
  List, [], ◌∷◌, ◌++◌, map, All, All-append, Value, Dict, lookup, string_eq, arith, leb, Result, ok,
  raise, ◌==◌, Bool-cases, inl, inr, is_empty, if◌then◌else◌,
}
use agenyx.Providers.{Provider, get}
use agenyx.Providers.Laws.{IsNamed}
use agenyx.Reliability.{ReliabilityManager, allow_request, record_success, record_failure}
use agenyx.Reliability.Traces
use agenyx.Failover.{
  FailoverAttempt, FailoverResult, FailoverManager, Answer, responds, fails, cancels, World,
  Failure, Reply, returned, raised, Progress, note, recording, on_answer, on_allowed, try_provider,
  attempt_from, fresh, chat_completion, Next, model_of,
}

-- the attempt stands for a call of its provider, and not for an open circuit
abbrev is_call : FailoverAttempt → Bool
is_call a = elim a.error [
  | none ↦ true
  | some e ↦ elim (e == "Provider circuit is open") [ true ↦ false | false ↦ true ]
]

abbrev pub calls : List FailoverAttempt → ℕ
calls [] = 0
calls (a ∷ xs) = let rest = calls xs in if is_call a then suc rest else rest

abbrev pub AllFailed : List FailoverAttempt → Type 0
AllFailed = All (λ a. a.success ≡ false)

abbrev pub names : List FailoverAttempt → List String
names = map (λ a. a.provider)

calls-snoc : (xs : List FailoverAttempt) (a : FailoverAttempt) → calls (xs ++ a ∷ []) ≤ calls xs + 1
calls-snoc [] a = ground arith
calls-snoc (b ∷ xs) a = ground (arith, calls-snoc xs a)

calls-snoc_skip :
    (xs : List FailoverAttempt) (a : FailoverAttempt)
    → is_call a ≡ false
    → calls (xs ++ a ∷ []) ≡ calls xs
calls-snoc_skip [] a h = ground arith
calls-snoc_skip (b ∷ xs) a h = ground (arith, calls-snoc_skip xs a h)

-- Of the loop's variables, when `rest` is what is left of the route.
record IsFine (limit : ℕ) (whole rest : List String) (p : Progress) : Type 0 where
  failed : AllFailed p.attempts
  few : calls p.attempts ≤ p.attempted_count
  capped : p.attempted_count ≤ limit
  ordered : names p.attempts ++ rest ≡ whole

-- Of a result: it ends with the provider that answered, all before failed, no more than `limit`
-- providers were called, and the route was followed in its order.
pub record IsFair (limit : ℕ) (whole : List String) (r : FailoverResult) : Type 0 where
  pub before : List FailoverAttempt
  pub last :
      r.attempts ≡ before ++ record { provider = r.provider; success = true; error = none } ∷ []
  pub failed : AllFailed before
  pub few : calls r.attempts ≤ limit
  pub rest : List String
  pub ordered : names r.attempts ++ rest ≡ whole

names-snoc :
    (xs : List FailoverAttempt) (a : FailoverAttempt) (rest : List String)
    → names (xs ++ a ∷ []) ++ rest ≡ names xs ++ a.provider ∷ rest
names-snoc [] a rest = refl
names-snoc (b ∷ xs) a rest = ap (◌∷◌ b.provider) (names-snoc xs a rest)

recording-returned :
    (rm : Result (Unit {0}) × ReliabilityManager)
    (k : ReliabilityManager → Reply × ReliabilityManager) (r : FailoverResult)
    → (recording rm k).0 ≡ returned r
    → (k rm.1).0 ≡ returned r
recording-returned (ok _, m) k r h = h
recording-returned (raise _, m) k r h = cc

returned-injective : {r s : FailoverResult} → returned r ≡ returned s → r ≡ s
returned-injective h = cc

module _ (limit : ℕ) (whole rest : List String) where
  note_called :
      (name : String) (error : Option String) (e : Option String) (p : Progress)
      → p.attempted_count < limit
      → IsFine limit whole (name ∷ rest) p
      → IsFine limit whole rest (
          note name false error
            (record p { attempted_count = p.attempted_count + 1; last_error = e }))
  note_called name error e p h f = record {
    failed = All-append (λ a. a.success ≡ false) p.attempts _ f.failed (refl, tt);
    few = omega (
      arith,
      calls-snoc p.attempts (record { provider = name; success = false; error = error }),
      f.few,
    );
    capped = omega arith;
    ordered = names-snoc p.attempts _ rest ∙ f.ordered;
  }

  note_skipped :
      (name : String) (p : Progress)
      → IsFine limit whole (name ∷ rest) p
      → IsFine limit whole rest (note name false (some "Provider circuit is open") p)
  note_skipped name p f = record {
    failed = All-append (λ a. a.success ≡ false) p.attempts _ f.failed (refl, tt);
    few =
        rw
          (calls-snoc_skip p.attempts
            (record { provider = name; success = false; error = some "Provider circuit is open" })
            refl)
          f.few;
    capped = f.capped;
    ordered = names-snoc p.attempts _ rest ∙ f.ordered;
  }

  answer-IsFair :
      (name : String) (v : Value) (p : Progress)
      → p.attempted_count < limit
      → IsFine limit whole (name ∷ rest) p
      → IsFair limit whole
          (record { response = v; provider = name; attempts = (note name true none p).attempts })
  answer-IsFair name v p h f = record {
    before = p.attempts;
    last = refl;
    failed = f.failed;
    few = omega (
      arith,
      calls-snoc p.attempts (record { provider = name; success = true; error = none }),
      f.few,
    );
    rest = rest;
    ordered = names-snoc p.attempts _ rest ∙ f.ordered;
  }

  -- A continuation that turns fine variables into fair results.
  abbrev KeepsFair : Next → Type 0
  KeepsFair next =
      (p : Progress) (m : ReliabilityManager) (r : FailoverResult)
      → IsFine limit whole rest p
      → (next p m).0 ≡ returned r
      → IsFair limit whole r

  on_answer-IsFair :
      (a : Answer) (name : String) (now : ℕ) (next : Next) (p : Progress) (m : ReliabilityManager)
      (r : FailoverResult)
      → KeepsFair next
      → p.attempted_count < limit
      → IsFine limit whole (name ∷ rest) p
      → (on_answer a name now next (record p { attempted_count = p.attempted_count + 1 }) m).0
        ≡ returned r
      → IsFair limit whole r
  unfolding on_answer
  on_answer-IsFair (responds v) name now next p m r k h f e =
      subst (IsFair limit whole)
        (returned-injective (recording-returned (record_success name now m) _ r e))
        (answer-IsFair name v p h f)
  on_answer-IsFair (fails x) name now next p m r k h f e =
      k _ (record_failure name now m).1 r (note_called name (some x) (some x) p h f)
        (recording-returned (record_failure name now m) _ r e)
  on_answer-IsFair cancels name now next p m r k h f e = cc

  on_allowed-IsFair :
      (a : Result Bool) (w : World) (i : ℕ) (name : String) (next : Next) (p : Progress)
      (m : ReliabilityManager) (r : FailoverResult)
      → KeepsFair next
      → p.attempted_count < limit
      → IsFine limit whole (name ∷ rest) p
      → (on_allowed a w i name next p m).0 ≡ returned r
      → IsFair limit whole r
  unfolding on_allowed
  on_allowed-IsFair (raise _) w i name next p m r k h f e = cc
  on_allowed-IsFair (ok false) w i name next p m r k h f e = k _ m r (note_skipped name p f) e
  on_allowed-IsFair (ok true) w i name next p m r k h f e =
      on_answer-IsFair (w.answer i) name (w.recorded_at i) next p (Traces.run (w.others i) m) r k h
        f e

module _ (f : FailoverManager) (w : World) (named : IsNamed f.registry) (whole : List String) where
  attempt_from-IsFair :
      (i : ℕ) (route : List String) (p : Progress) (m : ReliabilityManager) (r : FailoverResult)
      → IsFine f.max_attempts whole route p
      → (attempt_from f w i route p m).0 ≡ returned r
      → IsFair f.max_attempts whole r
  unfolding attempt_from try_provider
  attempt_from-IsFair i [] p m r fine e = cc
  attempt_from-IsFair i (name ∷ route) p m r fine e =
      elim (Bool-cases (leb f.max_attempts p.attempted_count)) [
        | inl full ↦ cc (rw full at e)
        | inr room ↦
            by_registry (get name f.registry) refl (rw room at e) (ground arith)
              (λ p' m' r' fine' e'. attempt_from-IsFair (suc i) route p' m' r' fine' e')
      ]
    where
      by_registry :
          (g : Result Provider)
          → get name f.registry ≡ g
          → (elim g as (λ _. Reply × ReliabilityManager) [
            | raise _ ↦ (raised Failure.unknown_provider, m)
            | ok provider ↦ try_provider w i provider (attempt_from f w (suc i) route) p m
          ]).0
            ≡ returned r
          → p.attempted_count < f.max_attempts
          → KeepsFair f.max_attempts whole route (attempt_from f w (suc i) route)
          → IsFair f.max_attempts whole r
      by_registry (raise _) g h lt k = cc
      by_registry (ok provider) g h lt k =
          let same : provider.name ≡ name = named name provider g in
          on_allowed-IsFair f.max_attempts whole route
            (allow_request provider.name (w.allowed_at i) m).0 w i provider.name
            (attempt_from f w (suc i) route) p (allow_request provider.name (w.allowed_at i) m).1 r
            k lt (rw same fine) h

fresh-IsFine : (limit : ℕ) (route : List String) → IsFine limit route route fresh
fresh-IsFine limit route = record {
  failed = tt;
  few = omega arith;
  capped = omega arith;
  ordered = refl;
}

-- A request that returns had a model with a route. It followed the route in its order, every
-- attempt but the last failed, the last is the provider that answered, and no more than
-- `max_attempts` providers were called.
pub chat_completion-IsFair :
    (f : FailoverManager) (w : World) (payload : Dict String Value) (m : ReliabilityManager)
    (r : FailoverResult)
    → IsNamed f.registry
    → (chat_completion f w payload m).0 ≡ returned r
    → (model_id : String) × (route : List String) × (lookup "model" payload
        ≡ some (Value.str model_id))
      × (lookup model_id f.model_routes ≡ some route)
      × IsFair f.max_attempts route r
unfolding chat_completion
chat_completion-IsFair f w payload m r named h = by_model (lookup "model" payload) refl h
  where
    by_route :
        (model_id : String)
        → lookup "model" payload ≡ some (Value.str model_id)
        → (o : Option (List String)) → lookup model_id f.model_routes ≡ o
        → (elim o as (λ _. Reply × ReliabilityManager) [
          | none ↦ (raised Failure.no_route, m)
          | some route ↦ attempt_from f w 0 route fresh m
        ]).0
          ≡ returned r
        → (model_id : String) × (route : List String) × (lookup "model" payload
            ≡ some (Value.str model_id))
          × (lookup model_id f.model_routes ≡ some route)
          × IsFair f.max_attempts route r
    by_route model_id e none l h = cc
    by_route model_id e (some route) l h = (
      model_id,
      route,
      e,
      l,
      attempt_from-IsFair f w named route 0 route fresh m r (fresh-IsFine f.max_attempts route) h,
    )

    by_model :
        (o : Option Value)
        → lookup "model" payload ≡ o
        → (elim (model_of o) as (λ _. Reply × ReliabilityManager) [
          | none ↦ (raised Failure.bad_payload, m)
          | some model_id ↦ elim (lookup model_id f.model_routes) [
            | none ↦ (raised Failure.no_route, m)
            | some route ↦ attempt_from f w 0 route fresh m
          ]
        ]).0
          ≡ returned r
        → (model_id : String) × (route : List String) × (lookup "model" payload
            ≡ some (Value.str model_id))
          × (lookup model_id f.model_routes ≡ some route)
          × IsFair f.max_attempts route r
    by_model (some (Value.str s)) e h = elim (Bool-cases (is_empty s)) [
      | inl empty ↦ cc (rw empty at h)
      | inr full ↦ by_route s e (lookup s f.model_routes) refl (rw full at h)
    ]
    by_model _ e h = cc
