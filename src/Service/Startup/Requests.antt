-- ===== src/Service/Startup/Requests.antt =====
-- What a started service does with the requests that it admits: see main.py.
use agenyx.Base.{
  ℕ, suc, ◌+◌, ◌⊎◌, inl, inr, ◌≡◌, ◌≢◌, refl, ap, subst, ◌∙◌, Bool, true, false, Option, none, some,
  String, Dict, lookup, insert, contains, string_eq, Value, Fields, ok, raise, if◌then◌else◌,
  is_some, is_empty, key_error,
}
use agenyx.Failover.{
  FailoverManager, Failure, Reply, raised, chat_completion, attempt_from, fresh, model_of,
}
use agenyx.Failover
use agenyx.Models.{ModelDefinition, ModelRegistry, model_definition}
use agenyx.Models
use agenyx.Reliability.{ReliabilityManager}
use agenyx.Service.Endings.{
  IsFromRoute, IsOwn, chat_completion-IsFromRoute, on_reply-IsOwn, released-IsOwn, respond-IsOwn,
}
use agenyx.Service.Holding.{occupied, chat_completions_restores}
use agenyx.Concurrency.Slots
use agenyx.Service.Startup.Routes.{startup-IsReady}
use agenyx.Service.Chat.{
  Service, World, Ending, responds, refuses, escapes, over_released, unrendered, respond, give_back,
  run_admitted, admit, chat_completions,
}
use agenyx.Concurrency.{InferenceConcurrencyLimiter, try_acquire}
use agenyx.Service.Startup.{Config, App, startup}
use agenyx.Service.{
  ApiError, api_error, Settings, Request, Checked, passes, rejects, validate, as_dict,
}
use agenyx.Service.Acceptance.{validate-IsAcceptable}
use agenyx.Models.{or_key_error}

found-IsFound :
    (name : String) (models : ModelRegistry) (model : ModelDefinition)
    → Models.get name models ≡ ok model
    → (is_empty name ≡ false) × (lookup name models ≡ some model)
unfolding Models.get
found-IsFound name models model h = by_name (is_empty name) (lookup name models) h
  where
    by_name :
        (b : Bool) (o : Option ModelDefinition)
        → (if b then raise key_error else or_key_error o) ≡ ok model
        → (b ≡ false) × (o ≡ some model)
    by_name true o k = cc
    by_name false none k = cc
    by_name false (some m) k = (refl, cc)

off_route : (r : Reply) (e : Failure) → IsFromRoute r → (IsFromRoute (raised e) → ⊥) → r ≢ raised e
off_route r e h k same = k (subst IsFromRoute same h)

module _ (config : Config) (app : App) (started : startup config ≡ ok app) (c : Settings)
    (r : Request) where
  admitted-IsFromRoute :
      (payload : Fields) (model : ModelDefinition)
      → validate c app.models r ≡ passes (payload, model)
      → (w : Failover.World) (d : Dict String Value) (m : ReliabilityManager)
      → IsFromRoute
          (chat_completion app.failover w (insert "model" (Value.str model.model_id) d) m).0
  admitted-IsFromRoute payload model h w d m =
      let a = (validate-IsAcceptable c app.models r payload model).0 h in
      let ready = startup-IsReady config app started in
      let (named, found) = found-IsFound a.name app.models model a.registered in
      let same = ready.covered.keyed a.name model found in
      chat_completion-IsFromRoute app.failover w d model.model_id m (ap is_empty same ∙ named) (
        ap (λ x. contains x app.failover.model_routes) same
        ∙ ready.covered.routed a.name (ap is_some found))

  -- A started service has a route for every request that it admits: the failover never refuses the
  -- payload for its model, finds no route or meets a provider that is not registered, whatever the
  -- providers answer and whatever the other requests did.
  pub startup_routes :
      (payload : Fields) (model : ModelDefinition)
      → validate c app.models r ≡ passes (payload, model)
      → (w : Failover.World) (m : ReliabilityManager)
      → let reply =
          (chat_completion app.failover w
            (insert "model" (Value.str model.model_id) (as_dict payload))
            m).0 in
        (reply ≢ raised Failure.bad_payload)
        × (reply ≢ raised Failure.no_route)
        × (reply ≢ raised Failure.unknown_provider)
  startup_routes payload model h w m =
      let stays = admitted-IsFromRoute payload model h w (as_dict payload) m in
      (
        off_route _ Failure.bad_payload stays (λ x. x),
        off_route _ Failure.no_route stays (λ x. x),
        (startup-IsReady config app started).spared w _ m,
      )

  module _ (w : World)
      (built : (v : Value) (provider name : String) → w.renders v provider name ≡ true) where
    run_admitted-IsOwn :
        (payload : Fields) (model : ModelDefinition)
        → validate c app.models r ≡ passes (payload, model)
        → (s : Service) → IsOwn (run_admitted app.failover w (as_dict payload) model.model_id s).0
    unfolding run_admitted give_back
    run_admitted-IsOwn payload model h s = released-IsOwn _ _ (
        on_reply-IsOwn model.model_id _ _
          (admitted-IsFromRoute payload model h w.calls (as_dict payload) s.reliability))

    admit-IsOwn :
        (payload : Fields) (model : ModelDefinition)
        → validate c app.models r ≡ passes (payload, model)
        → (s : Service) → IsOwn (admit app.failover w (as_dict payload) model.model_id s).0
    unfolding admit
    admit-IsOwn payload model h s = by_slot (try_acquire s.limiter).0 (try_acquire s.limiter).1
      where
        by_slot :
            (b : Bool) (l : InferenceConcurrencyLimiter)
            → IsOwn
                (if b
                  then respond w (
                      run_admitted app.failover w
                        (as_dict payload)
                        model.model_id
                        (record s { limiter = l }))
                  else (refuses (api_error 429 "INFERENCE_CONCURRENCY_LIMIT"), s)).0
        by_slot true l =
            respond-IsOwn w _ built (run_admitted-IsOwn payload model h (record s { limiter = l }))
        by_slot false l = tt

    checked-IsOwn :
        (checked : Checked (Fields × ModelDefinition))
        → validate c app.models r ≡ checked
        → (s : Service)
        → IsOwn
            (elim checked as (λ _. Ending × Service) [
              | rejects x ↦ (refuses x, s)
              | passes (payload, model) ↦ admit app.failover w (as_dict payload) model.model_id s
            ]).0
    checked-IsOwn (rejects x) h s = tt
    checked-IsOwn (passes (payload, model)) h s = admit-IsOwn payload model h s

    chat_completions-IsOwn :
        (s : Service) → IsOwn (chat_completions c app.models app.failover w r s).0
    unfolding chat_completions
    chat_completions-IsOwn s = checked-IsOwn (validate c app.models r) refl s

    never_over_released :
        (s : Service) (n : ℕ)
        → (Slots.run w.slots (s.limiter.active + 1) (occupied s.limiter)).0 ≡ suc n
        → (chat_completions c app.models app.failover w r s).0 ≢ over_released
    never_over_released s n held =
        elim (chat_completions_restores c app.models app.failover w r s n held) [
          | inl refused ↦ λ k. cc (ap (λ (o : Ending × Service). o.0) refused.1)
          | inr (_, _, kept) ↦ kept
        ]

    answered :
        (o : Ending)
        → IsOwn o
        → o ≢ over_released
        → ((v : Value) × ((provider : String) × ((name : String) × (o ≡ responds v provider name))))
          ⊎ (((x : ApiError) × (o ≡ refuses x)) ⊎ (o ≡ escapes Failure.cancelled))
    answered (responds v provider name) own k = inl (v, (provider, (name, refl)))
    answered (refuses x) own k = inr (inl (x, refl))
    answered (escapes e) own k = inr (inr (ap escapes own))
    answered over_released own k = absurd (k refl)
    answered unrendered own k = elim own [ ]

    -- A request of a started service ends in one of three ways: with a response, with an error of the
    -- API, or with its own cancellation. So neither the ValueError and the KeyErrors of the
    -- failover nor the RuntimeError of the limiter reaches the handler of unexpected exceptions. The
    -- conditions are that the response of a provider can be rendered, and that the request counts
    -- among the holders of a slot, `suc n`, when it stops waiting.
    pub startup_answers :
        (s : Service) (n : ℕ)
        → (Slots.run w.slots (s.limiter.active + 1) (occupied s.limiter)).0 ≡ suc n
        → let o = (chat_completions c app.models app.failover w r s).0 in
          ((v : Value) × ((provider : String) × ((name : String) × (o ≡ responds v provider name))))
          ⊎ (((x : ApiError) × (o ≡ refuses x)) ⊎ (o ≡ escapes Failure.cancelled))
    startup_answers s n held = answered _ (chat_completions-IsOwn s) (never_over_released s n held)
