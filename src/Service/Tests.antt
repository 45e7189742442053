-- ===== src/Service/Tests.antt =====
-- A service with one model and two providers, and requests to it.
use agenyx.Base.{
  true, suc, ◌+◌, ◌≡◌, ◌≢◌, ◌↔◌, ◌⊎◌, refl, some, String, string_eq, [], ◌∷◌, lookup, insert, Value,
  Items, Fields, field?, pos, ok, is_blank, strip,
}
use agenyx.Failover.{FailoverManager, Failure, Reply, raised, chat_completion}
use agenyx.Failover
use agenyx.Concurrency.{try_acquire, release}
use agenyx.Concurrency.Slots
use agenyx.Models.{ModelDefinition, ModelRegistry, model_definition}
use agenyx.Models
use agenyx.Reliability.{ReliabilityManager}
use agenyx.Reliability
use agenyx.Providers
use agenyx.Service.{
  Settings, Request, passes, validate, as_dict, require_service_auth, parse_body, check_messages,
  resolve_model, check_each, check_message, check_content, ApiError,
}
use agenyx.Service.Acceptance.{IsAcceptable, validate-IsAcceptable}
use agenyx.Service.Chat.{
  Service, World, responds, refuses, escapes, over_released, gauge, chat_completions, admit,
  run_admitted, on_reply, on_failure, give_back,
}
use agenyx.Service.Holding.{occupied, chat_completions_restores}
use agenyx.Service.Startup.{
  Config, App, startup, start_providers, start_models, first_routes, failover_routes,
  start_provider,
}
use agenyx.Service.Startup.Requests.{startup_routes, startup_answers}
use agenyx.Backend.{init_provider}
use agenyx.Backend

abbrev config : Config
config = record {
  provider_backend_configs =
      ("a", record { type_name = "openai-compatible"; base_url = "http://a/v1" })
      ∷ ("b", record { type_name = "openai-compatible"; base_url = "http://b/v1" })
      ∷ [];
  request_timeout = pos 60000000;
  max_retries = pos 2;
  max_connections = pos 100;
  max_keepalive_connections = pos 20;
  models = ("qwen", "a") ∷ [];
  model_failover_providers = ("qwen", "a" ∷ "b" ∷ []) ∷ [];
  max_failover_attempts = pos 2;
}

abbrev fresh : ReliabilityManager
fresh = record {
  degraded_failure_threshold = pos 1;
  unhealthy_failure_threshold = pos 3;
  recovery_timeout = 10000000;
  states = [];
  half_open_probe = [];
  metrics = [];
}

abbrev ready : ReliabilityManager
ready = (Reliability.register "b" (Reliability.register "a" fresh).1).1

abbrev app : App
app = record {
  providers = ("a", record { name = "a" }) ∷ ("b", record { name = "b" }) ∷ [];
  reliability = ready;
  models = ("qwen", model_definition "qwen" "a") ∷ [];
  failover = record {
    registry = ("a", record { name = "a" }) ∷ ("b", record { name = "b" }) ∷ [];
    model_routes = ("qwen", "a" ∷ "b" ∷ []) ∷ [];
    max_attempts = 2;
  };
}

started : startup config ≡ ok app
unfolding startup start_providers start_provider start_models first_routes failover_routes
    Reliability.init Reliability.register Backend.init_provider Backend.init Backend.rstrip_slashes
    strip is_blank Providers.register Models.register insert lookup Failover.init
    Failover.validate_routes
started = refl

abbrev settings : Settings
settings = record {
  service_api_key = some "secret";
  max_request_body_bytes = 1000;
  max_messages = 10;
  max_message_content_chars = 100;
  max_total_message_content_chars = 200;
  default_model = "qwen";
  providers = "a" ∷ "b" ∷ [];
}

abbrev payload : Fields
payload =
    Fields.field "messages"
      (Value.array (
        Items.cons (Value.object (Fields.field "content" (Value.str "hello") Fields.end))
          Items.nil))
      Fields.end

abbrev request : Request
request = record {
  x_agenyx_service_key = some "secret";
  body = some 50;
  json = some (Value.object payload);
}

admitted : validate settings app.models request ≡ passes (payload, model_definition "qwen" "a")
unfolding validate require_service_auth parse_body check_messages check_each check_message
    check_content resolve_model field? Models.get lookup
admitted = refl

abbrev calls : Failover.World
calls = record {
  allowed_at = λ i. 0;
  recorded_at = λ i. 1;
  answer = λ i. Failover.Answer.responds (Value.str "hi");
  others = λ i. [];
}

-- while the request waits, another one comes and goes
abbrev world : World
world = record {
  calls = calls;
  slots = Slots.Event.acquire ∷ Slots.Event.release_slot ∷ [];
  renders = λ v provider name. true;
}

abbrev service : Service
service = record {
  limiter = record { max_concurrency = 2; active = 0 };
  reliability = ready;
  in_progress = [];
  requests_total = [];
}

validate-IsAcceptable_example :
    (validate settings app.models request ≡ passes (payload, model_definition "qwen" "a"))
    ↔ IsAcceptable settings app.models request payload (model_definition "qwen" "a")
validate-IsAcceptable_example =
    validate-IsAcceptable settings app.models request payload (model_definition "qwen" "a")

one_holder :
    (Slots.run world.slots (service.limiter.active + 1) (occupied service.limiter)).0 ≡ suc 0
unfolding Slots.run try_acquire release
one_holder = refl

chat_completions_restores_example :
    let o = chat_completions settings app.models app.failover world request service in
    ((e : ApiError) × (o ≡ (refuses e, service)))
    ⊎ ((o.1.limiter.active ≡ 0)
        × ((k : String) → gauge k o.1.in_progress ≡ gauge k service.in_progress)
        × (o.0 ≢ over_released))
chat_completions_restores_example =
    chat_completions_restores settings app.models app.failover world request service 0 one_holder

startup_routes_example :
    let reply =
      (chat_completion app.failover calls
        (insert "model" (Value.str "qwen") (as_dict payload))
        ready).0 in
    (reply ≢ raised Failure.bad_payload)
    × (reply ≢ raised Failure.no_route)
    × (reply ≢ raised Failure.unknown_provider)
startup_routes_example =
    startup_routes config app started settings request payload (model_definition "qwen" "a")
      admitted calls ready

abbrev cancelled_world : World
cancelled_world = record {
  calls = record calls { answer = λ i. Failover.Answer.cancels };
  slots = [];
  renders = λ v provider name. true;
}

no_others :
    (Slots.run cancelled_world.slots (service.limiter.active + 1) (occupied service.limiter)).0
    ≡ suc 0
unfolding Slots.run
no_others = refl

is_cancelled :
    (chat_completions settings app.models app.failover cancelled_world request service).0
    ≡ escapes Failure.cancelled
unfolding chat_completions validate require_service_auth parse_body check_messages check_each
    check_message check_content resolve_model field? Models.get lookup admit run_admitted on_reply
    on_failure give_back try_acquire release Slots.run as_dict insert chat_completion
    Failover.attempt_from Failover.try_provider Failover.on_allowed Failover.on_answer
    Reliability.allow_request Reliability.register is_blank Providers.get
is_cancelled = refl

startup_answers_example :
    let o = (chat_completions settings app.models app.failover cancelled_world request service).0 in
    ((v : Value) × ((provider : String) × ((name : String) × (o ≡ responds v provider name))))
    ⊎ (((x : ApiError) × (o ≡ refuses x)) ⊎ (o ≡ escapes Failure.cancelled))
startup_answers_example =
    startup_answers config app started settings request cancelled_world (λ v provider name. refl)
      service 0 no_others
