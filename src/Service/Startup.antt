-- ===== src/Service/Startup.antt =====
-- The module level of main.py: what the service builds from its settings before it serves.
mod Routes
pub mod Requests
use agenyx.Base.{
  Bool, true, false, not, Option, none, some, String, List, [], ◌∷◌, Dict, lookup, insert, contains,
  string_eq, ◌==◌, ℤ, pos, value_error, Error, Result, ok, raise, if◌then◌else◌,
}
use agenyx.Backend.{Arguments, init_provider}
use agenyx.Failover.{FailoverManager}
use agenyx.Failover
use agenyx.Models.{ModelRegistry, model_definition}
use agenyx.Models
use agenyx.Providers.{Provider, ProviderRegistry}
use agenyx.Providers
use agenyx.Reliability.{ReliabilityManager}
use agenyx.Reliability

-- a provider of the settings: its type and its URL
pub record ProviderConfig : Type 0 where
  pub type_name : String
  pub base_url : String

-- the settings that the startup reads
pub record Config : Type 0 where
  pub provider_backend_configs : Dict String ProviderConfig
  pub request_timeout : ℤ
  pub max_retries : ℤ
  pub max_connections : ℤ
  pub max_keepalive_connections : ℤ
  pub models : List (String × String)
  pub model_failover_providers : Dict String (List String)
  pub max_failover_attempts : ℤ

-- the objects of the module
pub record App : Type 0 where
  pub providers : ProviderRegistry
  pub reliability : ReliabilityManager
  pub models : ModelRegistry
  pub failover : FailoverManager

infixl 5 ◌>>=◌
abbrev pub ◌>>=◌ : {A B : Type 0} → Result A → (A → Result B) → Result B
ok a >>= f = f a
raise e >>= f = raise e

-- a call of a method, with the object after it
abbrev pub after : {S : Type 0} → Result (Unit {0}) × S → Result S
after (ok _, s) = ok s
after (raise e, s) = raise e

abbrev arguments : Config → String → ProviderConfig → Arguments
arguments c name p = record {
  provider_name = name;
  base_url = p.base_url;
  timeout = c.request_timeout;
  max_retries = c.max_retries;
  max_connections = c.max_connections;
  max_keepalive_connections = c.max_keepalive_connections;
}

-- one provider of the settings
unfoldable pub start_provider :
    Config
    → String
    → ProviderConfig
    → ProviderRegistry × ReliabilityManager
    → Result (ProviderRegistry × ReliabilityManager)
unfolding init_provider Providers.register Reliability.register
start_provider c name p (registry, reliability) =
    if not (p.type_name == "openai-compatible")
    then raise value_error
    else (init_provider (arguments c name p) >>= λ provider.
        after (Providers.register provider registry) >>= λ registry'.
        after (Reliability.register name reliability) >>= λ reliability'.
        ok (registry', reliability'))

unfoldable pub start_providers :
    Config
    → Dict String ProviderConfig
    → ProviderRegistry × ReliabilityManager
    → Result (ProviderRegistry × ReliabilityManager)
unfolding start_provider
start_providers c [] s = ok s
start_providers c ((name, p) ∷ ps) s = start_provider c name p s >>= λ s'. start_providers c ps s'

-- the loop over `settings.models`
unfoldable pub start_models :
    ProviderRegistry → List (String × String) → ModelRegistry → Result ModelRegistry
unfolding Models.register
start_models registry [] models = ok models
start_models registry ((model_id, provider_name) ∷ ms) models =
    (if not (contains provider_name registry)
      then raise value_error
      else after (Models.register (model_definition model_id provider_name) models))
    >>= λ models'. start_models registry ms models'

-- `{model_id: (provider_name,) for ...}`
unfoldable pub first_routes :
    List (String × String) → Dict String (List String) → Dict String (List String)
first_routes [] routes = routes
first_routes ((model_id, provider_name) ∷ ms) routes =
    first_routes ms (insert model_id (provider_name ∷ []) routes)

-- the loop over `settings.model_failover_providers`
unfoldable pub failover_routes :
    Dict String (List String) → Dict String (List String) → Result (Dict String (List String))
failover_routes [] routes = ok routes
failover_routes ((model_id, providers) ∷ ps) routes =
    (if not (contains model_id routes)
      then raise value_error
      else ok (insert model_id providers routes))
    >>= λ routes'. failover_routes ps routes'

unfoldable pub startup : Config → Result App
unfolding start_providers start_models first_routes failover_routes
startup c = Reliability.init (pos 1) (pos 3) (pos 10000000) >>= λ fresh.
    start_providers c c.provider_backend_configs ([], fresh) >>= λ s.
    start_models s.0 c.models [] >>= λ models.
    failover_routes c.model_failover_providers (first_routes c.models []) >>= λ routes.
    Failover.init s.0 routes c.max_failover_attempts >>= λ failover.
    ok (record { providers = s.0; reliability = s.1; models = models; failover = failover })
