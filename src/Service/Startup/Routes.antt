-- ===== src/Service/Startup/Routes.antt =====
-- What a started service knows of its models: see main.py.
use agenyx.Base.{
  ◌≡◌, ◌≢◌, refl, sym, ap, subst, ◌∙◌, Bool, true, false, not, Option, some, String, List, [], ◌∷◌,
  Dict, lookup, insert, contains, lookup-insert, string_eq, ◌==◌, ==_iff, Value, Result, ok, raise,
  arith, if◌then◌else◌, is_some, value_error, pos,
}
use agenyx.Failover.{
  FailoverManager, Failure, Reply, raised, chat_completion, attempt_from, fresh, model_of,
}
use agenyx.Failover
use agenyx.Failover.Routes.{init_spares, init_parts}
use agenyx.Models.{ModelDefinition, ModelRegistry, model_definition}
use agenyx.Models
use agenyx.Providers.{ProviderRegistry}
use agenyx.Reliability.{ReliabilityManager}
use agenyx.Service.Startup.{
  Config, App, ◌>>=◌, after, start_providers, start_models, first_routes, failover_routes, startup,
}
use agenyx.Reliability
use agenyx.Models.{or_key_error}

-- the ids of the registry have routes, and a model is registered under its id
pub record IsCovered (models : ModelRegistry) (routes : Dict String (List String)) : Type 0 where
  pub routed : (id : String) → contains id models ≡ true → contains id routes ≡ true
  pub keyed : (id : String) (m : ModelDefinition) → lookup id models ≡ some m → m.model_id ≡ id

bind-ok :
    {A B : Type 0} (m : Result A) (f : A → Result B) (b : B)
    → m >>= f ≡ ok b
    → (a : A) × (m ≡ ok a) × (f a ≡ ok b)
bind-ok (ok a) f b h = (a, refl, h)
bind-ok (raise e) f b h = cc

if_some :
    {V : Type 0} (b : Bool) (v : V) (o : Option V)
    → is_some (if b then some v else o) ≡ (if b then true else is_some o)
if_some true v o = refl
if_some false v o = refl

contains-insert :
    {V : Type 0} (j k : String) (v : V) (d : Dict String V)
    → contains j (insert k v d) ≡ (if k == j then true else contains j d)
contains-insert j k v d = rw (lookup-insert j k v d) (if_some (k == j) v (lookup j d))

register_parts :
    (m : ModelDefinition) (models models' : ModelRegistry)
    → after (Models.register m models) ≡ ok models'
    → models' ≡ insert m.model_id m models
unfolding Models.register
register_parts m models models' h = ground arith

covered_step :
    (b : Bool) (x y : Bool)
    → (x ≡ true → y ≡ true)
    → (if b then true else x) ≡ true
    → (if b then true else y) ≡ true
covered_step true x y h k = refl
covered_step false x y h k = h k

keyed_step :
    (b : Bool) (k id : String) (m m' : ModelDefinition) (o : Option ModelDefinition)
    → (b ≡ true → k ≡ id)
    → m.model_id ≡ k
    → (o ≡ some m' → m'.model_id ≡ id)
    → (if b then some m else o) ≡ some m'
    → m'.model_id ≡ id
keyed_step true k id m m' o same e h is = ap id_of (sym (same_model is)) ∙ e ∙ same refl
  where
    id_of : ModelDefinition → String
    id_of x = x.model_id

    same_model : some m ≡ some m' → m ≡ m'
    same_model p = cc
keyed_step false k id m m' o same e h is = h is

register-IsCovered :
    (id name : String) (models models' : ModelRegistry) (routes : Dict String (List String))
    → IsCovered models routes
    → after (Models.register (model_definition id name) models) ≡ ok models'
    → IsCovered models' (insert id (name ∷ []) routes)
register-IsCovered id name models models' routes covered h =
    let m = model_definition id name in
    subst (λ d. IsCovered d (insert id (name ∷ []) routes))
      (sym (register_parts m models models' h))
      (record {
        routed = λ j is.
            contains-insert j id (name ∷ []) routes
            ∙ covered_step (id == j) (contains j models) (contains j routes) (covered.routed j)
                (sym (contains-insert j id m models) ∙ is);
        keyed = λ j m' is.
            keyed_step (id == j) id j m m' (lookup j models) (==_iff id j).0 refl
              (covered.keyed j m') (sym (lookup-insert j id m models) ∙ is);
      })

start_models-IsCovered :
    (registry : ProviderRegistry) (ms : List (String × String)) (models models' : ModelRegistry)
    (routes : Dict String (List String))
    → IsCovered models routes
    → start_models registry ms models ≡ ok models'
    → IsCovered models' (first_routes ms routes)
unfolding start_models first_routes
start_models-IsCovered registry [] models models' routes covered h =
    subst (λ d. IsCovered d routes) (loaded h) covered
  where
    loaded : ok models ≡ ok models' → models ≡ models'
    loaded p = cc
start_models-IsCovered registry ((id, name) ∷ ms) models models' routes covered h =
    let (next, e, rest) = bind-ok _ (start_models registry ms) models' h in
    start_models-IsCovered registry ms next models' _
      (register-IsCovered id name models next routes covered (known (contains name registry) e))
      rest
  where
    known :
        {m : ModelRegistry} (b : Bool)
        → (if not b
            then raise value_error
            else after (Models.register (model_definition id name) models))
          ≡ ok m
        → after (Models.register (model_definition id name) models) ≡ ok m
    known true p = p
    known false p = cc

kept : (b x : Bool) → x ≡ true → (if b then true else x) ≡ true
kept true x h = refl
kept false x h = h

failover_routes_cover :
    (ps routes routes' : Dict String (List String))
    → failover_routes ps routes ≡ ok routes'
    → (j : String) → contains j routes ≡ true
    → contains j routes' ≡ true
unfolding failover_routes
failover_routes_cover [] routes routes' h j is = subst (λ d. contains j d ≡ true) (loaded h) is
  where
    loaded : ok routes ≡ ok routes' → routes ≡ routes'
    loaded p = cc
failover_routes_cover ((id, names) ∷ ps) routes routes' h j is =
    let (next, e, rest) = bind-ok _ (failover_routes ps) routes' h in
    failover_routes_cover ps next routes' rest j (
      subst (λ d. contains j d ≡ true) (added (contains id routes) e)
        (contains-insert j id names routes ∙ kept (id == j) (contains j routes) is))
  where
    added :
        {d : Dict String (List String)} (b : Bool)
        → (if not b then raise value_error else ok (insert id names routes)) ≡ ok d
        → insert id names routes ≡ d
    added true p = cc
    added false p = cc

-- what the startup has built
pub record IsReady (app : App) : Type 0 where
  pub covered : IsCovered app.models app.failover.model_routes
  pub spared :
      (w : Failover.World) (payload : Dict String Value) (m : ReliabilityManager)
      → (chat_completion app.failover w payload m).0 ≢ raised Failure.unknown_provider

pub startup-IsReady : (c : Config) (app : App) → startup c ≡ ok app → IsReady app
unfolding startup lookup
startup-IsReady c app h =
    let (_, e0, h0) = bind-ok (Reliability.init (pos 1) (pos 3) (pos 10000000)) _ app h in
    let (s, e1, h1) = bind-ok (start_providers c c.provider_backend_configs _) _ app h0 in
    let (models, e2, h2) = bind-ok (start_models s.0 c.models []) _ app h1 in
    let (routes, e3, h3) =
      bind-ok (failover_routes c.model_failover_providers (first_routes c.models [])) _ app h2 in
    let (failover, e4, h4) = bind-ok (Failover.init s.0 routes c.max_failover_attempts) _ app h3 in
    let base = start_models-IsCovered s.0 c.models [] models [] none_yet e2 in
    subst IsReady (built h4) (record {
      covered = record {
        routed = λ id is.
            subst (λ d. contains id d ≡ true)
              (sym (init_parts s.0 routes c.max_failover_attempts failover e4).1)
              (failover_routes_cover c.model_failover_providers (first_routes c.models []) routes e3
                id (base.routed id is));
        keyed = base.keyed;
      };
      spared = (init_spares s.0 routes c.max_failover_attempts failover e4).2;
    })
  where
    none_yet : IsCovered [] []
    none_yet = record { routed = λ id is. cc; keyed = λ id m is. cc }

    built : {a b : App} → ok a ≡ ok b → a ≡ b
    built p = cc
