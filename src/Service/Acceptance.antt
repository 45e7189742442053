-- ===== src/Service/Acceptance.antt =====
-- Which requests are admitted to the limiter: see `chat_completions` of main.py and auth.py.
use agenyx.Base.{
  ℕ, ◌≤◌, ◌≡◌, ◌≢◌, refl, ap, ◌∙◌, true, false, not, Option, none, some, String, string_eq, ◌∷◌,
  length, All, ==_refl, ==_iff, is_empty, Value, Items, Fields, items, field?, Result, ok, raise,
  ◌↔◌, arith, subst,
}
use agenyx.Models.{ModelDefinition, ModelRegistry, get}
use agenyx.Service.{
  api_error, Settings, Request, Checked, passes, rejects, reject_if, require_service_auth,
  parse_body, check_each, check_messages, resolve_model, validate, is_streaming, by_key, same_key,
  read_body, parse_json, as_object, requested_model, or_not_found,
}
use agenyx.Service.Messages.{
  sum_sizes, IsMessage, HasMessages, bind-passes, reject_if-passes, within, not_above,
  passes-check_each, check_messages-HasMessages,
}

abbrev name_of : Settings → Option Value → Option String
name_of c none = some c.default_model
name_of c (some (Value.str name)) = some name
name_of c (some _) = none

-- What a request needs, one by one: the credential, a body that is not too long and a JSON object,
-- messages that are objects and neither too many nor too long, the name of a registered model, and
-- no stream.
pub record IsAcceptable (c : Settings) (models : ModelRegistry) (r : Request) (payload : Fields)
    (model : ModelDefinition) : Type 0 where
  pub key : String
  pub configured : c.service_api_key ≡ some key
  pub some_key : is_empty key ≡ false
  pub given : r.x_agenyx_service_key ≡ some key
  pub size : ℕ
  pub read : r.body ≡ some size
  pub small : size ≤ c.max_request_body_bytes
  pub parsed : r.json ≡ some (Value.object payload)
  pub first : Value
  pub rest : Items
  pub listed : field? "messages" payload ≡ some (Value.array (Items.cons first rest))
  pub few : length (first ∷ items rest) ≤ c.max_messages
  pub fine : All (IsMessage c) (first ∷ items rest)
  pub short : sum_sizes (first ∷ items rest) ≤ c.max_total_message_content_chars
  pub name : String
  pub named : name_of c (field? "model" payload) ≡ some name
  pub registered : get name models ≡ ok model
  pub whole : field? "stream" payload ≢ some (Value.bool true)

no_stream : (o : Option Value) → is_streaming o ≡ false → o ≢ some (Value.bool true)
no_stream none h e = cc
no_stream (some (Value.bool true)) h e = cc
no_stream (some (Value.bool false)) h e = cc
no_stream (some _) h e = cc

not_streaming : (o : Option Value) → o ≢ some (Value.bool true) → is_streaming o ≡ false
not_streaming none h = refl
not_streaming (some (Value.bool true)) h = elim (h refl) [ ]
not_streaming (some (Value.bool false)) h = refl
not_streaming (some _) h = refl

-- what `require_service_auth` lets through
HasKey : Settings → Option String → Type 0
HasKey c given =
    (key : String) × (c.service_api_key ≡ some key) × (is_empty key ≡ false) × (given ≡ some key)

by_key-HasKey :
    (o given : Option String) (u : Unit)
    → by_key o given ≡ passes u
    → (key : String) × (o ≡ some key) × (is_empty key ≡ false) × (given ≡ some key)
by_key-HasKey none given u h = cc
by_key-HasKey (some key) given u h =
    let (_, e, rest) = bind-passes (reject_if (is_empty key) _) _ u h in
    (key, refl, reject_if-passes _ _ _ e, same given (reject_if-passes _ _ _ rest))
  where
    same : (o : Option String) → not (same_key o key) ≡ false → o ≡ some key
    same none k = cc
    same (some x) k = ap some ((==_iff x key).0 (ground arith))

parse_body_passes :
    (c : Settings) (r : Request) (payload : Fields)
    → parse_body c r ≡ passes payload
    → (size : ℕ) × (r.body ≡ some size)
      × (size ≤ c.max_request_body_bytes)
      × (r.json ≡ some (Value.object payload))
unfolding parse_body
parse_body_passes c r payload h =
    let (size, e, h1) = bind-passes (read_body r.body) _ payload h in
    let (_, small, h2) = bind-passes (reject_if _ _) _ payload h1 in
    let (v, parsed, h3) = bind-passes (parse_json r.json) _ payload h2 in
    (
      size,
      sized r.body size e,
      within _ _ (reject_if-passes _ _ _ small),
      json r.json v parsed ∙ ap some (objects v h3),
    )
  where
    sized : (o : Option ℕ) (n : ℕ) → read_body o ≡ passes n → o ≡ some n
    sized none n k = cc
    sized (some m) n k = cc

    json : (o : Option Value) (v : Value) → parse_json o ≡ passes v → o ≡ some v
    json none v k = cc
    json (some m) v k = cc

    objects : (v : Value) → as_object v ≡ passes payload → v ≡ Value.object payload
    objects (Value.object m) k = cc
    objects _ k = cc

model_passes :
    (c : Settings) (models : ModelRegistry) (o : Option Value) (model : ModelDefinition)
    → resolve_model c models o ≡ passes model
    → (name : String) × (name_of c o ≡ some name) × (get name models ≡ ok model)
unfolding resolve_model
model_passes c models o model h =
    let (name, e, h1) = bind-passes (requested_model c o) _ model h in
    (name, named o name e, found (get name models) h1)
  where
    named :
        (o : Option Value) (name : String)
        → requested_model c o ≡ passes name
        → name_of c o ≡ some name
    named none name k = cc
    named (some (Value.str _)) name k = cc
    named (some _) name k = cc

    found : (m : Result ModelDefinition) → or_not_found m ≡ passes model → m ≡ ok model
    found (ok _) k = cc
    found (raise _) k = cc

passed : {A : Type 0} {a b : A} → passes a ≡ passes b → a ≡ b
passed {A} {a} h = ap (value_or a) h
  where
    value_or : A → Checked A → A
    value_or x (passes y) = y
    value_or x (rejects e) = x

accepted :
    (c : Settings) (models : ModelRegistry) (r : Request) (payload : Fields)
    (model : ModelDefinition)
    → validate c models r ≡ passes (payload, model)
    → IsAcceptable c models r payload model
unfolding validate require_service_auth HasMessages
accepted c models r payload model h =
    let end : Fields × ModelDefinition = (payload, model) in
    let (u, key, h1) = bind-passes (by_key c.service_api_key r.x_agenyx_service_key) _ end h in
    let (payload', body, h2) = bind-passes (parse_body c r) _ end h1 in
    let (u', messages, h3) = bind-passes (check_messages c (field? "messages" payload')) _ end h2 in
    let (model', resolved, h4) =
      bind-passes (resolve_model c models (field? "model" payload')) _ end h3 in
    let streams = is_streaming (field? "stream" payload') in
    let (u'', whole, h5) =
      bind-passes (reject_if streams (api_error 501 "STREAMING_NOT_IMPLEMENTED"))
        (λ _. passes (payload', model')) end h4 in
    let (k, configured, some_key, given) =
      by_key-HasKey c.service_api_key r.x_agenyx_service_key u key in
    let (size, read, small, parsed) = parse_body_passes c r payload' body in
    let (v, rest, listed, few, fine, short) =
      check_messages-HasMessages c (field? "messages" payload') u' messages in
    let (name, named, registered) =
      model_passes c models (field? "model" payload') model' resolved in
    subst (λ (x : Fields × ModelDefinition). IsAcceptable c models r x.0 x.1) (passed h5)
      (record {
        key = k;
        configured = configured;
        some_key = some_key;
        given = given;
        size = size;
        read = read;
        small = small;
        parsed = parsed;
        first = v;
        rest = rest;
        listed = listed;
        few = few;
        fine = fine;
        short = short;
        name = name;
        named = named;
        registered = registered;
        whole =
            no_stream (field? "stream" payload')
              (reject_if-passes streams (api_error 501 "STREAMING_NOT_IMPLEMENTED") u'' whole);
      })

requested :
    (c : Settings) (o : Option Value) (name : String)
    → name_of c o ≡ some name
    → requested_model c o ≡ passes name
requested c none name h = cc
requested c (some (Value.str _)) name h = cc
requested c (some _) name h = cc

module _ (c : Settings) (models : ModelRegistry) (r : Request) (payload : Fields)
    (model : ModelDefinition) (a : IsAcceptable c models r payload model) where
  has_key : require_service_auth c r.x_agenyx_service_key ≡ passes tt
  unfolding require_service_auth
  has_key = rw (a.configured, a.given, a.some_key, ==_refl a.key) refl

  has_body : parse_body c r ≡ passes payload
  unfolding parse_body
  has_body = rw (a.read, not_above c.max_request_body_bytes a.size a.small, a.parsed) refl

  whole_count :
      check_each c 0 (a.first ∷ items a.rest) ≡ passes (sum_sizes (a.first ∷ items a.rest))
  whole_count = passes-check_each c 0 (a.first ∷ items a.rest) a.fine ∙ ap passes (omega arith)

  has_messages : check_messages c (field? "messages" payload) ≡ passes tt
  unfolding check_messages
  has_messages =
      rw (a.listed, not_above c.max_messages (length (a.first ∷ items a.rest)) a.few, whole_count)
        (rw
          (not_above c.max_total_message_content_chars (sum_sizes (a.first ∷ items a.rest)) a.short)
          refl)

  has_model : resolve_model c models (field? "model" payload) ≡ passes model
  unfolding resolve_model
  has_model = rw (requested c (field? "model" payload) a.name a.named, a.registered) refl

  has_all : validate c models r ≡ passes (payload, model)
  unfolding validate
  has_all =
      rw
        (
          has_key,
          has_body,
          has_messages,
          has_model,
          not_streaming (field? "stream" payload) a.whole,
        )
        refl

-- A request is admitted to the limiter, with a payload and a model, exactly when it has all that
-- `IsAcceptable` lists.
pub validate-IsAcceptable :
    (c : Settings) (models : ModelRegistry) (r : Request) (payload : Fields)
    (model : ModelDefinition)
    → (validate c models r ≡ passes (payload, model)) ↔ IsAcceptable c models r payload model
validate-IsAcceptable c models r payload model =
    (accepted c models r payload model, has_all c models r payload model)
