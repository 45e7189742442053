-- ===== src/Service.antt =====
-- main.py and auth.py of the inference service: the checks of a request, and the endpoints that
-- list. An error of the API is its status and its code; the texts of its message are not kept.
pub mod Chat
pub mod Startup
mod Messages
mod Acceptance
mod Holding
mod Endings
mod Tests
use agenyx.Base.{
  ℕ, ◌+◌, Bool, true, false, not, ◌||◌, Option, none, some, String, List, [], ◌∷◌, length, map,
  Dict, insert, string_eq, ◌==◌, leb, ltb, is_empty, Value, Items, Fields, items, field?, key_error,
  Result, ok, raise, if◌then◌else◌, text_length,
}
use agenyx.Models.{ModelDefinition, ModelRegistry, get, list_models}
use agenyx.Providers.{Provider, ProviderRegistry}
use agenyx.Providers

pub record ApiError : Type 0 where
  pub status_code : ℕ
  pub code : String

abbrev pub api_error : ℕ → String → ApiError
api_error status_code code = record { status_code = status_code; code = code }

pub data Checked (A : Type 0) : Type 0 where
  passes : A → Checked A
  rejects : ApiError → Checked A

infixl 5 ◌>>=◌ ◌>>◌
abbrev pub ◌>>=◌ : {A B : Type 0} → Checked A → (A → Checked B) → Checked B
passes a >>= f = f a
rejects e >>= f = rejects e

abbrev pub ◌>>◌ : {B : Type 0} → Checked (Unit {0}) → Checked B → Checked B
m >> k = m >>= λ _. k

-- `if c: raise api_error(...)`
abbrev pub reject_if : Bool → ApiError → Checked (Unit {0})
reject_if c e = if c then rejects e else passes tt

-- the settings that a request meets
pub record Settings : Type 0 where
  pub service_api_key : Option String
  pub max_request_body_bytes : ℕ
  pub max_messages : ℕ
  pub max_message_content_chars : ℕ
  pub max_total_message_content_chars : ℕ
  pub default_model : String
  pub providers : List String

-- A request, as the framework gives it: the credential, the size of the body, or nothing when it
-- cannot be read, and what the body is as JSON, or nothing when it is not. An object has no key
-- twice.
pub record Request : Type 0 where
  pub x_agenyx_service_key : Option String
  pub body : Option ℕ
  pub json : Option Value

abbrev pub same_key : Option String → String → Bool
same_key none key = false
same_key (some given) key = given == key

abbrev pub by_key : Option String → Option String → Checked (Unit {0})
by_key none given = rejects (api_error 503 "SERVICE_AUTH_NOT_CONFIGURED")
by_key (some key) given = do
  reject_if (is_empty key) (api_error 503 "SERVICE_AUTH_NOT_CONFIGURED")
  reject_if (not (same_key given key)) (api_error 401 "INVALID_SERVICE_CREDENTIAL")

unfoldable pub require_service_auth : Settings → Option String → Checked (Unit {0})
require_service_auth c given = by_key c.service_api_key given

-- the body, read and parsed
abbrev pub read_body : Option ℕ → Checked ℕ
read_body none = rejects (api_error 400 "REQUEST_BODY_READ_FAILED")
read_body (some size) = passes size

abbrev pub parse_json : Option Value → Checked Value
parse_json none = rejects (api_error 400 "INVALID_JSON")
parse_json (some v) = passes v

abbrev pub as_object : Value → Checked Fields
as_object (Value.object payload) = passes payload
as_object _ = rejects (api_error 400 "INVALID_REQUEST_BODY")

unfoldable pub parse_body : Settings → Request → Checked Fields
parse_body c r = do
  size ← read_body r.body
  reject_if (ltb c.max_request_body_bytes size) (api_error 413 "REQUEST_BODY_TOO_LARGE")
  v ← parse_json r.json
  as_object v

abbrev pub as_messages : Option Value → Checked (List Value)
as_messages (some (Value.array (Items.cons v vs))) = passes (v ∷ items vs)
as_messages _ = rejects (api_error 400 "INVALID_MESSAGES")

-- the content of a message: its length counts
unfoldable pub check_content : Settings → Option Value → Checked ℕ
check_content c none = passes 0
check_content c (some Value.null) = passes 0
check_content c (some (Value.str content)) = do
  reject_if (ltb c.max_message_content_chars (text_length content))
      (api_error 400 "MESSAGE_CONTENT_TOO_LARGE")
  passes (text_length content)
check_content c (some _) = rejects (api_error 400 "INVALID_MESSAGE_CONTENT")

unfoldable pub check_message : Settings → Value → Checked ℕ
unfolding check_content
check_message c (Value.object message) = check_content c (field? "content" message)
check_message c _ = rejects (api_error 400 "INVALID_MESSAGE")

-- the loop over the messages, from the characters that were counted
unfoldable pub check_each : Settings → ℕ → List Value → Checked ℕ
unfolding check_message
check_each c total_content_chars [] = passes total_content_chars
check_each c total_content_chars (message ∷ messages) =
    check_message c message >>= λ n. check_each c (total_content_chars + n) messages

unfoldable pub check_messages : Settings → Option Value → Checked (Unit {0})
unfolding check_each
check_messages c given = do
  messages ← as_messages given
  reject_if (ltb c.max_messages (length messages)) (api_error 400 "TOO_MANY_MESSAGES")
  total ← check_each c 0 messages
  reject_if (ltb c.max_total_message_content_chars total)
      (api_error 400 "TOTAL_MESSAGE_CONTENT_TOO_LARGE")

abbrev pub requested_model : Settings → Option Value → Checked String
requested_model c none = passes c.default_model
requested_model c (some (Value.str model)) = passes model
requested_model c (some _) = rejects (api_error 400 "INVALID_MODEL")

abbrev pub or_not_found : Result ModelDefinition → Checked ModelDefinition
or_not_found (ok model) = passes model
or_not_found (raise _) = rejects (api_error 404 "MODEL_NOT_FOUND")

unfoldable pub resolve_model : Settings → ModelRegistry → Option Value → Checked ModelDefinition
resolve_model c models given = do name ← requested_model c given; or_not_found (get name models)

-- `payload.get("stream") is True`
abbrev pub is_streaming : Option Value → Bool
is_streaming (some (Value.bool b)) = b
is_streaming _ = false

-- `chat_completions`, up to the admission: what the request carries, and the model
unfoldable pub validate : Settings → ModelRegistry → Request → Checked (Fields × ModelDefinition)
unfolding require_service_auth parse_body check_messages resolve_model
validate c models r = do
  require_service_auth c r.x_agenyx_service_key
  payload ← parse_body c r
  check_messages c (field? "messages" payload)
  model ← resolve_model c models (field? "model" payload)
  reject_if (is_streaming (field? "stream" payload)) (api_error 501 "STREAMING_NOT_IMPLEMENTED")
  passes (payload, model)

-- a parsed object as a dict
unfoldable pub as_dict : Fields → Dict String Value
as_dict Fields.end = []
as_dict (Fields.field k v d) = (k, v) ∷ as_dict d

-- `ready`, where `health` is what awaiting a provider gives
unfoldable pub ready : ProviderRegistry → (Provider → Bool) → List String → Checked String
ready registry health [] = rejects (api_error 503 "NO_PROVIDERS_AVAILABLE")
ready registry health (name ∷ names) =
    let rest = ready registry health names in
    elim (Providers.get name registry) [
      | raise _ ↦ rest
      | ok provider ↦ if health provider then passes provider.name else rest
    ]

-- `models`: the id, the object and the owner of each
unfoldable pub models : ModelRegistry → List (String × (String × String))
unfolding list_models
models r = map (λ m. (m.model_id, (m.object, m.owned_by))) (list_models r)
