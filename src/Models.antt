-- ===== src/Models.antt =====
-- models/ and tenancy/ of the inference service: which models it serves, from which provider, and
-- for which tenants.
mod Laws
use agenyx.Base.{
  ℕ, Bool, true, false, Option, none, some, String, List, [], Dict, lookup, insert, erase, values,
  contains, string_eq, ℤ, value_error, key_error, Result, ok, raise, Action, raise_if, modify, ◌>>◌,
  is_blank, is_empty, if◌then◌else◌, elem, length, not,
}

pub record ModelDefinition : Type 0 where
  pub model_id : String
  pub provider_name : String
  pub object : String
  pub owned_by : String
  pub capabilities : List String
  pub context_window : Option ℤ
  pub enabled : Bool

-- a definition with the fields that the dataclass fills
abbrev pub model_definition : String → String → ModelDefinition
model_definition model_id provider_name = record {
  model_id = model_id;
  provider_name = provider_name;
  object = "model";
  owned_by = "agenyx";
  capabilities = [];
  context_window = none;
  enabled = true;
}

abbrev pub ModelRegistry : Type 0
ModelRegistry = Dict String ModelDefinition

unfoldable pub register : ModelDefinition → Action ModelRegistry (Unit {0})
register model = do
  raise_if (is_blank model.model_id) value_error
  raise_if (is_blank model.provider_name) value_error
  λ r. raise_if (contains model.model_id r) value_error r
  modify (insert model.model_id model)

abbrev pub or_key_error : Option ModelDefinition → Result ModelDefinition
or_key_error none = raise key_error
or_key_error (some model) = ok model

unfoldable pub get : String → ModelRegistry → Result ModelDefinition
get model_id r = if is_empty model_id then raise key_error else or_key_error (lookup model_id r)

unfoldable pub list_models : ModelRegistry → List ModelDefinition
list_models r = values r

unfoldable pub exists : String → ModelRegistry → Bool
exists model_id r = contains model_id r

unfoldable pub remove : String → Action ModelRegistry (Unit {0})
remove model_id = do λ r. raise_if (not (contains model_id r)) key_error r; modify (erase model_id)

unfoldable pub clear : Action ModelRegistry (Unit {0})
clear = modify λ _. []

unfoldable pub count : ModelRegistry → ℕ
count r = length r

-- `TenantAuthorizer`
pub record TenantAuthorizer : Type 0 where
  pub tenant_models : Dict String (List String)

unfoldable pub is_allowed : String → String → TenantAuthorizer → Bool
is_allowed tenant_id model_id a = elim (lookup tenant_id a.tenant_models) [
  | none ↦ false
  | some allowed_models ↦ elem model_id allowed_models
]
