-- ===== src/Tools.antt =====
-- The tools of the agent: tools/registry.py, tools/result.py, authorization.py.
pub mod Executor
mod Registry
mod Tests
use agenyx.Base.{
  ℕ, Bool, true, false, not, Option, none, some, String, List, [], ◌∷◌, Dict, lookup, insert,
  contains, values, map, string_eq, elem, Value, Error, value_error, unknown_tool_error,
  invalid_tool_arguments_error, tool_execution_error, tool_authorization_error, Result, ok, raise,
  Action, raise_if, modify, ◌>>=◌, ◌>>◌, if◌then◌else◌,
}

-- What calling the function of a tool gives: its value, a TypeError, or another exception.
pub data Called : Type 0 where
  gives : Value → Called
  type_error other_error : Called

pub record Tool : Type 0 where
  pub name : String
  pub description : String
  pub input_schema : Value
  pub run : Value → Called

abbrev pub ToolRegistry : Type 0
ToolRegistry = Dict String Tool

unfoldable pub register : Tool → Action ToolRegistry (Unit {0})
register tool = do
  λ r. raise_if (contains tool.name r) value_error r
  modify (insert tool.name tool)

unfoldable pub has : String → ToolRegistry → Bool
has name r = contains name r

-- the name, the description and the parameters of an entry of `definitions`
pub record Definition : Type 0 where
  pub name : String
  pub description : String
  pub parameters : Value

unfoldable pub definitions : ToolRegistry → List Definition
definitions r =
    map
      (λ (t : Tool). record {
        name = t.name;
        description = t.description;
        parameters = t.input_schema;
      })
      (values r)

abbrev outcome : Called → Result Value
outcome (gives v) = ok v
outcome type_error = raise invalid_tool_arguments_error
outcome other_error = raise tool_execution_error

-- `ToolRegistry.execute`
unfoldable pub execute : String → Value → ToolRegistry → Result Value
execute name arguments r = elim (lookup name r) [
  | none ↦ raise unknown_tool_error
  | some tool ↦ outcome (tool.run arguments)
]

pub record ToolResult : Type 0 where
  pub success : Bool
  pub output : Value
  pub error : Option String
  pub metadata : Dict String String
  pub duration_seconds : ℕ

unfoldable pub failed : ToolResult → Bool
failed r = not r.success

-- `AllowListToolAuthorization.authorize`; its context is not used.
unfoldable pub authorize : List String → String → Result (Unit {0})
authorize allowed_tools tool_name =
    if elem tool_name allowed_tools then ok tt else raise tool_authorization_error
