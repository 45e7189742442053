-- ===== src/Tools/Registry.antt =====
-- What the registry of tools keeps.
use agenyx.Base.{
  ◌≡◌, ◌↔◌, ◌⊎◌, Error, true, false, String, string_eq, Value, arith, ok, raise, value_error,
  unknown_tool_error, invalid_tool_arguments_error, tool_execution_error, lookup-insert, ◌==◌,
  if◌then◌else◌,
}
use agenyx.Tools.{Tool, ToolRegistry, register, has, execute, outcome}

-- A tool is registered exactly under a new name. Then a call of that name runs it and a call of
-- another name is as before; a second registration raises ValueError and keeps the first tool.
pub execute-register :
    (tool : Tool) (name : String) (arguments : Value) (r : ToolRegistry)
    → (has tool.name r ≡ false
        → ((register tool r).0 ≡ ok tt)
          × (execute name arguments (register tool r).1 ≡ (
              if tool.name == name
              then outcome (tool.run arguments)
              else execute name arguments r)))
      × (has tool.name r ≡ true → register tool r ≡ (raise value_error, r))
unfolding register has execute
execute-register tool name arguments r =
    (λ h. (ground arith, ground (arith, lookup-insert name tool.name tool r)), λ h. ground arith)

-- UnknownToolError is raised exactly for a name that is not registered; no other exception than
-- the three of the registry leaves it.
pub execute-unknown_iff :
    (name : String) (arguments : Value) (r : ToolRegistry)
    → ((execute name arguments r ≡ raise unknown_tool_error) ↔ (has name r ≡ false))
      × ((e : Error)
          → execute name arguments r ≡ raise e
          → (e ≡ unknown_tool_error)
            ⊎ ((e ≡ invalid_tool_arguments_error) ⊎ (e ≡ tool_execution_error)))
unfolding execute has
execute-unknown_iff name arguments r = ((λ h. ground arith, λ h. ground arith), λ e h. ground arith)
