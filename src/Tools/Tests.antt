-- ===== src/Tools/Tests.antt =====
-- A registry with one tool.
use agenyx.Base.{◌≡◌, ◌↔◌, false, string_eq, [], ◌∷◌, Value, raise, unknown_tool_error}
use agenyx.Tools.{Tool, ToolRegistry, gives, has, execute}
use agenyx.Tools.Registry.{execute-unknown_iff}

abbrev echo : Tool
echo = record { name = "echo"; description = ""; input_schema = Value.null; run = λ v. gives v }

abbrev tools : ToolRegistry
tools = ("echo", echo) ∷ []

execute-unknown_iff_example :
    (execute "rm" Value.null tools ≡ raise unknown_tool_error) ↔ (has "rm" tools ≡ false)
execute-unknown_iff_example = (execute-unknown_iff "rm" Value.null tools).0
