-- ===== src/Planner/Tests.antt =====
-- One call of a shell tool, written and read back.
use agenyx.Base.{
  ◌≡◌, refl, ◌⊎◌, String, [], ◌∷◌, Value, Fields, pos, Error, agent_protocol_error, planning_error,
  ok, raise, lookup, string_eq, strip,
}
use agenyx.Tools.{Tool, gives, has}
use agenyx.Planner.{AgentDecision, tool_call, Planner, decoded, plan, normalized_tool_calls}
use agenyx.Planner.Decisions.{IsDecision, plan-IsDecision}
use agenyx.Planner.Batches.{Asked, planned, response_of, IsAskable, plan-response_of}

abbrev shell : Tool
shell = record {
  name = "shell";
  description = "runs a command";
  input_schema = Value.null;
  run = λ v. gives v;
}

-- every argument object is written alike, and every text read as it
abbrev command : Fields
command = Fields.field "cmd" (Value.str "ls") Fields.end

abbrev dumps : Fields → String
dumps a = "{\"cmd\":\"ls\"}"

abbrev planner : Planner
planner = record { tools = ("shell", shell) ∷ []; loads = λ s. decoded (Value.object command) }

abbrev listing : Asked
listing = record { id = "c1"; name = "shell"; arguments = command }

listing-IsAskable : IsAskable dumps planner listing
unfolding strip has lookup
listing-IsAskable = record {
  id_kept = refl;
  id_full = refl;
  name_kept = refl;
  name_full = refl;
  known = refl;
  text_kept = refl;
  text_full = refl;
  read_back = refl;
}

plan-response_of_example :
    (d : AgentDecision) × (plan planner (response_of dumps (listing ∷ listing ∷ [])) (pos 1) ≡ ok d)
    × (d.type ≡ tool_call)
    × (normalized_tool_calls d ≡ planned listing ∷ planned listing ∷ [])
plan-response_of_example =
    plan-response_of dumps planner (pos 1) listing (listing ∷ []) refl
      (listing-IsAskable, (listing-IsAskable, tt))

plan-IsDecision_example :
    ((d : AgentDecision)
      → plan planner (response_of dumps (listing ∷ [])) (pos 1) ≡ ok d
      → IsDecision planner d)
    × ((e : Error)
        → plan planner (response_of dumps (listing ∷ [])) (pos 1) ≡ raise e
        → (e ≡ agent_protocol_error) ⊎ (e ≡ planning_error))
plan-IsDecision_example = plan-IsDecision planner (response_of dumps (listing ∷ [])) (pos 1)
