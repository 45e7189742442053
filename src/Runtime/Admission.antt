-- ===== src/Runtime/Admission.antt =====
-- The first half of `_execute_tool_calls` of runtime.py: a batch of calls is admitted as a whole, against
-- what the execution has used and what the batch itself would use.
use agenyx.Base.{
  ℕ, ◌+◌, not, Option, none, some, String, string_eq, pair_eq, List, [], ◌∷◌, Dict, lookup, insert,
  Fields, ℤ, pos, is_empty, Result, ok, raise, agent_protocol_error, length,
}
use agenyx.Limits.{
  ExecutionLimits, validate_tool_call, validate_per_tool_call, validate_repeated_tool_call,
}
use agenyx.Tools.{has}
use agenyx.Planner.{ToolCall}
use agenyx.Runtime.{Runtime, World, Config, check_cancellation, check_timeout}
use agenyx.Runtime.Monad.{Run, pure, lift, modify, throw_if, ◌>>=◌, ◌>>◌}

abbrev pub Key : Type 0
Key = String × String

-- a call that was admitted, with the key that its repetitions share
pub record Admitted : Type 0 where
  pub name : String
  pub arguments : Fields
  pub call_id : String
  pub key : Key

-- the projected counts
pub record Usage : Type 0 where
  pub global : ℕ
  pub counts : Dict String ℕ
  pub repeated : Dict Key ℕ

-- `d.get(k, 0)`
abbrev pub or_zero : Option ℕ → ℕ
or_zero none = 0
or_zero (some n) = n

abbrev pub tool_count : String → Usage → ℕ
tool_count name u = or_zero (lookup name u.counts)

abbrev pub key_count : Key → Usage → ℕ
key_count key u = or_zero (lookup key u.repeated)

abbrev pub use_call : String → Key → Usage → Usage
use_call name key u = record {
  global = u.global + 1;
  counts = insert name (tool_count name u + 1) u.counts;
  repeated = insert key (key_count key u + 1) u.repeated;
}

abbrev pub and_then : Result Unit → Result Unit → Result Unit
and_then (ok _) r = r
and_then (raise e) r = raise e

-- the three budgets, in the order of the code
unfoldable pub within_budgets : ExecutionLimits → String → Key → Usage → Result Unit
within_budgets l name key u = and_then (validate_tool_call l (pos u.global)) (
    and_then (validate_per_tool_call l name (pos (tool_count name u)))
      (validate_repeated_tool_call l (pos (key_count key u))))

abbrev pub id_of : Option String → String
id_of none = ""
id_of (some id) = id

module _ (w : World) (c : Config) where
  abbrev pub admitted : ToolCall → Admitted
  admitted call = record {
    name = call.name;
    arguments = call.arguments;
    call_id = id_of call.call_id;
    key = (call.name, c.dumps call.arguments);
  }

  -- the checks of one call
  unfoldable pub admit_one : ℤ → Usage → Admitted → Run Runtime Unit
  admit_one started_at u a = do
    check_cancellation w
    throw_if (is_empty a.name) agent_protocol_error "Tool call is missing tool name"
    throw_if (is_empty a.call_id) agent_protocol_error "Tool call is missing call_id"
    throw_if (not (has a.name c.planner.tools)) agent_protocol_error
        "Unknown tool requested by model"
    lift (within_budgets c.limits a.name a.key u)
    check_timeout w c started_at

  -- the loop over the calls
  unfoldable pub admit : ℤ → Usage → List ToolCall → Run Runtime (List Admitted)
  admit started_at u [] = pure []
  admit started_at u (call ∷ calls) = do
    admit_one started_at u (admitted call)
    rest ← admit started_at (use_call call.name (call.name, c.dumps call.arguments) u) calls
    pure (admitted call ∷ rest)

-- the loop that counts the admitted calls
unfoldable pub use_all : List Admitted → Usage → Usage
use_all [] u = u
use_all (a ∷ rest) u = use_all rest (use_call a.name a.key u)

abbrev pub usage : Runtime → Usage
usage s = record {
  global = length s.context.tool_calls;
  counts = s.tool_call_counts;
  repeated = s.repeated_tool_calls;
}

unfoldable pub count_admissions : List Admitted → Run Runtime Unit
unfolding use_all
count_admissions admissions = modify λ (s : Runtime). record s {
  tool_call_counts = (use_all admissions (usage s)).counts;
  repeated_tool_calls = (use_all admissions (usage s)).repeated;
}
