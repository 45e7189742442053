-- ===== src/Limits/Tests.antt =====
-- The default limits, with one tool disabled and one limited.
use agenyx.Base.{◌≡◌, refl, [], ◌∷◌, pos, ok, string_eq}
use agenyx.Limits.{ExecutionLimits, post_init}

abbrev limits : ExecutionLimits
limits = record {
  max_steps = pos 10;
  max_tool_calls = pos 20;
  max_repeated_tool_calls = pos 3;
  timeout_seconds = pos 60000000;
  per_tool_limits = ("shell", pos 0) ∷ ("search", pos 2) ∷ [];
  max_parallel_tool_calls = pos 4;
}

limits_made : post_init limits ≡ ok limits
unfolding post_init
limits_made = refl
