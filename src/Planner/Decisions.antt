-- ===== src/Planner/Decisions.antt =====
-- Every decision of the planner is complete: a final text, or a whole batch of calls of known tools.
use agenyx.Base.{
  ◌≡◌, refl, subst, ◌≢◌, ◌⊎◌, inl, inr, Bool, true, false, Option, none, some, String, List, [],
  ◌∷◌, Value, Fields, field?, ℤ, pos, ltb_ℤ, leb_ℤ, is_empty, All, agent_protocol_error,
  planning_error, Error, Result, ok, raise, Bool-cases, if◌then◌else◌, strip,
}
use agenyx.Tools.{has}
use agenyx.Planner.{
  final, tool_call, ToolCall, AgentDecision, Planner, ◌>>=◌, plan_tool_call, plan_each,
  plan_tool_calls, plan_final_response, plan, guarded, extract_message, extract_tool_calls,
  extract_text, validate_tool, extract_function, extract_arguments, tool_decision, plan_calls_or,
  plan_message,
}

-- A call that the runtime can make: a known tool, and texts that are not empty.
abbrev pub IsPlanned : Planner → ToolCall → Type 0
IsPlanned p c =
    (has c.name p.tools ≡ true)
    × (is_empty c.name ≡ false)
    × ((id : String) × (c.call_id ≡ some id) × (is_empty id ≡ false))

pub data IsDecision (p : Planner) (d : AgentDecision) : Type 0 where
  answers :
      (content : String)
      → d.type ≡ final
      → d.content ≡ some content
      → is_empty content ≡ false
      → d.tool_calls ≡ []
      → IsDecision p d
  calls :
      d.type ≡ tool_call
      → d.content ≡ none
      → d.tool_calls ≢ []
      → All (IsPlanned p) d.tool_calls
      → IsDecision p d

-- What holds of a result, if there is one.
abbrev Ensures : {A : Type 0} → (A → Type 0) → Result A → Type 0
Ensures P (ok a) = P a
Ensures P (raise _) = Unit

Ensures-bind :
    {A B : Type 0} (P : A → Type 0) (Q : B → Type 0) (m : Result A) (f : A → Result B)
    → Ensures P m
    → ((a : A) → P a → Ensures Q (f a))
    → Ensures Q (m >>= f)
Ensures-bind P Q (ok a) f h k = k a h
Ensures-bind P Q (raise e) f h k = tt

Ensures-any : {A : Type 0} (m : Result A) → Ensures (λ _. Unit {0}) m
Ensures-any (ok a) = tt
Ensures-any (raise e) = tt

abbrev Full : String → Type 0
Full s = is_empty s ≡ false

extract_text-Full : (v : Option Value) → Ensures Full (extract_text v)
unfolding extract_text
extract_text-Full none = tt
extract_text-Full (some (Value.str s)) = elim (Bool-cases (is_empty (strip s))) [
  | inl empty ↦ rw empty tt
  | inr full ↦ rw full full
]
extract_text-Full (some _) = tt

validate_tool_known :
    (p : Planner) (name : String) (step : ℤ)
    → Ensures (λ _. has name p.tools ≡ true) (validate_tool p name step)
unfolding validate_tool
validate_tool_known p name step = elim (Bool-cases (has name p.tools)) [
  | inl known ↦
      rw known
        (elim (leb_ℤ step (pos 0))
          as (λ b.
            Ensures (λ _. ◌≡◌ {A = Bool} true true)
              (if b then raise agent_protocol_error else ok true)) [ true ↦ tt | false ↦ refl ])
  | inr unknown ↦ rw unknown tt
]

plan_tool_call-IsPlanned :
    (p : Planner) (step : ℤ) (call : Fields) → Ensures (IsPlanned p) (plan_tool_call p step call)
unfolding plan_tool_call
plan_tool_call-IsPlanned p step call =
    Ensures-bind Full (IsPlanned p) (extract_text (field? "id" call)) _
      (extract_text-Full (field? "id" call))
      λ id full_id.
        Ensures-bind (λ _. Unit) (IsPlanned p) (extract_function (field? "function" call)) _
          (Ensures-any _)
          λ function _.
            Ensures-bind Full (IsPlanned p) (extract_text (field? "name" function)) _
              (extract_text-Full (field? "name" function))
              λ name full.
                Ensures-bind (λ _. Unit) (IsPlanned p)
                  (extract_arguments p (field? "arguments" function)) _ (Ensures-any _)
                  λ arguments _.
                    Ensures-bind (λ _. has name p.tools ≡ true) (IsPlanned p)
                      (validate_tool p name step) _ (validate_tool_known p name step)
                      λ _ known. (known, full, (id, refl, full_id))

plan_each-IsPlanned :
    (p : Planner) (step : ℤ) (wanted : List Fields)
    → Ensures (All (IsPlanned p)) (plan_each p step wanted)
unfolding plan_each
plan_each-IsPlanned p step [] = tt
plan_each-IsPlanned p step (call ∷ rest) =
    Ensures-bind (IsPlanned p) (All (IsPlanned p)) (plan_tool_call p step call) _
      (plan_tool_call-IsPlanned p step call)
      λ c h.
        Ensures-bind (All (IsPlanned p)) (All (IsPlanned p)) (plan_each p step rest) _
          (plan_each-IsPlanned p step rest) λ cs k. (h, k)

plan_tool_calls-IsDecision :
    (p : Planner) (step : ℤ) (wanted : List Fields)
    → Ensures (IsDecision p) (plan_tool_calls p step wanted)
unfolding plan_tool_calls
plan_tool_calls-IsDecision p step wanted =
    Ensures-bind (All (IsPlanned p)) (IsDecision p) (plan_each p step wanted) _
      (plan_each-IsPlanned p step wanted) decide
  where
    decide : (cs : List ToolCall) → All (IsPlanned p) cs → Ensures (IsDecision p) (tool_decision cs)
    decide [] h = tt
    decide (c ∷ cs) h = calls refl refl (λ e. cc) h

plan_final_response-IsDecision :
    (p : Planner) (v : Option Value) → Ensures (IsDecision p) (plan_final_response v)
unfolding plan_final_response
plan_final_response-IsDecision p none = tt
plan_final_response-IsDecision p (some (Value.str s)) = elim (Bool-cases (is_empty (strip s))) [
  | inl empty ↦ rw empty tt
  | inr full ↦ rw full (answers (strip s) refl refl full refl)
]
plan_final_response-IsDecision p (some _) = tt

Ensures-guarded : {A : Type 0} (P : A → Type 0) (m : Result A) → Ensures P m → Ensures P (guarded m)
Ensures-guarded P (ok a) h = h
Ensures-guarded P (raise agent_protocol_error) h = tt
Ensures-guarded P (raise _) h = tt

plan_calls_or-IsDecision :
    (p : Planner) (step : ℤ) (message : Fields) (wanted : List Fields)
    → Ensures (IsDecision p) (plan_calls_or p step message wanted)
plan_calls_or-IsDecision p step message [] =
    plan_final_response-IsDecision p (field? "content" message)
plan_calls_or-IsDecision p step message (c ∷ cs) = plan_tool_calls-IsDecision p step (c ∷ cs)

plan_response-IsDecision :
    (p : Planner) (response : Value) (step : ℤ)
    → Ensures (IsDecision p) (extract_message response >>= plan_message p step)
plan_response-IsDecision p response step =
    Ensures-bind (λ _. Unit) (IsDecision p) (extract_message response) _ (Ensures-any _)
      λ message _.
        Ensures-bind (λ _. Unit) (IsDecision p) (extract_tool_calls (field? "tool_calls" message)) _
          (Ensures-any _) λ wanted _. plan_calls_or-IsDecision p step message wanted

plan-Ensures :
    (p : Planner) (response : Value) (step : ℤ) → Ensures (IsDecision p) (plan p response step)
unfolding plan
plan-Ensures p response step = elim (Bool-cases (ltb_ℤ step (pos 0))) [
  | inl bad ↦ rw bad tt
  | inr good ↦ rw good (
      Ensures-guarded (IsDecision p) (extract_message response >>= plan_message p step)
        (plan_response-IsDecision p response step))
]

guarded_errors :
    {A : Type 0} (m : Result A) {e : Error}
    → guarded m ≡ raise e
    → (e ≡ agent_protocol_error) ⊎ (e ≡ planning_error)
guarded_errors (ok a) h = cc
guarded_errors (raise agent_protocol_error) h = inl (cc)
guarded_errors (raise _) h = inr (cc)

-- Whatever the service responds, the planner raises AgentProtocolError or PlanningError, or decides for a text that is not empty or for a batch of calls: at least one, each of a tool that the registry has, with a name and an id that are not empty.
pub plan-IsDecision :
    (p : Planner) (response : Value) (step : ℤ)
    → ((d : AgentDecision) → plan p response step ≡ ok d → IsDecision p d)
      × ((e : Error)
          → plan p response step ≡ raise e
          → (e ≡ agent_protocol_error) ⊎ (e ≡ planning_error))
unfolding plan
plan-IsDecision p response step = (
  λ d h. subst (Ensures (IsDecision p)) h (plan-Ensures p response step),
  λ e h. guarded_errors _ h,
)
