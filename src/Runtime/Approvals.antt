-- ===== src/Runtime/Approvals.antt =====
-- The approvals of a batch of runtime.py keep the execution running, whatever they await.
use agenyx.Base.{
  ℕ, ◌≡◌, Bool, true, Option, none, some, String, string_eq, List, [], ◌∷◌, Error, Dict, ℤ,
  cancelled_error, timeout_error,
}
use agenyx.Runtime.{World, Config}
use agenyx.Runtime.Monad.{Exception, throws}
use agenyx.Runtime.Admission.{Admitted}
use agenyx.Runtime.Calls.{
  add_call_steps, mark_waiting, ask_approvals, of_waiting, required_of, wait_approvals, approve_all,
  approvals_of, handle_required_approvals, of_gathering,
}
use agenyx.Runtime.Keeps.{Keeps, Keeps-pure, Keeps-settle, Keeps-try_awaited, LoudAs, full-LoudAs}
use agenyx.Runtime.Running.{IsLoudWorld, world_rules, check_timeout-Keeps, check_remaining-Keeps}

module _ (w : World) (loud : IsLoudWorld w) where
  pub add_call_steps-Keeps :
      {b : Bool} → (steps : Dict String ℕ) (l : List Admitted) → Keeps b (add_call_steps w steps l)
  unfolding add_call_steps
  add_call_steps-Keeps {b} steps [] = Keeps-pure steps
  add_call_steps-Keeps {b} steps (a ∷ l) =
      let rest = λ (d : Dict String ℕ). add_call_steps-Keeps {b = b} d l in
      search (world_rules, rest) depth 30 fits 3000

  pub mark_waiting-Keeps :
      {b : Bool} → (steps : Dict String ℕ) (l : List Admitted) → Keeps b (mark_waiting w steps l)
  unfolding mark_waiting
  mark_waiting-Keeps {b} steps [] = Keeps-pure tt
  mark_waiting-Keeps {b} steps (a ∷ l) =
      let rest = λ (_ : Unit {0}). mark_waiting-Keeps {b = b} steps l in search (world_rules, rest)

  ask_approvals-Keeps : {b : Bool} → (k : ℕ) (l : List Admitted) → Keeps b (ask_approvals w k l)
  unfolding ask_approvals
  ask_approvals-Keeps {b} k [] = Keeps-pure tt
  ask_approvals-Keeps {b} k (a ∷ l) =
      let asked = loud.asks_approval b k a.call_id in
      let rest = λ (_ : Unit {0}). ask_approvals-Keeps {b = b} k l in
      search (world_rules, asked, rest)

  of_waiting-Keeps :
      {b : Bool}
      → (kind : Error) (e : Exception) → e.kind ≡ kind
      → LoudAs true kind e.text
      → Keeps b (of_waiting w kind e)
  of_waiting-Keeps {b} timeout_error e same h = search world_rules
  of_waiting-Keeps {b} cancelled_error e same h = search world_rules
  of_waiting-Keeps {b} _ e same h = Keeps-settle (throws e) (full-LoudAs b e.kind e.text h)

  module _ (c : Config) where
    required_of-Keeps :
        {b : Bool}
        → (tools : List String) (t : ℤ) (l : List Admitted) → Keeps b (required_of w c tools t l)
    unfolding required_of
    required_of-Keeps {b} tools t [] = Keeps-pure []
    required_of-Keeps {b} tools t (a ∷ l) =
        let rest = λ (_ : Unit {0}). required_of-Keeps {b = b} tools t l in
        search (world_rules, check_timeout-Keeps w loud c, rest) depth 30 fits 3000

    wait_approvals-Keeps :
        {b : Bool} → (t : ℤ) (k : ℕ) (l : List Admitted) → Keeps b (wait_approvals w c t k l)
    unfolding wait_approvals
    wait_approvals-Keeps {b} t k [] = Keeps-pure tt
    wait_approvals-Keeps {b} t k (a ∷ l) =
        let answered = loud.approves k a.call_id in
        let rest = λ (_ : Unit {0}). wait_approvals-Keeps {b = b} t k l in
        search
          (
            world_rules,
            check_timeout-Keeps w loud c,
            check_remaining-Keeps w loud c,
            of_waiting-Keeps,
            Keeps-try_awaited,
            answered,
            rest,
          )
          depth 30 fits 3000

    approve_all-Keeps :
        {b : Bool} → (t : ℤ) (k : ℕ) (l : List Admitted) → Keeps b (approve_all w c t k l)
    approve_all-Keeps t k [] = Keeps-pure []
    approve_all-Keeps t k (a ∷ l) =
        search
          (world_rules, check_timeout-Keeps w loud c, ask_approvals-Keeps, wait_approvals-Keeps)
          depth 30 fits 3000

    approvals_of-Keeps :
        {b : Bool}
        → (tools : Option (List String)) (t : ℤ) (k : ℕ) (l : List Admitted)
        → Keeps b (approvals_of w c tools t k l)
    approvals_of-Keeps none t k l = Keeps-pure []
    approvals_of-Keeps (some tools) t k l =
        search (world_rules, required_of-Keeps, approve_all-Keeps)

    pub handle_required_approvals-Keeps :
        {b : Bool}
        → (t : ℤ) (k : ℕ) (l : List Admitted) → Keeps b (handle_required_approvals w c t k l)
    unfolding handle_required_approvals
    handle_required_approvals-Keeps t k l = approvals_of-Keeps c.approval_required t k l

    pub of_gathering-Keeps :
        {b : Bool}
        → (kind : Error) (e : Exception) → e.kind ≡ kind
        → LoudAs true kind e.text
        → Keeps b (of_gathering w c kind e)
    of_gathering-Keeps {b} timeout_error e same h = search world_rules
    of_gathering-Keeps {b} cancelled_error e same h = search world_rules
    of_gathering-Keeps {b} _ e same h = Keeps-settle (throws e) (full-LoudAs b e.kind e.text h)
