-- ===== src/Approval/Tests.antt =====
-- A run of the manager of approvals.
use agenyx.Base.{
  ◌≡◌, refl, true, false, some, List, [], ◌∷◌, ok, raise, approval_already_resolved, lookup, insert,
  string_eq,
}
use agenyx.Approval.{
  ApprovalRequest, ApprovalStatus, approved, rejected, is_pending, init, new_request, Call, creates,
  approves, rejects, create_request, approve, reject, get, begin_wait, end_wait, is_set, await,
  resolved, call, run,
}
use agenyx.Approval.Invariant.{IsSignalled, init-IsSignalled, run-IsSignalled}
use agenyx.Approval.Resolution.{resolved_lasts, decision-Wakes, wait_resolves, Wakes}

abbrev asked : List Call
asked = creates "a" "e1" "c1" "shell" [] ∷ creates "b" "e2" "c2" "mail" [] ∷ rejects "b" ∷ []

abbrev shell : ApprovalRequest
shell = new_request "a" "e1" "c1" "shell" []

abbrev mail : ApprovalRequest
mail = record (new_request "b" "e2" "c2" "mail" []) { status = rejected }

shell_pending : lookup "a" (run asked init).requests ≡ some shell
unfolding run call create_request approve reject lookup insert
shell_pending = refl

mail_rejected : lookup "b" (run asked init).requests ≡ some mail
unfolding run call create_request approve reject lookup insert
mail_rejected = refl

asked-IsSignalled : IsSignalled (run asked init)
asked-IsSignalled = run-IsSignalled asked init init-IsSignalled

run-IsSignalled_example : IsSignalled (run asked init)
run-IsSignalled_example = run-IsSignalled asked init init-IsSignalled

decision-Wakes_example :
    Wakes approved "a" shell (approve "a" (run asked init))
    × Wakes rejected "a" shell (reject "a" (run asked init))
decision-Wakes_example =
    decision-Wakes "a" (run asked init) shell asked-IsSignalled shell_pending refl

wait_resolves_example :
    (begin_wait "a" (run asked init) ≡ (ok await, run asked init))
    × ((cs : List Call)
        → is_set "a" (run cs (run asked init)) ≡ true
        → (s : ApprovalStatus) × (is_pending s ≡ false)
          × (end_wait "a" (run cs (run asked init))
              ≡ (ok (record shell { status = s }), run cs (run asked init))))
wait_resolves_example =
    wait_resolves "a" (run asked init) shell asked-IsSignalled shell_pending refl

abbrev later : List Call
later = approves "b" ∷ approves "a" ∷ creates "b" "e" "c" "t" [] ∷ []

resolved_lasts_example :
    (get "b" (run later (run asked init)) ≡ (ok mail, run later (run asked init)))
    × ((begin_wait "b" (run later (run asked init))
          ≡ (ok (resolved mail), run later (run asked init)))
        × ((approve "b" (run later (run asked init))
              ≡ (raise approval_already_resolved, run later (run asked init)))
            × (reject "b" (run later (run asked init))
                ≡ (raise approval_already_resolved, run later (run asked init)))))
resolved_lasts_example = resolved_lasts later "b" (run asked init) mail mail_rejected refl
