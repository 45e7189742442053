-- ===== src/Reliability/Tests.antt =====
-- Runs of the manager, and the theorems at them.
use agenyx.Base.{
  ◌≡◌, refl, false, some, List, [], ◌∷◌, ok, pos, string_eq, raise, value_error, lookup, insert,
  elem, add, discard, is_blank,
}
use agenyx.Reliability.{
  ReliabilityManager, init, register, allow_request, record_failure, record_success,
}
use agenyx.Reliability.Invariant.{IsValid}
use agenyx.Reliability.Breaker.{
  closed, probing, admit, recover, view, failure_refines, success_refines, allow_refines,
}
use agenyx.Reliability.Traces.{
  Call, call, enrol, allow, failed, run, init-run-IsValid, probe_excludes,
}

abbrev manager : ReliabilityManager
manager = record {
  degraded_failure_threshold = pos 1;
  unhealthy_failure_threshold = pos 3;
  recovery_timeout = 10;
  states = [];
  half_open_probe = [];
  metrics = [];
}

manager_made : init (pos 1) (pos 3) (pos 10) ≡ ok manager
unfolding init
manager_made = refl

thresholds_crossed : init (pos 4) (pos 3) (pos 10) ≡ raise value_error
unfolding init
thresholds_crossed = refl

-- two providers, the first with three failures; it cools down and is probed
abbrev outage : List Call
outage =
    enrol "a"
    ∷ enrol "b"
    ∷ failed "a" 1
    ∷ failed "a" 2
    ∷ failed "a" 3
    ∷ allow "a" 12
    ∷ allow "a" 13
    ∷ []

abbrev pair : List Call
pair = enrol "a" ∷ enrol "b" ∷ []

outage_probes : view "a" (run outage manager) ≡ some probing
unfolding run call view register allow_request record_failure lookup insert elem add discard
    is_blank
outage_probes = refl

init-run-IsValid_example : IsValid (run outage manager)
init-run-IsValid_example = init-run-IsValid (pos 1) (pos 3) (pos 10) outage manager manager_made

outage-IsValid : IsValid (run outage manager)
outage-IsValid = init-run-IsValid (pos 1) (pos 3) (pos 10) outage manager manager_made

pair-IsValid : IsValid (run pair manager)
pair-IsValid = init-run-IsValid (pos 1) (pos 3) (pos 10) pair manager manager_made

pair_closed : view "a" (run pair manager) ≡ some (closed 0)
unfolding run call view register lookup insert is_blank
pair_closed = refl

failure_refines_example :
    ((record_failure "a" 5 (run pair manager)).0 ≡ ok tt)
    × (view "b" (record_failure "a" 5 (run pair manager)).1 ≡ view "b" (run pair manager))
failure_refines_example =
    failure_refines "a" "b" 5 (run pair manager) (closed 0) pair-IsValid pair_closed

-- the probe after the outage succeeds
success_refines_example :
    ((record_success "a" 14 (run outage manager)).0 ≡ ok tt)
    × (view "a" (record_success "a" 14 (run outage manager)).1 ≡ some (recover probing))
success_refines_example =
    success_refines "a" "a" 14 (run outage manager) probing outage-IsValid outage_probes

allow_refines_example :
    ((allow_request "a" 5 (run pair manager)).0
      ≡ ok (admit (run pair manager).recovery_timeout 5 (closed 0)).0)
    × (view "a" (allow_request "a" 5 (run pair manager)).1
        ≡ some (admit (run pair manager).recovery_timeout 5 (closed 0)).1)
allow_refines_example =
    allow_refines "a" "a" 5 (run pair manager) (closed 0) pair-IsValid pair_closed

-- a year of other traffic
abbrev waiting : List Call
waiting = allow "a" 100 ∷ failed "b" 200 ∷ allow "b" 300 ∷ allow "a" 31536000000000 ∷ []

probe_excludes_example :
    (allow_request "a" 31536000000001 (run waiting (run outage manager))).0 ≡ ok false
probe_excludes_example =
    probe_excludes "a" 31536000000001 waiting (run outage manager) outage-IsValid outage_probes
      (refl, (refl, (refl, (refl, tt))))
