-- ===== src/Failover/Cancel.antt =====
-- A request that is cancelled while it probes a provider.
use agenyx.Base.{
  ℕ, ◌+◌, ◌≤◌, ◌≡◌, refl, true, false, some, string_eq, List, All, arith, ok, ==_refl,
}
use agenyx.Providers.{Provider}
use agenyx.Reliability.{ReliabilityManager, allow_request}
use agenyx.Reliability.Invariant.{IsValid}
use agenyx.Reliability.Allow.{allow_request-IsValid}
use agenyx.Reliability.Breaker.{view, tripped, probing, admit, allow_refines}
use agenyx.Reliability.Traces
use agenyx.Reliability.Traces.{run, leaves_open, run_keeps_probe, run-IsValid, probe_excludes}
use agenyx.Failover.{
  World, cancels, cancelled, raised, Progress, on_answer, on_allowed, try_provider, Next,
}

module _ (w : World) (i t : ℕ) (provider : Provider) (next : Next) (p : Progress)
    (m : ReliabilityManager) (v : IsValid m) (is_open : view provider.name m ≡ some (tripped t))
    (cool : t + m.recovery_timeout ≤ w.allowed_at i) where
  probe_granted :
      ((allow_request provider.name (w.allowed_at i) m).0 ≡ ok true)
      × (view provider.name (allow_request provider.name (w.allowed_at i) m).1 ≡ some probing)
  unfolding admit
  probe_granted = ground (
    arith,
    allow_refines provider.name provider.name (w.allowed_at i) m (tripped t) v is_open,
    ==_refl provider.name,
  )

  -- When a request is cancelled while it probes a provider whose circuit was open, and nothing
  -- else records an outcome of that provider, the provider rejects every later request, at any
  -- time and after any further calls that record no outcome of it.
  pub cancelled_probe_lasts :
      (now : ℕ) (later : List Traces.Call)
      → w.answer i ≡ cancels
      → All (λ c. leaves_open provider.name c ≡ true) (w.others i)
      → All (λ c. leaves_open provider.name c ≡ true) later
      → ((try_provider w i provider next p m).0 ≡ raised cancelled)
        × ((allow_request provider.name now (run later (try_provider w i provider next p m).1)).0
            ≡ ok false)
  unfolding try_provider on_allowed on_answer
  cancelled_probe_lasts now later gone quiet after =
      let m' : ReliabilityManager = (allow_request provider.name (w.allowed_at i) m).1 in
      let v' : IsValid m' = allow_request-IsValid provider.name (w.allowed_at i) m v in
      let v'' : IsValid (run (w.others i) m') = run-IsValid (w.others i) m' v' in
      let held : view provider.name (run (w.others i) m') ≡ some probing =
        run_keeps_probe provider.name (w.others i) m' v' quiet probe_granted.1 in
      rw (probe_granted.0, gone)
        (refl, probe_excludes provider.name now later (run (w.others i) m') v'' held after)
