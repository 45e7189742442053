-- ===== src/Service/Holding.antt =====
-- A request gives back what it took: see `chat_completions` of main.py.
use agenyx.Base.{
  ℕ, zero, suc, ◌+◌, ◌-◌, ◌≡◌, ◌≢◌, refl, ap, ◌∙◌, Bool, true, false, some, String, Dict, lookup,
  insert, lookup-insert, string_eq, Fields, ◌==◌, ==_iff, ==_refl, leb, Value, ℤ, pos, negsuc, ◌+ℤ◌,
  ◌-ℤ◌, ok, if◌then◌else◌, Bool-cases, inl, inr, ◌⊎◌, arith,
}
use agenyx.Concurrency.{InferenceConcurrencyLimiter, try_acquire, release}
use agenyx.Concurrency.Slots
use agenyx.Failover.{FailoverManager, Failure, Reply}
use agenyx.Models.{ModelDefinition, ModelRegistry}
use agenyx.Service.{ApiError, Settings, Request, Checked, passes, rejects, validate, as_dict}
use agenyx.Service.Chat.{
  Service, World, Ending, refuses, over_released, gauge, inc, on_failure, on_reply, give_back,
  run_admitted, respond, responds, escapes, unrendered, admit, chat_completions, value_or_zero,
}

-- the handlers leave the limiter and the gauges alone
record IsQuiet (s : Service) (o : Ending × Service) : Type 0 where
  limiter : o.1.limiter ≡ s.limiter
  in_progress : o.1.in_progress ≡ s.in_progress
  ending : o.0 ≢ over_released

on_failure-IsQuiet :
    (model : String) (failure : Failure) (s : Service) → IsQuiet s (on_failure model failure s)
unfolding on_failure
on_failure-IsQuiet model Failure.bad_payload s = record {
  limiter = refl;
  in_progress = refl;
  ending = λ h. cc;
}
on_failure-IsQuiet model Failure.cancelled s = record {
  limiter = refl;
  in_progress = refl;
  ending = λ h. cc;
}
on_failure-IsQuiet model _ s = record { limiter = refl; in_progress = refl; ending = λ h. cc }

on_reply-IsQuiet :
    (model : String) (reply : Reply) (s : Service) → IsQuiet s (on_reply model reply s)
unfolding on_reply
on_reply-IsQuiet model (Reply.returned result) s = record {
  limiter = refl;
  in_progress = refl;
  ending = λ h. cc;
}
on_reply-IsQuiet model (Reply.raised failure) s = on_failure-IsQuiet model failure s

up_and_down : (n : ℤ) → n +ℤ pos 1 -ℤ pos 1 ≡ n
unfolding ◌+ℤ◌ ◌-ℤ◌
up_and_down (pos n) = ground arith
up_and_down (negsuc zero) = ground arith
up_and_down (negsuc (suc n)) = ground arith

restored :
    (b : Bool) (k model : String) (d : Dict String ℤ)
    → (b ≡ true → model ≡ k)
    → value_or_zero (
        if b
        then some (gauge model d)
        else (if b then some (gauge model d +ℤ pos 1) else lookup k d))
      ≡ gauge k d
restored true k model d h = ap (λ m. gauge m d) (h refl)
restored false k model d h = refl

gauge-restored :
    (k model : String) (d : Dict String ℤ)
    → let raised = insert model (gauge model d +ℤ pos 1) d in
      gauge k (insert model (gauge model raised -ℤ pos 1) raised) ≡ gauge k d
gauge-restored k model d =
    let raised = insert model (gauge model d +ℤ pos 1) d in
    rw
      (
        lookup-insert k model (gauge model raised -ℤ pos 1) raised,
        lookup-insert model model (gauge model d +ℤ pos 1) d,
        lookup-insert k model (gauge model d +ℤ pos 1) d,
      )
      (rw (==_refl model)
        (rw (up_and_down (gauge model d)) (restored (model == k) k model d (==_iff model k).0)))

not_zero : (n : ℕ) → leb (suc n) 0 ≡ false
not_zero n = ground arith

before : (n : ℕ) → suc n - 1 ≡ n
before n = omega arith

release-suc :
    (n : ℕ) (l : InferenceConcurrencyLimiter)
    → l.active ≡ suc n
    → release l ≡ (ok tt, record l { active = n })
unfolding release
release-suc n l h = rw h (rw (not_zero n, before n) refl)

-- what a request leaves once it had a slot, where the slots that are held after the waiting, its
-- own included, are `suc n`
record IsRestored (s : Service) (n : ℕ) (o : Ending × Service) : Type 0 where
  active : o.1.limiter.active ≡ n
  gauges : (k : String) → gauge k o.1.in_progress ≡ gauge k s.in_progress
  ending : o.0 ≢ over_released

give_back-IsRestored :
    (s : Service) (n : ℕ) (model : String) (s' : Service) (o : Ending × Service)
    → s'.limiter.active ≡ suc n
    → s'.in_progress ≡ (inc model s).in_progress
    → IsQuiet s' o
    → IsRestored s n (give_back model o)
unfolding give_back
give_back-IsRestored s n model s' (ending, t) held gauges quiet =
    rw
      (release-suc n t.limiter
        (ap (λ (l : InferenceConcurrencyLimiter). l.active) quiet.limiter ∙ held))
      (record {
        active = refl;
        gauges = λ k. rw (quiet.in_progress, gauges) (gauge-restored k model s.in_progress);
        ending = quiet.ending;
      })

run_admitted-IsRestored :
    (f : FailoverManager) (w : World) (payload : Dict String Value) (model : String) (s : Service)
    (n : ℕ)
    → (Slots.run w.slots s.limiter.active s.limiter).1.active ≡ suc n
    → IsRestored s n (run_admitted f w payload model s)
unfolding run_admitted
run_admitted-IsRestored f w payload model s n held =
    give_back-IsRestored s n model _ _ held refl (on_reply-IsQuiet model _ _)

respond-IsRestored :
    (w : World) (s : Service) (n : ℕ) (o : Ending × Service)
    → IsRestored s n o
    → IsRestored s n (respond w o)
respond-IsRestored w s n (responds v provider model, t) h =
    elim (Bool-cases (w.renders v provider model)) [
      | inl built ↦ rw built h
      | inr unbuilt ↦ rw unbuilt (record { active = h.active; gauges = h.gauges; ending = λ k. cc })
    ]
respond-IsRestored w s n (refuses _, t) h = h
respond-IsRestored w s n (escapes _, t) h = h
respond-IsRestored w s n (over_released, t) h = h
respond-IsRestored w s n (unrendered, t) h = h

abbrev pub occupied : InferenceConcurrencyLimiter → InferenceConcurrencyLimiter
occupied l = record l { active = l.active + 1 }

counts :
    (w : World) (l : InferenceConcurrencyLimiter) (n : ℕ)
    → leb l.max_concurrency l.active ≡ false
    → (Slots.run w.slots (l.active + 1) (occupied l)).0 ≡ suc n
    → (Slots.run w.slots (l.active + 1) (occupied l)).1.active ≡ suc n
counts w l n room held =
    (Slots.run-counts_from w.slots (l.active + 1) (occupied l) refl (ground arith)).0 ∙ held

abbrev IsOver : ℕ → Service → Ending × Service → Type 0
IsOver n s o = ((e : ApiError) × (o ≡ (refuses e, s))) ⊎ IsRestored s n o

admit-IsOver :
    (f : FailoverManager) (w : World) (payload : Dict String Value) (model : String) (s : Service)
    (n : ℕ)
    → (Slots.run w.slots (s.limiter.active + 1) (occupied s.limiter)).0 ≡ suc n
    → IsOver n s (admit f w payload model s)
unfolding admit try_acquire
admit-IsOver f w payload model s n held =
    elim (Bool-cases (leb s.limiter.max_concurrency s.limiter.active)) [
      | inl full ↦ rw full (inl (_, refl))
      | inr room ↦ rw room (
          inr (record {
            active = (got room).active;
            gauges = (got room).gauges;
            ending = (got room).ending;
          }))
    ]
  where
    got :
        leb s.limiter.max_concurrency s.limiter.active ≡ false
        → IsRestored
            (record s { limiter = occupied s.limiter })
            n
            (respond w (run_admitted f w payload model (record s { limiter = occupied s.limiter })))
    got room = respond-IsRestored w _ n _ (
        run_admitted-IsRestored f w payload model (record s { limiter = occupied s.limiter }) n
          (counts w s.limiter n room held))

checked-IsOver :
    (f : FailoverManager) (w : World) (s : Service) (n : ℕ)
    (checked : Checked (Fields × ModelDefinition))
    → (Slots.run w.slots (s.limiter.active + 1) (occupied s.limiter)).0 ≡ suc n
    → IsOver n s (elim checked as (λ _. Ending × Service) [
      | rejects e ↦ (refuses e, s)
      | passes (payload, model) ↦ admit f w (as_dict payload) model.model_id s
    ])
checked-IsOver f w s n (rejects e) held = inl (e, refl)
checked-IsOver f w s n (passes (payload, model)) held =
    admit-IsOver f w (as_dict payload) model.model_id s n held

-- A request never keeps a slot. It is refused by an error of the API and changes nothing; or,
-- however it ends, a cancellation included, it has given its slot back: where the requests that
-- hold a slot when it stops waiting are `suc n` with itself, the limiter counts `n` afterwards, every
-- gauge is as before, and the release does not raise.
pub chat_completions_restores :
    (c : Settings) (models : ModelRegistry) (f : FailoverManager) (w : World) (r : Request)
    (s : Service) (n : ℕ)
    → (Slots.run w.slots (s.limiter.active + 1) (occupied s.limiter)).0 ≡ suc n
    → let o = chat_completions c models f w r s in
      ((e : ApiError) × (o ≡ (refuses e, s)))
      ⊎ ((o.1.limiter.active ≡ n)
          × ((k : String) → gauge k o.1.in_progress ≡ gauge k s.in_progress)
          × (o.0 ≢ over_released))
unfolding chat_completions
chat_completions_restores c models f w r s n held =
    elim (checked-IsOver f w s n (validate c models r) held) [
      | inl refused ↦ inl refused
      | inr over ↦ inr (over.active, over.gauges, over.ending)
    ]
