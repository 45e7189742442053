-- ===== src/Worker/Attempts.antt =====
-- A task that always fails: see executor.py of the worker.
use agenyx.Base.{
  ℕ, zero, suc, ◌+◌, ◌<◌, ◌≡◌, refl, sym, ap, ◌∙◌, subst, true, false, none, some, String, lookup,
  string_eq, ℤ, pos, ◌+ℤ◌, ◌-ℤ◌, leb_ℤ, Bool-cases, inl, inr, Fields, Error, cancelled_error, arith,
  str_of, if◌then◌else◌,
}
use agenyx.Worker.{
  Valkey, Session, World, WorkerQueue, Payload, read_next, acknowledge, dead_letter, dead_entry,
}
use agenyx.Worker.Executor.{
  TaskExecutor, scale, in_ms, StateUpdate, mapping, key, update_state, get_attempt, wait_for_retry,
  give_up, retry_later, handle_failure, on_reply, after_run, execute, running, retry_delay, failed,
  retrying, attempt_of,
}
use agenyx.Worker.Lawful.{IsLawful, IsReliable}
use agenyx.Worker.Commands.{on_store-Ensures}
use agenyx.Worker.Ensures.{Post, Ensures, Ensures-pure, Ensures-settle, Ensures-bind}
use agenyx.Runtime.Monad.{Exception, Attempt, returns, throws, Run, pure, ◌>>=◌, ◌>>◌}
use agenyx.Worker.Views.{
  View, updated, tries, tries-attempt, tried_again, held_kept, next_int, attempt_in, IsCaught,
  IsFailure, view, view-hset, view-xadd, view-xack,
}

module _ (V : Valkey) (law : IsLawful V) (sure : IsReliable V) (q : WorkerQueue)
    (id execution_id : String) where
  abbrev pub seen : V.State → View
  seen = view V law sure q id execution_id

  abbrev Seen : View → Session V → Type 0
  Seen v s = seen s.store ≡ v

  returned :
      {A : Type 0} (Q : A → V.State → Type 0) (a : A) (r : Attempt A) (t : V.State)
      → r ≡ returns a
      → Q a t
      → Post Q (λ _ _. ⊥) r t
  returned Q a r t h k = subst (λ x. Post Q (λ _ _. ⊥) x t) (sym h) k

  reading :
      {A : Type 0} (v : View) (f : ℕ → A) (F : A → Type 0)
      → ((n : ℕ) → F (f n))
      → Ensures (Seen v) (read_next V f) (λ a s. F a × Seen v s) (λ _ _. ⊥)
  unfolding read_next
  reading v f F h = record { at = λ s p. (h s.ticks, p) }

  clock : (v : View) (f : ℕ → ℤ) → Ensures (Seen v) (read_next V f) (λ _. Seen v) (λ _ _. ⊥)
  unfolding read_next
  clock v f = record { at = λ s p. p }

  abbrev buried : View → View
  buried v = record v { dead = v.dead + 1 }

  abbrev acked : View → View
  acked v = record v { held = false }

  module _ (c : TaskExecutor) (w : World) where
    updating :
        (v : View) (u : StateUpdate)
        → Ensures
            (Seen v)
            (update_state V q c w execution_id u)
            (λ _. Seen (updated u v))
            (λ _ _. ⊥)
    unfolding update_state
    updating v u =
        on_store-Ensures V (λ t. seen t ≡ v) (λ _ t. seen t ≡ updated u v) (λ _. ⊥) _
          λ t p.
            returned (λ _ t'. seen t' ≡ updated u v) tt _ _
              (sure.hset (key execution_id) (mapping u) t)
              (view-hset V law sure q id execution_id u t ∙ ap (updated u) p)

    burying :
        (v : View) (attempt : ℤ) (intent error : String)
        → Ensures
            (Seen v)
            (dead_letter V q id execution_id intent attempt error)
            (λ _. Seen (record v { held = false; dead = v.dead + 1 }))
            (λ _ _. ⊥)
    unfolding dead_letter acknowledge
    burying v attempt intent error =
        let m = dead_entry V q id execution_id intent attempt error in
        Ensures-bind (Seen v) (λ _. Seen (record v { dead = v.dead + 1 })) _ _ _ _
          (on_store-Ensures V (λ t. seen t ≡ v) (λ _ t. seen t ≡ record v { dead = v.dead + 1 })
            (λ _. ⊥) _
            λ t p.
              returned (λ _ t'. seen t' ≡ record v { dead = v.dead + 1 }) _ _ _
                (sure.xadd q.dead_letter_stream m t).1
                (view-xadd V law sure q id execution_id m t ∙ ap buried p))
          λ entry_id.
            Ensures-bind _ (λ _. Seen (record v { held = false; dead = v.dead + 1 })) _ _ _ _
              (on_store-Ensures V (λ t. seen t ≡ record v { dead = v.dead + 1 })
                (λ _ t. seen t ≡ record v { held = false; dead = v.dead + 1 }) (λ _. ⊥) _
                λ t p.
                  returned (λ _ t'. seen t' ≡ record v { held = false; dead = v.dead + 1 }) _ _ _
                    (sure.xack q.stream q.group id t)
                    (view-xack V law sure q id execution_id t ∙ ap acked p))
              λ _. Ensures-pure _ _ _ entry_id λ s p. p

    abbrev given_up : View → ℤ → View
    given_up v attempt = record {
      attempt = some (str_of attempt);
      status = some "failed";
      held = false;
      dead = v.dead + 1;
    }

    give_up-Ensures :
        (v : View) (attempt duration : ℤ) (intent error : String)
        → Ensures
            (Seen v)
            (give_up V q c w execution_id intent id attempt duration error)
            (λ _. Seen (given_up v attempt))
            (λ _ _. ⊥)
    unfolding give_up
    give_up-Ensures v attempt duration intent error =
        Ensures-bind _ _ _ _ _ _ (burying v attempt intent error) λ entry_id.
          Ensures-bind _ _ _ _ _ _ (clock _ w.utc_now)
            λ failed_at. updating _ (failed V q c w error attempt failed_at duration entry_id)

    abbrev tried : View → ℤ → View
    tried v attempt = record v { attempt = some (str_of attempt); status = some "retrying" }

    module _ (waited : (n : ℕ) → w.waits n ≡ returns tt) where
      waiting :
          (v : View) (delay : ℤ)
          → Ensures (Seen v) (wait_for_retry V q c w delay) (λ _. Seen v) (λ _ _. ⊥)
      unfolding wait_for_retry
      waiting v delay = elim (Bool-cases (leb_ℤ delay (pos 0))) [
        | inl short ↦ rw short (Ensures-pure _ _ _ tt λ s p. p)
        | inr long ↦ rw long (
            Ensures-bind _ _ _ _ _ _ (reading v w.waits (λ r. r ≡ returns tt) waited) λ r.
              Ensures-settle _ _ _ r
                λ s (h, p). subst (λ x. Post (λ _. Seen v) (λ _ _. ⊥) x s) (sym h) p)
      ]

      retry_later-Ensures :
          (v : View) (attempt duration : ℤ) (error : String)
          → Ensures
              (Seen v)
              (retry_later V q c w execution_id attempt duration error)
              (λ _. Seen (tried v attempt))
              (λ _ _. ⊥)
      unfolding retry_later
      retry_later-Ensures v attempt duration error =
          Ensures-bind _ _ _ _ _ _ (clock v w.utc_now) λ now.
            Ensures-bind _ _ _ _ _ _ (clock v w.utc_now) λ failed_at.
              Ensures-bind _ _ _ _ _ _
                (updating v (
                  retrying V q c w error attempt failed_at
                    (now +ℤ scale (retry_delay c attempt) 1000000) duration))
                λ _. waiting (tried v attempt) (retry_delay c attempt)

      -- the seen after one more failure
      abbrev after_failure : View → ℤ → View
      after_failure v attempt =
          if leb_ℤ c.max_attempts attempt then given_up v attempt else tried v attempt

      handle_failure-Ensures :
          (v : View) (attempt started_at : ℤ) (intent error : String)
          → Ensures
              (Seen v)
              (handle_failure V q c w execution_id intent id attempt started_at error)
              (λ _. Seen (after_failure v attempt))
              (λ _ _. ⊥)
      unfolding handle_failure
      handle_failure-Ensures v attempt started_at intent error =
          Ensures-bind _ _ _ _ _ _ (clock v w.utc_now) λ now.
            elim (Bool-cases (leb_ℤ c.max_attempts attempt)) [
              | inl last ↦
                  rw last (give_up-Ensures v attempt (in_ms (now -ℤ started_at)) intent error)
              | inr more ↦ rw more (retry_later-Ensures v attempt (in_ms (now -ℤ started_at)) error)
            ]

      attempt_read :
          (v : View)
          → Ensures
              (Seen v)
              (get_attempt V q c w execution_id)
              (λ n s. (n ≡ attempt_of v.attempt) × Seen v s)
              (λ _ _. ⊥)
      unfolding get_attempt view
      attempt_read v =
          Ensures-bind _ (λ x s. (x ≡ v.attempt) × Seen v s) _ _ _ _
            (on_store-Ensures V (λ t. seen t ≡ v) (λ x t. (x ≡ v.attempt) × (seen t ≡ v)) (λ _. ⊥) _
              λ t p.
                let (x, e) = sure.hget (key execution_id) "attempt" t in
                returned (λ x t'. (x ≡ v.attempt) × (seen t' ≡ v)) x _ _ e
                  (
                    law.hget-returns (key execution_id) "attempt" t x e ∙ ap attempt_in p,
                    ap seen (law.hget-same (key execution_id) "attempt" t) ∙ p,
                  ))
            λ x. Ensures-pure _ _ _ _ λ s (h, p). (ap attempt_of h, p)

      on_reply-Ensures :
          (v : View) (kind : Error) (attempt started_at : ℤ) (intent : String) (e : Exception)
          → IsCaught kind
          → Ensures
              (Seen v)
              (on_reply V q c w kind execution_id intent id attempt started_at e)
              (λ _. Seen (after_failure v attempt))
              (λ _ _. ⊥)
      on_reply-Ensures v cancelled_error attempt started_at intent e h = elim h [ ]
      on_reply-Ensures v _ attempt started_at intent e h =
          handle_failure-Ensures v attempt started_at intent e.text

      after_run-Ensures :
          (v : View) (reply : Attempt Fields) (attempt started_at : ℤ) (intent : String)
          → IsFailure reply
          → Ensures
              (Seen v)
              (after_run V q c w reply execution_id intent id attempt started_at)
              (λ _. Seen (after_failure v attempt))
              (λ _ _. ⊥)
      after_run-Ensures v (returns result) attempt started_at intent h = elim h [ ]
      after_run-Ensures v (throws e) attempt started_at intent h =
          on_reply-Ensures v e.kind attempt started_at intent e h

      module _ (failing : (n : ℕ) → IsFailure (w.agent n)) (payload : Payload) (intent : String)
          (named : lookup "execution_id" payload ≡ some execution_id)
          (asked : lookup "intent" payload ≡ some intent) where
        abbrev started : ℤ → Run (Session V) Unit
        started attempt = do
          started_at ← read_next V w.utc_now
          update_state V q c w execution_id (running V q c w id attempt started_at)
          reply ← read_next V w.agent
          after_run V q c w reply execution_id intent id attempt started_at

        started-Ensures :
            (v : View) (attempt : ℤ)
            → Ensures (Seen v) (started attempt) (λ _. Seen (after_failure v attempt)) (λ _ _. ⊥)
        started-Ensures v attempt = Ensures-bind _ _ _ _ _ _ (clock v w.utc_now) λ started_at.
            Ensures-bind _ _ _ _ _ _ (updating v (running V q c w id attempt started_at)) λ _.
              Ensures-bind _ _ _ _ _ _
                (reading (updated (running V q c w id attempt started_at) v) w.agent IsFailure
                  failing)
                λ reply. record {
                  at = λ s (h, p).
                      (after_run-Ensures (updated (running V q c w id attempt started_at) v) reply
                          attempt started_at intent h).at
                        s p;
                }

        delivery : Run (Session V) Unit
        delivery = get_attempt V q c w execution_id >>= λ previous. started (previous +ℤ pos 1)

        delivery-Ensures :
            (v : View)
            → Ensures
                (Seen v)
                delivery
                (λ _. Seen (after_failure v (attempt_of v.attempt +ℤ pos 1)))
                (λ _ _. ⊥)
        unfolding delivery
        delivery-Ensures v = Ensures-bind _ _ _ _ _ _ (attempt_read v) λ previous. record {
          at = λ s (h, p).
              subst
                (λ n.
                  Post (λ _. Seen (after_failure v (n +ℤ pos 1))) (λ _ _. ⊥)
                    (started (previous +ℤ pos 1) s).0 (started (previous +ℤ pos 1) s).1)
                h ((started-Ensures v (previous +ℤ pos 1)).at s p);
        }

        execute_split : (s : Session V) → execute V q c w id payload s ≡ delivery s
        unfolding execute delivery pure ◌>>=◌
        execute_split s = rw (named, asked) refl

        post_view :
            (v : View) (r : Attempt Unit) (s : Session V)
            → Post (λ _. Seen v) (λ _ _. ⊥) r s
            → seen s.store ≡ v
        post_view v (returns _) s h = h
        post_view v (throws e) s h = elim h [ ]

        -- a delivery, as its seen sees it
        execute-view :
            (v : View) (s : Session V)
            → seen s.store ≡ v
            → seen (execute V q c w id payload s).1.store
              ≡ after_failure v (attempt_of v.attempt +ℤ pos 1)
        execute-view v s p = rw (execute_split s) (post_view _ _ _ ((delivery-Ensures v).at s p))

        -- deliveries in a row
        unfoldable pub deliver : ℕ → Session V → Session V
        deliver zero s = s
        deliver (suc n) s = (execute V q c w id payload (deliver n s)).1

        more : (n m : ℕ) → suc n < suc m → leb_ℤ (pos (suc m)) (pos (suc n)) ≡ false
        more n m h = ground arith

        enough : (m : ℕ) → leb_ℤ (pos (suc m)) (pos (suc m)) ≡ true
        enough m = ground arith

        module _ (m : ℕ) (limit : c.max_attempts ≡ pos (suc m)) (s : Session V)
            (fresh : (seen s.store).attempt ≡ none) where
          next_attempt :
              (n : ℕ) → attempt_of (tries n (seen s.store)).attempt +ℤ pos 1 ≡ pos (suc n)
          next_attempt n = rw (tries-attempt n (seen s.store) fresh) (next_int n)

          deliver-tries : (n : ℕ) → n < suc m → seen (deliver n s).store ≡ tries n (seen s.store)
          unfolding deliver
          deliver-tries zero h = refl
          deliver-tries (suc n) h =
              execute-view (tries n (seen s.store)) (deliver n s) (deliver-tries n (omega arith))
              ∙ rw (next_attempt n, limit, more n m h) (tried_again n (seen s.store))

          last_view :
              seen (deliver (suc m) s).store ≡ given_up (tries m (seen s.store)) (pos (suc m))
          unfolding deliver
          last_view =
              execute-view (tries m (seen s.store)) (deliver m s) (deliver-tries m (omega arith))
              ∙ rw (next_attempt m, limit, enough m) refl

          -- On a server that meets `IsLawful` and never raises, and where the waits for a retry
          -- end, a task with an id and an intent that was not tried before, and that the agent
          -- always fails, is tried a positive `max_attempts` times: with fewer deliveries its
          -- message is held as before and no dead letter is written, and the last one acknowledges
          -- the message, sets the status to `failed` and adds one dead letter.
          pub deliver_lem :
              (n : ℕ)
              → n < suc m
              → ((seen (deliver n s).store).held ≡ (seen s.store).held)
                × ((seen (deliver n s).store).dead ≡ (seen s.store).dead)
                × ((seen (deliver (suc m) s).store).held ≡ false)
                × ((seen (deliver (suc m) s).store).status ≡ some "failed")
                × ((seen (deliver (suc m) s).store).dead ≡ (seen s.store).dead + 1)
          deliver_lem n h =
              let (held, dead) = held_kept n (seen s.store) in
              let (held_last, dead_last) = held_kept m (seen s.store) in
              rw (deliver-tries n h, last_view) (held, dead, refl, refl, rw dead_last refl)
