-- ===== src/Worker/Loss.antt =====
-- A delivery never loses its task: see executor.py of the worker.
use agenyx.Base.{
  ℕ, ◌≡◌, refl, sym, Option, none, some, String, lookup, string_eq, inl, inr, ℤ, pos, ◌+ℤ◌, ◌-ℤ◌,
  leb_ℤ, Bool-cases, Fields, Error, cancelled_error, Result, subst,
}
use agenyx.Worker.{
  Valkey, Session, World, WorkerQueue, Payload, on_store, read_next, acknowledge, dead_letter,
  dead_entry,
}
use agenyx.Worker.Executor.{
  TaskExecutor, scale, in_ms, StateUpdate, mapping, key, update_state, get_attempt, wait_for_retry,
  completed, give_up, retry_later, handle_failure, finish, on_reply, after_run, execute, required,
  running, retry_delay, failed, retrying,
}
use agenyx.Worker.Commands.{on_store-Ensures, keeps-Ensures, read_next-Ensures}
use agenyx.Worker.Lawful.{IsLawful}
use agenyx.Worker.Ensures.{
  Post, Ensures, Ensures-pure, Ensures-settle, Ensures-bind, Ensures-weaken,
}
use agenyx.Runtime.Monad.{
  Exception, Attempt, returns, throws, Run, pure, throw, settle, lift, ◌>>=◌, ◌>>◌,
}
use agenyx.Worker.Safe.{
  IsHeld, IsCompleted, IsDead, IsSafe, hset-IsHeld, hset-IsDead, xack-IsDead, xack-IsCompleted,
  hget-IsHeld, xadd-post, hset-post,
}

module _ (V : Valkey) (law : IsLawful V) (q : WorkerQueue) (id execution_id : String) where
  abbrev Held : V.State → Type 0
  Held = IsHeld V law q id execution_id

  abbrev Completed : V.State → Type 0
  Completed = IsCompleted V law q id execution_id

  abbrev Dead : V.State → Type 0
  Dead = IsDead V law q id execution_id

  abbrev Safe : V.State → Type 0
  Safe = IsSafe V law q id execution_id

  abbrev HeldIn : Session V → Type 0
  HeldIn s = Held s.store

  abbrev DeadIn : Session V → Type 0
  DeadIn s = Dead s.store

  abbrev DoneIn : Session V → Type 0
  DoneIn s = Completed s.store

  abbrev SafeIn : Session V → Type 0
  SafeIn s = Safe s.store

  -- a raise while the message is held
  held_step :
      {A : Type 0} (m : Run (Session V) A)
      → Ensures HeldIn m (λ _. HeldIn) (λ _. HeldIn)
      → Ensures HeldIn m (λ _. HeldIn) (λ _. SafeIn)
  held_step m k =
      Ensures-weaken HeldIn (λ _. HeldIn) (λ _. HeldIn) (λ _. HeldIn) (λ _. SafeIn) HeldIn m
        (λ s p. p) (λ a s p. p) (λ e s p. inl p) k

  reading : {A : Type 0} (f : ℕ → A) → Ensures HeldIn (read_next V f) (λ _. HeldIn) (λ _. SafeIn)
  reading f = held_step (read_next V f) (read_next-Ensures V Held f)

  getting : (k f : String) → Ensures HeldIn (on_store V (V.hget k f)) (λ _. HeldIn) (λ _. SafeIn)
  getting k f =
      held_step (on_store V (V.hget k f))
        (keeps-Ensures V Held (V.hget k f) (hget-IsHeld V law q id execution_id k f))

  lifting : {A : Type 0} (r : Result A) → Ensures HeldIn (lift r) (λ _. HeldIn) (λ _. SafeIn)
  unfolding lift
  lifting (Result.ok a) = record { at = λ s p. p }
  lifting (Result.raise e) = record { at = λ s p. inl p }

  module _ (c : TaskExecutor) (w : World) where
    updating :
        (u : StateUpdate)
        → Ensures HeldIn (update_state V q c w execution_id u) (λ _. HeldIn) (λ _. SafeIn)
    unfolding update_state
    updating u = held_step (on_store V (V.hset (key execution_id) (mapping u))) (
        keeps-Ensures V Held (V.hset (key execution_id) (mapping u))
          (hset-IsHeld V law q id execution_id (key execution_id) (mapping u)))

    completing :
        (u : StateUpdate)
        → u.status ≡ "completed"
        → Ensures HeldIn (update_state V q c w execution_id u) (λ _. DoneIn) (λ _. SafeIn)
    unfolding update_state
    completing u e =
        Ensures-weaken HeldIn (λ _. DoneIn) (λ _. DoneIn) (λ _. HeldIn) (λ _. SafeIn) HeldIn _
          (λ s p. p) (λ a s p. p) (λ x s p. inl p)
          (on_store-Ensures V Held (λ _. Completed) Held (V.hset (key execution_id) (mapping u))
            λ t p. hset-post V law q id execution_id u t e p _ refl)

    acknowledging : Ensures DoneIn (acknowledge V q id) (λ _. SafeIn) (λ _. SafeIn)
    unfolding acknowledge
    acknowledging =
        Ensures-weaken DoneIn (λ _. DoneIn) (λ _. SafeIn) (λ _. DoneIn) (λ _. SafeIn) DoneIn _
          (λ s p. p) (λ a s p. inr (inl p)) (λ x s p. inr (inl p))
          (keeps-Ensures V Completed (V.xack q.stream q.group id)
            (xack-IsCompleted V law q id execution_id))

    finish-Ensures :
        (attempt started_at : ℤ) (result : Fields)
        → Ensures HeldIn
            (finish V q c w execution_id id attempt started_at result)
            (λ _. SafeIn)
            (λ _. SafeIn)
    unfolding finish
    finish-Ensures attempt started_at result =
        Ensures-bind HeldIn (λ _. HeldIn) (λ _. SafeIn) (λ _. SafeIn) _ _ (reading w.utc_now)
          λ now.
            Ensures-bind HeldIn (λ _. HeldIn) (λ _. SafeIn) (λ _. SafeIn) _ _ (lifting _)
              λ steps.
                Ensures-bind HeldIn (λ _. HeldIn) (λ _. SafeIn) (λ _. SafeIn) _ _
                  (reading w.utc_now)
                  λ ended.
                    Ensures-bind HeldIn (λ _. HeldIn) (λ _. SafeIn) (λ _. SafeIn) _ _ (lifting _)
                      λ answer.
                        Ensures-bind HeldIn (λ _. DoneIn) (λ _. SafeIn) (λ _. SafeIn) _ _
                          (completing
                            (completed V q c w answer steps attempt ended
                              (in_ms (now -ℤ started_at)))
                            refl)
                          λ _. acknowledging

    dead_step :
        {A : Type 0} (m : Run (Session V) A)
        → Ensures DeadIn m (λ _. DeadIn) (λ _. DeadIn)
        → Ensures DeadIn m (λ _. DeadIn) (λ _. SafeIn)
    dead_step m k =
        Ensures-weaken DeadIn (λ _. DeadIn) (λ _. DeadIn) (λ _. DeadIn) (λ _. SafeIn) DeadIn m
          (λ s p. p) (λ a s p. p) (λ e s p. inr (inr p)) k

    updating_dead :
        (u : StateUpdate)
        → Ensures DeadIn (update_state V q c w execution_id u) (λ _. DeadIn) (λ _. DeadIn)
    unfolding update_state
    updating_dead u =
        keeps-Ensures V Dead (V.hset (key execution_id) (mapping u))
          (hset-IsDead V law q id execution_id (key execution_id) (mapping u))

    settled : (r : Attempt Unit) (s : Session V) → HeldIn s → Post (λ _. HeldIn) (λ _. SafeIn) r s
    settled (returns _) s p = p
    settled (throws e) s p = inl p

    returning :
        {A : Type 0} (m : Run (Session V) A)
        → Ensures HeldIn m (λ _. HeldIn) (λ _. SafeIn)
        → Ensures HeldIn m (λ _. SafeIn) (λ _. SafeIn)
    returning m k =
        Ensures-weaken HeldIn (λ _. HeldIn) (λ _. SafeIn) (λ _. SafeIn) (λ _. SafeIn) HeldIn m
          (λ s p. p) (λ a s p. inl p) (λ e s p. p) k

    burying :
        (attempt : ℤ) (intent error : String)
        → Ensures HeldIn
            (dead_letter V q id execution_id intent attempt error)
            (λ _. DeadIn)
            (λ _. SafeIn)
    unfolding dead_letter acknowledge lookup
    burying attempt intent error =
        Ensures-bind HeldIn (λ _. DeadIn) (λ _. DeadIn) (λ _. SafeIn) _ _
          (Ensures-weaken HeldIn (λ _. DeadIn) (λ _. DeadIn) (λ _. HeldIn) (λ _. SafeIn) HeldIn _
            (λ s p. p) (λ a s p. p) (λ x s p. inl p)
            (on_store-Ensures V Held (λ _. Dead) Held
              (V.xadd q.dead_letter_stream (dead_entry V q id execution_id intent attempt error))
              λ t p.
                xadd-post V law q id execution_id
                  (dead_entry V q id execution_id intent attempt error) t refl p _ refl))
          λ entry_id.
            Ensures-bind DeadIn (λ _. DeadIn) (λ _. DeadIn) (λ _. SafeIn) _ _
              (Ensures-weaken DeadIn (λ _. DeadIn) (λ _. DeadIn) (λ _. DeadIn) (λ _. SafeIn) DeadIn
                _ (λ s p. p) (λ a s p. p) (λ x s p. inr (inr p))
                (keeps-Ensures V Dead (V.xack q.stream q.group id)
                  (xack-IsDead V law q id execution_id)))
              λ _. Ensures-pure DeadIn (λ _. DeadIn) (λ _. SafeIn) entry_id λ s p. p

    give_up-Ensures :
        (attempt duration : ℤ) (intent error : String)
        → Ensures HeldIn
            (give_up V q c w execution_id intent id attempt duration error)
            (λ _. SafeIn)
            (λ _. SafeIn)
    unfolding give_up
    give_up-Ensures attempt duration intent error =
        Ensures-bind HeldIn (λ _. DeadIn) (λ _. SafeIn) (λ _. SafeIn) _ _
          (burying attempt intent error)
          λ entry_id.
            Ensures-bind DeadIn (λ _. DeadIn) (λ _. SafeIn) (λ _. SafeIn) _ _
              (dead_step _ (read_next-Ensures V Dead w.utc_now))
              λ failed_at.
                Ensures-weaken DeadIn (λ _. DeadIn) (λ _. SafeIn) (λ _. DeadIn) (λ _. SafeIn) DeadIn
                  _ (λ s p. p) (λ a s p. inr (inr p)) (λ x s p. inr (inr p))
                  (updating_dead (failed V q c w error attempt failed_at duration entry_id))

    waiting :
        (delay : ℤ) → Ensures HeldIn (wait_for_retry V q c w delay) (λ _. HeldIn) (λ _. SafeIn)
    unfolding wait_for_retry
    waiting delay = elim (Bool-cases (leb_ℤ delay (pos 0))) [
      | inl short ↦ rw short (Ensures-pure HeldIn (λ _. HeldIn) (λ _. SafeIn) tt λ s p. p)
      | inr long ↦ rw long (
          Ensures-bind HeldIn (λ _. HeldIn) (λ _. HeldIn) (λ _. SafeIn) _ _ (reading w.waits)
            λ r. Ensures-settle HeldIn (λ _. HeldIn) (λ _. SafeIn) r λ s p. settled r s p)
    ]

    retry_later-Ensures :
        (attempt duration : ℤ) (error : String)
        → Ensures HeldIn
            (retry_later V q c w execution_id attempt duration error)
            (λ _. SafeIn)
            (λ _. SafeIn)
    unfolding retry_later
    retry_later-Ensures attempt duration error =
        Ensures-bind HeldIn (λ _. HeldIn) (λ _. SafeIn) (λ _. SafeIn) _ _ (reading w.utc_now)
          λ now.
            Ensures-bind HeldIn (λ _. HeldIn) (λ _. SafeIn) (λ _. SafeIn) _ _ (reading w.utc_now)
              λ failed_at.
                Ensures-bind HeldIn (λ _. HeldIn) (λ _. SafeIn) (λ _. SafeIn) _ _
                  (updating (
                    retrying V q c w error attempt failed_at
                      (now +ℤ scale (retry_delay c attempt) 1000000) duration))
                  λ _. returning _ (waiting (retry_delay c attempt))

    handle_failure-Ensures :
        (attempt started_at : ℤ) (intent error : String)
        → Ensures HeldIn
            (handle_failure V q c w execution_id intent id attempt started_at error)
            (λ _. SafeIn)
            (λ _. SafeIn)
    unfolding handle_failure
    handle_failure-Ensures attempt started_at intent error =
        Ensures-bind HeldIn (λ _. HeldIn) (λ _. SafeIn) (λ _. SafeIn) _ _ (reading w.utc_now)
          λ now. elim (Bool-cases (leb_ℤ c.max_attempts attempt)) [
            | inl last ↦ rw last (give_up-Ensures attempt (in_ms (now -ℤ started_at)) intent error)
            | inr more ↦ rw more (retry_later-Ensures attempt (in_ms (now -ℤ started_at)) error)
          ]

    raising :
        (e : Exception) → Ensures {A = Unit} HeldIn (settle (throws e)) (λ _. SafeIn) (λ _. SafeIn)
    raising e = Ensures-settle HeldIn (λ _. SafeIn) (λ _. SafeIn) (throws e) λ s p. inl p

    on_reply-Ensures :
        (kind : Error) (attempt started_at : ℤ) (intent : String) (e : Exception)
        → Ensures HeldIn
            (on_reply V q c w kind execution_id intent id attempt started_at e)
            (λ _. SafeIn)
            (λ _. SafeIn)
    on_reply-Ensures cancelled_error attempt started_at intent e = raising e
    on_reply-Ensures _ attempt started_at intent e =
        handle_failure-Ensures attempt started_at intent e.text

    after_run-Ensures :
        (reply : Attempt Fields) (attempt started_at : ℤ) (intent : String)
        → Ensures HeldIn
            (after_run V q c w reply execution_id intent id attempt started_at)
            (λ _. SafeIn)
            (λ _. SafeIn)
    after_run-Ensures (returns result) attempt started_at intent =
        finish-Ensures attempt started_at result
    after_run-Ensures (throws e) attempt started_at intent =
        on_reply-Ensures e.kind attempt started_at intent e

    delivery : (intent : String) → Run (Session V) Unit
    delivery intent = do
      previous ← get_attempt V q c w execution_id
      started_at ← read_next V w.utc_now
      update_state V q c w execution_id (running V q c w id (previous +ℤ pos 1) started_at)
      reply ← read_next V w.agent
      after_run V q c w reply execution_id intent id (previous +ℤ pos 1) started_at

    attempt_read : Ensures HeldIn (get_attempt V q c w execution_id) (λ _. HeldIn) (λ _. SafeIn)
    unfolding get_attempt
    attempt_read =
        Ensures-bind HeldIn (λ _. HeldIn) (λ _. HeldIn) (λ _. SafeIn) _ _
          (getting (key execution_id) "attempt")
          λ state. Ensures-pure HeldIn (λ _. HeldIn) (λ _. SafeIn) _ λ s p. p

    delivery-Ensures :
        (intent : String) → Ensures HeldIn (delivery intent) (λ _. SafeIn) (λ _. SafeIn)
    unfolding delivery
    delivery-Ensures intent =
        Ensures-bind HeldIn (λ _. HeldIn) (λ _. SafeIn) (λ _. SafeIn) _ _ attempt_read
          λ previous.
            Ensures-bind HeldIn (λ _. HeldIn) (λ _. SafeIn) (λ _. SafeIn) _ _ (reading w.utc_now)
              λ started_at.
                Ensures-bind HeldIn (λ _. HeldIn) (λ _. SafeIn) (λ _. SafeIn) _ _
                  (updating (running V q c w id (previous +ℤ pos 1) started_at))
                  λ _.
                    Ensures-bind HeldIn (λ _. HeldIn) (λ _. SafeIn) (λ _. SafeIn) _ _
                      (reading w.agent)
                      λ reply. after_run-Ensures reply (previous +ℤ pos 1) started_at intent

    asked :
        (intent : Option String)
        → Ensures HeldIn (required {S = Session V} intent >>= delivery) (λ _. SafeIn) (λ _. SafeIn)
    unfolding throw pure ◌>>=◌
    asked none = record { at = λ s p. inl p }
    asked (some intent) = delivery-Ensures intent

    post_holds :
        {A : Type 0} (r : Attempt A) (t : V.State) → Post (λ _. Safe) (λ _. Safe) r t → Safe t
    post_holds (returns a) t h = h
    post_holds (throws e) t h = h

    unlifted :
        (r : Attempt Unit) (s : Session V)
        → Post (λ _. SafeIn) (λ _. SafeIn) r s
        → Post (λ _. Safe) (λ _. Safe) r s.store
    unlifted (returns a) s h = h
    unlifted (throws e) s h = h

    execute_split :
        (payload : Payload) (s : Session V)
        → lookup "execution_id" payload ≡ some execution_id
        → execute V q c w id payload s ≡ (required (lookup "intent" payload) >>= delivery) s
    unfolding execute delivery pure ◌>>=◌
    execute_split payload s h = rw h refl

    -- On a server that meets `IsLawful`, a delivery never loses its task, whatever the agent
    -- answers and whichever commands of the server fail: if the message names the execution, was
    -- held by the group when the delivery began and no other worker acts on the task meanwhile,
    -- then afterwards it is still held, and so is delivered again, or the state of the execution is
    -- `completed`, or the dead-letter stream has an entry about it.
    pub execute-IsSafe :
        (payload : Payload) (s : Session V)
        → lookup "execution_id" payload ≡ some execution_id
        → IsHeld V law q id execution_id s.store
        → IsSafe V law q id execution_id (execute V q c w id payload s).1.store
    execute-IsSafe payload s h p =
        subst (λ (x : Attempt Unit × Session V). Safe x.1.store) (sym (execute_split payload s h))
          (post_holds ((required (lookup "intent" payload) >>= delivery) s).0 _
            (unlifted _ _ ((asked (lookup "intent" payload)).at s p)))
