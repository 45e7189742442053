-- ===== src/Worker/Safe.antt =====
-- What becomes of the message of a task, and of its dead letter: see executor.py of the worker.
use agenyx.Base.{
  ◌≡◌, refl, sym, ◌∙◌, true, some, String, List, [], ◌∷◌, ◌++◌, lookup, string_eq, ◌⊎◌, ==_refl,
  subst,
}
use agenyx.Worker.{Valkey, WorkerQueue, Payload}
use agenyx.Worker.Executor.{StateUpdate, mapping, key}
use agenyx.Worker.Lawful.{IsLawful}
use agenyx.Worker.Ensures.{Post}
use agenyx.Runtime.Monad.{Attempt, returns, throws}

module _ (V : Valkey) (law : IsLawful V) (q : WorkerQueue) (id execution_id : String) where
  -- the message is with a consumer of the group, and is delivered again
  abbrev pub IsHeld : V.State → Type 0
  IsHeld t = law.waiting t q.stream q.group id ≡ true

  abbrev pub IsCompleted : V.State → Type 0
  IsCompleted t = law.hash t (key execution_id) "status" ≡ some "completed"

  -- an entry of the dead-letter stream is about the message
  abbrev pub IsDead : V.State → Type 0
  IsDead t =
      (before : List Payload) × (m : Payload) × (after : List Payload) × (law.entries t
          q.dead_letter_stream
        ≡ before ++ m ∷ after)
      × (lookup "original_message_id" m ≡ some id)

  abbrev pub IsSafe : V.State → Type 0
  IsSafe t = IsHeld t ⊎ (IsCompleted t ⊎ IsDead t)

  pub hset-IsHeld : (k : String) (m : Payload) (t : V.State) → IsHeld t → IsHeld (V.hset k m t).1
  hset-IsHeld k m t h = law.hset-waiting k m t q.stream q.group id ∙ h

  pub hset-IsDead : (k : String) (m : Payload) (t : V.State) → IsDead t → IsDead (V.hset k m t).1
  hset-IsDead k m t (before, x, after, h, e) =
      (before, x, after, law.hset-entries k m t q.dead_letter_stream ∙ h, e)

  pub xack-IsDead : (t : V.State) → IsDead t → IsDead (V.xack q.stream q.group id t).1
  xack-IsDead t (before, x, after, h, e) =
      (before, x, after, law.xack-entries q.stream q.group id t q.dead_letter_stream ∙ h, e)

  pub xack-IsCompleted :
      (t : V.State) → IsCompleted t → IsCompleted (V.xack q.stream q.group id t).1
  xack-IsCompleted t h = law.xack-hash q.stream q.group id t (key execution_id) "status" ∙ h

  pub hget-IsHeld : (k f : String) (t : V.State) → IsHeld t → IsHeld (V.hget k f t).1
  hget-IsHeld k f t h = subst IsHeld (sym (law.hget-same k f t)) h

  -- the entry is there once it was added
  pub xadd-post :
      (m : Payload) (t : V.State)
      → lookup "original_message_id" m ≡ some id
      → IsHeld t
      → (r : Attempt String) → (V.xadd q.dead_letter_stream m t).0 ≡ r
      → Post (λ _. IsDead) (λ _. IsHeld) r (V.xadd q.dead_letter_stream m t).1
  xadd-post m t e h (returns x) same = (
    law.entries t q.dead_letter_stream,
    m,
    [],
    law.xadd-entries q.dead_letter_stream m t x same,
    e,
  )
  xadd-post m t e h (throws x) same =
      law.xadd-waiting q.dead_letter_stream m t q.stream q.group id ∙ h

  -- the status is `completed` once it was written
  pub hset-post :
      (u : StateUpdate) (t : V.State)
      → u.status ≡ "completed"
      → IsHeld t
      → (r : Attempt Unit) → (V.hset (key execution_id) (mapping u) t).0 ≡ r
      → Post (λ _. IsCompleted) (λ _. IsHeld) r (V.hset (key execution_id) (mapping u) t).1
  unfolding mapping lookup
  hset-post u t e h (returns _) same =
      law.hset-hash (key execution_id) (mapping u) t same (key execution_id) "status"
      ∙ rw (==_refl (key execution_id), e) refl
  hset-post u t e h (throws x) same = hset-IsHeld (key execution_id) (mapping u) t h
