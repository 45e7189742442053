-- ===== src/Worker/Views.antt =====
-- What the server keeps of one task, as its commands change it: see executor.py of the worker.
use agenyx.Base.{
  ℕ, zero, suc, ◌+◌, ◌≡◌, refl, Bool, false, Option, none, some, String, [], ◌∷◌, lookup, string_eq,
  pos, ◌+ℤ◌, Fields, Error, cancelled_error, arith, ==_refl, length, ◌==◌, length-append, str_of,
  int_of-str_of, if◌then◌else◌,
}
use agenyx.Worker.{Valkey, WorkerQueue, Payload}
use agenyx.Worker.Executor.{StateUpdate, mapping, entry, key, attempt_of}
use agenyx.Worker.Lawful.{IsLawful, IsReliable, or_else}
use agenyx.Runtime.Monad.{Attempt, returns, throws}

-- What a server keeps of one task: its counter and its status, whether its message is held, and how
-- many dead letters there are.
pub record View : Type 0 where
  pub attempt : Option String
  pub status : Option String
  pub held : Bool
  pub dead : ℕ

abbrev pub updated : StateUpdate → View → View
updated u v = record v { attempt = or_else u.attempt v.attempt; status = some u.status }

lookup-entry :
    (f name : String) (o : Option String) (rest : Payload)
    → lookup f (entry name o rest)
      ≡ (if name == f then or_else o (lookup f rest) else lookup f rest)
unfolding lookup
lookup-entry f name none rest = ground arith
lookup-entry f name (some value) rest = ground arith

or_none : (o : Option String) → or_else o none ≡ o
or_none none = refl
or_none (some x) = refl

attempt_written : (u : StateUpdate) → lookup "attempt" (mapping u) ≡ u.attempt
unfolding mapping lookup
attempt_written u = simp (lookup-entry, or_none)

status_written : (u : StateUpdate) → lookup "status" (mapping u) ≡ some u.status
unfolding mapping lookup
status_written u = refl

-- the view of a task after `n` failures that were not the last
abbrev pub tries : ℕ → View → View
tries zero v = v
tries (suc n) v = record v { attempt = some (str_of (pos (suc n))); status = some "retrying" }

pub tries-attempt : (n : ℕ) (v : View) → v.attempt ≡ none → attempt_of (tries n v).attempt ≡ pos n
unfolding attempt_of
tries-attempt zero v fresh = rw fresh refl
tries-attempt (suc n) v fresh = rw (int_of-str_of (pos (suc n))) refl

pub tried_again :
    (n : ℕ) (v : View)
    → record (tries n v) { attempt = some (str_of (pos (suc n))); status = some "retrying" }
      ≡ tries (suc n) v
tried_again zero v = refl
tried_again (suc n) v = refl

pub held_kept : (n : ℕ) (v : View) → ((tries n v).held ≡ v.held) × ((tries n v).dead ≡ v.dead)
held_kept zero v = (refl, refl)
held_kept (suc n) v = (refl, refl)

pub next_int : (n : ℕ) → pos n +ℤ pos 1 ≡ pos (suc n)
unfolding ◌+ℤ◌
next_int n = ground arith

abbrev pub attempt_in : View → Option String
attempt_in v = v.attempt

-- the agent raises an exception that `except Exception` catches
abbrev pub IsCaught : Error → Type 0
IsCaught cancelled_error = ⊥
IsCaught _ = Unit

abbrev pub IsFailure : Attempt Fields → Type 0
IsFailure (returns _) = ⊥
IsFailure (throws e) = IsCaught e.kind

module _ (V : Valkey) (law : IsLawful V) (sure : IsReliable V) (q : WorkerQueue)
    (id execution_id : String) where
  unfoldable pub view : V.State → View
  view t = record {
    attempt = law.hash t (key execution_id) "attempt";
    status = law.hash t (key execution_id) "status";
    held = law.waiting t q.stream q.group id;
    dead = length (law.entries t q.dead_letter_stream);
  }

  pub view-hset :
      (u : StateUpdate) (t : V.State)
      → view (V.hset (key execution_id) (mapping u) t).1 ≡ updated u (view t)
  unfolding view
  view-hset u t =
      rw
        (
          law.hset-hash (key execution_id) (mapping u) t
              (sure.hset (key execution_id) (mapping u) t) (key execution_id) "attempt",
          law.hset-hash (key execution_id) (mapping u) t
              (sure.hset (key execution_id) (mapping u) t) (key execution_id) "status",
          law.hset-waiting (key execution_id) (mapping u) t q.stream q.group id,
          law.hset-entries (key execution_id) (mapping u) t q.dead_letter_stream,
          ==_refl (key execution_id),
          attempt_written u,
          status_written u,
        )
        refl

  pub view-xadd :
      (m : Payload) (t : V.State)
      → view (V.xadd q.dead_letter_stream m t).1 ≡ record (view t) { dead = (view t).dead + 1 }
  unfolding view
  view-xadd m t =
      rw
        (
          law.xadd-hash q.dead_letter_stream m t (key execution_id) "attempt",
          law.xadd-hash q.dead_letter_stream m t (key execution_id) "status",
          law.xadd-waiting q.dead_letter_stream m t q.stream q.group id,
          law.xadd-entries q.dead_letter_stream m t _ (sure.xadd q.dead_letter_stream m t).1,
          length-append (law.entries t q.dead_letter_stream) (m ∷ []),
        )
        refl

  pub view-xack :
      (t : V.State) → view (V.xack q.stream q.group id t).1 ≡ record (view t) { held = false }
  unfolding view
  view-xack t =
      rw
        (
          law.xack-hash q.stream q.group id t (key execution_id) "attempt",
          law.xack-hash q.stream q.group id t (key execution_id) "status",
          law.xack-waiting q.stream q.group id t (sure.xack q.stream q.group id t),
          law.xack-entries q.stream q.group id t q.dead_letter_stream,
        )
        refl
