-- ===== src/Worker/Tests.antt =====
-- A worker over the server in memory.
use agenyx.Base.{
  insert, ◌≡◌, refl, ℕ, ◌*◌, ◌+◌, true, false, none, some, [], ◌∷◌, lookup, string_eq, pos, Value,
  Fields, runtime_error, cancelled_error, ◌+ℤ◌, arith,
}
use agenyx.Worker.{Session, World, WorkerQueue, Payload}
use agenyx.Worker.Executor.{TaskExecutor, execute}
use agenyx.Worker.Executor.{get_attempt, update_state, mapping, attempt_of}
use agenyx.Worker.Loop.{
  rounds, round, shutdown_is_set, recover_pending, recover_all, process_streams, process_entries,
  process,
}
use agenyx.Worker.{on_store, read_next, Valkey, claim_pending, read}
use agenyx.Worker.Memory.{Server, memory, memory-IsLawful, memory-IsReliable}
use agenyx.Worker.Safe.{IsSafe}
use agenyx.Worker.Loss.{execute-IsSafe}
use agenyx.Worker.Views.{View, view}
use agenyx.Worker.Attempts.{deliver, deliver_lem}
use agenyx.Runtime.Monad.{returns, throws, try, settle, pure, gets, modify, ◌>>=◌}

abbrev queue : WorkerQueue
queue = record {
  stream = "agenyx:tasks";
  group = "workers";
  consumer = "worker-1";
  dead_letter_stream = "agenyx:tasks:dead";
  pending_idle_ms = 10000;
  pending_batch_size = 10;
}

abbrev executor : TaskExecutor
executor = record {
  max_attempts = pos 3;
  retry_base_delay_seconds = pos 2;
  retry_max_delay_seconds = pos 30;
  isoformat = λ t. "2026-01-01T00:00:00+00:00";
  fromisoformat = λ t. none;
}

abbrev task : Payload
task = ("execution_id", "e1") ∷ ("intent", "add 2 and 3") ∷ []

abbrev session : Session memory
session = record {
  store = record {
    hashes = [];
    pending = (("agenyx:tasks", ("workers", "1-0")), task) ∷ [];
    streams = [];
  };
  ticks = 0;
  shutdown = false;
}

-- the agent answers
abbrev answering : World
answering = record {
  utc_now = λ n. pos (n * 1000);
  agent = λ n.
      returns (
        Fields.field "answer" (Value.str "5")
          (Fields.field "steps" (Value.int (pos 1)) Fields.end));
  signals = λ n. false;
  waits = λ n. returns tt;
  busy_group = λ s. true;
}

-- the agent is down
abbrev down : World
down = record {
  utc_now = λ n. pos (n * 1000);
  agent = λ n. throws (record { kind = runtime_error; text = "connection refused" });
  signals = λ n. false;
  waits = λ n. returns tt;
  busy_group = λ s. true;
}

is_held : memory-IsLawful.waiting session.store "agenyx:tasks" "workers" "1-0" ≡ true
unfolding memory-IsLawful lookup
is_held = refl

has_id : lookup "execution_id" task ≡ some "e1"
unfolding lookup
has_id = refl

has_intent : lookup "intent" task ≡ some "add 2 and 3"
unfolding lookup
has_intent = refl

execute-IsSafe_example :
    IsSafe memory memory-IsLawful queue "1-0" "e1"
      (execute memory queue executor answering "1-0" task session).1.store
execute-IsSafe_example =
    execute-IsSafe memory memory-IsLawful queue "1-0" "e1" executor answering task session has_id
      is_held

abbrev of_task : Server → View
of_task = view memory memory-IsLawful memory-IsReliable queue "1-0" "e1"

is_fresh : (of_task session.store).attempt ≡ none
unfolding view memory-IsLawful lookup
is_fresh = refl

abbrev after : ℕ → Session memory
after n =
    deliver memory memory-IsLawful memory-IsReliable queue "1-0" "e1" executor down (λ n. refl)
      (λ n. tt) task "add 2 and 3" has_id has_intent n session

deliver_lem_example :
    ((of_task (after 2).store).held ≡ (of_task session.store).held)
    × ((of_task (after 2).store).dead ≡ (of_task session.store).dead)
    × ((of_task (after 3).store).held ≡ false)
    × ((of_task (after 3).store).status ≡ some "failed")
    × ((of_task (after 3).store).dead ≡ (of_task session.store).dead + 1)
deliver_lem_example =
    deliver_lem memory memory-IsLawful memory-IsReliable queue "1-0" "e1" executor down (λ n. refl)
      (λ n. tt) task "add 2 and 3" has_id has_intent 2 refl session is_fresh 2 (omega arith)

-- the call of the agent is cancelled
abbrev stopped : World
stopped = record down { agent = λ n. throws (record { kind = cancelled_error; text = "" }) }

-- a server that hands out the task at every read
abbrev feeding : Valkey
feeding = record memory {
  xreadgroup = λ stream group consumer s. (returns ((stream, ("1-0", task) ∷ []) ∷ []), s);
}

abbrev fed : Session feeding
fed = record { store = session.store; ticks = 0; shutdown = false }

stops_loop :
    (rounds feeding queue executor stopped 1 fed).0
    ≡ throws (record { kind = cancelled_error; text = "" })
unfolding rounds round shutdown_is_set recover_pending recover_all claim_pending read
    process_streams process_entries process execute get_attempt update_state mapping on_store
    read_next lookup insert attempt_of try settle pure gets modify ◌>>=◌ ◌+ℤ◌
stops_loop = refl
