-- ===== src/Backend/Tests.antt =====
-- A provider that answers at the third attempt.
use agenyx.Base.{
  ◌+◌, ◌*◌, ◌≤◌, suc, true, false, some, none, Value, Fields, arith, if◌then◌else◌, nat_beq, [],
}
use agenyx.Backend.{OpenAiCompatibleBackend, Wire, Metrics, answered, timed_out, chat_completion}
use agenyx.Backend.Retries.{IsSettled, longest_wait, chat_completion_counts}
use agenyx.Backend.Transient.{Decides, chat_completion-Decides}

abbrev backend : OpenAiCompatibleBackend
backend = record { provider_name = "a"; base_url = "http://a"; timeout = 60000000; max_retries = 2 }

abbrev wire : Wire
wire = record {
  post = λ n.
      if nat_beq n 0
      then answered 503 true none
      else if nat_beq n 1
      then timed_out
      else answered 200 false (some (Value.object Fields.end));
  jitter = λ n. 1000;
  interrupted = λ n. false;
}

abbrev quiet : Metrics
quiet = record {
  retryable_error = 0;
  client_error = 0;
  success = 0;
  error = 0;
  errors = [];
  retries = [];
  durations = 0;
  slept = 0;
}

chat_completion_counts_example :
    let (outcome, m') = chat_completion backend wire quiet in
    IsSettled outcome quiet m'
    × (m'.slept ≤ quiet.slept + backend.max_retries * longest_wait)
    × (m'.durations ≤ quiet.durations + suc backend.max_retries)
chat_completion_counts_example = chat_completion_counts wire (λ n. omega arith) backend quiet

chat_completion-Decides_example : Decides backend wire 0 (chat_completion backend wire quiet).0
chat_completion-Decides_example = chat_completion-Decides backend wire quiet
