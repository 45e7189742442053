-- ===== src/Inference/Tests.antt =====
-- A call that is answered at the second attempt.
use agenyx.Base.{
  ◌<◌, ◌≡◌, ◌⊎◌, refl, false, some, pos, pos_part, nat_beq, if◌then◌else◌, length, All, Value,
  Items, Fields, ok,
}
use agenyx.Retry.{RetryPolicy, post_init}
use agenyx.Inference.{Wire, answered, timed_out, complete, complete_once, cancels}
use agenyx.Inference.Deadline.{IsPunctual, complete_lem}

abbrev policy : RetryPolicy
policy = record { max_attempts = pos 3; base_delay = pos 250; max_delay = pos 2000; jitter = false }

abbrev wire : Wire
wire = record {
  post = λ n.
      if nat_beq n 0
      then timed_out
      else answered 200 (
          some (
            Value.object (
              Fields.field "choices"
                (Value.array (
                  Items.cons
                    (Value.object (Fields.field "message" (Value.object Fields.end) Fields.end))
                    Items.nil))
                Fields.end)));
  uniform = λ n high. high;
  monotonic = λ n. 1000;
  interrupted = λ n. false;
}

valid : post_init policy ≡ ok policy
unfolding post_init
valid = refl

complete_lem_example :
    let (o, sleeps) = complete policy wire (some 60000) in
    All (IsPunctual (some 60000)) sleeps
    × (length sleeps < pos_part policy.max_attempts)
    × ((o ≡ complete_once (wire.post (length sleeps))) ⊎ (o ≡ cancels))
complete_lem_example = complete_lem policy wire (some 60000) valid
