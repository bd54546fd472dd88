-- ===== src/Retry/Kept.antt =====
-- platform/messaging/retry/consumer.go: no record of a retry tier is lost or overtaken.
use go_boilerplate.Prelude.{◌≡◌, Bool, false, Option, none, List, [], ◌∷◌, ◌++◌, String}
use go_boilerplate.Retry.{Bytes, Record}
use go_boilerplate.Retry.Escalator.{Escalator}
use go_boilerplate.Retry.Redrive.{
  TopicPartition, HeldBatch, WakeEvent, RetryConsumer, RedriveEnv, drain_wake, process_partition,
  on_revoked,
}
use go_boilerplate.Retry.Passes.{held_records, holds}

-- The events of the consumer's loop.
pub data RedriveOp : Type 0 where
  polled : RedriveEnv → TopicPartition → List Record → RedriveOp
  woken : RedriveEnv → WakeEvent → RedriveOp
  revoked : List TopicPartition → RedriveOp

abbrev pub fresh_consumer : Escalator → RetryConsumer
fresh_consumer e = record {
  esc = e;
  held = λ t. none;
  paused = λ t. false;
  next_seq = 0;
  committed = λ t. [];
  delivered = λ t. [];
}

-- What is committed and what is held are what was delivered, and a partition is paused while it holds.
abbrev pub Kept : List Record → Option HeldBatch → Bool → List Record → Type 0
Kept committed held paused delivered =
    (committed ++ held_records held ≡ delivered) × (paused ≡ holds held)

abbrev pub KeptAt : RetryConsumer → TopicPartition → Type 0
KeptAt c t = Kept (c.committed t) (c.held t) (c.paused t) (c.delivered t)

abbrev pub AllKept : RetryConsumer → Type 0
AllKept c = (t : TopicPartition) → KeptAt c t

module _ (text : Bytes → String) where
  unfoldable pub run_redrive : List RedriveOp → RetryConsumer → RetryConsumer
  run_redrive [] c = c
  run_redrive (polled env tp rs ∷ os) c = run_redrive os (process_partition text env tp rs c)
  run_redrive (woken env ev ∷ os) c = run_redrive os (drain_wake text env ev c)
  run_redrive (revoked tps ∷ os) c = run_redrive os (on_revoked text tps c)
