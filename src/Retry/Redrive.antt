-- ===== src/Retry/Redrive.antt =====
-- platform/messaging/retry/consumer.go: the consumer of the retry tiers. Each handler of a poll, a wake
-- or a revocation is one function on the consumer. The maps over partitions are functions. The commits
-- are kept with the state, and so is what the client has delivered, by partition. Times are in
-- milliseconds. `text` is Go's `string(b)`.
use go_boilerplate.Prelude.{
  ℕ, suc, ◌+◌, Bool, true, false, ◌&&◌, Option, none, some, List, [], ◌∷◌, ◌++◌, String, str_eq,
  ◌==◌, ℤ, pos, ltb_ℤ, Result, ok, err, if◌then◌else◌,
}
use go_boilerplate.Dict.{insert}
use go_boilerplate.Retry.{
  Bytes, codes, Record, Cause, RetryError, RetryHeaders, dlt_topic, parse_retry_headers,
  header_last_error, header_dlt_original_topic,
}
use go_boilerplate.Retry.Escalator.{Escalator, escalate, base_topic}

pub record TopicPartition : Type 0 where
  pub tp_topic : String
  pub tp_partition : ℕ

abbrev pub same_tp : TopicPartition → TopicPartition → Bool
same_tp a b = str_eq a.tp_topic b.tp_topic && a.tp_partition == b.tp_partition

-- The records and the generation tag; the batch is due when its timer fires.
pub record HeldBatch : Type 0 where
  pub records : List Record
  pub batch_due : ℤ
  pub seq : ℕ

pub record WakeEvent : Type 0 where
  pub wake_tp : TopicPartition
  pub wake_seq : ℕ

abbrev pub escalate_retry_delay : ℕ
escalate_retry_delay = 1_000

pub record RetryConsumer : Type 0 where
  pub esc : Escalator
  pub held : TopicPartition → Option HeldBatch
  pub paused : TopicPartition → Bool
  pub next_seq : ℕ
  pub committed : TopicPartition → List Record
  pub delivered : TopicPartition → List Record

abbrev pub at_tp {ℓ} : {A : Type ℓ} → TopicPartition → A → (TopicPartition → A) → TopicPartition → A
at_tp tp a f t = if same_tp tp t then a else f t

-- What happens to the record at one place of a batch: the time, the handler's error and the
-- producer's.
pub record RedriveEnv : Type 0 where
  pub now : ℕ → ℕ
  pub handler : ℕ → Record → Option Cause
  pub fault : ℕ → Option String

-- What becomes of a record: it may be committed, or it is held with the rest until a time.
pub data Verdict : Type 0 where
  settled : Verdict
  hold_until : ℤ → Verdict

module _ (text : Bytes → String) where
  abbrev pub base_or_topic : Option Bytes → String → String
  base_or_topic none topic = topic
  base_or_topic (some b) topic = text b

  -- The record without retry headers, for the dead-letter topic.
  abbrev pub malformed_record : Record → Record
  malformed_record rec =
      let base = base_or_topic (base_topic (codes rec.topic)) rec.topic in
      record {
        topic = dlt_topic base;
        key = rec.key;
        payload = rec.payload;
        headers =
            insert header_dlt_original_topic (codes base)
              (insert header_last_error (codes "malformed: missing retry headers") rec.headers);
      }

  abbrev pub after_dlt : Option String → ℕ → Record → Escalator → Escalator × Verdict
  after_dlt (some x) now rec e = (e, hold_until (pos (now + escalate_retry_delay)))
  after_dlt none now rec e =
      (record e { produced = e.produced ++ malformed_record rec ∷ [] }, settled)

  abbrev pub after_escalate : ℕ → Escalator × Result RetryError String → Escalator × Verdict
  after_escalate now (e, err x) = (e, hold_until (pos (now + escalate_retry_delay)))
  after_escalate now (e, ok dest) = (e, settled)

  -- `handleRecord`.
  abbrev pub handle_record :
      Option Cause → Option String → ℕ → String → Record → Escalator → Escalator × Verdict
  handle_record none fault now orig rec e = (e, settled)
  handle_record (some cause) fault now orig rec e =
      after_escalate now (escalate fault now orig rec cause e)

  abbrev pub redrive_due : RedriveEnv → ℕ → Record → RetryHeaders → Escalator → Escalator × Verdict
  redrive_due env i rec h e =
      if ltb_ℤ (pos (env.now i)) h.due_at
      then (e, hold_until h.due_at)
      else handle_record (env.handler i rec) (env.fault i) (env.now i) (text h.orig_topic) rec e

  unfoldable pub redrive_one : RedriveEnv → ℕ → Record → Escalator → Escalator × Verdict
  redrive_one env i rec e = elim (parse_retry_headers rec) [
    | none ↦ after_dlt (env.fault i) (env.now i) rec e
    | some h ↦ redrive_due env i rec h e
  ]

  abbrev pub go_on_or_hold :
      List Record
      → List Record
      → (Escalator → Escalator × List Record × Option (List Record × ℤ))
      → Escalator × Verdict
      → Escalator × List Record × Option (List Record × ℤ)
  go_on_or_hold done rs next (e, settled) = next e
  go_on_or_hold done rs next (e, hold_until due) = (e, done, some (rs, due))

  -- The loop of `processRecords` from place `i` on: the records to commit, and what is held if anything
  -- is.
  unfoldable pub redrive :
      RedriveEnv
      → ℕ
      → List Record
      → List Record
      → Escalator
      → Escalator × List Record × Option (List Record × ℤ)
  unfolding redrive_one
  redrive env i [] done e = (e, done, none)
  redrive env i (r ∷ rs) done e =
      go_on_or_hold done (r ∷ rs) (redrive env (suc i) rs (done ++ r ∷ [])) (redrive_one env i r e)

  -- `holdRecords`: the tag makes an older timer's event stale.
  abbrev pub hold_records : TopicPartition → List Record → ℤ → RetryConsumer → RetryConsumer
  hold_records tp rs due c = record c {
    held = at_tp tp (some (record { records = rs; batch_due = due; seq = suc c.next_seq })) c.held;
    paused = at_tp tp true c.paused;
    next_seq = suc c.next_seq;
  }

  abbrev pub hold_rest : TopicPartition → Option (List Record × ℤ) → RetryConsumer → RetryConsumer
  hold_rest tp none c = c
  hold_rest tp (some (rs, due)) c = hold_records tp rs due c

  -- `processRecords`, with the commit of what it has settled; whether it held the rest.
  abbrev pub is_held : Option (List Record × ℤ) → Bool
  is_held none = false
  is_held (some h) = true

  unfoldable pub process_records :
      RedriveEnv → TopicPartition → List Record → RetryConsumer → RetryConsumer × Bool
  unfolding redrive
  process_records env tp rs c =
      let (e', done, rest) = redrive env 0 rs [] c.esc in
      (
        hold_rest tp rest
            (record c { esc = e'; committed = at_tp tp (c.committed tp ++ done) c.committed }),
        is_held rest,
      )

  abbrev pub resume_unless : TopicPartition → RetryConsumer × Bool → RetryConsumer
  resume_unless tp (c, true) = c
  resume_unless tp (c, false) = record c { paused = at_tp tp false c.paused }

  -- One event of `drainWakes`: a stale one is ignored.
  abbrev pub wake_batch : RedriveEnv → WakeEvent → Option HeldBatch → RetryConsumer → RetryConsumer
  wake_batch env ev none c = c
  wake_batch env ev (some batch) c =
      if batch.seq == ev.wake_seq
      then resume_unless ev.wake_tp (
          process_records env ev.wake_tp batch.records
            (record c { held = at_tp ev.wake_tp none c.held }))
      else c

  unfoldable pub drain_wake : RedriveEnv → WakeEvent → RetryConsumer → RetryConsumer
  unfolding process_records
  drain_wake env ev c = wake_batch env ev (c.held ev.wake_tp) c

  -- `processPartition`, on a poll: the client delivers nothing from a paused partition.
  unfoldable pub process_partition :
      RedriveEnv → TopicPartition → List Record → RetryConsumer → RetryConsumer
  unfolding process_records
  process_partition env tp rs c =
      if c.paused tp
      then c
      else (process_records env tp rs
          (record c { delivered = at_tp tp (c.delivered tp ++ rs) c.delivered })).0

  -- `onRevoked`: the next owner reads on from the last commit.
  unfoldable pub on_revoked : List TopicPartition → RetryConsumer → RetryConsumer
  on_revoked [] c = c
  on_revoked (tp ∷ tps) c = on_revoked tps (record c {
    held = at_tp tp none c.held;
    paused = at_tp tp false c.paused;
    delivered = at_tp tp (c.committed tp) c.delivered;
  })
