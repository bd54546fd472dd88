-- ===== src/Tests/Delivery.antt =====
-- The theorems about the delivery of messages at concrete inputs.
use go_boilerplate.Prelude.{
  ℕ, suc, ◌+◌, ◌*◌, ◌^◌, ◌≡◌, refl, true, false, none, some, List, [], ◌∷◌, ◌++◌, String, arith,
  pos, ok, err, length,
}
use Prim.Native.Nat.{min}
use go_boilerplate.Tx.{no_tx_faults}
use go_boilerplate.Inbox.{
  InboxKey, InboxDb, Effect, BatchItem, is_seen, once, process_once, process_batch_once,
  insert_inbox,
}
use go_boilerplate.Inbox.Once.{Delivery, deliver, deliver_all, AppliedOnce, delivered_exactly_once}
use go_boilerplate.Inbox.Batch.{process_each, process_batch_once_lem}
use go_boilerplate.Outbox.{Message, OutboxRow, RelayDb, RelayConfig, healthy, drain}
use go_boilerplate.Outbox.Sending.{
  OutboxOp, enqueuing, relaying, cleaning, run_op, run_ops, is_safe, never_lost,
}
use go_boilerplate.Outbox.Draining.{waiting, steady, drain_sends_all}
use go_boilerplate.Redelivery.{redelivery_delay, redelivery_backoff_floor, redelivery_backoff_cap}
use go_boilerplate.Redelivery.Pause.{redelivery_delay-min}

abbrev message : String → Message
message id = record {
  id = id;
  topic = "orders.events";
  aggregate_type = "order";
  aggregate_id = "o1";
  event_type = "created";
  payload = "{}";
  headers = "";
  created_at = 5;
}

abbrev pending : String → OutboxRow
pending id = record { msg = message id; published_at = none }

abbrev three_rows : RelayDb
three_rows = record { rows = pending "m1" ∷ pending "m2" ∷ pending "m3" ∷ []; sent = [] }

abbrev by_twos : RelayConfig
by_twos = record { batch_size = 2; shard_count = 1; shard_index = 0 }

abbrev relay_then_clean : List (OutboxOp String)
relay_then_clean = relaying by_twos (healthy true) ∷ cleaning 9 ∷ []

never_lost_example :
    is_safe "m9" (
      run_ops
        (λ k. pos 3)
        relay_then_clean
        (run_op {E = String} (λ k. pos 3) (enqueuing (message "m9")) three_rows))
    ≡ true
never_lost_example = never_lost (λ k. pos 3) (message "m9") relay_then_clean three_rows

drain_sends_all_example :
    (db' : RelayDb) × (drain 4 (λ k. pos 3) by_twos (λ j. steady {E = String} false) 0 three_rows
      ≡ some (db', none))
    × (db'.sent ≡ three_rows.sent ++ waiting three_rows.rows)
    × (waiting db'.rows ≡ [])
unfolding waiting
drain_sends_all_example =
    drain_sends_all (λ k. pos 3) by_twos (omega arith) {E = String} false 4 0 three_rows
      (omega arith) refl (omega arith)

redelivery_delay-min_example :
    redelivery_delay 60 ≡ min (redelivery_backoff_floor * 2 ^ 60) redelivery_backoff_cap
redelivery_delay-min_example = redelivery_delay-min 60

abbrev inbox_key : String → InboxKey
inbox_key id = record { consumer = "payments"; message_id = id }

-- A counter, and a message that fails.
abbrev count_up : InboxKey → Effect ℕ String
count_up k n = (suc n, none)

abbrev delivery : String → Delivery String
delivery id = record { key = inbox_key id; tx = no_tx_faults; fault = none }

delivered_exactly_once_example :
    let end =
      deliver_all count_up
        ((delivery "a" ∷ []) ++ delivery "b" ∷ delivery "a" ∷ [])
        (record { inbox = []; rest = 0 }) in
    AppliedOnce count_up end.inbox 0 end.rest × (is_seen (inbox_key "b") end.inbox ≡ true)
unfolding deliver deliver_all process_once once insert_inbox
delivered_exactly_once_example =
    delivered_exactly_once count_up (delivery "a" ∷ []) (delivery "a" ∷ []) (delivery "b") 0
      {b = true} refl

abbrev item : String → BatchItem ℕ String
item id = record { item_id = id; item_fn = λ n. (suc n, none); item_fault = none }

abbrev empty_inbox : InboxDb ℕ
empty_inbox = record { inbox = []; rest = 0 }

process_batch_once_lem_example :
    let (db', r) =
      process_batch_once no_tx_faults "payments"
        (item "a" ∷ item "b" ∷ item "a" ∷ [])
        empty_inbox in
    ((e : String) → r ≡ err e → db' ≡ empty_inbox)
    × ((m : ℕ)
        → r ≡ ok m
        → (db' ≡ process_each "payments" (item "a" ∷ item "b" ∷ item "a" ∷ []) empty_inbox)
          × (length db'.inbox ≡ length empty_inbox.inbox + m))
process_batch_once_lem_example =
    process_batch_once_lem no_tx_faults "payments" (item "a" ∷ item "b" ∷ item "a" ∷ []) empty_inbox
