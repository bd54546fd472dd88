-- ===== src/Tests/Hooks.antt =====
-- The theorem about the hooks of a batch at a concrete consumer: one event type, two shards.
use go_boilerplate.Prelude.{
  ℕ, zero, suc, ◌≡◌, refl, none, some, Option, [], ◌∷◌, String, str_eq, if◌then◌else◌, ok,
}
use go_boilerplate.Tx.{TxFaults, no_tx_faults}
use go_boilerplate.Lineage.{Json, background, extract_tenant, extract_principal}
use go_boilerplate.Consume.{
  KafkaRecord, ConsumeError, handler_failed, Handler, Consumer, World, Prepared, process_record,
  replay, batch_handler, prepare,
}
use go_boilerplate.Consume.Hooks.{no_faults, hook_lost}

abbrev no_json : Json
no_json = record {
  read_headers = λ s. none;
  write_headers = λ h. "{}";
  read_roles = λ s. none;
  write_roles = λ rs. "[]";
  split_roles = λ s. [];
}

-- Counts the messages and leaves a hook.
abbrev counting : Handler ℕ String String
counting = record { event = "orders.Created.v1"; handle = λ ctx v n. (suc n, ok (some "hook")) }

abbrev two_shards : Consumer ℕ String String
two_shards = record {
  group = "g";
  by_type = ("orders.Created.v1", counting) ∷ [];
  resolve = λ k. if str_eq k "a" then 0 else 1;
  json = no_json;
}

abbrev kafka_record : String → KafkaRecord
kafka_record k = record {
  topic = "orders.events";
  key = k;
  payload = [];
  headers = ("event-type", "orders.Created.v1") ∷ ("message-id", k) ∷ [];
  partition = 0;
  offset = 7;
}

abbrev prepared : String → Prepared ℕ String String
prepared k = record {
  ctx = record background { correlation_id = k; parent_message_id = k };
  handler = counting;
  msg_id = k;
}

abbrev fresh : World ℕ String
fresh = record { shards = λ i. record { inbox = []; rest = 0 }; fired = [] }

abbrev second_down : ℕ → TxFaults (ConsumeError String)
second_down zero = no_tx_faults
second_down (suc i) = record { begin_fault = some (handler_failed "down"); commit_fault = none }

abbrev one_by_one : KafkaRecord → World ℕ String → World ℕ String × Option (ConsumeError String)
one_by_one r w = process_record two_shards background no_faults r w

hook_lost_example :
    (w' : World ℕ String) × (batch_handler two_shards one_by_one background second_down
        (λ i. no_faults)
        (kafka_record "a" ∷ kafka_record "b" ∷ [])
        fresh
      ≡ replay two_shards one_by_one 1 (kafka_record "b" ∷ []) w')
    × ((w'.shards 0).rest ≡ 1)
    × (w'.fired ≡ [])
unfolding prepare extract_tenant extract_principal
hook_lost_example =
    hook_lost two_shards background (kafka_record "a") (kafka_record "b") (prepared "a")
      (prepared "b") refl refl refl fresh 1 "hook" second_down (handler_failed "down") refl refl
      refl refl one_by_one (λ v. refl)
