-- ===== src/Tests/Audit.antt =====
-- The theorems about the audit log and the consumer of the retry tiers at concrete inputs.
use go_boilerplate.Prelude.{
  ◌+◌, ◌≡◌, refl, true, none, some, List, [], ◌∷◌, String, ok, length, replicate, arith, ◌⊎◌,
  if◌then◌else◌, ◌==◌,
}
use go_boilerplate.Tx.{no_tx_faults, run_in_tx}
use go_boilerplate.Audit.{Metadata, Crypto, AuditEntry, PgStore, RecordEnv, fresh_audit}
use go_boilerplate.Audit.Hash.{compute_entry_hash, sorted_pairs, bytes_equal}
use go_boilerplate.Audit.Record.{record_entry}
use go_boilerplate.Audit.Verify.{
  verify_chain, verify_one_chain, clean, sorted_heads, rows_since, walk,
}
use go_boilerplate.Audit.Clean.{rows_of}
use go_boilerplate.Audit.Reachable.{AuditOp, recording, batching, run_audit_ops, run_audit_op}
use go_boilerplate.Audit.Verified.{rows_in, recorded_verifies}
use go_boilerplate.Audit.Tamper.{SameRows, IsBroken, digest}
use go_boilerplate.Audit.Shown.{tamper_evident, emptied_unnoticed}
use go_boilerplate.Audit.Drained.{
  DurableOp, staging, draining, run_durable, in_store, in_entries, drained_once,
}
use go_boilerplate.Retry.{Record, codes}
use go_boilerplate.Retry.Redrive.{TopicPartition, RedriveEnv}
use go_boilerplate.Retry.Kept.{RedriveOp, polled, revoked}

abbrev constant_hash : Crypto
constant_hash = record { sha256 = λ x. replicate 32 7; hmac = λ k x. replicate 32 9 }

abbrev plain_store : PgStore Metadata
plain_store = record {
  crypto = constant_hash;
  codec = record { write = λ m. m; read = λ m. some m };
  chain_key = [];
  chain_shards = 1;
  fnv32a = length;
}

abbrev entry : AuditEntry
entry = record {
  actor = codes "u1";
  action = codes "create";
  subject = codes "o1";
  metadata = (codes "tenant_id", codes "t1") ∷ [];
  at = some 1_234_567;
}

abbrev calm : RecordEnv String
calm = record {
  ensure_fault = none;
  lock_fault = none;
  insert_fault = λ i. none;
  advance_fault = none;
  clock = λ i. 5_000;
}

abbrev two_calls : List (AuditOp String)
two_calls =
    recording no_tx_faults calm entry ∷ batching no_tx_faults calm 1 (entry ∷ entry ∷ []) ∷ []

recorded_verifies_example :
    let db = run_audit_ops plain_store two_calls fresh_audit in
    verify_chain {E = String} plain_store none db
    ≡ ok (clean (rows_in plain_store (sorted_heads db.heads) db))
recorded_verifies_example = recorded_verifies plain_store (λ m. (m, refl, refl)) two_calls

abbrev one_call : List (AuditOp String)
one_call = recording no_tx_faults calm entry ∷ []

tamper_evident_example :
    let db = run_audit_ops plain_store one_call fresh_audit in
    SameRows plain_store (rows_of plain_store 1 db) (rows_of plain_store 1 db)
    ⊎ IsBroken (digest plain_store)
unfolding run_audit_ops run_audit_op run_in_tx record_entry verify_one_chain walk rows_since
    bytes_equal compute_entry_hash sorted_pairs
tamper_evident_example =
    let db = run_audit_ops plain_store one_call fresh_audit in
    tamper_evident {E = String} plain_store 1 0 0 db db (λ x. refl) (omega arith) (omega arith) refl
      refl refl

emptied_unnoticed_example :
    verify_chain {E = String} plain_store none (record {
      heads = (1, codes "tip") ∷ [];
      log = [];
      next_id = 9;
      pending = [];
      next_pending = 1;
    })
    ≡ ok (clean 0)
emptied_unnoticed_example = emptied_unnoticed {E = String} plain_store (record {
  heads = (1, codes "tip") ∷ [];
  log = [];
  next_id = 9;
  pending = [];
  next_pending = 1;
})

abbrev stage_and_drain : List (DurableOp String)
stage_and_drain =
    staging no_tx_faults none 5_000 entry
    ∷ draining no_tx_faults none calm 1 (1 ∷ [])
    ∷ draining no_tx_faults none calm 1 (1 ∷ [])
    ∷ []

drained_once_example :
    let (db', acked') = run_durable plain_store stage_and_drain fresh_audit [] in
    in_store (λ a b c. true) db' + in_entries (λ a b c. true) []
    ≡ in_store (λ a b c. true) (fresh_audit {J = Metadata}) + in_entries (λ a b c. true) acked'
drained_once_example = drained_once (λ a b c. true) plain_store stage_and_drain fresh_audit []

abbrev tier_partition : TopicPartition
tier_partition = record { tp_topic = "orders.commands.retry.0"; tp_partition = 0 }

abbrev bare_record : Record
bare_record = record { topic = "orders.commands.retry.0"; key = "o1"; payload = "{}"; headers = [] }

-- The second record's dead letter is not produced.
abbrev second_fails : RedriveEnv
second_fails = record {
  now = λ i. 100;
  handler = λ i r. none;
  fault = λ i. if i == 1 then some "down" else none;
}

abbrev polls : List RedriveOp
polls =
    polled second_fails tier_partition (bare_record ∷ bare_record ∷ [])
    ∷ revoked (tier_partition ∷ [])
    ∷ []
