-- ===== src/Audit/Record.antt =====
-- platform/security/audit/audit.go: what is written to the log.
use go_boilerplate.Prelude.{
  ℕ, suc, ◌+◌, ◌%◌, Bool, not, ◌&&◌, Option, none, some, List, [], ◌∷◌, ◌++◌, ltb, leb, Result, ok,
  err, if◌then◌else◌, Bytes,
}
use go_boilerplate.Tx.{TxFaults, run_in_tx}
use go_boilerplate.Audit.{
  AuditEntry, AuditRow, AuditDb, PgStore, AuditError, sql, no_rows, RecordEnv, micros, entry_time,
  find_head, ensure_head, set_head,
}
use go_boilerplate.Audit.Hash.{compute_entry_hash}

abbrev pub insert_row : {J : Type 0} → AuditRow J → AuditDb J → AuditDb J
insert_row r db = record db { log = db.log ++ r ∷ []; next_id = suc db.next_id }

module _ {J : Type 0} (store : PgStore J) where
  -- The shard's index is taken to fit the source's int16.
  abbrev pub chain_id_for : Bytes → ℕ
  chain_id_for actor =
      if leb store.chain_shards 1 then 1 else 1 + store.fnv32a actor % store.chain_shards

  -- The row that is inserted; the hash is over the time before the column takes it.
  abbrev pub row_of : ℕ → ℕ → Bytes → ℕ → AuditEntry → AuditRow J
  row_of id chain prev now e = record {
    id = id;
    chain = chain;
    row_actor = e.actor;
    row_action = e.action;
    row_subject = e.subject;
    row_metadata = store.codec.write e.metadata;
    created_at = micros (entry_time e.at now);
    prev_hash = prev;
    entry_hash =
        compute_entry_hash store.crypto store.chain_key prev e.actor e.action e.subject
          (entry_time e.at now) e.metadata;
  }

module _ {J E : Type 0} (store : PgStore J) where
  abbrev pub locked_head :
      RecordEnv E
      → ℕ
      → (Bytes → AuditDb J → AuditDb J × Result (AuditError E) (Unit {0}))
      → AuditDb J
      → AuditDb J × Result (AuditError E) (Unit {0})
  locked_head env chain body db = elim env.lock_fault [
    | some x ↦ (db, err (sql x))
    | none ↦ elim (find_head chain db.heads) [ none ↦ (db, err no_rows) | some h ↦ body h db ]
  ]

  -- The chain head, created where the log is sharded, then locked and read.
  abbrev pub with_chain_head :
      RecordEnv E
      → ℕ
      → (Bytes → AuditDb J → AuditDb J × Result (AuditError E) (Unit {0}))
      → AuditDb J
      → AuditDb J × Result (AuditError E) (Unit {0})
  with_chain_head env chain body db =
      if ltb 1 store.chain_shards
      then elim env.ensure_fault [
        | some x ↦ (db, err (sql x))
        | none ↦ locked_head env chain body (record db { heads = ensure_head chain db.heads })
      ]
      else locked_head env chain body db

  abbrev pub advance :
      Option E → ℕ → Bytes → AuditDb J → AuditDb J × Result (AuditError E) (Unit {0})
  advance (some x) chain h db = (db, err (sql x))
  advance none chain h db = (record db { heads = set_head chain h db.heads }, ok tt)

  abbrev pub record_at :
      RecordEnv E
      → ℕ
      → AuditEntry
      → Bytes
      → AuditDb J
      → AuditDb J × Result (AuditError E) (Unit {0})
  record_at env chain e prev db = elim (env.insert_fault 0) [
    | some x ↦ (db, err (sql x))
    | none ↦
        let r = row_of store db.next_id chain prev (env.clock 0) e in
        advance env.advance_fault chain r.entry_hash (insert_row r db)
  ]

  -- `Record`, without the transaction around it.
  unfoldable pub record_entry :
      RecordEnv E → AuditEntry → AuditDb J → AuditDb J × Result (AuditError E) (Unit {0})
  record_entry env e db =
      with_chain_head env (chain_id_for store e.actor)
        (record_at env (chain_id_for store e.actor) e) db

  -- The loop of `RecordBatchSameChain`, with the place of the next entry; the hash of the last row.
  unfoldable pub append_rows :
      RecordEnv E
      → ℕ
      → ℕ
      → List AuditEntry
      → Bytes
      → AuditDb J
      → AuditDb J × Result (AuditError E) Bytes
  append_rows env chain i [] prev db = (db, ok prev)
  append_rows env chain i (e ∷ es) prev db = elim (env.insert_fault i) [
    | some x ↦ (db, err (sql x))
    | none ↦
        let r = row_of store db.next_id chain prev (env.clock i) e in
        append_rows env chain (suc i) es r.entry_hash (insert_row r db)
  ]

  abbrev pub advance_last :
      Option E
      → ℕ
      → AuditDb J × Result (AuditError E) Bytes
      → AuditDb J × Result (AuditError E) (Unit {0})
  advance_last fault chain (db, err x) = (db, err x)
  advance_last fault chain (db, ok h) = advance fault chain h db

  unfoldable pub record_batch_same_chain :
      RecordEnv E → ℕ → List AuditEntry → AuditDb J → AuditDb J × Result (AuditError E) (Unit {0})
  unfolding append_rows
  record_batch_same_chain env chain [] db = (db, ok tt)
  record_batch_same_chain env chain (e ∷ es) db =
      with_chain_head env chain
        (λ prev db'.
          advance_last env.advance_fault chain (append_rows env chain 0 (e ∷ es) prev db'))
        db

  -- `RecordOutOfBand`: `admitted` is the verdict of the limiter on denials.
  unfoldable pub record_out_of_band :
      TxFaults (AuditError E)
      → RecordEnv E
      → Bool
      → Bool
      → AuditEntry
      → AuditDb J
      → AuditDb J × Result (AuditError E) (Unit {0})
  unfolding run_in_tx record_entry
  record_out_of_band tx env denied admitted e db =
      if denied && not admitted then (db, ok tt) else run_in_tx tx (record_entry env e) db
