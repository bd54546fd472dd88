-- ===== src/Audit/Pending.antt =====
-- platform/security/audit/pending.go: the durable mode. An intent is staged with the command, and a
-- drainer claims staged rows and puts them on their chain. What the reader returned to a drainer, which
-- may be out of date, is an argument, and so is each transaction's report.
use go_boilerplate.Prelude.{
  ℕ, suc, ◌+◌, Bool, false, ◌||◌, Option, none, some, List, [], ◌∷◌, ◌++◌, ◌==◌, Result, ok, err,
  if◌then◌else◌, length,
}
use go_boilerplate.Tx.{TxFaults, run_in_tx}
use go_boilerplate.Audit.{
  Metadata, AuditEntry, AuditDb, PendingRow, PgStore, AuditError, sql, bad_metadata, RecordEnv,
  entry_time,
}
use go_boilerplate.Audit.Record.{chain_id_for, record_batch_same_chain}

abbrev pub mem_id : ℕ → List ℕ → Bool
mem_id i [] = false
mem_id i (j ∷ js) = j == i || mem_id i js

module _ {J : Type 0} where
  -- The rows that `delete … where id = any($1)` removes, in the order of their ids, and the others.
  unfoldable pub claimed : List ℕ → List (PendingRow J) → List (PendingRow J)
  claimed ids [] = []
  claimed ids (r ∷ rs) =
      let rest = claimed ids rs in if mem_id r.pending_id ids then r ∷ rest else rest

  unfoldable pub unclaimed : List ℕ → List (PendingRow J) → List (PendingRow J)
  unclaimed ids [] = []
  unclaimed ids (r ∷ rs) =
      let rest = unclaimed ids rs in if mem_id r.pending_id ids then rest else r ∷ rest

-- The ids that a drainer read, by chain, in the order of the first id of each chain.
abbrev pub add_to_chain : ℕ → ℕ → List (ℕ × List ℕ) → List (ℕ × List ℕ)
add_to_chain c i [] = (c, i ∷ []) ∷ []
add_to_chain c i ((d, is) ∷ groups) =
    if d == c then (d, is ++ i ∷ []) ∷ groups else (d, is) ∷ add_to_chain c i groups

unfoldable pub by_chain : List (ℕ × ℕ) → List (ℕ × List ℕ) → List (ℕ × List ℕ)
by_chain [] groups = groups
by_chain ((i, c) ∷ read) groups = by_chain read (add_to_chain c i groups)

module _ {J : Type 0} (store : PgStore J) where
  abbrev pub pending_row : ℕ → ℕ → AuditEntry → PendingRow J
  pending_row id now e = record {
    pending_id = id;
    pending_chain = chain_id_for store e.actor;
    staged_actor = e.actor;
    staged_action = e.action;
    staged_subject = e.subject;
    staged_metadata = store.codec.write e.metadata;
    staged_at = entry_time e.at now;
  }

  abbrev pub entry_of : PendingRow J → Metadata → AuditEntry
  entry_of r m = record {
    actor = r.staged_actor;
    action = r.staged_action;
    subject = r.staged_subject;
    metadata = m;
    at = some r.staged_at;
  }

  -- The claimed rows as entries; none where the metadata of one does not parse.
  unfoldable pub entries_of : List (PendingRow J) → Option (List AuditEntry)
  entries_of [] = some []
  entries_of (r ∷ rs) = elim (store.codec.read r.staged_metadata) [
    | none ↦ none
    | some m ↦ elim (entries_of rs) [ none ↦ none | some es ↦ some (entry_of r m ∷ es) ]
  ]

module _ {J E : Type 0} (store : PgStore J) where
  -- `InsertPending`, on the transaction of the command.
  unfoldable pub insert_pending :
      Option E → ℕ → AuditEntry → AuditDb J → AuditDb J × Result (AuditError E) (Unit {0})
  insert_pending (some x) now e db = (db, err (sql x))
  insert_pending none now e db = (
    record db {
      pending = db.pending ++ pending_row store db.next_pending now e ∷ [];
      next_pending = suc db.next_pending;
    },
    ok tt,
  )

  abbrev pub count_applied :
      ℕ → AuditDb J × Result (AuditError E) (Unit {0}) → AuditDb J × Result (AuditError E) ℕ
  count_applied n (db, err x) = (db, err x)
  count_applied n (db, ok u) = (db, ok n)

  abbrev pub apply_rows :
      RecordEnv E → ℕ → List (PendingRow J) → AuditDb J → AuditDb J × Result (AuditError E) ℕ
  apply_rows env chain [] db = (db, ok 0)
  apply_rows env chain (r ∷ rs) db = elim (entries_of store (r ∷ rs)) [
    | none ↦ (db, err bad_metadata)
    | some es ↦ count_applied (length (r ∷ rs)) (record_batch_same_chain store env chain es db)
  ]

  -- What `applyClaimed` runs in its transaction.
  unfoldable pub claim_and_apply :
      Option E → RecordEnv E → ℕ → List ℕ → AuditDb J → AuditDb J × Result (AuditError E) ℕ
  unfolding claimed unclaimed entries_of record_batch_same_chain
  claim_and_apply (some x) env chain ids db = (db, err (sql x))
  claim_and_apply none env chain ids db =
      apply_rows env chain (claimed ids db.pending)
        (record db { pending = unclaimed ids db.pending })

  unfoldable pub apply_claimed :
      TxFaults (AuditError E)
      → Option E
      → RecordEnv E
      → ℕ
      → List ℕ
      → AuditDb J
      → AuditDb J × Result (AuditError E) ℕ
  unfolding run_in_tx claim_and_apply
  apply_claimed tx fault env chain [] db = (db, ok 0)
  apply_claimed tx fault env chain (i ∷ ids) db =
      run_in_tx tx (claim_and_apply fault env chain (i ∷ ids)) db

  abbrev pub add_applied :
      ℕ
      → (ℕ → AuditDb J → AuditDb J × ℕ × Option (AuditError E))
      → AuditDb J × Result (AuditError E) ℕ
      → AuditDb J × ℕ × Option (AuditError E)
  add_applied applied next (db, err x) = (db, applied, some x)
  add_applied applied next (db, ok n) = next (applied + n) db

  -- The loop of `DrainPending` over the chains; `tx c`, `fault c` and `env c` are what happens on chain
  -- `c`.
  unfoldable pub drain_chains :
      (ℕ → TxFaults (AuditError E))
      → (ℕ → Option E)
      → (ℕ → RecordEnv E)
      → List (ℕ × List ℕ)
      → ℕ
      → AuditDb J
      → AuditDb J × ℕ × Option (AuditError E)
  unfolding apply_claimed
  drain_chains tx fault env [] applied db = (db, applied, none)
  drain_chains tx fault env ((c, ids) ∷ groups) applied db =
      add_applied applied (drain_chains tx fault env groups)
        (apply_claimed (tx c) (fault c) (env c) c ids db)

  -- `DrainPending` behind the read.
  unfoldable pub drain_pending :
      (ℕ → TxFaults (AuditError E))
      → (ℕ → Option E)
      → (ℕ → RecordEnv E)
      → List (ℕ × ℕ)
      → AuditDb J
      → AuditDb J × ℕ × Option (AuditError E)
  unfolding drain_chains by_chain
  drain_pending tx fault env read db = drain_chains tx fault env (by_chain read []) 0 db
