-- ===== src/Inbox.antt =====
-- platform/messaging/inbox/inbox.go: the idempotent consumer. The state is the table of dedup rows
-- beside the rest of the database, of any type. A side effect changes the rest and may fail. The
-- driver's errors are an argument of each call.
use go_boilerplate.Prelude.{
  ℕ, zero, suc, ◌+◌, Bool, true, false, ◌&&◌, ◌||◌, Option, none, some, List, [], ◌∷◌, String,
  str_eq, Result, ok, err, if◌then◌else◌,
}
use go_boilerplate.Tx.{TxFaults, run_in_tx}
pub mod Once
pub mod Batch

-- The primary key (consumer, message_id).
pub record InboxKey : Type 0 where
  pub consumer : String
  pub message_id : String

abbrev pub same_inbox_key : InboxKey → InboxKey → Bool
same_inbox_key a b = str_eq a.consumer b.consumer && str_eq a.message_id b.message_id

abbrev pub is_seen : InboxKey → List InboxKey → Bool
is_seen k [] = false
is_seen k (j ∷ js) = same_inbox_key j k || is_seen k js

pub record InboxDb (S : Type 0) : Type 0 where
  pub inbox : List InboxKey
  pub rest : S

-- `fn(ctx)`: what the side effect does to the rest of the database, and its error.
abbrev pub Effect : Type 0 → Type 0 → Type 0
Effect S E = S → S × Option E

-- One message of a batch. The driver's error on its insert is part of it.
pub record BatchItem (S E : Type 0) : Type 0 where
  pub item_id : String
  pub item_fn : Effect S E
  pub item_fault : Option E

module _ {S E : Type 0} where
  -- `insert … on conflict do nothing`, with the number of rows affected.
  unfoldable pub insert_inbox : Option E → InboxKey → InboxDb S → InboxDb S × Result E ℕ
  insert_inbox (some e) k db = (db, err e)
  insert_inbox none k db =
      if is_seen k db.inbox then (db, ok 0) else (record db { inbox = k ∷ db.inbox }, ok 1)

  -- The end of the transaction's function: `fn(ctx)`.
  abbrev pub run_effect : Effect S E → InboxDb S → InboxDb S × Option E
  run_effect fn db = let (s, e) = fn db.rest in (record db { rest = s }, e)

  abbrev pub after_effect : InboxDb S × Option E → InboxDb S × Result E Bool
  after_effect (db, some e) = (db, err e)
  after_effect (db, none) = (db, ok true)

  abbrev pub after_insert : Effect S E → InboxDb S × Result E ℕ → InboxDb S × Result E Bool
  after_insert fn (db, err e) = (db, err e)
  after_insert fn (db, ok zero) = (db, ok false)
  after_insert fn (db, ok (suc n)) = after_effect (run_effect fn db)

  -- What `ProcessOnce` runs in its transaction.
  unfoldable pub once : Option E → InboxKey → Effect S E → InboxDb S → InboxDb S × Result E Bool
  unfolding insert_inbox
  once fault k fn db = after_insert fn (insert_inbox fault k db)

  unfoldable pub process_once :
      TxFaults E → Option E → InboxKey → Effect S E → InboxDb S → InboxDb S × Result E Bool
  unfolding run_in_tx
  process_once tx fault k fn db = run_in_tx tx (once fault k fn) db

  -- The loop of `ProcessBatchOnce`; `applied` counts the side effects that ran.
  unfoldable pub batch_loop : String → ℕ → List (BatchItem S E) → InboxDb S → InboxDb S × Result E ℕ
  batch_loop consumer applied [] db = (db, ok applied)
  batch_loop consumer applied (it ∷ items) db =
      let k : InboxKey = record { consumer = consumer; message_id = it.item_id } in
      let (db', r) = once it.item_fault k it.item_fn db in
      elim r [
        | err e ↦ (db', err e)
        | ok true ↦ batch_loop consumer (suc applied) items db'
        | ok false ↦ batch_loop consumer applied items db'
      ]

  unfoldable pub process_batch_once :
      TxFaults E → String → List (BatchItem S E) → InboxDb S → InboxDb S × Result E ℕ
  unfolding run_in_tx batch_loop
  process_batch_once tx consumer items db = run_in_tx tx (batch_loop consumer 0 items) db
