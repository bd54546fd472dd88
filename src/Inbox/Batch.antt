-- ===== src/Inbox/Batch.antt =====
-- platform/messaging/inbox: `ProcessBatchOnce` against `ProcessOnce` for each message in turn.
use go_boilerplate.Prelude.{
  ℕ, suc, ◌+◌, ◌≡◌, Bool, true, false, Option, List, [], ◌∷◌, String, arith, ok, err, Result-cases,
  inl, inr, length, if◌then◌else◌,
}
use go_boilerplate.Tx.{TxFaults, no_tx_faults}
use go_boilerplate.Inbox.{
  InboxKey, InboxDb, Effect, BatchItem, once, process_once, batch_loop, process_batch_once,
}

module _ {S E : Type 0} where
  abbrev pub key_of : String → BatchItem S E → InboxKey
  key_of consumer it = record { consumer = consumer; message_id = it.item_id }

  -- One transaction for each message, in order.
  unfoldable pub process_each : String → List (BatchItem S E) → InboxDb S → InboxDb S
  process_each consumer [] db = db
  process_each consumer (it ∷ items) db =
      process_each consumer items
        (process_once no_tx_faults it.item_fault (key_of consumer it) it.item_fn db).0

  -- With no error of its own, the transaction of one message keeps what its function did.
  process_once-once :
      (fault : Option E) (k : InboxKey) (fn : Effect S E) (db : InboxDb S) {b : Bool}
      → (once fault k fn db).1 ≡ ok b
      → (process_once no_tx_faults fault k fn db).0 ≡ (once fault k fn db).0
  unfolding process_once
  process_once-once fault k fn db h = ground arith

  length-once :
      (fault : Option E) (k : InboxKey) (fn : Effect S E) (db : InboxDb S) {b : Bool}
      → (once fault k fn db).1 ≡ ok b
      → length (once fault k fn db).0.inbox ≡ (if b then suc (length db.inbox) else length db.inbox)
  unfolding once
  length-once fault k fn db h = ground arith

  batch_loop-process_each :
      (consumer : String) (n : ℕ) (items : List (BatchItem S E)) (db : InboxDb S) {m : ℕ}
      → (batch_loop consumer n items db).1 ≡ ok m
      → ((batch_loop consumer n items db).0 ≡ process_each consumer items db)
        × (length (batch_loop consumer n items db).0.inbox + n ≡ length db.inbox + m)
  unfolding batch_loop process_each
  batch_loop-process_each consumer n [] db h = ground arith
  batch_loop-process_each consumer n (it ∷ items) db {m = m} h =
      elim (Result-cases (once it.item_fault (key_of consumer it) it.item_fn db).1) [
        | inr (e, failed) ↦ ground arith
        | inl (true, ran) ↦ ground (
          arith,
          batch_loop-process_each consumer (suc n) items
              (once it.item_fault (key_of consumer it) it.item_fn db).0 {m = m},
          process_once-once it.item_fault (key_of consumer it) it.item_fn db ran,
          length-once it.item_fault (key_of consumer it) it.item_fn db ran,
        )
        | inl (false, ran) ↦ ground (
          arith,
          batch_loop-process_each consumer n items
              (once it.item_fault (key_of consumer it) it.item_fn db).0 {m = m},
          process_once-once it.item_fault (key_of consumer it) it.item_fn db ran,
          length-once it.item_fault (key_of consumer it) it.item_fn db ran,
        )
      ]

  -- A batch that fails leaves the database as it was. One that succeeds has the effect of
  -- `ProcessOnce` for each message in turn, in transactions with no fault, and reports how many
  -- rows the inbox has gained.
  pub process_batch_once_lem :
      (tx : TxFaults E) (consumer : String) (items : List (BatchItem S E)) (db : InboxDb S)
      → let (db', r) = process_batch_once tx consumer items db in
        ((e : E) → r ≡ err e → db' ≡ db)
        × ((m : ℕ)
            → r ≡ ok m
            → (db' ≡ process_each consumer items db) × (length db'.inbox ≡ length db.inbox + m))
  unfolding process_batch_once
  process_batch_once_lem tx consumer items db = (
    λ e h. ground arith,
    λ m h. ground (arith, batch_loop-process_each consumer 0 items db {m = m}),
  )
