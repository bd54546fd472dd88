-- ===== src/Outbox/Sending.antt =====
-- platform/messaging/outbox: no message is lost between the table and the broker.
use mathlib.Core.List.{append-nil, append_assoc}
use go_boilerplate.Prelude.{
  eq_iff, ◌∙◌, ap, ℕ, ◌≡◌, refl, sym, Bool, true, false, ◌&&◌, ◌||◌, Option, none, List, [], ◌∷◌,
  ◌++◌, map, String, str_eq, arith, ℤ, Option-cases, Bool-cases, inl, inr,
}
use go_boilerplate.Outbox.{
  Message, OutboxRow, RelayDb, RelayConfig, BatchEnv, is_pending, mem_id, insert_outbox,
  mark_published_batch, delete_published_before, keep_reached, publish_each, publish_all,
  process_batch, publish_phase, fetch_unpublished,
}

abbrev pub message_ids : List Message → List String
message_ids ms = map (λ (m : Message). m.id) ms

-- Whether a row of the message waits to be published.
abbrev pub is_waiting : String → List OutboxRow → Bool
is_waiting i [] = false
is_waiting i (r ∷ rows) = (is_pending r && str_eq r.msg.id i) || is_waiting i rows

pub mem_id-append :
    (i : String) (xs ys : List String) → mem_id i (xs ++ ys) ≡ (mem_id i xs || mem_id i ys)
mem_id-append i [] ys = refl
mem_id-append i (x ∷ xs) ys = ground (arith, mem_id-append i xs ys)

pub message_ids-append :
    (xs ys : List Message) → message_ids (xs ++ ys) ≡ message_ids xs ++ message_ids ys
message_ids-append [] ys = refl
message_ids-append (x ∷ xs) ys = ground (arith, message_ids-append xs ys)

pub is_waiting-insert_outbox :
    (i : String) (m : Message) (rows : List OutboxRow)
    → is_waiting i (insert_outbox m rows) ≡ (str_eq m.id i || is_waiting i rows)
unfolding insert_outbox
is_waiting-insert_outbox i m [] = ground arith
is_waiting-insert_outbox i m (r ∷ rows) = ground (arith, is_waiting-insert_outbox i m rows)

is_waiting-delete :
    (i : String) (cutoff : ℕ) (rows : List OutboxRow)
    → is_waiting i (delete_published_before cutoff rows) ≡ is_waiting i rows
unfolding delete_published_before
is_waiting-delete i cutoff [] = refl
is_waiting-delete i cutoff (r ∷ rows) = ground (arith, is_waiting-delete i cutoff rows)

-- A row that waits still waits after a mark, or is among the marked.
is_waiting-mark :
    (i : String) (now : ℕ) (ids : List String) (rows : List OutboxRow)
    → is_waiting i rows ≡ true
    → (mem_id i ids || is_waiting i (mark_published_batch now ids rows)) ≡ true
unfolding mark_published_batch
is_waiting-mark i now ids [] h = cc
is_waiting-mark i now ids (r ∷ rows) h =
    ground (arith, is_waiting-mark i now ids rows, eq_iff r.msg.id i)

module _ {E : Type 0} where
  -- What is published is put behind what was sent; without an error it is all of the messages.
  pub publish_each-extends :
      (fault : Message → Option E) (ms sent : List Message)
      → (ys : List Message) × ((publish_each fault ms sent).0 ≡ sent ++ ys)
        × ((publish_each fault ms sent).1 ≡ none → ys ≡ ms)
  unfolding publish_each
  publish_each-extends fault [] sent = ([], sym (append-nil sent), λ h. refl)
  publish_each-extends fault (m ∷ ms) sent = elim (Option-cases (fault m)) [
    | inr (e, failed) ↦ ([], ground (arith, sym (append-nil sent)), λ h. ground arith)
    | inl fine ↦
        let (ys, sent', whole) = publish_each-extends fault ms (sent ++ m ∷ []) in
        (
          m ∷ ys,
          ground (arith, sent' ∙ append_assoc sent (m ∷ []) ys),
          λ h. ap (λ (t : List Message). m ∷ t) (whole (ground arith)),
        )
  ]

-- A message is safe where a row of it waits or the broker has it.
abbrev pub is_safe : String → RelayDb → Bool
is_safe i db = mem_id i (message_ids db.sent) || is_waiting i db.rows

safe_with_sent :
    (i : String) (rows : List OutboxRow) (sent ys : List Message)
    → is_safe i (record { rows = rows; sent = sent }) ≡ true
    → is_safe i (record { rows = rows; sent = sent ++ ys }) ≡ true
safe_with_sent i rows sent ys h =
    ground (arith, message_ids-append sent ys, mem_id-append i (message_ids sent) (message_ids ys))

safe_with_mark :
    (i : String) (now : ℕ) (rows : List OutboxRow) (sent ms : List Message)
    → is_safe i (record { rows = rows; sent = sent }) ≡ true
    → is_safe i
        (record { rows = mark_published_batch now (message_ids ms) rows; sent = sent ++ ms })
      ≡ true
safe_with_mark i now rows sent ms h = ground (
  arith,
  message_ids-append sent ms,
  mem_id-append i (message_ids sent) (message_ids ms),
  is_waiting-mark i now (message_ids ms) rows,
)

module _ {E : Type 0} where
  publish_all-extends :
      (env : BatchEnv E) (ms sent : List Message)
      → (ys : List Message) × ((publish_all env ms sent).0 ≡ sent ++ ys)
        × ((publish_all env ms sent).1 ≡ none → ys ≡ ms)
  publish_all-extends env ms sent = elim (Bool-cases env.batched) [
    | inr single ↦
        let (ys, sent', whole) = publish_each-extends env.message_fault ms sent in
        (ys, ground arith, λ h. whole (ground arith))
    | inl batched ↦ elim (Option-cases env.batch_fault) [
      | inl fine ↦ (ms, ground arith, λ h. refl)
      | inr (e, failed) ↦ (keep_reached env.reached ms, ground arith, λ h. ground arith)
    ]
  ]

  publish_phase-is_safe :
      (env : BatchEnv E) (ms : List Message) (db : RelayDb) (i : String)
      → is_safe i db ≡ true
      → is_safe i (publish_phase env ms db).0 ≡ true
  publish_phase-is_safe env [] db i h = h
  publish_phase-is_safe env (m ∷ ms) db i h =
      let (ys, sent', whole) = publish_all-extends env (m ∷ ms) db.sent in
      elim (Option-cases (publish_all env (m ∷ ms) db.sent).1) [
        | inr (e, failed) ↦ ground (arith, safe_with_sent i db.rows db.sent ys)
        | inl fine ↦ elim (Option-cases env.mark_fault) [
          | inr (e, failed) ↦ ground (arith, safe_with_sent i db.rows db.sent ys)
          | inl marked ↦
              ground (arith, whole fine, safe_with_mark i env.now db.rows db.sent (m ∷ ms))
        ]
      ]

-- What runs on the table: an insert, a batch of some relay, and the clean-up.
pub data OutboxOp (E : Type 0) : Type 0 where
  enqueuing : Message → OutboxOp E
  relaying : RelayConfig → BatchEnv E → OutboxOp E
  cleaning : ℕ → OutboxOp E

module _ {E : Type 0} (hash : String → ℤ) where
  unfoldable pub run_op : OutboxOp E → RelayDb → RelayDb
  run_op (enqueuing m) db = record db { rows = insert_outbox m db.rows }
  run_op (relaying cfg env) db = (process_batch hash cfg env db).0
  run_op (cleaning cutoff) db = record db { rows = delete_published_before cutoff db.rows }

  unfoldable pub run_ops : List (OutboxOp E) → RelayDb → RelayDb
  run_ops [] db = db
  run_ops (o ∷ os) db = run_ops os (run_op o db)

  process_batch-is_safe :
      (cfg : RelayConfig) (env : BatchEnv E) (db : RelayDb) (i : String)
      → is_safe i db ≡ true
      → is_safe i (process_batch hash cfg env db).0 ≡ true
  unfolding process_batch
  process_batch-is_safe cfg env db i h = elim (Option-cases env.claim_fault) [
    | inr (e, failed) ↦ ground arith
    | inl claimed ↦
        ground
          (arith, publish_phase-is_safe env (fetch_unpublished hash cfg env.locked db.rows) db i)
  ]

  run_op-is_safe :
      (o : OutboxOp E) (db : RelayDb) (i : String)
      → is_safe i db ≡ true
      → is_safe i (run_op o db) ≡ true
  unfolding run_op
  run_op-is_safe (enqueuing m) db i h = ground (arith, is_waiting-insert_outbox i m db.rows)
  run_op-is_safe (relaying cfg env) db i h = process_batch-is_safe cfg env db i h
  run_op-is_safe (cleaning cutoff) db i h = ground (arith, is_waiting-delete i cutoff db.rows)

  run_ops-is_safe :
      (os : List (OutboxOp E)) (db : RelayDb) (i : String)
      → is_safe i db ≡ true
      → is_safe i (run_ops os db) ≡ true
  unfolding run_ops
  run_ops-is_safe [] db i h = h
  run_ops-is_safe (o ∷ os) db i h = run_ops-is_safe os (run_op o db) i (run_op-is_safe o db i h)

  -- An enqueued message is never lost: after any inserts, batches of any relays, sharded or not, and
  -- clean-ups, in any order and with any faults of the driver and the broker, it waits in the table
  -- or has reached the broker.
  pub never_lost :
      (m : Message) (os : List (OutboxOp E)) (db : RelayDb)
      → is_safe m.id (run_ops os (run_op (enqueuing m) db)) ≡ true
  unfolding run_op
  never_lost m os db =
      run_ops-is_safe os (record db { rows = insert_outbox m db.rows }) m.id
        (ground (arith, is_waiting-insert_outbox m.id m db.rows, (eq_iff m.id m.id).1 refl))
