-- ===== src/Outbox/Draining.antt =====
-- platform/messaging/outbox: one healthy relay drains the table, in order.
use mathlib.Core.List.{append-nil, append_assoc}
use go_boilerplate.Prelude.{
  ℕ, zero, suc, ◌≤◌, ◌<◌, ◌≡◌, refl, ◌∙◌, ap, Bool, true, false, not, ◌&&◌, ◌||◌, none, some, List,
  [], ◌∷◌, ◌++◌, String, str_eq, eq_iff, arith, ltb, ℤ, ok, Bool-cases, inl, inr, if◌then◌else◌,
  length, take, drop, length-take, length-drop, take-append-drop,
}
use go_boilerplate.Outbox.{
  Message, OutboxRow, RelayDb, RelayConfig, Round, healthy, is_pending, mem_id, claimable,
  fetch_unpublished, mark_published_batch, publish_each, process_batch, drain, publish_phase,
}
use go_boilerplate.Outbox.Sending.{message_ids, mem_id-append}

-- The messages that wait, in the order of the table.
unfoldable pub waiting : List OutboxRow → List Message
waiting [] = []
waiting (r ∷ rows) = let rest = waiting rows in if is_pending r then r.msg ∷ rest else rest

-- None of the rows has one of the ids.
abbrev pub apart : List String → List OutboxRow → Bool
apart ids [] = true
apart ids (r ∷ rows) = not (mem_id r.msg.id ids) && apart ids rows

abbrev pub has_row : String → List OutboxRow → Bool
has_row i [] = false
has_row i (r ∷ rows) = str_eq i r.msg.id || has_row i rows

-- The primary key: no id stands in two rows.
abbrev pub distinct_ids : List OutboxRow → Bool
distinct_ids [] = true
distinct_ids (r ∷ rows) = not (has_row r.msg.id rows) && distinct_ids rows

apart-snoc :
    (ids : List String) (i : String) (rows : List OutboxRow)
    → apart ids rows ≡ true
    → has_row i rows ≡ false
    → apart (ids ++ i ∷ []) rows ≡ true
apart-snoc ids i [] h k = refl
apart-snoc ids i (r ∷ rows) h k =
    ground (arith, apart-snoc ids i rows, mem_id-append r.msg.id ids (i ∷ []))

apart-nil : (rows : List OutboxRow) → apart [] rows ≡ true
apart-nil [] = refl
apart-nil (r ∷ rows) = apart-nil rows

-- Marking the first messages that wait leaves the others.
waiting-mark :
    (now : ℕ) (ids : List String) (n : ℕ) (rows : List OutboxRow)
    → apart ids rows ≡ true
    → distinct_ids rows ≡ true
    → waiting (mark_published_batch now (ids ++ message_ids (take n (waiting rows))) rows)
      ≡ drop n (waiting rows)
unfolding waiting mark_published_batch
waiting-mark now ids zero [] h d = refl
waiting-mark now ids (suc n) [] h d = refl
waiting-mark now ids zero (r ∷ rows) h d =
    ground (arith, waiting-mark now ids zero rows, append-nil ids)
waiting-mark now ids (suc n) (r ∷ rows) h d = elim (Bool-cases (is_pending r)) [
  | inr gone ↦ ground (arith, waiting-mark now ids (suc n) rows)
  | inl here ↦ ground (
    arith,
    waiting-mark now (ids ++ r.msg.id ∷ []) n rows,
    apart-snoc ids r.msg.id rows,
    append_assoc ids (r.msg.id ∷ []) (message_ids (take n (waiting rows))),
    mem_id-append r.msg.id ids (r.msg.id ∷ message_ids (take n (waiting rows))),
    (eq_iff r.msg.id r.msg.id).1 refl,
  )
]

-- A mark changes no id.
has_row-mark :
    (i : String) (now : ℕ) (ids : List String) (rows : List OutboxRow)
    → has_row i (mark_published_batch now ids rows) ≡ has_row i rows
unfolding mark_published_batch
has_row-mark i now ids [] = refl
has_row-mark i now ids (r ∷ rows) = ground (arith, has_row-mark i now ids rows)

distinct_ids-mark :
    (now : ℕ) (ids : List String) (rows : List OutboxRow)
    → distinct_ids (mark_published_batch now ids rows) ≡ distinct_ids rows
unfolding mark_published_batch
distinct_ids-mark now ids [] = refl
distinct_ids-mark now ids (r ∷ rows) =
    ground (arith, distinct_ids-mark now ids rows, has_row-mark r.msg.id now ids rows)

claimable-waiting :
    (ok_row : Message → Bool) (rows : List OutboxRow)
    → ((m : Message) → ok_row m ≡ true)
    → claimable ok_row rows ≡ waiting rows
unfolding claimable waiting
claimable-waiting ok_row [] all = refl
claimable-waiting ok_row (r ∷ rows) all =
    ground (arith, all r.msg, claimable-waiting ok_row rows all)

mark-nil : (rows : List OutboxRow) → mark_published_batch 0 [] rows ≡ rows
unfolding mark_published_batch
mark-nil [] = refl
mark-nil (r ∷ rows) = ap (λ (t : List OutboxRow). r ∷ t) (mark-nil rows)

take_all {ℓ} :
    {A : Type ℓ} (n : ℕ) (xs : List A) → length xs ≤ n → (take n xs ≡ xs) × (drop n xs ≡ [])
take_all zero [] h = (refl, refl)
take_all zero (x ∷ xs) h = absurd (omega arith)
take_all (suc n) [] h = (refl, refl)
take_all (suc n) (x ∷ xs) h =
    let (t, d) = take_all n xs (omega arith) in (ap (λ (l : List _). x ∷ l) t, d)

-- A batch that is not full is all that waits.
part_of_batch {ℓ} :
    {A : Type ℓ} (n : ℕ) (xs : List A) → ltb (length (take n xs)) n ≡ true → length xs ≤ n
part_of_batch n xs h = ground (arith, length-take n xs)

full_batch {ℓ} :
    {A : Type ℓ} (n : ℕ) (xs : List A) → ltb (length (take n xs)) n ≡ false → n ≤ length xs
full_batch n xs h = ground (arith, length-take n xs)

abbrev pub steady : {E : Type 0} → Bool → Round E
steady batched = record { env = healthy batched; ctx_done = false; still_leader = true }

module _ {E : Type 0} (hash : String → ℤ) where
  publish_each-healthy :
      (ms sent : List Message) → publish_each {E = E} (λ m. none) ms sent ≡ (sent ++ ms, none)
  unfolding publish_each
  publish_each-healthy [] sent = ground (arith, append-nil sent)
  publish_each-healthy (m ∷ ms) sent =
      publish_each-healthy ms (sent ++ m ∷ [])
      ∙ ap (λ (t : List Message). (t, none)) (append_assoc sent (m ∷ []) ms)

  publish_phase-healthy :
      (batched : Bool) (ms : List Message) (db : RelayDb)
      → publish_phase (healthy {E = E} batched) ms db ≡ (
        record { rows = mark_published_batch 0 (message_ids ms) db.rows; sent = db.sent ++ ms },
        ok (length ms),
      )
  publish_phase-healthy batched [] db = ground (arith, mark-nil db.rows, append-nil db.sent)
  publish_phase-healthy true (m ∷ ms) db = ground arith
  publish_phase-healthy false (m ∷ ms) db = ground (arith, publish_each-healthy (m ∷ ms) db.sent)

module _ (hash : String → ℤ) (cfg : RelayConfig) (unsharded : cfg.shard_count ≤ 1) where
  fetch-healthy :
      (rows : List OutboxRow)
      → fetch_unpublished hash cfg (λ i. false) rows ≡ take cfg.batch_size (waiting rows)
  unfolding fetch_unpublished
  fetch-healthy rows = ap (take cfg.batch_size) (claimable-waiting _ rows (λ m. ground arith))

  -- The database after a healthy batch.
  abbrev after_batch : RelayDb → RelayDb
  after_batch db =
      let ms = take cfg.batch_size (waiting db.rows) in
      record { rows = mark_published_batch 0 (message_ids ms) db.rows; sent = db.sent ++ ms }

  process_batch-healthy :
      {E : Type 0} (batched : Bool) (db : RelayDb)
      → process_batch hash cfg (healthy {E = E} batched) db
        ≡ (after_batch db, ok (length (take cfg.batch_size (waiting db.rows))))
  unfolding process_batch
  process_batch-healthy batched db =
      rw (fetch-healthy db.rows)
        (publish_phase-healthy hash batched (take cfg.batch_size (waiting db.rows)) db)

  -- A relay that is not sharded, with no fault and with nothing that stops it, drains the table:
  -- where the batch size is positive, no id stands in two rows and there is more fuel than
  -- messages wait, the drain ends with no error, nothing waits any more, and the broker has
  -- received exactly the messages that waited, in the order of the table.
  pub drain_sends_all :
      {E : Type 0} (batched : Bool) (fuel i : ℕ) (db : RelayDb)
      → 0 < cfg.batch_size
      → distinct_ids db.rows ≡ true
      → length (waiting db.rows) < fuel
      → (db' : RelayDb) × (drain fuel hash cfg (λ j. steady {E = E} batched) i db
          ≡ some (db', none))
        × (db'.sent ≡ db.sent ++ waiting db.rows)
        × (waiting db'.rows ≡ [])
  unfolding drain
  drain_sends_all batched zero i db p d h = elim h [ ]
  drain_sends_all {E = E} batched (suc fuel) i db p d h =
      let left = waiting-mark 0 [] cfg.batch_size db.rows (apart-nil db.rows) d in
      elim (Bool-cases (ltb (length (take cfg.batch_size (waiting db.rows))) cfg.batch_size)) [
        | inl last ↦ (
          after_batch db,
          ground (arith, process_batch-healthy {E = E} batched db),
          ap (λ (t : List Message). db.sent ++ t)
              (take_all cfg.batch_size (waiting db.rows)
                (part_of_batch cfg.batch_size (waiting db.rows) last)).0,
          left
              ∙ (take_all cfg.batch_size (waiting db.rows)
                  (part_of_batch cfg.batch_size (waiting db.rows) last)).1,
        )
        | inr more ↦
            let (db', drained, sent', empty) =
              drain_sends_all {E = E} batched fuel (suc i) (after_batch db) p
                (distinct_ids-mark 0 (message_ids (take cfg.batch_size (waiting db.rows))) db.rows
                  ∙ d)
                (omega (
                  arith,
                  ap length left,
                  length-drop cfg.batch_size (waiting db.rows),
                  full_batch cfg.batch_size (waiting db.rows) more,
                )) in
            (
              db',
              ground (arith, process_batch-healthy {E = E} batched db, drained),
              sent'
                  ∙ ap
                      (λ (t : List Message).
                        (db.sent ++ take cfg.batch_size (waiting db.rows)) ++ t)
                      left
                  ∙ append_assoc db.sent (take cfg.batch_size (waiting db.rows))
                      (drop cfg.batch_size (waiting db.rows))
                  ∙ ap (λ (t : List Message). db.sent ++ t)
                      (take-append-drop cfg.batch_size (waiting db.rows)),
              empty,
            )
      ]
