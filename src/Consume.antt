-- ===== src/Consume.antt =====
-- platform/messaging/consume: the typed handlers of consume.go, the per-record path and the batch path
-- of batch.go. Each shard is a database with its inbox; the router is `resolve`. Post-commit hooks are
-- values, listed as they fire. A handler's context and the decoders are parameters.
use go_boilerplate.Prelude.{
  ℕ, zero, suc, ◌+◌, Bool, true, false, not, ◌&&◌, ◌||◌, Option, none, some, List, [], ◌∷◌, ◌++◌,
  String, str_eq, ◌<>◌, itoa, pos, ltb, leb, ◌==◌, Result, ok, err, if◌then◌else◌, length,
}
use go_boilerplate.Dict.{Dict, lookup, contains}
use go_boilerplate.Tx.{TxFaults}
use go_boilerplate.Inbox.{InboxKey, InboxDb, Effect, BatchItem, process_once, process_batch_once}
use go_boilerplate.Lineage.{
  Context, Json, header_of, header_correlation_id, extract_principal, extract_tenant,
}
pub mod Hooks

pub record KafkaRecord : Type 0 where
  pub topic : String
  pub key : String
  pub payload : List ℕ
  pub headers : Dict String
  pub partition : ℕ
  pub offset : ℕ

abbrev pub header_event_type : String
header_event_type = "event-type"

abbrev pub header_message_id : String
header_message_id = "message-id"

pub data ConsumeError (E : Type 0) : Type 0 where
  malformed_payload : String → ConsumeError E
  handler_failed : E → ConsumeError E

-- A handler of one event type: what it does to the database, and the hook that it leaves.
pub record Handler (S E H : Type 0) : Type 0 where
  pub event : String
  pub handle : Context → List ℕ → S → S × Result (ConsumeError E) (Option H)

abbrev pub magic_byte : List ℕ → Bool
magic_byte [] = false
magic_byte (b ∷ bs) = b == 0

-- The decoding of `typedHandler.handle`, by a deserializer where one is set.
unfoldable pub decode :
    {T E : Type 0}
    → Option (List ℕ → Option T)
    → (List ℕ → Option T)
    → String
    → List ℕ
    → Result (ConsumeError E) T
decode (some dec) unmarshal event value = elim (dec value) [
  | some msg ↦ ok msg
  | none ↦
      if magic_byte value
      then err (malformed_payload ("decode " <> event <> " failed"))
      else err (malformed_payload ("decode " <> event <> ": value is not framed"))
]
decode none unmarshal event value =
    if leb 6 (length value) && magic_byte value
    then err (malformed_payload ("unmarshal " <> event <> ": value appears framed"))
    else elim (unmarshal value) [
      | some msg ↦ ok msg
      | none ↦ err (malformed_payload ("unmarshal " <> event <> " failed"))
    ]

abbrev pub after_fn :
    {S E H : Type 0} → Option H → S × Option E → S × Result (ConsumeError E) (Option H)
after_fn hook (s, none) = (s, ok hook)
after_fn hook (s, some e) = (s, err (handler_failed e))

unfoldable pub typed :
    {S T E H : Type 0}
    → Option (List ℕ → Option T)
    → (List ℕ → Option T)
    → String
    → (Context → T → S → S × Option E)
    → (T → Option H)
    → Handler S E H
unfolding decode
typed dec unmarshal event fn hook = record {
  event = event;
  handle = λ ctx value s. elim (decode dec unmarshal event value) [
    | err e ↦ (s, err e)
    | ok msg ↦ after_fn (hook msg) (fn ctx msg s)
  ];
}

-- `index`: two handlers of one event type are a panic, the case `none`.
unfoldable pub index :
    {S E H : Type 0} → List (Handler S E H) → Dict (Handler S E H) → Option (Dict (Handler S E H))
index [] by_type = some by_type
index (h ∷ hs) by_type =
    let rest = index hs (by_type ++ (h.event, h) ∷ []) in
    if contains h.event by_type then none else rest

pub record Consumer (S E H : Type 0) : Type 0 where
  pub group : String
  pub by_type : Dict (Handler S E H)
  pub resolve : String → ℕ
  pub json : Json

-- The databases of the shards, and the hooks that have fired.
pub record World (S H : Type 0) : Type 0 where
  pub shards : ℕ → InboxDb S
  pub fired : List H

abbrev pub set_shard : {S : Type 0} → ℕ → InboxDb S → (ℕ → InboxDb S) → ℕ → InboxDb S
set_shard i db shards j = if j == i then db else shards j

-- The stable id of a record: the header, or its coordinates.
abbrev pub message_id_of : KafkaRecord → String
message_id_of r =
    let id = header_of header_message_id r.headers in
    if str_eq id ""
    then r.topic <> ":" <> itoa (pos r.partition) <> ":" <> itoa (pos r.offset)
    else id

pub record Prepared (S E H : Type 0) : Type 0 where
  pub ctx : Context
  pub handler : Handler S E H
  pub msg_id : String

-- What the driver reports while one record or one group is processed.
pub record Faults (E : Type 0) : Type 0 where
  pub tx : TxFaults (ConsumeError E)
  pub insert_fault : Option (ConsumeError E)

-- A record with a handler, its place among them, and its shard.
pub record Live (S E H : Type 0) : Type 0 where
  pub place : ℕ
  pub rec : KafkaRecord
  pub prepared : Prepared S E H
  pub shard : ℕ

module _ {S E H : Type 0} (c : Consumer S E H) where
  -- `prepare`: none for an event type without a handler, which is skipped.
  unfoldable pub prepare : Context → KafkaRecord → Option (Prepared S E H)
  prepare ctx r =
      let ctx' = extract_tenant c.json (extract_principal c.json ctx r.headers) r.headers in
      elim (lookup (header_of header_event_type r.headers) c.by_type) [
        | none ↦ none
        | some h ↦
            let id = message_id_of r in
            let corr = header_of header_correlation_id r.headers in
            some (record {
              ctx = record ctx' {
                correlation_id = if str_eq corr "" then id else corr;
                parent_message_id = id;
              };
              handler = h;
              msg_id = id;
            })
      ]

  -- The side effect of a record in its transaction, which also keeps the hook of the handler.
  abbrev pub kept_hook :
      S × List (ℕ × H)
      → ℕ
      → S × Result (ConsumeError E) (Option H)
      → (S × List (ℕ × H)) × Option (ConsumeError E)
  kept_hook before i (s, err e) = ((s, before.1), some e)
  kept_hook before i (s, ok none) = ((s, before.1), none)
  kept_hook before i (s, ok (some h)) = ((s, before.1 ++ (i, h) ∷ []), none)

  abbrev pub record_effect :
      ℕ → Prepared S E H → KafkaRecord → Effect (S × List (ℕ × H)) (ConsumeError E)
  record_effect i p r state = kept_hook state i (p.handler.handle p.ctx r.payload state.0)

  -- A shard's database with room for the hooks of one transaction, and back.
  abbrev pub open_shard : InboxDb S → InboxDb (S × List (ℕ × H))
  open_shard db = record { inbox = db.inbox; rest = (db.rest, []) }

  abbrev pub close_shard : InboxDb (S × List (ℕ × H)) → InboxDb S
  close_shard db = record { inbox = db.inbox; rest = db.rest.0 }

  abbrev pub hooks_only : List (ℕ × H) → List H
  hooks_only [] = []
  hooks_only ((i, h) ∷ hs) = h ∷ hooks_only hs

  -- `processRecord` after `prepare`: the hook fires where the transaction ran the handler.
  abbrev pub finish_record :
      ℕ
      → World S H
      → InboxDb (S × List (ℕ × H)) × Result (ConsumeError E) Bool
      → World S H × Option (ConsumeError E)
  finish_record shard w (db, err e) =
      (record w { shards = set_shard shard (close_shard db) w.shards }, some e)
  finish_record shard w (db, ok ran) = (
    record {
      shards = set_shard shard (close_shard db) w.shards;
      fired = w.fired ++ hooks_only db.rest.1;
    },
    none,
  )

  unfoldable pub process_record :
      Context → Faults E → KafkaRecord → World S H → World S H × Option (ConsumeError E)
  process_record ctx f r w = elim (prepare ctx r) [
    | none ↦ (w, none)
    | some p ↦
        let shard = c.resolve r.key in
        let k : InboxKey = record { consumer = c.group; message_id = p.msg_id } in
        finish_record shard w
          (process_once f.tx f.insert_fault k (record_effect 0 p r) (open_shard (w.shards shard)))
  ]

  -- The records that have a handler, numbered from `i`.
  unfoldable pub live_from : Context → ℕ → List KafkaRecord → List (Live S E H)
  live_from ctx i [] = []
  live_from ctx i (r ∷ rs) = elim (prepare ctx r) [
    | none ↦ live_from ctx i rs
    | some p ↦
        record { place = i; rec = r; prepared = p; shard = c.resolve r.key }
        ∷ live_from ctx (suc i) rs
  ]

  abbrev pub mem_shard : ℕ → List ℕ → Bool
  mem_shard i [] = false
  mem_shard i (j ∷ js) = j == i || mem_shard i js

  -- The shards of the records, in the order of their first record.
  unfoldable pub group_shards : List ℕ → List (Live S E H) → List ℕ
  group_shards groups [] = groups
  group_shards groups (l ∷ ls) =
      group_shards (if mem_shard l.shard groups then groups else groups ++ l.shard ∷ []) ls

  -- The batch items of one shard.
  unfoldable pub group_items :
      (ℕ → Faults E) → ℕ → List (Live S E H) → List (BatchItem (S × List (ℕ × H)) (ConsumeError E))
  group_items faults shard [] = []
  group_items faults shard (l ∷ ls) =
      let rest = group_items faults shard ls in
      if l.shard == shard
      then record {
        item_id = l.prepared.msg_id;
        item_fn = record_effect l.place l.prepared l.rec;
        item_fault = (faults l.place).insert_fault;
      }
        ∷ rest
      else rest

  -- The end of one group: on an error the loop stops.
  abbrev pub group_done :
      ℕ
      → (ℕ → InboxDb S)
      → List (ℕ × H)
      → ((ℕ → InboxDb S) → List (ℕ × H) → ((ℕ → InboxDb S) × List (ℕ × H)) × Bool)
      → InboxDb (S × List (ℕ × H)) × Result (ConsumeError E) ℕ
      → ((ℕ → InboxDb S) × List (ℕ × H)) × Bool
  group_done g shards left next (db, err e) = ((set_shard g (close_shard db) shards, left), false)
  group_done g shards left next (db, ok n) =
      next (set_shard g (close_shard db) shards) (left ++ db.rest.1)

  -- The loop over the groups, up to the first that fails: the shards, the hooks that the groups left
  -- and whether all succeeded. `group_tx i` is what the driver reports for the transaction on shard `i`.
  unfoldable pub run_groups :
      (ℕ → TxFaults (ConsumeError E))
      → (ℕ → Faults E)
      → List (Live S E H)
      → List ℕ
      → (ℕ → InboxDb S)
      → List (ℕ × H)
      → ((ℕ → InboxDb S) × List (ℕ × H)) × Bool
  unfolding group_items
  run_groups group_tx faults live [] shards left = ((shards, left), true)
  run_groups group_tx faults live (g ∷ groups) shards left =
      group_done g shards left (run_groups group_tx faults live groups) (
        process_batch_once (group_tx g) c.group (group_items faults g live) (open_shard (shards g)))

  -- The hook of one place, if the record's handler ran and left one.
  abbrev pub hook_at : ℕ → List (ℕ × H) → List H
  hook_at i [] = []
  hook_at i ((j, h) ∷ hs) = if j == i then h ∷ [] else hook_at i hs

  -- The hooks in the order of the records.
  unfoldable pub in_order : ℕ → ℕ → List (ℕ × H) → List H
  in_order i zero left = []
  in_order i (suc n) left = hook_at i left ++ in_order (suc i) n left

  abbrev pub replay_next :
      ℕ
      → (World S H → World S H × ℕ × Option (ConsumeError E))
      → World S H × Option (ConsumeError E)
      → World S H × ℕ × Option (ConsumeError E)
  replay_next applied next (w, some e) = (w, applied, some e)
  replay_next applied next (w, none) = next w

  -- The fallback: the original records one at a time, up to the first that fails; how many were
  -- applied, and its error.
  unfoldable pub replay :
      (KafkaRecord → World S H → World S H × Option (ConsumeError E))
      → ℕ
      → List KafkaRecord
      → World S H
      → World S H × ℕ × Option (ConsumeError E)
  replay fallback applied [] w = (w, applied, none)
  replay fallback applied (r ∷ rs) w =
      replay_next applied (replay fallback (suc applied) rs) (fallback r w)

  -- After the groups: the hooks of a batch that succeeded, in order, or the fallback.
  abbrev pub batch_done :
      (KafkaRecord → World S H → World S H × Option (ConsumeError E))
      → List KafkaRecord
      → ℕ
      → World S H
      → ((ℕ → InboxDb S) × List (ℕ × H)) × Bool
      → World S H × ℕ × Option (ConsumeError E)
  batch_done fallback records n w ((shards, left), true) =
      (record { shards = shards; fired = w.fired ++ in_order 0 n left }, length records, none)
  batch_done fallback records n w ((shards, left), false) =
      replay fallback 0 records (record w { shards = shards })

  -- The handler that `BatchHandler` returns.
  unfoldable pub batch_handler :
      (KafkaRecord → World S H → World S H × Option (ConsumeError E))
      → Context
      → (ℕ → TxFaults (ConsumeError E))
      → (ℕ → Faults E)
      → List KafkaRecord
      → World S H
      → World S H × ℕ × Option (ConsumeError E)
  unfolding live_from group_shards run_groups in_order replay
  batch_handler fallback ctx group_tx faults records w =
      let live = live_from ctx 0 records in
      batch_done fallback records (length live) w
        (run_groups group_tx faults live (group_shards [] live) w.shards [])
