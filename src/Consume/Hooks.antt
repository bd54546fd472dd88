-- ===== src/Consume/Hooks.antt =====
-- platform/messaging/consume: the post-commit hooks of a batch that falls back.
use mathlib.Core.List.{append-nil}
use go_boilerplate.Prelude.{
  ℕ, ◌≡◌, refl, ap, ◌∙◌, length, Bool, true, false, Option, none, some, List, [], ◌∷◌, ◌++◌, eq_iff,
  arith, ◌==◌, Result, ok, err,
}
use go_boilerplate.Tx.{TxFaults, no_tx_faults}
use go_boilerplate.Inbox.{
  InboxKey, InboxDb, Effect, is_seen, insert_inbox, once, process_once, batch_loop,
  process_batch_once,
}
use go_boilerplate.Lineage.{Context}
use go_boilerplate.Consume.{
  KafkaRecord, ConsumeError, Consumer, World, set_shard, Prepared, Faults, Live, prepare,
  process_record, live_from, group_shards, group_items, run_groups, replay, batch_handler,
  open_shard, close_shard, finish_record, record_effect, group_done, batch_done, replay_next,
}

process_once_seen :
    {S E : Type 0} (tx : TxFaults E) (fault : Option E) (k : InboxKey) (fn : Effect S E)
    (db : InboxDb S)
    → is_seen k db.inbox ≡ true
    → (process_once tx fault k fn db).0 ≡ db
unfolding process_once once insert_inbox
process_once_seen tx fault k fn db seen = ground arith

abbrev pub no_faults : {E : Type 0} → Faults E
no_faults = record { tx = no_tx_faults; insert_fault = none }

module _ {S E H : Type 0} (c : Consumer S E H) where
  finish_record-fired :
      (i : ℕ) (w : World S H) (db : InboxDb S) (d : InboxDb (S × List (ℕ × H)))
      (r : Result (ConsumeError E) Bool)
      → d ≡ open_shard c db
      → (finish_record c i w (d, r)).0.fired ≡ w.fired
  finish_record-fired i w db d (err e) h = refl
  finish_record-fired i w db d (ok b) h = ground (arith, append-nil w.fired)

  -- A record whose message is in the inbox of its shard fires no hook.
  process_record_seen :
      (ctx : Context) (f : Faults E) (r : KafkaRecord) (w : World S H) (p : Prepared S E H)
      → prepare c ctx r ≡ some p
      → is_seen
          (record { consumer = c.group; message_id = p.msg_id })
          (w.shards (c.resolve r.key)).inbox
        ≡ true
      → (process_record c ctx f r w).0.fired ≡ w.fired
  unfolding process_record
  process_record_seen ctx f r w p prepared seen =
      rw (prepared, process_record)
        (finish_record-fired (c.resolve r.key) w (w.shards (c.resolve r.key)) _ _ (
          process_once_seen f.tx f.insert_fault
            (record { consumer = c.group; message_id = p.msg_id }) (record_effect c 0 p r)
            (open_shard c (w.shards (c.resolve r.key))) seen))

  -- A record whose message is in the inbox of its shard is processed with no error by a healthy driver,
  -- and leaves its shard as it was.
  process_record_dup :
      (ctx : Context) (r : KafkaRecord) (w : World S H) (p : Prepared S E H)
      → prepare c ctx r ≡ some p
      → is_seen
          (record { consumer = c.group; message_id = p.msg_id })
          (w.shards (c.resolve r.key)).inbox
        ≡ true
      → process_record c ctx no_faults r w ≡ (
        record {
          shards = set_shard (c.resolve r.key) (w.shards (c.resolve r.key)) w.shards;
          fired = w.fired ++ [];
        },
        none,
      )
  unfolding process_record process_once once insert_inbox
  process_record_dup ctx r w p prepared seen = rw (prepared, process_record, seen) refl

  once_new :
      (i : ℕ) (p : Prepared S E H) (r : KafkaRecord) (db : InboxDb S) (s : S) (h : H)
      → is_seen (record { consumer = c.group; message_id = p.msg_id }) db.inbox ≡ false
      → p.handler.handle p.ctx r.payload db.rest ≡ (s, ok (some h))
      → once none
          (record { consumer = c.group; message_id = p.msg_id })
          (record_effect c i p r)
          (open_shard c db)
        ≡ (
          record {
            inbox = record { consumer = c.group; message_id = p.msg_id } ∷ db.inbox;
            rest = (s, (i, h) ∷ []);
          },
          ok true,
        )
  unfolding once insert_inbox
  once_new i p r db s h new ran = rw (new, ran) refl

  -- The transaction of one record on a healthy shard, where its message is new and its handler leaves
  -- a hook.
  one_record_group :
      (i : ℕ) (p : Prepared S E H) (r : KafkaRecord) (db : InboxDb S) (s : S) (h : H)
      → is_seen (record { consumer = c.group; message_id = p.msg_id }) db.inbox ≡ false
      → p.handler.handle p.ctx r.payload db.rest ≡ (s, ok (some h))
      → process_batch_once {E = ConsumeError E} no_tx_faults c.group
          (record { item_id = p.msg_id; item_fn = record_effect c i p r; item_fault = none } ∷ [])
          (open_shard c db)
        ≡ (
          record {
            inbox = record { consumer = c.group; message_id = p.msg_id } ∷ db.inbox;
            rest = (s, (i, h) ∷ []);
          },
          ok 1,
        )
  unfolding process_batch_once batch_loop
  one_record_group i p r db s h new ran = ground (arith, once_new i p r db s h new ran)

  run_groups_ok :
      (group_tx : ℕ → TxFaults (ConsumeError E)) (live : List (Live S E H)) (g : ℕ) (gs : List ℕ)
      (shards : ℕ → InboxDb S) (left : List (ℕ × H)) (db : InboxDb (S × List (ℕ × H))) (n : ℕ)
      → process_batch_once
          (group_tx g)
          c.group
          (group_items c (λ i. no_faults) g live)
          (open_shard c (shards g))
        ≡ (db, ok n)
      → run_groups c group_tx (λ i. no_faults) live (g ∷ gs) shards left
        ≡ run_groups c group_tx
            (λ i. no_faults)
            live
            gs
            (set_shard g (close_shard c db) shards)
            (left ++ db.rest.1)
  unfolding run_groups
  run_groups_ok group_tx live g gs shards left db n ran =
      ap (group_done c g shards left (run_groups c group_tx (λ i. no_faults) live gs)) ran

  run_groups_broken :
      (group_tx : ℕ → TxFaults (ConsumeError E)) (live : List (Live S E H)) (g : ℕ) (gs : List ℕ)
      (shards : ℕ → InboxDb S) (left : List (ℕ × H)) (e : ConsumeError E)
      → group_tx g ≡ record { begin_fault = some e; commit_fault = none }
      → run_groups c group_tx (λ i. no_faults) live (g ∷ gs) shards left
        ≡ ((set_shard g (close_shard c (open_shard c (shards g))) shards, left), false)
  unfolding run_groups process_batch_once
  run_groups_broken group_tx live g gs shards left e broken =
      ap
        (λ tx. group_done c g shards left (run_groups c group_tx (λ i. no_faults) live gs) (
          process_batch_once tx c.group (group_items c (λ i. no_faults) g live)
            (open_shard c (shards g))))
        broken

  module _ (ctx : Context) (r₁ r₂ : KafkaRecord) (p₁ p₂ : Prepared S E H)
      (prep₁ : prepare c ctx r₁ ≡ some p₁) (prep₂ : prepare c ctx r₂ ≡ some p₂)
      (apart : (c.resolve r₁.key == c.resolve r₂.key) ≡ false) where
    abbrev a : ℕ
    a = c.resolve r₁.key

    abbrev b : ℕ
    b = c.resolve r₂.key

    abbrev two_live : List (Live S E H)
    two_live =
        record { place = 0; rec = r₁; prepared = p₁; shard = a }
        ∷ record { place = 1; rec = r₂; prepared = p₂; shard = b }
        ∷ []

    live_two : live_from c ctx 0 (r₁ ∷ r₂ ∷ []) ≡ two_live
    unfolding live_from
    live_two = rw (prep₁, live_from) (rw (prep₂, live_from) refl)

    groups_two : group_shards c [] two_live ≡ a ∷ b ∷ []
    unfolding group_shards
    groups_two = rw apart refl

    items_one :
        group_items c (λ i. no_faults) a two_live
        ≡ record { item_id = p₁.msg_id; item_fn = record_effect c 0 p₁ r₁; item_fault = none } ∷ []
    unfolding group_items
    items_one =
        let self : (a == a) ≡ true = ground arith in
        let other : (b == a) ≡ false = ground arith in rw (self, other) refl

    module _ (w : World S H) (s : S) (h : H) (group_tx : ℕ → TxFaults (ConsumeError E))
        (e : ConsumeError E)
        (new : is_seen (record { consumer = c.group; message_id = p₁.msg_id }) (w.shards a).inbox
          ≡ false)
        (ran : p₁.handler.handle p₁.ctx r₁.payload (w.shards a).rest ≡ (s, ok (some h)))
        (fine : group_tx a ≡ no_tx_faults)
        (broken : group_tx b ≡ record { begin_fault = some e; commit_fault = none }) where
      -- The first shard after its group.
      abbrev committed : InboxDb S
      committed = record {
        inbox = record { consumer = c.group; message_id = p₁.msg_id } ∷ (w.shards a).inbox;
        rest = s;
      }

      abbrev after_groups : ℕ → InboxDb S
      after_groups =
          let first = set_shard a committed w.shards in
          set_shard b (close_shard c (open_shard c (first b))) first

      groups_run :
          run_groups c group_tx (λ i. no_faults) two_live (a ∷ b ∷ []) w.shards []
          ≡ ((after_groups, (0, h) ∷ []), false)
      groups_run =
          run_groups_ok group_tx two_live a (b ∷ []) w.shards [] _ 1
            (rw (fine, items_one) (one_record_group 0 p₁ r₁ (w.shards a) s h new ran))
          ∙ run_groups_broken group_tx two_live b [] (set_shard a committed w.shards) ((0, h) ∷ [])
              e broken

      first_committed : after_groups a ≡ committed
      first_committed = let self : (a == a) ≡ true = ground arith in rw (apart, self) refl

      -- What is left to do: the second record, with the first counted as applied.
      abbrev resumed : World S H
      resumed = record { shards = set_shard a (after_groups a) after_groups; fired = w.fired ++ [] }

      seen_again :
          is_seen (record { consumer = c.group; message_id = p₁.msg_id }) (after_groups a).inbox
          ≡ true
      seen_again =
          rw first_committed
            (ground (arith, (eq_iff c.group c.group).1 refl, (eq_iff p₁.msg_id p₁.msg_id).1 refl))

      resumed_rest : (resumed.shards a).rest ≡ s
      resumed_rest = let self : (a == a) ≡ true = ground arith in rw (self, apart) refl

      groups_of_batch :
          run_groups c group_tx
            (λ i. no_faults)
            (live_from c ctx 0 (r₁ ∷ r₂ ∷ []))
            (group_shards c [] (live_from c ctx 0 (r₁ ∷ r₂ ∷ [])))
            w.shards
            []
          ≡ ((after_groups, (0, h) ∷ []), false)
      groups_of_batch = rw (live_two, groups_two) groups_run

      -- A batch of two records on two shards: the first record's message is new and its
      -- handler leaves a hook; its shard commits, and the transaction of the second shard
      -- cannot begin. Then a fallback that is `processRecord` for the first record goes on to
      -- the second, with one record counted as applied, from a state that holds the effect of
      -- the first while its hook has not fired.
      pub hook_lost :
          (fallback : KafkaRecord → World S H → World S H × Option (ConsumeError E))
          → ((v : World S H) → fallback r₁ v ≡ process_record c ctx no_faults r₁ v)
          → (w' : World S H) × (batch_handler c fallback ctx group_tx
                (λ i. no_faults)
                (r₁ ∷ r₂ ∷ [])
                w
              ≡ replay c fallback 1 (r₂ ∷ []) w')
            × ((w'.shards (c.resolve r₁.key)).rest ≡ s)
            × (w'.fired ≡ w.fired)
      unfolding batch_handler replay
      hook_lost fallback replays = (
        resumed,
        ap (batch_done c fallback (r₁ ∷ r₂ ∷ []) (length (live_from c ctx 0 (r₁ ∷ r₂ ∷ []))) w)
              groups_of_batch
            ∙ ap (replay_next c 0 (replay c fallback 1 (r₂ ∷ []))) (
                replays (record w { shards = after_groups })
                ∙ process_record_dup ctx r₁ (record w { shards = after_groups }) p₁ prep₁
                    seen_again),
        resumed_rest,
        append-nil w.fired,
      )
