-- ===== src/Outbox.antt =====
-- platform/messaging/outbox: the table, the relay of relay.go and what it publishes to. The table is
-- the list of its rows in the order of `created_at`, which is the order of both fetches. What the
-- driver and the broker report in one batch is an argument, and so is the set of rows that other
-- sessions have locked.
use mathlib.Core.List.{filter}
use go_boilerplate.Prelude.{
  ℕ, zero, suc, ◌+◌, ◌-◌, ◌*◌, ◌%◌, Bool, true, false, not, ◌&&◌, ◌||◌, Option, none, some, List,
  [], ◌∷◌, ◌++◌, map, String, str_eq, ltb, leb, ◌==◌, ℤ, pos, negsuc, Result, ok, err,
  if◌then◌else◌, length, take,
}
use go_boilerplate.Dict.{Dict}
pub mod Sending
pub mod Draining
pub mod Sharding
pub mod Backoff

pub record Message : Type 0 where
  pub id : String
  pub topic : String
  pub aggregate_type : String
  pub aggregate_id : String
  pub event_type : String
  pub payload : String
  pub headers : String
  pub created_at : ℕ

pub record OutboxRow : Type 0 where
  pub msg : Message
  pub published_at : Option ℕ

abbrev pub unset : Option ℕ → Bool
unset none = true
unset (some t) = false

abbrev pub is_pending : OutboxRow → Bool
is_pending r = unset r.published_at

-- The table and the messages that have reached the broker.
pub record RelayDb : Type 0 where
  pub rows : List OutboxRow
  pub sent : List Message

-- `insert into outbox`, at the row's place in the order.
unfoldable pub insert_outbox : Message → List OutboxRow → List OutboxRow
insert_outbox m [] = record { msg = m; published_at = none } ∷ []
insert_outbox m (r ∷ rows) =
    let rest = insert_outbox m rows in
    if ltb m.created_at r.msg.created_at
    then record { msg = m; published_at = none } ∷ r ∷ rows
    else r ∷ rest

-- SQL's `mod`, which takes the sign of the dividend.
abbrev pub rem : ℤ → ℕ → ℤ
rem (pos n) k = pos (n % k)
rem (negsuc n) k = if suc n % k == 0 then pos 0 else negsuc (suc n % k - 1)

-- `mod(mod(h, k) + k, k)`.
abbrev pub plus_count : ℤ → ℕ → ℕ
plus_count (pos n) k = n + k
plus_count (negsuc n) k = k - suc n

unfoldable pub shard_of : ℤ → ℕ → ℕ
shard_of h k = plus_count (rem h k) k % k

pub record RelayConfig : Type 0 where
  pub batch_size : ℕ
  pub shard_count : ℕ
  pub shard_index : ℕ

-- The condition of the fetch: the shard's rows where the relay is sharded, every row where not.
-- `hash` is `hashtextextended(…, 0)`.
abbrev pub in_shard : (String → ℤ) → RelayConfig → Message → Bool
in_shard hash cfg m =
    if ltb 1 cfg.shard_count
    then shard_of (hash m.aggregate_id) cfg.shard_count == cfg.shard_index
    else true

-- The messages of the rows that a fetch may claim.
unfoldable pub claimable : (Message → Bool) → List OutboxRow → List Message
claimable ok_row [] = []
claimable ok_row (r ∷ rows) =
    let rest = claimable ok_row rows in if is_pending r && ok_row r.msg then r.msg ∷ rest else rest

unfoldable pub fetch_unpublished :
    (String → ℤ) → RelayConfig → (String → Bool) → List OutboxRow → List Message
fetch_unpublished hash cfg locked rows =
    take cfg.batch_size (claimable (λ m. in_shard hash cfg m && not (locked m.id)) rows)

abbrev pub mem_id : String → List String → Bool
mem_id i [] = false
mem_id i (j ∷ js) = str_eq j i || mem_id i js

-- `update outbox set published_at = now() where id = any(…)`.
unfoldable pub mark_published_batch : ℕ → List String → List OutboxRow → List OutboxRow
mark_published_batch now ids [] = []
mark_published_batch now ids (r ∷ rows) =
    (if mem_id r.msg.id ids then record r { published_at = some now } else r)
    ∷ mark_published_batch now ids rows

-- `delete from outbox where published_at is not null and published_at < $1`.
abbrev pub before : Option ℕ → ℕ → Bool
before none cutoff = false
before (some t) cutoff = ltb t cutoff

unfoldable pub delete_published_before : ℕ → List OutboxRow → List OutboxRow
delete_published_before cutoff [] = []
delete_published_before cutoff (r ∷ rows) =
    let rest = delete_published_before cutoff rows in
    if before r.published_at cutoff then rest else r ∷ rest

-- What happens in one batch. The publisher takes whole batches or single messages. A batch that
-- fails may have reached the broker in part.
pub record BatchEnv (E : Type 0) : Type 0 where
  pub locked : String → Bool
  pub claim_fault : Option E
  pub batched : Bool
  pub batch_fault : Option E
  pub reached : Message → Bool
  pub message_fault : Message → Option E
  pub mark_fault : Option E
  pub now : ℕ

-- The environment with no fault and no other session.
abbrev pub healthy : {E : Type 0} → Bool → BatchEnv E
healthy batched = record {
  locked = λ i. false;
  claim_fault = none;
  batched = batched;
  batch_fault = none;
  reached = λ m. true;
  message_fault = λ m. none;
  mark_fault = none;
  now = 0;
}

-- One round of the drain: the batch, whether the context is done after it, and whether the relay,
-- in single-active mode, still holds the leader lock.
pub record Round (E : Type 0) : Type 0 where
  pub env : BatchEnv E
  pub ctx_done : Bool
  pub still_leader : Bool

unfoldable pub keep_reached : (Message → Bool) → List Message → List Message
keep_reached reached [] = []
keep_reached reached (m ∷ ms) =
    let rest = keep_reached reached ms in if reached m then m ∷ rest else rest

abbrev pub drain_ends : RelayConfig → Bool → ℕ → Bool
drain_ends cfg done n = ltb n cfg.batch_size || done

module _ {E : Type 0} where
  -- `Publish` for each message, up to the first error.
  unfoldable pub publish_each :
      (Message → Option E) → List Message → List Message → List Message × Option E
  publish_each fault [] sent = (sent, none)
  publish_each fault (m ∷ ms) sent = elim (fault m) [
    | some e ↦ (sent, some e)
    | none ↦ publish_each fault ms (sent ++ m ∷ [])
  ]

  abbrev pub publish_batch :
      Option E → (Message → Bool) → List Message → List Message → List Message × Option E
  publish_batch none reached ms sent = (sent ++ ms, none)
  publish_batch (some e) reached ms sent = (sent ++ keep_reached reached ms, some e)

  -- Phase B.
  abbrev pub publish_all : BatchEnv E → List Message → List Message → List Message × Option E
  publish_all env ms sent =
      if env.batched
      then publish_batch env.batch_fault env.reached ms sent
      else publish_each env.message_fault ms sent

  -- Phase C.
  abbrev pub mark_all : Option E → ℕ → List Message → RelayDb → RelayDb × Result E ℕ
  mark_all (some e) now ms db = (db, err e)
  mark_all none now ms db = (
    record db { rows = mark_published_batch now (map (λ (m : Message). m.id) ms) db.rows },
    ok (length ms),
  )

  abbrev pub publish_phase : BatchEnv E → List Message → RelayDb → RelayDb × Result E ℕ
  publish_phase env [] db = (db, ok 0)
  publish_phase env (m ∷ ms) db =
      let (sent, failed) = publish_all env (m ∷ ms) db.sent in
      elim failed [
        | some e ↦ (record db { sent = sent }, err e)
        | none ↦ mark_all env.mark_fault env.now (m ∷ ms) (record db { sent = sent })
      ]

  unfoldable pub process_batch :
      (String → ℤ) → RelayConfig → BatchEnv E → RelayDb → RelayDb × Result E ℕ
  unfolding fetch_unpublished publish_each
  process_batch hash cfg env db = elim env.claim_fault [
    | some e ↦ (db, err e)
    | none ↦ publish_phase env (fetch_unpublished hash cfg env.locked db.rows) db
  ]

  -- `drain`, on fuel; `none` means that the fuel ran out. The error is that of the last batch.
  unfoldable pub drain :
      ℕ → (String → ℤ) → RelayConfig → (ℕ → Round E) → ℕ → RelayDb → Option (RelayDb × Option E)
  drain zero hash cfg rounds i db = none
  drain (suc fuel) hash cfg rounds i db =
      let (db', r) = process_batch hash cfg (rounds i).env db in
      elim r [
        | err e ↦ some (db', some e)
        | ok n ↦ elim (drain_ends cfg (rounds i).ctx_done n) [
          | true ↦ some (db', none)
          | false ↦ elim (rounds i).still_leader [
            | false ↦ some (db', none)
            | true ↦ drain fuel hash cfg rounds (suc i) db'
          ]
        ]
      ]

abbrev pub backoff_base : ℕ
backoff_base = 100

abbrev pub backoff_max : ℕ
backoff_max = 30_000

-- The loop `for i := 1; i < consecutiveFailures; i++`, by the rounds that are left, in milliseconds.
unfoldable pub backoff_loop : ℕ → ℕ → ℕ
backoff_loop zero backoff = backoff
backoff_loop (suc n) backoff =
    let rest = backoff_loop n (backoff * 2) in
    if ltb backoff_max (backoff * 2) then backoff_max else rest

unfoldable pub backoff_after : ℕ → ℕ
backoff_after failures = backoff_loop (failures - 1) backoff_base
