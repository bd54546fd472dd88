-- ===== src/Partitions.antt =====
-- platform/messaging/outbox/partition.go: the maintenance of the outbox's time partitions. Times are in
-- nanoseconds since Go's zero time, to which `Truncate` aligns. The format of a time in a partition's
-- name, the pattern that names are matched with and what the driver reports are arguments; nothing else
-- writes to an expired partition while it is dropped. The gauges and counters are left out.
use go_boilerplate.Prelude.{
  ℕ, zero, suc, ◌+◌, ◌-◌, ◌*◌, ◌/◌, Bool, true, false, ◌&&◌, ◌||◌, Option, none, some, List, [],
  ◌∷◌, ◌++◌, String, str_eq, ◌<>◌, ℤ, pos, pos_part, ltb, if◌then◌else◌,
}
use go_boilerplate.Outbox.{OutboxRow, is_pending}
pub mod Kept
pub mod Ahead

pub record PartitionNames : Type 0 where
  pub format_time : ℕ → String
  pub matches : String → Bool
  pub parse_time : String → Option ℕ

pub record PartitionConfig : Type 0 where
  pub interval : ℕ
  pub retention : ℤ
  pub lookahead : ℕ

abbrev pub default_interval : ℕ
default_interval = 2592000000000000

-- An interval or a lookahead that makes no sense is replaced.
unfoldable pub new_partition_manager : ℤ → ℤ → ℤ → PartitionConfig
new_partition_manager interval retention lookahead = record {
  interval = if ltb 0 (pos_part interval) then pos_part interval else default_interval;
  retention = retention;
  lookahead = if ltb 0 (pos_part lookahead) then pos_part lookahead else 1;
}

unfoldable pub window : PartitionConfig → ℕ → ℕ × ℕ
window cfg t = (t / cfg.interval * cfg.interval, t / cfg.interval * cfg.interval + cfg.interval)

-- A partition with its range, none for the default one.
pub record Partition : Type 0 where
  pub relname : String
  pub range : Option (ℕ × ℕ)
  pub stored : List OutboxRow

-- The partitions of the outbox, and the tables that were detached and not dropped yet.
pub record PartitionDb : Type 0 where
  pub attached : List Partition
  pub detached : List Partition

abbrev pub prefix : String
prefix = "outbox_p"

abbrev pub partition_name : PartitionNames → ℕ → String
partition_name names lo = prefix <> names.format_time lo

abbrev pub drop_chars : ℕ → String → String
drop_chars zero s = s
drop_chars (suc n) String.[] = String.[]
drop_chars (suc n) (String.◌∷◌ c s) = drop_chars n s

unfoldable pub parse_partition_low : PartitionNames → String → Option ℕ
parse_partition_low names name =
    if names.matches name then names.parse_time (drop_chars 8 name) else none

abbrev pub has_partition : String → List Partition → Bool
has_partition name [] = false
has_partition name (p ∷ ps) = str_eq p.relname name || has_partition name ps

-- `create table if not exists … partition of outbox`.
abbrev pub create_partition : String → ℕ × ℕ → List Partition → List Partition
create_partition name range ps =
    if has_partition name ps
    then ps
    else ps ++ record { relname = name; range = some range; stored = [] } ∷ []

pub record PartitionFaults (E : Type 0) : Type 0 where
  pub create_fault : ℕ → Option E
  pub list_fault : Option E
  pub probe_fault : String → Option E
  pub detach_fault : String → Option E
  pub drop_fault : String → Option E

abbrev pub create_or_stop :
    {E : Type 0}
    → Option E
    → String
    → ℕ × ℕ
    → PartitionDb
    → (PartitionDb → PartitionDb × Option E)
    → PartitionDb × Option E
create_or_stop (some e) name range db next = (db, some e)
create_or_stop none name range db next =
    next (record db { attached = create_partition name range db.attached })

module _ {E : Type 0} (names : PartitionNames) (cfg : PartitionConfig)
    (faults : PartitionFaults E) where
  -- The rounds that are left, from the round `i`.
  unfoldable pub ensure_from : ℕ → ℕ → ℕ → PartitionDb → PartitionDb × Option E
  unfolding window
  ensure_from zero i now db = (db, none)
  ensure_from (suc left) i now db =
      let range = window cfg (now + i * cfg.interval) in
      create_or_stop (faults.create_fault i) (partition_name names range.0) range db
        (ensure_from left (i + 1) now)

  unfoldable pub ensure_partitions : ℕ → PartitionDb → PartitionDb × Option E
  unfolding ensure_from
  ensure_partitions now db = ensure_from (cfg.lookahead + 1) 0 now db

abbrev pub any_pending : List OutboxRow → Bool
any_pending [] = false
any_pending (r ∷ rs) = is_pending r || any_pending rs

-- `select exists(select 1 from … where published_at is null)`.
abbrev pub has_unpublished : String → List Partition → Bool
has_unpublished name [] = false
has_unpublished name (p ∷ ps) =
    (str_eq p.relname name && any_pending p.stored) || has_unpublished name ps

abbrev pub without : String → List Partition → List Partition
without name [] = []
without name (p ∷ ps) =
    let rest = without name ps in if str_eq p.relname name then rest else p ∷ rest

abbrev pub named : String → List Partition → List Partition
named name [] = []
named name (p ∷ ps) = let rest = named name ps in if str_eq p.relname name then p ∷ rest else rest

module _ {E : Type 0} (names : PartitionNames) (cfg : PartitionConfig)
    (faults : PartitionFaults E) where
  abbrev pub dropped : String → Option E → PartitionDb → PartitionDb × List E
  dropped name (some e) db = (db, e ∷ [])
  dropped name none db = (record db { detached = without name db.detached }, [])

  abbrev pub detach : String → Option E → PartitionDb → PartitionDb × List E
  detach name (some e) db = (db, e ∷ [])
  detach name none db = dropped name (faults.drop_fault name) (record db {
    attached = without name db.attached;
    detached = db.detached ++ named name db.attached;
  })

  abbrev pub probe : String → Option E → PartitionDb → PartitionDb × List E
  probe name (some e) db = (db, e ∷ [])
  probe name none db =
      if has_unpublished name db.attached
      then (db, [])
      else detach name (faults.detach_fault name) db

  -- A partition of another name, or one that is not fully expired, is left alone.
  abbrev pub drop_one : ℕ → String → Option ℕ → PartitionDb → PartitionDb × List E
  drop_one cutoff name none db = (db, [])
  drop_one cutoff name (some lo) db =
      if ltb cutoff (lo + cfg.interval) then (db, []) else probe name (faults.probe_fault name) db

  unfoldable pub drop_each : ℕ → List String → PartitionDb → PartitionDb × List E
  unfolding parse_partition_low
  drop_each cutoff [] db = (db, [])
  drop_each cutoff (name ∷ rest) db =
      let (db₁, errs) = drop_one cutoff name (parse_partition_low names name) db in
      let (db₂, more) = drop_each cutoff rest db₁ in (db₂, errs ++ more)

  abbrev pub list_partitions : List Partition → List String
  list_partitions [] = []
  list_partitions (p ∷ ps) = p.relname ∷ list_partitions ps

  abbrev pub drop_listed : Option E → ℕ → PartitionDb → PartitionDb × List E
  drop_listed (some e) cutoff db = (db, e ∷ [])
  drop_listed none cutoff db = drop_each cutoff (list_partitions db.attached) db

  unfoldable pub drop_expired : ℕ → PartitionDb → PartitionDb × List E
  unfolding drop_each
  drop_expired now db =
      if ltb 0 (pos_part cfg.retention)
      then drop_listed faults.list_fault (now - pos_part cfg.retention) db
      else (db, [])

  abbrev pub ensure_errors : Option E → List E
  ensure_errors none = []
  ensure_errors (some e) = e ∷ []

  -- A failure of the first half does not stop the second.
  unfoldable pub maintain : ℕ → PartitionDb → PartitionDb × List E
  unfolding drop_expired
  maintain now db =
      let (db₁, failed) = ensure_partitions names cfg faults now db in
      let (db₂, errs) = drop_expired now db₁ in (db₂, ensure_errors failed ++ errs)
