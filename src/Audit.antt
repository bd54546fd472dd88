-- ===== src/Audit.antt =====
-- platform/security/audit/audit.go: the hash-chained log. A text is the bytes of its UTF-8 form, and a
-- metadata map a list of its pairs. The functions of crypto/sha256, crypto/hmac and hash/fnv and the JSON
-- of the metadata column are parameters. Time is in nanoseconds. What the driver reports and what the
-- clock shows are arguments of each call.
use go_boilerplate.Prelude.{
  ℕ, zero, suc, ◌+◌, ◌-◌, ◌*◌, ◌/◌, ◌%◌, ◌^◌, Bool, true, false, not, ◌&&◌, ◌||◌, Option, none,
  some, List, [], ◌∷◌, ◌++◌, ltb, leb, ◌==◌, Result, ok, err, if◌then◌else◌, length, replicate,
  Bytes,
}
pub mod Hash
pub mod Record
pub mod Verify
pub mod Pending
pub mod Encoding
pub mod Clean
pub mod Reachable
pub mod Verified
pub mod Tamper
pub mod Shown
pub mod Drained

abbrev pub Metadata : Type 0
Metadata = List (Bytes × Bytes)

-- `at` is none for the zero time.
pub record AuditEntry : Type 0 where
  pub actor : Bytes
  pub action : Bytes
  pub subject : Bytes
  pub metadata : Metadata
  pub at : Option ℕ

pub record Crypto : Type 0 where
  pub sha256 : Bytes → Bytes
  pub hmac : Bytes → Bytes → Bytes

-- The JSON of the metadata column, whose values are of type `J`.
pub record MetaCodec (J : Type 0) : Type 0 where
  pub write : Metadata → J
  pub read : J → Option Metadata

pub record AuditRow (J : Type 0) : Type 0 where
  pub id : ℕ
  pub chain : ℕ
  pub row_actor : Bytes
  pub row_action : Bytes
  pub row_subject : Bytes
  pub row_metadata : J
  pub created_at : ℕ
  pub prev_hash : Bytes
  pub entry_hash : Bytes

-- A row of audit_pending.
pub record PendingRow (J : Type 0) : Type 0 where
  pub pending_id : ℕ
  pub pending_chain : ℕ
  pub staged_actor : Bytes
  pub staged_action : Bytes
  pub staged_subject : Bytes
  pub staged_metadata : J
  pub staged_at : ℕ

-- The tables; the log and the pending rows are in the order of their ids.
pub record AuditDb (J : Type 0) : Type 0 where
  pub heads : List (ℕ × Bytes)
  pub log : List (AuditRow J)
  pub next_id : ℕ
  pub pending : List (PendingRow J)
  pub next_pending : ℕ

abbrev pub genesis_root : Bytes
genesis_root = replicate 32 0

-- `at.Truncate(time.Microsecond)`, of the clock where the entry has no time; and what a timestamptz
-- column keeps of a time.
abbrev pub micros : ℕ → ℕ
micros t = t / 1000 * 1000

abbrev pub entry_time : Option ℕ → ℕ → ℕ
entry_time none now = micros now
entry_time (some t) now = micros t

-- The store: the key of the chain, the number of shards and the hash of an actor.
pub record PgStore (J : Type 0) : Type 0 where
  pub crypto : Crypto
  pub codec : MetaCodec J
  pub chain_key : Bytes
  pub chain_shards : ℕ
  pub fnv32a : Bytes → ℕ

pub data AuditError (E : Type 0) : Type 0 where
  sql : E → AuditError E
  no_rows : AuditError E
  bad_metadata : AuditError E

-- What the driver and the clock do in one call; an insert and a reading of the clock by the place of
-- the entry.
pub record RecordEnv (E : Type 0) : Type 0 where
  pub ensure_fault : Option E
  pub lock_fault : Option E
  pub insert_fault : ℕ → Option E
  pub advance_fault : Option E
  pub clock : ℕ → ℕ

abbrev pub find_head : ℕ → List (ℕ × Bytes) → Option Bytes
find_head c [] = none
find_head c ((d, h) ∷ hs) = if d == c then some h else find_head c hs

-- `insert … on conflict (id) do nothing`.
abbrev pub ensure_head : ℕ → List (ℕ × Bytes) → List (ℕ × Bytes)
ensure_head c [] = (c, genesis_root) ∷ []
ensure_head c ((d, h) ∷ hs) = if d == c then (d, h) ∷ hs else (d, h) ∷ ensure_head c hs

abbrev pub set_head : ℕ → Bytes → List (ℕ × Bytes) → List (ℕ × Bytes)
set_head c h [] = []
set_head c h ((d, g) ∷ hs) = if d == c then (c, h) ∷ hs else (d, g) ∷ set_head c h hs

-- What the migration leaves.
abbrev pub fresh_audit : {J : Type 0} → AuditDb J
fresh_audit = record {
  heads = (1, genesis_root) ∷ [];
  log = [];
  next_id = 1;
  pending = [];
  next_pending = 1;
}
