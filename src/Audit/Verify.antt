-- ===== src/Audit/Verify.antt =====
-- platform/security/audit/audit.go: `VerifyChain`. Hashes are reported as bytes, where the source writes
-- them in hexadecimal. The driver's errors on these reads, which the code passes on, are left out.
use go_boilerplate.Prelude.{
  ℕ, suc, ◌+◌, Bool, true, false, not, ◌&&◌, Option, none, some, List, [], ◌∷◌, leb, ◌==◌, Result,
  ok, err, if◌then◌else◌, Bytes,
}
use go_boilerplate.Audit.{
  Metadata, AuditRow, AuditDb, PgStore, AuditError, no_rows, genesis_root, find_head,
}
use go_boilerplate.Audit.Hash.{compute_entry_hash, bytes_equal}

pub data Reason : Type 0 where
  genesis_anchor_mismatch prev_hash_link_broken entry_hash_mismatch chain_head_mismatch : Reason

-- `break_id` is 0 where no row is at fault.
pub record ChainResult : Type 0 where
  pub is_ok : Bool
  pub verified : ℕ
  pub break_id : ℕ
  pub expected_hash : Bytes
  pub got_hash : Bytes
  pub reason : Option Reason

abbrev pub clean : ℕ → ChainResult
clean n = record {
  is_ok = true;
  verified = n;
  break_id = 0;
  expected_hash = [];
  got_hash = [];
  reason = none;
}

abbrev pub breach : ℕ → ℕ → Bytes → Bytes → Reason → ChainResult
breach n id expected got why = record {
  is_ok = false;
  verified = n;
  break_id = id;
  expected_hash = expected;
  got_hash = got;
  reason = some why;
}

-- How the walk over the rows of a chain ends: at a break, or with the number of rows and the hash of
-- the last.
pub data Walk : Type 0 where
  broken : ChainResult → Walk
  walked : ℕ → Option Bytes → Walk

-- The rows of a chain from a time on; no time means all.
abbrev pub is_since : Option ℕ → ℕ → Bool
is_since none t = true
is_since (some s) t = leb s t

unfoldable pub rows_since : {J : Type 0} → Option ℕ → ℕ → List (AuditRow J) → List (AuditRow J)
rows_since since c [] = []
rows_since since c (r ∷ rs) =
    let rest = rows_since since c rs in
    if r.chain == c && is_since since r.created_at then r ∷ rest else rest

abbrev pub is_full : Option ℕ → Bool
is_full none = true
is_full (some s) = false

-- A column that does not parse reads as an empty map.
abbrev pub or_empty : Option Metadata → Metadata
or_empty none = []
or_empty (some m) = m

abbrev pub insert_head_row : ℕ × Bytes → List (ℕ × Bytes) → List (ℕ × Bytes)
insert_head_row a [] = a ∷ []
insert_head_row a (b ∷ hs) = if leb a.0 b.0 then a ∷ b ∷ hs else b ∷ insert_head_row a hs

-- `order by id`.
unfoldable pub sorted_heads : List (ℕ × Bytes) → List (ℕ × Bytes)
sorted_heads [] = []
sorted_heads (a ∷ hs) = insert_head_row a (sorted_heads hs)

module _ {J : Type 0} (store : PgStore J) where
  abbrev pub expected_of : AuditRow J → Bytes
  expected_of r =
      compute_entry_hash store.crypto store.chain_key r.prev_hash r.row_actor r.row_action
        r.row_subject r.created_at (or_empty (store.codec.read r.row_metadata))

  -- The check of a row's own hash, before the next row.
  abbrev pub check_entry : ℕ → AuditRow J → Walk → Walk
  check_entry n r next =
      if bytes_equal (expected_of r) r.entry_hash
      then next
      else broken (breach n r.id (expected_of r) r.entry_hash entry_hash_mismatch)

  -- The checks of a row against what stands before it.
  abbrev pub check_link : Bool → ℕ → Option Bytes → AuditRow J → Walk → Walk
  check_link full n none r next =
      if full && not (bytes_equal r.prev_hash genesis_root)
      then broken (breach n r.id genesis_root r.prev_hash genesis_anchor_mismatch)
      else check_entry n r next
  check_link full n (some h) r next =
      if bytes_equal r.prev_hash h
      then check_entry n r next
      else broken (breach n r.id h r.prev_hash prev_hash_link_broken)

  unfoldable pub walk : Bool → ℕ → Option Bytes → List (AuditRow J) → Walk
  walk full n prev [] = walked n prev
  walk full n prev (r ∷ rs) = check_link full n prev r (walk full (suc n) (some r.entry_hash) rs)

module _ {J E : Type 0} (store : PgStore J) where
  abbrev pub check_head : ℕ → Bytes → Option Bytes → Result (AuditError E) ChainResult
  check_head n h none = err no_rows
  check_head n h (some head) =
      if bytes_equal h head then ok (clean n) else ok (breach n 0 head h chain_head_mismatch)

  abbrev pub after_walk : ℕ → AuditDb J → Walk → Result (AuditError E) ChainResult
  after_walk c db (broken r) = ok r
  after_walk c db (walked n none) = ok (clean n)
  after_walk c db (walked n (some h)) = check_head n h (find_head c db.heads)

  unfoldable pub verify_one_chain : Option ℕ → ℕ → AuditDb J → Result (AuditError E) ChainResult
  unfolding walk rows_since
  verify_one_chain since c db =
      after_walk c db (walk store (is_full since) 0 none (rows_since since c db.log))

  abbrev pub add_chain :
      ℕ
      → (ℕ → Result (AuditError E) ChainResult)
      → Result (AuditError E) ChainResult
      → Result (AuditError E) ChainResult
  add_chain total next (err x) = err x
  add_chain total next (ok r) = if r.is_ok then next (total + r.verified) else ok r

  unfoldable pub verify_chains :
      Option ℕ → AuditDb J → ℕ → List (ℕ × Bytes) → Result (AuditError E) ChainResult
  unfolding verify_one_chain
  verify_chains since db total [] = ok (clean total)
  verify_chains since db total ((c, h) ∷ hs) =
      add_chain total (λ t. verify_chains since db t hs) (verify_one_chain since c db)

  -- `VerifyChain`, over the chains that have a head, in the order of their ids.
  unfoldable pub verify_chain : Option ℕ → AuditDb J → Result (AuditError E) ChainResult
  unfolding verify_chains
  verify_chain since db = verify_chains since db 0 (sorted_heads db.heads)
