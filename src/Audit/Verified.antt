-- ===== src/Audit/Verified.antt =====
-- platform/security/audit: `VerifyChain` on what the store has recorded.
use go_boilerplate.Prelude.{
  ℕ, suc, ◌+◌, ◌≡◌, refl, ap, ◌∙◌, Bool, true, Option, none, some, List, [], ◌∷◌, ok, length, Bytes,
  arith, Option-cases, inl, inr, ◌↔◌,
}
use go_boilerplate.Audit.{AuditRow, AuditDb, PgStore, genesis_root, find_head, fresh_audit}
use go_boilerplate.Audit.Hash.{bytes_equal}
use go_boilerplate.Audit.Verify.{
  walk, walked, check_entry, check_link, after_walk, clean, verify_one_chain, verify_chains,
  verify_chain, sorted_heads, expected_of,
}
use go_boilerplate.Audit.Clean.{IsFaithful, Linked, AllFit, rows_of}
use go_boilerplate.Audit.Reachable.{AuditOp, run_audit_ops, AllFit-run_all, AllFit-fresh}

pub bytes_equal_iff : (a b : Bytes) → (bytes_equal a b ≡ true) ↔ (a ≡ b)
unfolding bytes_equal
bytes_equal_iff [] [] = (λ e. refl, λ e. refl)
bytes_equal_iff [] (y ∷ ys) = (λ e. cc, λ e. cc)
bytes_equal_iff (x ∷ xs) [] = (λ e. cc, λ e. cc)
bytes_equal_iff (x ∷ xs) (y ∷ ys) =
    (λ e. ground (arith, (bytes_equal_iff xs ys).0), λ e. ground (arith, (bytes_equal_iff xs ys).1))

bytes_equal_self : (b : Bytes) → bytes_equal b b ≡ true
bytes_equal_self b = (bytes_equal_iff b b).1 refl

module _ {J : Type 0} (store : PgStore J) where
  check_entry_own :
      (n : ℕ) (r : AuditRow J) (next : _)
      → expected_of store r ≡ r.entry_hash
      → check_entry store n r next ≡ next
  check_entry_own n r next own = rw (own, bytes_equal_self r.entry_hash) refl

  check_link_on :
      (full : Bool) (n : ℕ) (p : Bytes) (r : AuditRow J) (next : _)
      → r.prev_hash ≡ p
      → expected_of store r ≡ r.entry_hash
      → check_link store full n (some p) r next ≡ next
  check_link_on full n p r next prev own =
      rw ((bytes_equal_iff r.prev_hash p).1 prev) (check_entry_own n r next own)

  check_link_first :
      (n : ℕ) (r : AuditRow J) (next : _)
      → r.prev_hash ≡ genesis_root
      → expected_of store r ≡ r.entry_hash
      → check_link store true n none r next ≡ next
  check_link_first n r next prev own =
      rw ((bytes_equal_iff r.prev_hash genesis_root).1 prev) (check_entry_own n r next own)

  walk_on :
      (full : Bool) (n : ℕ) (p : Bytes) (rs : List (AuditRow J)) (h : Bytes)
      → Linked store p rs h
      → walk store full n (some p) rs ≡ walked (length rs + n) (some h)
  unfolding walk
  walk_on full n p [] h l = ground arith
  walk_on full n p (r ∷ rs) h (prev, own, l) =
      check_link_on full n p r (walk store full (suc n) (some r.entry_hash) rs) prev own
      ∙ walk_on full (suc n) r.entry_hash rs h l
      ∙ ap (λ (k : ℕ). walked k (some h)) (omega arith)

  -- The hash at which a walk over linked rows ends.
  abbrev last_hash : List (AuditRow J) → Bytes → Option Bytes
  last_hash [] h = none
  last_hash (r ∷ rs) h = some h

  walk_all :
      (rs : List (AuditRow J)) (h : Bytes)
      → Linked store genesis_root rs h
      → walk store true 0 none rs ≡ walked (length rs) (last_hash rs h)
  unfolding walk
  walk_all [] h l = refl
  walk_all (r ∷ rs) h (prev, own, l) =
      check_link_first 0 r (walk store true 1 (some r.entry_hash) rs) prev own
      ∙ walk_on true 1 r.entry_hash rs h l
      ∙ ap (λ (k : ℕ). walked k (some h)) (omega arith)

module _ {J : Type 0} (store : PgStore J) where
  -- The rows of some chains.
  abbrev pub rows_in : List (ℕ × Bytes) → AuditDb J → ℕ
  rows_in [] db = 0
  rows_in ((c, h) ∷ hs) db = length (rows_of store c db) + rows_in hs db

module _ {J E : Type 0} (store : PgStore J) where
  after_walk_all :
      (c : ℕ) (db : AuditDb J) (rs : List (AuditRow J)) (h : Bytes)
      → find_head c db.heads ≡ some h
      → after_walk {E = E} store c db (walked (length rs) (last_hash store rs h))
        ≡ ok (clean (length rs))
  after_walk_all c db [] h found = refl
  after_walk_all c db (r ∷ rs) h found = rw (found, bytes_equal_self h) refl

  verify_one_clean :
      (c : ℕ) (db : AuditDb J)
      → AllFit store db
      → verify_one_chain {E = E} store none c db ≡ ok (clean (length (rows_of store c db)))
  unfolding verify_one_chain
  verify_one_clean c db fit = elim (Option-cases (find_head c db.heads)) [
    | inl missing ↦
        let empty : rows_of store c db ≡ [] = rw missing at (fit c) in rw (empty, walk) refl
    | inr (h, found) ↦
        let linked : Linked store genesis_root (rows_of store c db) h = rw found at (fit c) in
        rw (walk_all store (rows_of store c db) h linked)
          (after_walk_all c db (rows_of store c db) h found)
  ]

  verify_chains-clean :
      (db : AuditDb J) (total : ℕ) (hs : List (ℕ × Bytes))
      → AllFit store db
      → verify_chains {E = E} store none db total hs ≡ ok (clean (total + rows_in store hs db))
  unfolding verify_chains
  verify_chains-clean db total [] fit = ap (λ (n : ℕ). ok (clean n)) (omega arith)
  verify_chains-clean db total ((c, h) ∷ hs) fit = rw (verify_one_clean c db fit) (
      verify_chains-clean db (total + length (rows_of store c db)) hs fit
      ∙ ap (λ (n : ℕ). ok (clean n)) (omega arith))

module _ {J E : Type 0} (store : PgStore J) (faithful : IsFaithful store.codec) where
  -- Whatever the store has recorded from the empty log on, by any calls in any order and with any
  -- faults, a full `VerifyChain` finds no break, and the rows that it has verified are those of all the
  -- chains with a head. What is read back from the metadata column is taken to be the map that was
  -- written.
  pub recorded_verifies :
      (os : List (AuditOp E))
      → let db = run_audit_ops store os fresh_audit in
        verify_chain {E = E} store none db ≡ ok (clean (rows_in store (sorted_heads db.heads) db))
  unfolding verify_chain
  recorded_verifies os =
      let db = run_audit_ops store os fresh_audit in
      verify_chains-clean store db 0 (sorted_heads db.heads)
        (AllFit-run_all store faithful os fresh_audit (AllFit-fresh store))
      ∙ ap (λ (n : ℕ). ok (clean n)) (omega arith)
