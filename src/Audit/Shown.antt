-- ===== src/Audit/Shown.antt =====
-- platform/security/audit: what a clean `VerifyChain` shows of a table that someone else may have written.
use mathlib.Core.Path.{subst}
use go_boilerplate.Prelude.{
  ℕ, suc, ◌≡◌, refl, sym, Bool, true, false, Option, none, some, List, [], ◌∷◌, ok, length, Bytes,
  arith, Bool-cases, inl, inr, ◌⊎◌,
}
use go_boilerplate.Audit.{AuditRow, AuditDb, PgStore, genesis_root, find_head}
use go_boilerplate.Audit.Hash.{bytes_equal}
use go_boilerplate.Audit.Verify.{
  Walk, broken, walked, walk, check_entry, check_head, after_walk, clean, verify_one_chain,
  verify_chains, verify_chain, sorted_heads, expected_of, rows_since,
}
use go_boilerplate.Audit.Clean.{Linked, rows_of}
use go_boilerplate.Audit.Verified.{bytes_equal_iff}
use go_boilerplate.Audit.Tamper.{RowsFit, SameRows, IsBroken, digest, same-Linked}

module _ {J : Type 0} (store : PgStore J) where
  -- A walk that ends with a hash has found linked rows, and a break is no clean result.
  abbrev WalkShows : Bytes → List (AuditRow J) → Walk → Type 0
  WalkShows p rs (broken r) = r.is_ok ≡ false
  WalkShows p rs (walked n none) = (rs ≡ []) × (n ≡ 0)
  WalkShows p rs (walked n (some h)) = Linked store p rs h

  check_entry_shows :
      (n : ℕ) (r : AuditRow J) (rs : List (AuditRow J)) (p : Bytes) (next : Walk)
      → r.prev_hash ≡ p
      → WalkShows r.entry_hash rs next
      → ((m : ℕ) → next ≡ walked m none → ⊥)
      → WalkShows p (r ∷ rs) (check_entry store n r next)
  check_entry_shows n r rs p next prev shows some_hash =
      elim (Bool-cases (bytes_equal (expected_of store r) r.entry_hash)) [
        | inr wrong ↦ rw wrong refl
        | inl right ↦
            rw right (
              go next shows some_hash
                ((bytes_equal_iff (expected_of store r) r.entry_hash).0 right))
      ]
    where
      go :
          (w : Walk)
          → WalkShows r.entry_hash rs w
          → ((m : ℕ) → w ≡ walked m none → ⊥)
          → expected_of store r ≡ r.entry_hash
          → WalkShows p (r ∷ rs) w
      go (broken x) s k own = s
      go (walked m none) s k own = absurd (k m refl)
      go (walked m (some h)) s k own = (prev, own, s)

  -- Behind a row the walk does not end without a hash.
  walk-some :
      (full : Bool) (n : ℕ) (p : Bytes) (rs : List (AuditRow J)) (m : ℕ)
      → walk store full n (some p) rs ≡ walked m none
      → ⊥
  unfolding walk
  walk-some full n p [] m e = cc
  walk-some full n p (r ∷ rs) m e = ground (arith, walk-some full (suc n) r.entry_hash rs m)

  walk_shows :
      (full : Bool) (n : ℕ) (p : Bytes) (rs : List (AuditRow J))
      → WalkShows p rs (walk store full n (some p) rs)
  unfolding walk
  walk_shows full n p [] = refl
  walk_shows full n p (r ∷ rs) = elim (Bool-cases (bytes_equal r.prev_hash p)) [
    | inr wrong ↦ rw wrong refl
    | inl right ↦ rw right (
        check_entry_shows n r rs p (walk store full (suc n) (some r.entry_hash) rs)
          ((bytes_equal_iff r.prev_hash p).0 right) (walk_shows full (suc n) r.entry_hash rs)
          (walk-some full (suc n) r.entry_hash rs))
  ]

  walk_first_shows :
      (rs : List (AuditRow J)) → WalkShows genesis_root rs (walk store true 0 none rs)
  unfolding walk
  walk_first_shows [] = (refl, refl)
  walk_first_shows (r ∷ rs) = elim (Bool-cases (bytes_equal r.prev_hash genesis_root)) [
    | inr wrong ↦ rw wrong refl
    | inl right ↦ rw right (
        check_entry_shows 0 r rs genesis_root (walk store true 1 (some r.entry_hash) rs)
          ((bytes_equal_iff r.prev_hash genesis_root).0 right) (walk_shows true 1 r.entry_hash rs)
          (walk-some true 1 r.entry_hash rs))
  ]

module _ {J E : Type 0} (store : PgStore J) where
  head_shows :
      (n m : ℕ) (h : Bytes) (rs : List (AuditRow J)) (head : Option Bytes)
      → Linked store genesis_root rs h
      → check_head {E = E} store n h head ≡ ok (clean m)
      → (g : Bytes) × (head ≡ some g) × Linked store genesis_root rs g
  head_shows n m h rs none l e = cc
  head_shows n m h rs (some g) l e = elim (Bool-cases (bytes_equal h g)) [
    | inl same ↦ (g, refl, subst (Linked store genesis_root rs) ((bytes_equal_iff h g).0 same) l)
    | inr apart ↦ ground arith
  ]

  -- A clean result over at least one row: the rows lead from the root to the head.
  verify_shows :
      (c n : ℕ) (db : AuditDb J)
      → verify_one_chain {E = E} store none c db ≡ ok (clean (suc n))
      → (h : Bytes) × (find_head c db.heads ≡ some h)
        × Linked store genesis_root (rows_of store c db) h
  unfolding verify_one_chain
  verify_shows c n db e =
      go (walk store true 0 none (rows_of store c db)) (walk_first_shows store (rows_of store c db))
        e
    where
      go :
          (w : Walk)
          → WalkShows store genesis_root (rows_of store c db) w
          → after_walk {E = E} store c db w ≡ ok (clean (suc n))
          → (h : Bytes) × (find_head c db.heads ≡ some h)
            × Linked store genesis_root (rows_of store c db) h
      go (broken r) shows r_ok = ground arith
      go (walked m none) (empty, none_walked) r_ok = ground arith
      go (walked m (some h)) shows r_ok =
          head_shows m (suc n) h (rows_of store c db) (find_head c db.heads) shows r_ok

  -- Two tables with one head for a chain, on both of which a full walk of the chain is clean over at
  -- least one row, hold the same entries on it in the same order, or the hash is broken: two different
  -- inputs with one hash, or an input whose hash is the root, are at hand. The hash is taken to have 32
  -- bytes, and each length and time to fit 64 bits.
  pub tamper_evident :
      (c n₁ n₂ : ℕ) (db₁ db₂ : AuditDb J)
      → ((x : Bytes) → length (digest store x) ≡ 32)
      → RowsFit store (rows_of store c db₁)
      → RowsFit store (rows_of store c db₂)
      → find_head c db₁.heads ≡ find_head c db₂.heads
      → verify_one_chain {E = E} store none c db₁ ≡ ok (clean (suc n₁))
      → verify_one_chain {E = E} store none c db₂ ≡ ok (clean (suc n₂))
      → SameRows store (rows_of store c db₁) (rows_of store c db₂) ⊎ IsBroken (digest store)
  tamper_evident c n₁ n₂ db₁ db₂ sized f₁ f₂ heads e₁ e₂ =
      let (h, found, l) = verify_shows c n₁ db₁ e₁ in
      let (g, found', k) = verify_shows c n₂ db₂ e₂ in
      let same : h ≡ g = cc (found, found', heads) in
      same-Linked store sized (rows_of store c db₁) (rows_of store c db₂) h l
        (subst (Linked store genesis_root (rows_of store c db₂)) (sym same) k) f₁ f₂

  empty_chains :
      (hs : List (ℕ × Bytes)) (db : AuditDb J)
      → db.log ≡ []
      → verify_chains {E = E} store none db 0 hs ≡ ok (clean 0)
  unfolding verify_chains verify_one_chain walk rows_since
  empty_chains [] db e = refl
  empty_chains ((c, h) ∷ hs) db e = rw e (empty_chains hs db e)

  -- A log whose rows have all been deleted passes a full `VerifyChain`, whatever its heads say.
  pub emptied_unnoticed :
      (db : AuditDb J) → verify_chain {E = E} store none (record db { log = [] }) ≡ ok (clean 0)
  unfolding verify_chain
  emptied_unnoticed db = empty_chains (sorted_heads db.heads) (record db { log = [] }) refl
