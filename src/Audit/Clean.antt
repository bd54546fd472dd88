-- ===== src/Audit/Clean.antt =====
-- platform/security/audit: what is recorded verifies.
use mathlib.Core.List.{append-nil}
use go_boilerplate.Prelude.{
  ℕ, suc, ◌≡◌, refl, sym, ◌∙◌, true, false, Option, none, some, List, [], ◌∷◌, ◌++◌, ◌==◌, ok,
  if◌then◌else◌, Bytes, arith, Option-cases, inl, inr,
}
use go_boilerplate.Audit.{
  Metadata, Crypto, MetaCodec, AuditEntry, AuditRow, AuditDb, PgStore, RecordEnv, genesis_root,
  find_head, micros, entry_time,
}
use go_boilerplate.Audit.Hash.{compute_entry_hash, canonical, sorted_pairs}
use go_boilerplate.Audit.Record.{row_of, insert_row, append_rows}
use go_boilerplate.Audit.Verify.{rows_since, expected_of}

-- What is read back from the metadata column is the map that was written.
abbrev pub IsFaithful : {J : Type 0} → MetaCodec J → Type 0
IsFaithful codec =
    (m : Metadata)
    → (m' : Metadata) × (codec.read (codec.write m) ≡ some m') × (sorted_pairs m' ≡ sorted_pairs m)

compute-sorted :
    (crypto : Crypto) (key prev actor action subject : Bytes) (at : ℕ) (m m' : Metadata)
    → sorted_pairs m' ≡ sorted_pairs m
    → compute_entry_hash crypto key prev actor action subject at m'
      ≡ compute_entry_hash crypto key prev actor action subject at m
unfolding compute_entry_hash canonical
compute-sorted crypto key prev actor action subject at m m' h = rw h refl

micros-micros : (t : ℕ) → micros (micros t) ≡ micros t
micros-micros t = omega arith

micros-entry_time : (at : Option ℕ) (now : ℕ) → micros (entry_time at now) ≡ entry_time at now
micros-entry_time none now = micros-micros now
micros-entry_time (some t) now = micros-micros t

module _ {J : Type 0} (store : PgStore J) where
  abbrev pub rows_of : ℕ → AuditDb J → List (AuditRow J)
  rows_of c db = rows_since none c db.log

  -- The rows lead from one hash to another, each with its own hash right.
  abbrev pub Linked : Bytes → List (AuditRow J) → Bytes → Type 0
  Linked p [] h = p ≡ h
  Linked p (r ∷ rs) h =
      (r.prev_hash ≡ p) × (expected_of store r ≡ r.entry_hash) × Linked r.entry_hash rs h

  pub Linked-snoc :
      (p : Bytes) (rs : List (AuditRow J)) (r : AuditRow J)
      → Linked p rs r.prev_hash
      → expected_of store r ≡ r.entry_hash
      → Linked p (rs ++ r ∷ []) r.entry_hash
  Linked-snoc p [] r l v = (sym l, v, refl)
  Linked-snoc p (s ∷ rs) r (prev, own, l) v = (prev, own, Linked-snoc s.entry_hash rs r l v)

  pub rows_since-snoc :
      (c : ℕ) (log : List (AuditRow J)) (r : AuditRow J)
      → rows_since none c (log ++ r ∷ [])
        ≡ rows_since none c log ++ (if r.chain == c then r ∷ [] else [])
  unfolding rows_since
  rows_since-snoc c [] r = ground arith
  rows_since-snoc c (s ∷ log) r = ground (arith, rows_since-snoc c log r)

  row_of_own :
      IsFaithful store.codec
      → (id chain : ℕ) (prev : Bytes) (now : ℕ) (e : AuditEntry)
      → expected_of store (row_of store id chain prev now e)
        ≡ (row_of store id chain prev now e).entry_hash
  row_of_own faithful id chain prev now e =
      let (m', reads, same) = faithful e.metadata in
      rw (reads, micros-entry_time e.at now)
        (compute-sorted store.crypto store.chain_key prev e.actor e.action e.subject
          (entry_time e.at now) e.metadata m' same)

  -- A chain with a head leads to it from the root; one without a head has no rows.
  abbrev pub Fits : Option Bytes → List (AuditRow J) → Type 0
  Fits none rs = rs ≡ []
  Fits (some h) rs = Linked genesis_root rs h

  abbrev pub AllFit : AuditDb J → Type 0
  AllFit db = (c : ℕ) → Fits (find_head c db.heads) (rows_of c db)

  -- What an append to a chain does: the chain leads to the last hash, and the others are as before.
  pub append_rows-Linked :
      {E : Type 0} (faithful : IsFaithful store.codec) (env : RecordEnv E) (chain i : ℕ)
      (es : List AuditEntry) (prev : Bytes) (db : AuditDb J) {db' : AuditDb J} {h : Bytes}
      → append_rows store env chain i es prev db ≡ (db', ok h)
      → Linked genesis_root (rows_of chain db) prev
      → Linked genesis_root (rows_of chain db') h
        × (db'.heads ≡ db.heads)
        × ((c : ℕ) → (chain == c) ≡ false → rows_of c db' ≡ rows_of c db)
  unfolding append_rows
  append_rows-Linked faithful env chain i [] prev db e l = ground arith
  append_rows-Linked faithful env chain i (a ∷ es) prev db {db' = db'} {h = h} e l =
      let r = row_of store db.next_id chain prev (env.clock i) a in
      elim (Option-cases (env.insert_fault i)) [
        | inr (x, failed) ↦ ground arith
        | inl fine ↦
            let self : (chain == chain) ≡ true = ground arith in
            let next : Linked genesis_root (rows_of chain (insert_row r db)) r.entry_hash =
              rw (rows_since-snoc chain db.log r, self)
                (Linked-snoc genesis_root (rows_of chain db) r l
                  (row_of_own faithful db.next_id chain prev (env.clock i) a)) in
            let (linked, heads, others) =
              append_rows-Linked faithful env chain (suc i) es r.entry_hash (insert_row r db)
                {db' = db'} {h = h} (ground arith) next in
            (
              linked,
              heads,
              λ c apart.
                  others c apart
                  ∙ ground (arith, rows_since-snoc c db.log r, append-nil (rows_of c db)),
            )
      ]
