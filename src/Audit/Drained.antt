-- ===== src/Audit/Drained.antt =====
-- platform/security/audit/pending.go: each staged intent is put on a chain once, whoever drains.
use go_boilerplate.Prelude.{
  ℕ, suc, ◌+◌, ◌≡◌, refl, ap, Bool, true, false, Option, none, some, List, [], ◌∷◌, ◌++◌, ltb,
  Result, ok, err, Bytes, arith, Option-cases, Bool-cases, Result-cases, inl, inr,
}
use go_boilerplate.Tx.{TxFaults, run_in_tx, run_in_tx-cases}
use go_boilerplate.Audit.{
  AuditEntry, AuditRow, PendingRow, AuditDb, PgStore, AuditError, RecordEnv, find_head, ensure_head,
}
use go_boilerplate.Audit.Record.{
  row_of, insert_row, locked_head, append_rows, advance_last, record_batch_same_chain,
}
use go_boilerplate.Audit.Pending.{
  insert_pending, apply_claimed, claim_and_apply, apply_rows, entries_of, entry_of, pending_row,
  claimed, unclaimed,
}

-- Calls of the durable mode: the staging of an intent, and a drainer on the ids that it read.
pub data DurableOp (E : Type 0) : Type 0 where
  staging : TxFaults (AuditError E) → Option E → ℕ → AuditEntry → DurableOp E
  draining : TxFaults (AuditError E) → Option E → RecordEnv E → ℕ → List ℕ → DurableOp E

abbrev pub one : Bool → ℕ
one true = 1
one false = 0

module _ (p : Bytes → Bytes → Bytes → Bool) where
  abbrev pub in_entries : List AuditEntry → ℕ
  in_entries [] = 0
  in_entries (e ∷ es) = one (p e.actor e.action e.subject) + in_entries es

  abbrev pub in_log : {J : Type 0} → List (AuditRow J) → ℕ
  in_log [] = 0
  in_log (r ∷ rs) = one (p r.row_actor r.row_action r.row_subject) + in_log rs

  abbrev pub in_pending : {J : Type 0} → List (PendingRow J) → ℕ
  in_pending [] = 0
  in_pending (r ∷ rs) = one (p r.staged_actor r.staged_action r.staged_subject) + in_pending rs

  -- On the chains or still staged.
  abbrev pub in_store : {J : Type 0} → AuditDb J → ℕ
  in_store db = in_log db.log + in_pending db.pending

module _ {J E : Type 0} (store : PgStore J) where
  abbrev pub acknowledge :
      AuditEntry
      → List AuditEntry
      → AuditDb J × Result (AuditError E) (Unit {0})
      → AuditDb J × List AuditEntry
  acknowledge e acked (db, err x) = (db, acked)
  acknowledge e acked (db, ok u) = (db, acked ++ e ∷ [])

  -- The database, and the entries whose staging was reported as committed.
  unfoldable pub run_durable :
      List (DurableOp E) → AuditDb J → List AuditEntry → AuditDb J × List AuditEntry
  run_durable [] db acked = (db, acked)
  run_durable (staging tx fault now e ∷ os) db acked =
      let (db', acked') =
        acknowledge e acked (run_in_tx tx (insert_pending store fault now e) db) in
      run_durable os db' acked'
  run_durable (draining tx fault env chain ids ∷ os) db acked =
      run_durable os (apply_claimed store tx fault env chain ids db).0 acked

module _ (p : Bytes → Bytes → Bytes → Bool) where
  in_log-snoc :
      {J : Type 0} (rs : List (AuditRow J)) (r : AuditRow J)
      → in_log p (rs ++ r ∷ []) ≡ in_log p rs + one (p r.row_actor r.row_action r.row_subject)
  in_log-snoc [] r = omega arith
  in_log-snoc (s ∷ rs) r = omega (arith, in_log-snoc rs r)

  in_pending-snoc :
      {J : Type 0} (rs : List (PendingRow J)) (r : PendingRow J)
      → in_pending p (rs ++ r ∷ [])
        ≡ in_pending p rs + one (p r.staged_actor r.staged_action r.staged_subject)
  in_pending-snoc [] r = omega arith
  in_pending-snoc (s ∷ rs) r = omega (arith, in_pending-snoc rs r)

  in_entries-snoc :
      (es : List AuditEntry) (e : AuditEntry)
      → in_entries p (es ++ e ∷ []) ≡ in_entries p es + one (p e.actor e.action e.subject)
  in_entries-snoc [] e = omega arith
  in_entries-snoc (d ∷ es) e = omega (arith, in_entries-snoc es e)

  in_pending-claimed :
      {J : Type 0} (ids : List ℕ) (rs : List (PendingRow J))
      → in_pending p (claimed ids rs) + in_pending p (unclaimed ids rs) ≡ in_pending p rs
  unfolding claimed unclaimed
  in_pending-claimed ids [] = omega arith
  in_pending-claimed ids (r ∷ rs) = ground (arith, in_pending-claimed ids rs)

module _ {J : Type 0} (p : Bytes → Bytes → Bytes → Bool) (store : PgStore J) where
  in_entries-entries_of :
      (rs : List (PendingRow J)) {es : List AuditEntry}
      → entries_of store rs ≡ some es
      → in_entries p es ≡ in_pending p rs
  unfolding entries_of
  in_entries-entries_of [] e = ground arith
  in_entries-entries_of (r ∷ rs) {es = es} e =
      elim (Option-cases (store.codec.read r.staged_metadata)) [
        | inl bad ↦ ground arith
        | inr (m, fine) ↦ elim (Option-cases (entries_of store rs)) [
          | inl bad ↦ ground arith
          | inr (fs, rest) ↦
              let ih = in_entries-entries_of rs {es = fs} rest in
              let same : es ≡ entry_of store r m ∷ fs = ground arith in rw same (omega (arith, ih))
        ]
      ]

  module _ {E : Type 0} where
    append_rows-in_log :
        (env : RecordEnv E) (chain i : ℕ) (es : List AuditEntry) (prev : Bytes) (db : AuditDb J)
        {db' : AuditDb J} {h : Bytes}
        → append_rows store env chain i es prev db ≡ (db', ok h)
        → (in_log p db'.log ≡ in_log p db.log + in_entries p es) × (db'.pending ≡ db.pending)
    unfolding append_rows
    append_rows-in_log env chain i [] prev db e = ground arith
    append_rows-in_log env chain i (a ∷ es) prev db {db' = db'} {h = h} e =
        let r = row_of store db.next_id chain prev (env.clock i) a in
        elim (Option-cases (env.insert_fault i)) [
          | inr (x, failed) ↦ ground arith
          | inl fine ↦
              let (logged, same) =
                append_rows-in_log env chain (suc i) es r.entry_hash (insert_row r db) {db' = db'}
                  {h = h} (ground arith) in
              (omega (arith, logged, in_log-snoc p db.log r), same)
        ]

    batch-in_log :
        (env : RecordEnv E) (chain : ℕ) (es : List AuditEntry) (db : AuditDb J) {db' : AuditDb J}
        → record_batch_same_chain store env chain es db ≡ (db', ok tt)
        → (in_log p db'.log ≡ in_log p db.log + in_entries p es) × (db'.pending ≡ db.pending)
    unfolding record_batch_same_chain
    batch-in_log env chain [] db e = ground arith
    batch-in_log env chain (a ∷ es) db {db' = db'} e =
        elim (Bool-cases (ltb 1 store.chain_shards)) [
          | inr single ↦ locked db (ground arith)
          | inl sharded ↦ elim (Option-cases env.ensure_fault) [
            | inr (x, failed) ↦ ground arith
            | inl ensured ↦ locked (record db { heads = ensure_head chain db.heads }) (ground arith)
          ]
        ]
      where
        appended :
            (d : AuditDb J) (h : Bytes)
            → advance_last store env.advance_fault chain
                (append_rows store env chain 0 (a ∷ es) h d)
              ≡ (db', ok tt)
            → (in_log p db'.log ≡ in_log p d.log + in_entries p (a ∷ es))
              × (db'.pending ≡ d.pending)
        appended d h r =
            let rows = append_rows store env chain 0 (a ∷ es) h d in
            elim (Result-cases rows.1) [
              | inr (x, failed) ↦ ground arith
              | inl (h', fine) ↦
                  let (logged, same) =
                    append_rows-in_log env chain 0 (a ∷ es) h d {db' = rows.0} {h = h'}
                      (ap (λ t. (rows.0, t)) fine) in
                  elim (Option-cases env.advance_fault) [
                    | inr (x, stuck) ↦ ground arith
                    | inl moved ↦ ground arith
                  ]
            ]

        locked :
            (d : AuditDb J)
            → locked_head store env chain
                (λ prev d'.
                  advance_last store env.advance_fault chain
                    (append_rows store env chain 0 (a ∷ es) prev d'))
                d
              ≡ (db', ok tt)
            → (in_log p db'.log ≡ in_log p d.log + in_entries p (a ∷ es))
              × (db'.pending ≡ d.pending)
        locked d l = elim (Option-cases env.lock_fault) [
          | inr (x, failed) ↦ ground arith
          | inl fine ↦ elim (Option-cases (find_head chain d.heads)) [
            | inl missing ↦ ground arith
            | inr (h, found) ↦ appended d h (ground arith)
          ]
        ]

    claim-in_store :
        (fault : Option E) (env : RecordEnv E) (chain : ℕ) (ids : List ℕ) (db : AuditDb J)
        {db' : AuditDb J} {n : ℕ}
        → claim_and_apply store fault env chain ids db ≡ (db', ok n)
        → in_store p db' ≡ in_store p db
    unfolding claim_and_apply
    claim-in_store (some x) env chain ids db e = ground arith
    claim-in_store none env chain ids db {db' = db'} {n = n} e =
        go (claimed ids db.pending) e (in_pending-claimed p ids db.pending)
      where
        rest : AuditDb J
        rest = record db { pending = unclaimed ids db.pending }

        go :
            (rs : List (PendingRow J))
            → apply_rows store env chain rs rest ≡ (db', ok n)
            → in_pending p rs + in_pending p (unclaimed ids db.pending) ≡ in_pending p db.pending
            → in_store p db' ≡ in_store p db
        go [] r split = rw (← ap (λ t. t.0) r) (omega (arith, split))
        go (q ∷ qs) r split = elim (Option-cases (entries_of store (q ∷ qs))) [
          | inl bad ↦ ground arith
          | inr (es, fine) ↦
              let batch = record_batch_same_chain store env chain es rest in
              elim (Result-cases batch.1) [
                | inr (x, failed) ↦ ground arith
                | inl (u, done) ↦
                    let (logged, same) =
                      batch-in_log env chain es rest {db' = db'} (ground arith) in
                    let entries = in_entries-entries_of (q ∷ qs) {es = es} fine in
                    omega (arith, logged, ap (in_pending p) same, entries, split)
              ]
        ]

    apply-in_store :
        (tx : TxFaults (AuditError E)) (fault : Option E) (env : RecordEnv E) (chain : ℕ)
        (ids : List ℕ) (db : AuditDb J)
        → in_store p (apply_claimed store tx fault env chain ids db).0 ≡ in_store p db
    unfolding apply_claimed
    apply-in_store tx fault env chain [] db = refl
    apply-in_store tx fault env chain (i ∷ ids) db =
        elim (run_in_tx-cases tx (claim_and_apply store fault env chain (i ∷ ids)) db) [
          | inl same ↦ ap (in_store p) same
          | inr (n, ran) ↦
              claim-in_store fault env chain (i ∷ ids) db
                {db' = (run_in_tx tx (claim_and_apply store fault env chain (i ∷ ids)) db).0}
                {n = n} ran
        ]

    stage-in_store :
        (tx : TxFaults (AuditError E)) (fault : Option E) (now : ℕ) (e : AuditEntry)
        (db : AuditDb J) (acked : List AuditEntry)
        → let (db', acked') =
            acknowledge store e acked (run_in_tx tx (insert_pending store fault now e) db) in
          in_store p db' + in_entries p acked ≡ in_store p db + in_entries p acked'
    unfolding run_in_tx insert_pending
    stage-in_store tx (some x) now e db acked = ground arith
    stage-in_store tx none now e db acked =
        let staged = in_pending-snoc p db.pending (pending_row store db.next_pending now e) in
        let entered = in_entries-snoc p acked e in
        elim (Option-cases tx.begin_fault) [
          | inr (x, failed) ↦ ground arith
          | inl begun ↦ elim (Option-cases tx.commit_fault) [
            | inr (x, failed) ↦ ground arith
            | inl committed ↦ ground (arith, staged, entered)
          ]
        ]

    -- In the durable mode every intent whose staging was reported as committed is, after any stagings and
    -- drains in any order, by any number of drainers on any ids that they may have read, and with any
    -- faults, in the store exactly once: on a chain or still staged. So for the intents of any actor,
    -- action and subject their number is kept.
    pub drained_once :
        (os : List (DurableOp E)) (db : AuditDb J) (acked : List AuditEntry)
        → let (db', acked') = run_durable store os db acked in
          in_store p db' + in_entries p acked ≡ in_store p db + in_entries p acked'
    unfolding run_durable
    drained_once [] db acked = omega arith
    drained_once (staging tx fault now e ∷ os) db acked =
        let (db₁, acked₁) =
          acknowledge store e acked (run_in_tx tx (insert_pending store fault now e) db) in
        omega (arith, stage-in_store tx fault now e db acked, drained_once os db₁ acked₁)
    drained_once (draining tx fault env chain ids ∷ os) db acked = omega (
      arith,
      apply-in_store tx fault env chain ids db,
      drained_once os (apply_claimed store tx fault env chain ids db).0 acked,
    )
