-- ===== src/Audit/Reachable.antt =====
-- platform/security/audit: calls of the store from the empty log, in any order and with any faults.
use mathlib.Core.Path.{subst}
use go_boilerplate.Prelude.{
  ℕ, ◌≡◌, refl, sym, ap, ◌∙◌, Bool, true, false, Option, none, some, List, [], ◌∷◌, ltb, ◌==◌,
  ==_iff, Result, ok, if◌then◌else◌, Bytes, arith, Option-cases, Bool-cases, Result-cases, inl, inr,
}
use go_boilerplate.Tx.{TxFaults, run_in_tx, run_in_tx-cases}
use go_boilerplate.Audit.{
  AuditEntry, AuditDb, PgStore, AuditError, RecordEnv, genesis_root, find_head, ensure_head,
  set_head, fresh_audit,
}
use go_boilerplate.Audit.Record.{
  locked_head, append_rows, advance_last, record_entry, record_batch_same_chain, record_out_of_band,
  chain_id_for,
}
use go_boilerplate.Audit.Pending.{
  insert_pending, apply_claimed, claim_and_apply, apply_rows, entries_of, claimed, unclaimed,
}
use go_boilerplate.Audit.Verify.{rows_since}
use go_boilerplate.Audit.Clean.{IsFaithful, Linked, AllFit, rows_of, append_rows-Linked}

find_head-ensure :
    (c d : ℕ) (hs : List (ℕ × Bytes))
    → (find_head c hs ≡ none
        → find_head c (ensure_head d hs) ≡ (if d == c then some genesis_root else none))
      × ((h : Bytes) → find_head c hs ≡ some h → find_head c (ensure_head d hs) ≡ some h)
find_head-ensure c d [] = (λ e. refl, λ h e. cc)
find_head-ensure c d ((i, g) ∷ hs) = (
  λ e. ground (arith, (find_head-ensure c d hs).0),
  λ h e. ground (arith, (find_head-ensure c d hs).1 h),
)

find_head-set :
    (c d : ℕ) (h g : Bytes) (hs : List (ℕ × Bytes))
    → find_head d hs ≡ some g
    → find_head c (set_head d h hs) ≡ (if d == c then some h else find_head c hs)
find_head-set c d h g [] e = cc
find_head-set c d h g ((i, k) ∷ hs) e = ground (arith, find_head-set c d h g hs)

module _ {J : Type 0} (store : PgStore J) where
  AllFit-ensure :
      (d : ℕ) (db : AuditDb J)
      → AllFit store db
      → AllFit store (record db { heads = ensure_head d db.heads })
  AllFit-ensure d db fit c = elim (Option-cases (find_head c db.heads)) [
    | inr (h, found) ↦ rw ((find_head-ensure c d db.heads).1 h found) (rw found at (fit c))
    | inl missing ↦
        let empty : rows_of store c db ≡ [] = rw missing at (fit c) in
        elim (Bool-cases (d == c)) [
          | inl new ↦ rw ((find_head-ensure c d db.heads).0 missing, new, empty) refl
          | inr other ↦ rw ((find_head-ensure c d db.heads).0 missing, other) empty
        ]
  ]

  -- The head moves to the end of its chain, the other chains stay.
  AllFit-set :
      (chain : ℕ) (h g : Bytes) (db db₁ : AuditDb J)
      → AllFit store db
      → find_head chain db.heads ≡ some g
      → Linked store genesis_root (rows_of store chain db₁) h
      → db₁.heads ≡ db.heads
      → ((c : ℕ) → (chain == c) ≡ false → rows_of store c db₁ ≡ rows_of store c db)
      → AllFit store (record db₁ { heads = set_head chain h db₁.heads })
  AllFit-set chain h g db db₁ fit found linked heads others c = elim (Bool-cases (chain == c)) [
    | inl same ↦
        let here : chain ≡ c = (==_iff chain c).0 same in
        rw (heads, find_head-set c chain h g db.heads found, same)
          (subst (λ (k : ℕ). Linked store genesis_root (rows_of store k db₁) h) here linked)
    | inr apart ↦
        rw (heads, find_head-set c chain h g db.heads found, apart, others c apart) (fit c)
  ]

module _ {J E : Type 0} (store : PgStore J) (faithful : IsFaithful store.codec) where
  AllFit-append :
      (env : RecordEnv E) (chain : ℕ) (es : List AuditEntry) (h : Bytes) (db : AuditDb J)
      {db' : AuditDb J}
      → AllFit store db
      → find_head chain db.heads ≡ some h
      → advance_last store env.advance_fault chain (append_rows store env chain 0 es h db)
        ≡ (db', ok tt)
      → AllFit store db'
  AllFit-append env chain es h db {db' = db'} fit found e =
      let r = append_rows store env chain 0 es h db in
      elim (Result-cases r.1) [
        | inr (x, failed) ↦ ground arith
        | inl (h', fine) ↦
            let (linked, heads, others) =
              append_rows-Linked store faithful env chain 0 es h db {db' = r.0} {h = h'}
                (ap (λ t. (r.0, t)) fine) (rw found at (fit chain)) in
            elim (Option-cases env.advance_fault) [
              | inr (x, stuck) ↦ ground arith
              | inl moved ↦
                  let same : db' ≡ record r.0 { heads = set_head chain h' r.0.heads } =
                    ground arith in
                  rw same (AllFit-set store chain h' h db r.0 fit found linked heads others)
            ]
      ]

  AllFit-batch :
      (env : RecordEnv E) (chain : ℕ) (es : List AuditEntry) (db : AuditDb J) {db' : AuditDb J}
      → AllFit store db
      → record_batch_same_chain store env chain es db ≡ (db', ok tt)
      → AllFit store db'
  unfolding record_batch_same_chain
  AllFit-batch env chain [] db fit e = rw (← ap (λ t. t.0) e) fit
  AllFit-batch env chain (a ∷ es) db {db' = db'} fit e =
      elim (Bool-cases (ltb 1 store.chain_shards)) [
        | inr single ↦ locked db fit (ground arith)
        | inl sharded ↦ elim (Option-cases env.ensure_fault) [
          | inr (x, failed) ↦ ground arith
          | inl ensured ↦
              locked (record db { heads = ensure_head chain db.heads })
                (AllFit-ensure store chain db fit) (ground arith)
        ]
      ]
    where
      locked :
          (d : AuditDb J)
          → AllFit store d
          → locked_head store env chain
              (λ prev d'.
                advance_last store env.advance_fault chain
                  (append_rows store env chain 0 (a ∷ es) prev d'))
              d
            ≡ (db', ok tt)
          → AllFit store db'
      locked d fit_d l = elim (Option-cases env.lock_fault) [
        | inr (x, failed) ↦ ground arith
        | inl fine ↦ elim (Option-cases (find_head chain d.heads)) [
          | inl missing ↦ ground arith
          | inr (h, found) ↦
              AllFit-append env chain (a ∷ es) h d {db' = db'} fit_d found (ground arith)
        ]
      ]

  -- `Record` is a batch of one on the chain of its actor.
  record_entry-batch :
      (env : RecordEnv E) (e : AuditEntry) (db : AuditDb J)
      → record_entry store env e db
        ≡ record_batch_same_chain store env (chain_id_for store e.actor) (e ∷ []) db
  unfolding record_entry record_batch_same_chain append_rows
  record_entry-batch env e db = elim (Option-cases (env.insert_fault 0)) [
    | inl fine ↦ ground arith
    | inr (x, failed) ↦ ground arith
  ]

  AllFit-record :
      (env : RecordEnv E) (e : AuditEntry) (db : AuditDb J) {db' : AuditDb J}
      → AllFit store db
      → record_entry store env e db ≡ (db', ok tt)
      → AllFit store db'
  AllFit-record env e db {db' = db'} fit r =
      AllFit-batch env (chain_id_for store e.actor) (e ∷ []) db {db' = db'} fit
        (sym (record_entry-batch env e db) ∙ r)

  AllFit-claim :
      (fault : Option E) (env : RecordEnv E) (chain : ℕ) (ids : List ℕ) (db : AuditDb J)
      {db' : AuditDb J} {n : ℕ}
      → AllFit store db
      → claim_and_apply store fault env chain ids db ≡ (db', ok n)
      → AllFit store db'
  unfolding claim_and_apply
  AllFit-claim (some x) env chain ids db fit e = cc
  AllFit-claim none env chain ids db {db' = db'} {n = n} fit e = go (claimed ids db.pending) e
    where
      rest : AuditDb J
      rest = record db { pending = unclaimed ids db.pending }

      go : (rs : List _) → apply_rows store env chain rs rest ≡ (db', ok n) → AllFit store db'
      go [] r = rw (← ap (λ t. t.0) r) fit
      go (p ∷ ps) r = elim (Option-cases (entries_of store (p ∷ ps))) [
        | inl bad ↦ ground arith
        | inr (es, fine) ↦
            let batch = record_batch_same_chain store env chain es rest in
            elim (Result-cases batch.1) [
              | inr (x, failed) ↦ ground arith
              | inl (u, done) ↦ AllFit-batch env chain es rest {db' = db'} fit (ground arith)
            ]
      ]

-- Calls of the store, each with what the driver reports.
pub data AuditOp (E : Type 0) : Type 0 where
  recording : TxFaults (AuditError E) → RecordEnv E → AuditEntry → AuditOp E
  out_of_band : TxFaults (AuditError E) → RecordEnv E → Bool → Bool → AuditEntry → AuditOp E
  batching : TxFaults (AuditError E) → RecordEnv E → ℕ → List AuditEntry → AuditOp E
  staging : TxFaults (AuditError E) → Option E → ℕ → AuditEntry → AuditOp E
  applying : TxFaults (AuditError E) → Option E → RecordEnv E → ℕ → List ℕ → AuditOp E

module _ {J E : Type 0} (store : PgStore J) where
  unfoldable pub run_audit_op : AuditOp E → AuditDb J → AuditDb J
  run_audit_op (recording tx env e) db = (run_in_tx tx (record_entry store env e) db).0
  run_audit_op (out_of_band tx env denied admitted e) db =
      (record_out_of_band store tx env denied admitted e db).0
  run_audit_op (batching tx env chain es) db =
      (run_in_tx tx (record_batch_same_chain store env chain es) db).0
  run_audit_op (staging tx fault now e) db = (run_in_tx tx (insert_pending store fault now e) db).0
  run_audit_op (applying tx fault env chain ids) db =
      (apply_claimed store tx fault env chain ids db).0

  unfoldable pub run_audit_ops : List (AuditOp E) → AuditDb J → AuditDb J
  run_audit_ops [] db = db
  run_audit_ops (o ∷ os) db = run_audit_ops os (run_audit_op o db)

module _ {J E : Type 0} (store : PgStore J) (faithful : IsFaithful store.codec) where
  -- What a transaction preserves where its function does.
  AllFit-tx :
      {A : Type 0} (tx : TxFaults (AuditError E))
      (f : AuditDb J → AuditDb J × Result (AuditError E) A) (db : AuditDb J)
      → ((db' : AuditDb J) (a : A) → f db ≡ (db', ok a) → AllFit store db')
      → AllFit store db
      → AllFit store (run_in_tx tx f db).0
  AllFit-tx tx f db keep fit = elim (run_in_tx-cases tx f db) [
    | inl same ↦ rw same fit
    | inr (a, ran) ↦ keep (run_in_tx tx f db).0 a ran
  ]

  AllFit-pending :
      (fault : Option E) (now : ℕ) (e : AuditEntry) (db db' : AuditDb J) (u : Unit {0})
      → AllFit store db
      → insert_pending store fault now e db ≡ (db', ok u)
      → AllFit store db'
  unfolding insert_pending
  AllFit-pending (some x) now e db db' u fit r = cc
  AllFit-pending none now e db db' u fit r = rw (← ap (λ t. t.0) r) fit

  AllFit-recording :
      (tx : TxFaults (AuditError E)) (env : RecordEnv E) (e : AuditEntry) (db : AuditDb J)
      → AllFit store db
      → AllFit store (run_in_tx tx (record_entry store env e) db).0
  AllFit-recording tx env e db fit =
      AllFit-tx tx (record_entry store env e) db
        (λ db' u r. AllFit-record store faithful env e db {db' = db'} fit r) fit

  AllFit-run :
      (o : AuditOp E) (db : AuditDb J) → AllFit store db → AllFit store (run_audit_op store o db)
  unfolding run_audit_op record_out_of_band apply_claimed
  AllFit-run (recording tx env e) db fit = AllFit-recording tx env e db fit
  AllFit-run (out_of_band tx env true false e) db fit = fit
  AllFit-run (out_of_band tx env true true e) db fit = AllFit-recording tx env e db fit
  AllFit-run (out_of_band tx env false admitted e) db fit = AllFit-recording tx env e db fit
  AllFit-run (batching tx env chain es) db fit =
      AllFit-tx tx (record_batch_same_chain store env chain es) db
        (λ db' u r. AllFit-batch store faithful env chain es db {db' = db'} fit r) fit
  AllFit-run (staging tx fault now e) db fit =
      AllFit-tx tx (insert_pending store fault now e) db
        (λ db' u r. AllFit-pending fault now e db db' u fit r) fit
  AllFit-run (applying tx fault env chain []) db fit = fit
  AllFit-run (applying tx fault env chain (i ∷ ids)) db fit =
      AllFit-tx tx (claim_and_apply store fault env chain (i ∷ ids)) db
        (λ db' n r.
          AllFit-claim store faithful fault env chain (i ∷ ids) db {db' = db'} {n = n} fit r)
        fit

  pub AllFit-run_all :
      (os : List (AuditOp E)) (db : AuditDb J)
      → AllFit store db
      → AllFit store (run_audit_ops store os db)
  unfolding run_audit_ops
  AllFit-run_all [] db fit = fit
  AllFit-run_all (o ∷ os) db fit = AllFit-run_all os (run_audit_op store o db) (AllFit-run o db fit)

pub AllFit-fresh : {J : Type 0} (store : PgStore J) → AllFit store fresh_audit
unfolding rows_since
AllFit-fresh store c = elim (Bool-cases (1 == c)) [
  | inl first ↦ rw first refl
  | inr other ↦ rw other refl
]
