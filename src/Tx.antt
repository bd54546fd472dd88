-- ===== src/Tx.antt =====
-- platform/storage/pg/tx.go: `RunInTx` over any database state. A nested call opens a savepoint, and
-- its rollback restores the state at that point, so it is the same function. The driver's error on
-- `Begin` or `Commit` is an argument; a commit that reports an error has written nothing. The panic
-- path, which rolls back and panics again, is left out.
use go_boilerplate.Prelude.{
  ◌≡◌, Option, none, some, Result, ok, err, arith, Option-cases, Result-cases, ◌⊎◌, inl, inr,
}

pub record TxFaults (E : Type 0) : Type 0 where
  pub begin_fault : Option E
  pub commit_fault : Option E

abbrev pub no_tx_faults : {E : Type 0} → TxFaults E
no_tx_faults = record { begin_fault = none; commit_fault = none }

module _ {S E A : Type 0} where
  -- `Commit` where the function returned no error, `Rollback` where it did.
  abbrev pub settle_tx : Option E → S → S × Result E A → S × Result E A
  settle_tx fault before (s, err e) = (before, err e)
  settle_tx none before (s, ok a) = (s, ok a)
  settle_tx (some e) before (s, ok a) = (before, err e)

  abbrev pub begin_tx : Option E → Option E → (S → S × Result E A) → S → S × Result E A
  begin_tx none fault f s = settle_tx fault s (f s)
  begin_tx (some e) fault f s = (s, err e)

  unfoldable pub run_in_tx : TxFaults E → (S → S × Result E A) → S → S × Result E A
  run_in_tx faults f s = begin_tx faults.begin_fault faults.commit_fault f s

  -- A transaction leaves the state as it was, or as its function left it with no error.
  pub run_in_tx-cases :
      (tx : TxFaults E) (f : S → S × Result E A) (s : S)
      → ((run_in_tx tx f s).0 ≡ s) ⊎ ((a : A) × (f s ≡ ((run_in_tx tx f s).0, ok a)))
  unfolding run_in_tx
  run_in_tx-cases tx f s = elim (Option-cases tx.begin_fault) [
    | inr (e, failed) ↦ inl (ground arith)
    | inl begun ↦ elim (Result-cases (f s).1) [
      | inr (e, failed) ↦ inl (ground arith)
      | inl (a, fine) ↦ elim (Option-cases tx.commit_fault) [
        | inr (e, failed) ↦ inl (ground arith)
        | inl committed ↦ inr (a, ground arith)
      ]
    ]
  ]
