-- ===== src/Orders/Machine.antt =====
-- examples/orders: the state machine, and what a call does to an order's status.
use go_boilerplate.Prelude.{
  ◌≡◌, ◌≢◌, ◌↔◌, true, false, Option, some, List, [], ◌∷◌, arith, String, eq_iff, inl, inr,
  Option-cases,
}
use go_boilerplate.Dict.{lookup, lookup-insert}
use go_boilerplate.Decimal.{Decimal}
use go_boilerplate.Money.Asset.{Registry}
use go_boilerplate.Orders.{
  Status, created, payment_timeout, is_created, can_transition, Row, Db, Faults, CreateParams,
  create, apply_payment_outcome, emit_payment_timeout, run_in_tx,
}

-- The machine allows exactly the moves from `created` to another status.
pub can_transition_iff :
    (from to : Status) → (can_transition from to ≡ true) ↔ ((from ≡ created) × (to ≢ created))
unfolding can_transition
can_transition_iff from to = ((λ h. ground arith), (λ h. ground arith))

-- The three calls of the service, each in a transaction of its own with the faults that it meets.
pub data Op (D : Type 0) : Type 0 where
  creating : Faults → CreateParams D → Op D
  settling : Faults → String → Status → Op D
  expiring : Faults → String → Op D

module _ {D : Type 0} ⦃dec : Decimal D⦄ (parse_uuid : String → Option String) (reg : Registry) where
  unfoldable pub run : Op D → Db D → Db D
  run (creating f p) db = (run_in_tx (create parse_uuid reg f p) db).0
  run (settling f raw outcome) db =
      (run_in_tx (apply_payment_outcome parse_uuid f raw outcome) db).0
  run (expiring f id) db = (run_in_tx (emit_payment_timeout f id) db).0

  unfoldable pub run_all : List (Op D) → Db D → Db D
  run_all [] db = db
  run_all (o ∷ os) db = run_all os (run o db)

  run_settled :
      (o : Op D) (db : Db D) (id : String) {r : Row D}
      → lookup id db.rows ≡ some r
      → is_created r.status ≡ false
      → lookup id (run o db).rows ≡ some r
  unfolding run run_in_tx create apply_payment_outcome emit_payment_timeout
  run_settled (creating f p) db id h t = elim (Option-cases (parse_uuid p.order_id)) [
    | inl bad ↦ ground arith
    | inr (k, parsed) ↦ ground (
      arith,
      lookup-insert k id
          (record {
            customer_id = p.customer;
            amount = p.price;
            status = created;
            timeout_emitted = false;
          })
          db.rows,
      eq_iff k id,
    )
  ]
  run_settled (settling f raw outcome) db id h t = elim (Option-cases (parse_uuid raw)) [
    | inl bad ↦ ground arith
    | inr (k, parsed) ↦ elim (Option-cases (lookup k db.rows)) [
      | inl missing ↦ ground arith
      | inr (q, found) ↦
          ground (arith, lookup-insert k id (record q { status = outcome }) db.rows, eq_iff k id)
    ]
  ]
  run_settled (expiring f k) db id h t = elim (Option-cases (lookup k db.rows)) [
    | inl missing ↦ ground arith
    | inr (q, found) ↦ ground (
      arith,
      lookup-insert k id (record q { timeout_emitted = true; status = payment_timeout }) db.rows,
      eq_iff k id,
    )
  ]

  -- An order that has left `created` keeps its row, status included, whatever calls follow, in any
  -- order and with any faults: the first outcome wins.
  pub run_all_settled :
      (os : List (Op D)) (db : Db D) (id : String) {r : Row D}
      → lookup id db.rows ≡ some r
      → is_created r.status ≡ false
      → lookup id (run_all os db).rows ≡ some r
  unfolding run_all
  run_all_settled [] db id h t = h
  run_all_settled (o ∷ os) db id h t = run_all_settled os (run o db) id (run_settled o db id h t) t
