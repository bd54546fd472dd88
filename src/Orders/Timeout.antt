-- ===== src/Orders/Timeout.antt =====
-- examples/orders: the timeout event of an order is enqueued exactly once.
use go_boilerplate.Prelude.{
  ℕ, suc, ◌+◌, ◌≡◌, refl, true, false, Option, none, some, List, [], ◌∷◌, ◌++◌, arith, String,
  str_eq, eq_iff, inl, inr, if◌then◌else◌, Option-cases, Result-cases, wrap64,
}
use go_boilerplate.Dict.{lookup, lookup-insert}
use go_boilerplate.Decimal.{Decimal}
use go_boilerplate.Money.Asset.{Registry}
use go_boilerplate.Money.Amount.{minor_units}
use go_boilerplate.Orders.{
  created, payment_timeout, Row, Db, Event, order_created, order_payment_timed_out, create,
  apply_payment_outcome, emit_payment_timeout, run_in_tx,
}
use go_boilerplate.Orders.Machine.{Op, creating, settling, expiring, run, run_all}

-- How often the outbox holds the timeout event of an order.
unfoldable pub timeouts_of : String → List Event → ℕ
timeouts_of id [] = 0
timeouts_of id (order_created o c m a ∷ es) = timeouts_of id es
timeouts_of id (order_payment_timed_out o ∷ es) =
    let rest = timeouts_of id es in if str_eq o id then suc rest else rest

abbrev pub emitted_count : {D : Type 0} → Option (Row D) → ℕ
emitted_count none = 0
emitted_count (some r) = if r.timeout_emitted then 1 else 0

abbrev pub empty_db : {D : Type 0} → Db D
empty_db = record { rows = []; outbox = []; ignored_outcomes = [] }

timeouts_of-append :
    (id : String) (es : List Event) (e : Event)
    → timeouts_of id (es ++ e ∷ []) ≡ timeouts_of id es + timeouts_of id (e ∷ [])
unfolding timeouts_of
timeouts_of-append id [] e = omega arith
timeouts_of-append id (order_created o c m a ∷ es) e = timeouts_of-append id es e
timeouts_of-append id (order_payment_timed_out o ∷ es) e =
    ground (arith, timeouts_of-append id es e)

module _ {D : Type 0} ⦃dec : Decimal D⦄ (parse_uuid : String → Option String) (reg : Registry) where
  -- The outbox holds the timeout event of an order as often as its row's flag says.
  abbrev Agrees : Db D → Type 0
  Agrees db = (id : String) → timeouts_of id db.outbox ≡ emitted_count (lookup id db.rows)

  run-Agrees : (o : Op D) (db : Db D) → Agrees db → Agrees (run parse_uuid reg o db)
  unfolding run run_in_tx create apply_payment_outcome emit_payment_timeout timeouts_of
  run-Agrees (creating f p) db h id = elim (Option-cases (parse_uuid p.order_id)) [
    | inl bad ↦ ground (arith, h id)
    | inr (k, parsed) ↦ elim (Result-cases (minor_units reg p.price)) [
      | inl (n, exact) ↦ ground (
        arith,
        h id,
        timeouts_of-append id db.outbox
            (order_created p.order_id p.customer (wrap64 n) p.price.asset),
        lookup-insert k id
            (record {
              customer_id = p.customer;
              amount = p.price;
              status = created;
              timeout_emitted = false;
            })
            db.rows,
        eq_iff k id,
      )
      | inr (x, inexact) ↦ ground (arith, h id)
    ]
  ]
  run-Agrees (settling f raw outcome) db h id = elim (Option-cases (parse_uuid raw)) [
    | inl bad ↦ ground (arith, h id)
    | inr (k, parsed) ↦ elim (Option-cases (lookup k db.rows)) [
      | inl missing ↦ ground (arith, h id)
      | inr (q, found) ↦
          ground
            (arith, h id, lookup-insert k id (record q { status = outcome }) db.rows, eq_iff k id)
    ]
  ]
  run-Agrees (expiring f k) db h id = elim (Option-cases (lookup k db.rows)) [
    | inl missing ↦ ground (arith, h id)
    | inr (q, found) ↦ ground (
      arith,
      h id,
      timeouts_of-append id db.outbox (order_payment_timed_out k),
      lookup-insert k id (record q { timeout_emitted = true; status = payment_timeout }) db.rows,
      eq_iff k id,
    )
  ]

  run_all-Agrees :
      (os : List (Op D)) (db : Db D) → Agrees db → Agrees (run_all parse_uuid reg os db)
  unfolding run_all
  run_all-Agrees [] db h = h
  run_all-Agrees (o ∷ os) db h = run_all-Agrees os (run parse_uuid reg o db) (run-Agrees o db h)

  -- From an empty database, whatever calls run in whatever order and with whatever faults, the outbox
  -- holds the timeout event of an order once if the order's row is marked as emitted, and not at all
  -- if it is not or if there is no such row.
  pub timeout_exactly_once :
      (os : List (Op D)) (id : String)
      → let db = run_all parse_uuid reg os empty_db in
        timeouts_of id db.outbox ≡ emitted_count (lookup id db.rows)
  unfolding timeouts_of
  timeout_exactly_once os = run_all-Agrees os empty_db (λ id. refl)
