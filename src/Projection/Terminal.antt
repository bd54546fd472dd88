-- ===== src/Projection/Terminal.antt =====
-- examples/gateway/internal/projection: the first terminal status wins, and a late `OrderCreated` does
-- not change it.
use go_boilerplate.Prelude.{
  ◌≡◌, refl, ap, ◌∙◌, true, Option, none, some, List, [], ◌∷◌, String, str_eq, eq_iff, arith, ℤ,
  Option-cases, inl, inr, if◌then◌else◌,
}
use go_boilerplate.Dict.{Dict, lookup, insert, lookup-insert}
use go_boilerplate.Projection.{
  ViewStatus, is_terminal, ReadRow, ReadDb, ViewEvent, order_created, payment_processed,
  order_payment_timed_out, payment_failed_with, kept_status, upsert_order_created, mark_terminal,
  placeholder, handle_event, created, paid, payment_failed, payment_timeout,
}

-- The status of an order that has reached a terminal one.
abbrev pub final_status : Option ReadRow → Option ViewStatus
final_status none = none
final_status (some r) = if is_terminal r.status then some r.status else none

final-upsert :
    (k j customer : String) (amount : ℤ) (currency : String) (rows : Dict ReadRow)
    → final_status (lookup j (upsert_order_created k customer amount currency rows))
      ≡ final_status (lookup j rows)
unfolding upsert_order_created
final-upsert k j customer amount currency rows = ground (
  arith,
  lookup-insert k j
      (record {
        customer_id = customer;
        amount_cents = amount;
        currency = currency;
        status = kept_status (lookup k rows);
      })
      rows,
  eq_iff k j,
)

final-mark :
    (k j : String) (to s : ViewStatus) (rows : Dict ReadRow)
    → final_status (lookup j rows) ≡ some s
    → final_status (lookup j (mark_terminal k to rows).0) ≡ some s
unfolding mark_terminal
final-mark k j to s rows h = elim (Option-cases (lookup k rows)) [
  | inl missing ↦ ground (arith, lookup-insert k j (placeholder to) rows, eq_iff k j)
  | inr (r, found) ↦ ground (arith, lookup-insert k j (record r { status = to }) rows, eq_iff k j)
]

module _ (parse_uuid : String → Option String) where
  -- Events with what the driver reports for each.
  unfoldable pub handle_all : List (Option String × ViewEvent) → ReadDb → ReadDb
  handle_all [] db = db
  handle_all ((fault, e) ∷ es) db = handle_all es (handle_event parse_uuid fault e db).0

  final-handle_event :
      (fault : Option String) (e : ViewEvent) (db : ReadDb) (j : String) (s : ViewStatus)
      → final_status (lookup j db.orders) ≡ some s
      → final_status (lookup j (handle_event parse_uuid fault e db).0.orders) ≡ some s
  unfolding handle_event
  final-handle_event fault (order_created raw customer amount currency) db j s h =
      elim (Option-cases (parse_uuid raw)) [
        | inl bad ↦ ground arith
        | inr (k, parsed) ↦ ground (arith, final-upsert k j customer amount currency db.orders)
      ]
  final-handle_event fault (payment_processed raw) db j s h = elim (Option-cases (parse_uuid raw)) [
    | inl bad ↦ ground arith
    | inr (k, parsed) ↦ ground (arith, final-mark k j paid s db.orders)
  ]
  final-handle_event fault (order_payment_timed_out raw) db j s h =
      elim (Option-cases (parse_uuid raw)) [
        | inl bad ↦ ground arith
        | inr (k, parsed) ↦ ground (arith, final-mark k j payment_timeout s db.orders)
      ]
  final-handle_event fault (payment_failed_with raw reason) db j s h =
      elim (Option-cases (parse_uuid raw)) [
        | inl bad ↦ ground arith
        | inr (k, parsed) ↦ ground (arith, final-mark k j payment_failed s db.orders)
      ]

  -- The first terminal status of an order in the read model stays, whatever events follow, in any
  -- order and with any faults: later outcomes are ignored and a late `OrderCreated` does not take it
  -- back.
  pub first_terminal_wins :
      (es : List (Option String × ViewEvent)) (db : ReadDb) (j : String) (s : ViewStatus)
      → final_status (lookup j db.orders) ≡ some s
      → final_status (lookup j (handle_all es db).orders) ≡ some s
  unfolding handle_all
  first_terminal_wins [] db j s h = h
  first_terminal_wins ((fault, e) ∷ es) db j s h =
      first_terminal_wins es (handle_event parse_uuid fault e db).0 j s
        (final-handle_event fault e db j s h)

-- An `OrderCreated` and a terminal event of an order that has no row leave the same row under every
-- id in either order.
pub created_terminal_commute :
    (id customer : String) (amount : ℤ) (currency : String) (to : ViewStatus) (rows : Dict ReadRow)
    (j : String)
    → is_terminal to ≡ true
    → lookup id rows ≡ none
    → lookup j (mark_terminal id to (upsert_order_created id customer amount currency rows)).0
      ≡ lookup j (upsert_order_created id customer amount currency (mark_terminal id to rows).0)
unfolding mark_terminal upsert_order_created
created_terminal_commute id customer amount currency to rows j final new =
    let details : ViewStatus → ReadRow = λ st. record {
      customer_id = customer;
      amount_cents = amount;
      currency = currency;
      status = st;
    } in
    let same = (eq_iff id id).1 refl in
    let first : Dict ReadRow = insert id (details created) rows in
    let second : Dict ReadRow = insert id (placeholder to) rows in
    let there : lookup id first ≡ some (details created) =
      lookup-insert id id (details created) rows
      ∙ ap (λ b. if b then some (details created) else lookup id rows) same in
    let here : lookup id second ≡ some (placeholder to) =
      lookup-insert id id (placeholder to) rows
      ∙ ap (λ b. if b then some (placeholder to) else lookup id rows) same in
    rw (new, there, here, final)
      (lookup-insert id j (details to) first
        ∙ ap (λ o. if str_eq id j then some (details to) else o)
            (lookup-insert id j (details created) rows)
        ∙ ground (
          arith,
          lookup-insert id j (details to) second,
          lookup-insert id j (placeholder to) rows,
        ))
