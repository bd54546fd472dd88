-- ===== src/Projection.antt =====
-- examples/gateway/internal/projection: the four typed handlers that build the read model of orders,
-- with the statements of internal/store/queries/gateway.sql on a table of rows. UUID parsing and what
-- the driver reports are arguments. The time columns are left out.
use go_boilerplate.Prelude.{
  Bool, true, false, not, Option, none, some, List, [], ◌∷◌, ◌++◌, String, str_eq, ℤ, pos,
  if◌then◌else◌,
}
use go_boilerplate.Dict.{Dict, lookup, insert}
pub mod Terminal

pub data ViewStatus : Type 0 where
  pending created paid payment_failed payment_timeout : ViewStatus

abbrev pub is_terminal : ViewStatus → Bool
is_terminal pending = false
is_terminal created = false
is_terminal paid = true
is_terminal payment_failed = true
is_terminal payment_timeout = true

pub record ReadRow : Type 0 where
  pub customer_id : String
  pub amount_cents : ℤ
  pub currency : String
  pub status : ViewStatus

pub data ViewEvent : Type 0 where
  order_created : String → String → ℤ → String → ViewEvent
  payment_processed : String → ViewEvent
  order_payment_timed_out : String → ViewEvent
  payment_failed_with : String → String → ViewEvent

-- The table, the orders whose lifecycle was observed, and the events that were ignored with a warning.
pub record ReadDb : Type 0 where
  pub orders : Dict ReadRow
  pub observed : List (String × ViewStatus)
  pub ignored : List (String × ViewStatus)

pub data ViewError : Type 0 where
  bad_order_id : String → ViewError
  statement_failed : String → ViewError

-- The status that `UpsertOrderCreated` leaves on a row.
abbrev pub kept_status : Option ReadRow → ViewStatus
kept_status none = created
kept_status (some r) = if is_terminal r.status then r.status else created

unfoldable pub upsert_order_created : String → String → ℤ → String → Dict ReadRow → Dict ReadRow
upsert_order_created id customer amount currency rows =
    insert id
      (record {
        customer_id = customer;
        amount_cents = amount;
        currency = currency;
        status = kept_status (lookup id rows);
      })
      rows

-- What `MarkPaid`, `MarkPaymentFailed` and `MarkPaymentTimeout` return: no row, or whether the row was
-- inserted.
pub data Marked : Type 0 where
  no_rows inserted updated : Marked

abbrev pub placeholder : ViewStatus → ReadRow
placeholder to = record { customer_id = ""; amount_cents = pos 0; currency = ""; status = to }

abbrev pub mark_row : String → ViewStatus → Option ReadRow → Dict ReadRow → Dict ReadRow × Marked
mark_row id to none rows = (insert id (placeholder to) rows, inserted)
mark_row id to (some r) rows =
    if is_terminal r.status
    then (rows, no_rows)
    else (insert id (record r { status = to }) rows, updated)

unfoldable pub mark_terminal : String → ViewStatus → Dict ReadRow → Dict ReadRow × Marked
mark_terminal id to rows = mark_row id to (lookup id rows) rows

-- What a handler does after its statement.
abbrev pub noted : String → ViewStatus → ReadDb → Dict ReadRow × Marked → ReadDb
noted id to db (rows, no_rows) = record db { ignored = db.ignored ++ (id, to) ∷ [] }
noted id to db (rows, inserted) = record db { orders = rows }
noted id to db (rows, updated) = record db {
  orders = rows;
  observed = db.observed ++ (id, to) ∷ [];
}

abbrev pub handle_terminal :
    (String → Option String)
    → Option String
    → String
    → ViewStatus
    → ReadDb
    → ReadDb × Option ViewError
handle_terminal parse_uuid fault raw to db = elim (parse_uuid raw) [
  | none ↦ (db, some (bad_order_id raw))
  | some id ↦ elim fault [
    | some e ↦ (db, some (statement_failed e))
    | none ↦ (noted id to db (mark_terminal id to db.orders), none)
  ]
]

unfoldable pub handle_event :
    (String → Option String) → Option String → ViewEvent → ReadDb → ReadDb × Option ViewError
unfolding upsert_order_created mark_terminal
handle_event parse_uuid fault (order_created raw customer amount currency) db =
    elim (parse_uuid raw) [
      | none ↦ (db, some (bad_order_id raw))
      | some id ↦ elim fault [
        | some e ↦ (db, some (statement_failed e))
        | none ↦ (
          record db { orders = upsert_order_created id customer amount currency db.orders },
          none,
        )
      ]
    ]
handle_event parse_uuid fault (payment_processed raw) db =
    handle_terminal parse_uuid fault raw paid db
handle_event parse_uuid fault (order_payment_timed_out raw) db =
    handle_terminal parse_uuid fault raw payment_timeout db
handle_event parse_uuid fault (payment_failed_with raw reason) db =
    handle_terminal parse_uuid fault raw payment_failed db
