-- ===== src/Orders.antt =====
-- examples/orders/internal/domain/order: the state machine (statemachine.go), the service
-- (service.go), and the statements of pg.go with the SQL of internal/store/queries, run on a table of
-- order rows. Each statement and the outbox insert may fail: `Faults` holds what the driver reports
-- in one call. UUID parsing is a parameter. An error's text is left out where it only wraps a cause.
use go_boilerplate.Prelude.{
  Bool, true, false, not, ◌&&◌, Option, none, some, List, [], ◌∷◌, ◌++◌, String, str_eq, ℤ, wrap64,
  Result, ok, err, ◌>>=◌, ◌>>◌, if◌then◌else◌,
}
use go_boilerplate.Dict.{Dict, lookup, insert, contains}
use go_boilerplate.Decimal.{Decimal}
use go_boilerplate.Money.Error.{Error}
use go_boilerplate.Money.Asset.{Registry}
use go_boilerplate.Money.Amount.{Money, minor_units}
pub mod Machine
pub mod Timeout

pub data Status : Type 0 where
  created paid payment_failed payment_timeout : Status

abbrev pub status_string : Status → String
status_string created = "created"
status_string paid = "paid"
status_string payment_failed = "payment_failed"
status_string payment_timeout = "payment_timeout"

abbrev pub is_created : Status → Bool
is_created created = true
is_created paid = false
is_created payment_failed = false
is_created payment_timeout = false

-- The table `transitions`: a missing row or column reads as false.
unfoldable pub can_transition : Status → Status → Bool
can_transition created paid = true
can_transition created payment_failed = true
can_transition created payment_timeout = true
can_transition _ _ = false

pub data OrderError : Type 0 where
  invalid_status_transition : String → String → OrderError
  invalid_order_id : String → OrderError
  storage : String → OrderError
  inexact_amount : Error → OrderError

unfoldable pub transition : Status → Status → Result OrderError (Unit {0})
unfolding can_transition
transition from to =
    if can_transition from to
    then ok tt
    else err (invalid_status_transition (status_string from) (status_string to))

pub record Row (D : Type 0) : Type 0 where
  pub customer_id : String
  pub amount : Money D
  pub status : Status
  pub timeout_emitted : Bool

pub data Event : Type 0 where
  order_created : String → String → ℤ → String → Event
  order_payment_timed_out : String → Event

pub record Db (D : Type 0) : Type 0 where
  pub rows : Dict (Row D)
  pub outbox : List Event
  pub ignored_outcomes : List (String × Status)

pub record Faults : Type 0 where
  pub statement_fault : Option String
  pub enqueue_fault : Option String

abbrev pub no_faults : Faults
no_faults = record { statement_fault = none; enqueue_fault = none }

pub record CreateParams (D : Type 0) : Type 0 where
  pub order_id : String
  pub customer : String
  pub price : Money D

-- A call's result beside the database that it leaves.
abbrev pub Call : Type 0 → Type 0 → Type 0
Call D A = Db D × Result OrderError A

module _ {D : Type 0} where
  -- `insert into orders`: the id is the primary key.
  unfoldable pub insert_order : Option String → String → Row D → Db D → Call D (Unit {0})
  insert_order (some e) id r db = (db, err (storage e))
  insert_order none id r db =
      if contains id db.rows
      then (db, err (storage "duplicate key"))
      else (record db { rows = insert id r db.rows }, ok tt)

  -- `update orders set status = … where id = $1 and status = 'created'`, and whether a row matched.
  unfoldable pub update_outcome : Option (Row D) → String → Status → Db D → Db D × Bool
  update_outcome none id to db = (db, false)
  update_outcome (some r) id to db =
      if is_created r.status
      then (record db { rows = insert id (record r { status = to }) db.rows }, true)
      else (db, false)

  unfoldable pub mark_payment_outcome : Option String → String → Status → Db D → Call D Bool
  unfolding update_outcome
  mark_payment_outcome (some e) id to db = (db, err (storage e))
  mark_payment_outcome none id to db =
      let (db', applied) = update_outcome (lookup id db.rows) id to db in (db', ok applied)

  -- The compare-and-set claim of the watcher.
  unfoldable pub update_timeout : Option (Row D) → String → Db D → Db D × Bool
  update_timeout none id db = (db, false)
  update_timeout (some r) id db =
      if not r.timeout_emitted && is_created r.status
      then (
        record db {
          rows = insert id (record r { timeout_emitted = true; status = payment_timeout }) db.rows;
        },
        true,
      )
      else (db, false)

  unfoldable pub mark_timeout_emitted : Option String → String → Db D → Call D Bool
  unfolding update_timeout
  mark_timeout_emitted (some e) id db = (db, err (storage e))
  mark_timeout_emitted none id db =
      let (db', claimed) = update_timeout (lookup id db.rows) id db in (db', ok claimed)

  unfoldable pub enqueue : Option String → Event → Db D → Call D (Unit {0})
  enqueue (some e) ev db = (db, err (storage e))
  enqueue none ev db = (record db { outbox = db.outbox ++ ev ∷ [] }, ok tt)

  -- What follows a call that succeeded; an error ends the call and leaves what was written.
  abbrev pub continue : {A B : Type 0} → Call D A → (A → Db D → Call D B) → Call D B
  continue (db, ok a) f = f a db
  continue (db, err e) f = (db, err e)

  -- A transaction of the caller: an error rolls every write back.
  abbrev pub settle : {A : Type 0} → Db D → Call D A → Call D A
  settle before (db, ok a) = (db, ok a)
  settle before (db, err e) = (before, err e)

  unfoldable pub run_in_tx : {A : Type 0} → (Db D → Call D A) → Db D → Call D A
  run_in_tx f db = settle db (f db)

-- `uuid.Parse`, with its error.
abbrev pub parse_id : (String → Option String) → String → Result OrderError String
parse_id parse_uuid raw = elim (parse_uuid raw) [
  | none ↦ err (invalid_order_id raw)
  | some id ↦ ok id
]

module _ {D : Type 0} ⦃dec : Decimal D⦄ where
  -- `minor.Int64()` keeps the low 64 bits.
  abbrev pub created_event : Registry → CreateParams D → Result OrderError Event
  created_event reg p = elim (minor_units reg p.price) [
    | ok minor ↦ ok (order_created p.order_id p.customer (wrap64 minor) p.price.asset)
    | err e ↦ err (inexact_amount e)
  ]

  unfoldable pub create :
      (String → Option String) → Registry → Faults → CreateParams D → Db D → Call D (Unit {0})
  unfolding insert_order enqueue
  create parse_uuid reg f p db =
      continue (db, parse_id parse_uuid p.order_id)
        λ id db₁.
          continue
            (insert_order f.statement_fault id
              (record {
                customer_id = p.customer;
                amount = p.price;
                status = created;
                timeout_emitted = false;
              })
              db₁)
            λ _ db₂. continue (db₂, created_event reg p) λ ev db₃. enqueue f.enqueue_fault ev db₃

  -- The warning for an outcome that no row took.
  abbrev pub warn_ignored : Bool → String → Status → Db D → Db D
  warn_ignored true id to db = db
  warn_ignored false id to db = record db {
    ignored_outcomes = db.ignored_outcomes ++ (id, to) ∷ [];
  }

  unfoldable pub apply_payment_outcome :
      (String → Option String) → Faults → String → Status → Db D → Call D (Unit {0})
  unfolding transition mark_payment_outcome
  apply_payment_outcome parse_uuid f raw outcome db =
      continue (db, parse_id parse_uuid raw)
        λ id db₁.
          continue (db₁, transition created outcome)
            λ _ db₂.
              continue (mark_payment_outcome f.statement_fault id outcome db₂)
                λ applied db₃. (warn_ignored applied id outcome db₃, ok tt)

  unfoldable pub emit_payment_timeout : Faults → String → Db D → Call D (Unit {0})
  unfolding mark_timeout_emitted enqueue
  emit_payment_timeout f id db =
      continue (mark_timeout_emitted f.statement_fault id db) λ claimed db₁.
        if claimed then enqueue f.enqueue_fault (order_payment_timed_out id) db₁ else (db₁, ok tt)
