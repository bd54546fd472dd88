-- ===== src/Payments.antt =====
-- examples/payments/internal/domain/payment/service.go: the decline rule and `Process`. The row
-- insert and the outbox insert may fail, each with what the driver reports; `uuid.New` and the clock
-- are arguments of the call. An error's text is left out where it only wraps a cause.
use go_boilerplate.Prelude.{
  Bool, true, false, Option, none, some, List, [], ◌∷◌, ◌++◌, String, ℤ, pos, Result, ok, err,
  if◌then◌else◌,
}
use go_boilerplate.Decimal.{Decimal}
use go_boilerplate.Money.Error.{Error}
use go_boilerplate.Money.Asset.{Registry}
use go_boilerplate.Money.Amount.{Money, from_minor}
use go_boilerplate.Money.Compare.{greater_than_or_equal}
pub mod Process

abbrev pub decline_threshold_minor : ℤ
decline_threshold_minor = pos 1_000_000

abbrev pub status_processed : String
status_processed = "processed"

abbrev pub status_failed : String
status_failed = "failed"

pub record ProcessParams (D : Type 0) : Type 0 where
  pub order_id : String
  pub price : Money D

pub record Payment (D : Type 0) : Type 0 where
  pub payment_id : String
  pub payment_order : String
  pub paid_amount : Money D
  pub payment_status : String

-- The event payloads: a failure with its reason and time, or a success.
pub data Event : Type 0 where
  payment_failed : String → String → ℤ → Event
  payment_processed : String → String → String → Event

pub record Message : Type 0 where
  pub topic : String
  pub aggregate_id : String
  pub payload : Event

pub record Db (D : Type 0) : Type 0 where
  pub payments : List (Payment D)
  pub outbox : List Message

pub data ProcessError : Type 0 where
  undecided : Error → ProcessError
  storage : String → ProcessError

-- What one call meets: the new id, the clock, the service's topic, and the driver's faults.
pub record Env : Type 0 where
  pub new_id : String
  pub now : ℤ
  pub out_topic : String
  pub insert_fault : Option String
  pub enqueue_fault : Option String

pub record Outcome : Type 0 where
  pub result_id : String
  pub result_status : String

-- `(bool, error)` as a result.
abbrev pub verdict : Bool × Option Error → Result Error Bool
verdict (b, none) = ok b
verdict (b, some e) = err e

module _ {D : Type 0} ⦃dec : Decimal D⦄ where
  unfoldable pub is_declined : Registry → Money D → Result Error Bool
  is_declined reg amount = elim (from_minor reg (some decline_threshold_minor) amount.asset) [
    | err e ↦ err e
    | ok threshold ↦ verdict (greater_than_or_equal amount threshold)
  ]

  unfoldable pub outcome : Env → ProcessParams D → Bool → String × Event
  outcome env p true = (status_failed, payment_failed p.order_id "declined" env.now)
  outcome env p false = (status_processed, payment_processed p.order_id env.new_id status_processed)

  abbrev pub insert_payment : Option String → Payment D → Db D → Db D × Option ProcessError
  insert_payment none r db = (record db { payments = r ∷ db.payments }, none)
  insert_payment (some e) r db = (db, some (storage e))

  -- The enqueue and the result of `Process`.
  abbrev pub finish : Env → String → Message → Db D → Db D × Result ProcessError Outcome
  finish env status msg db = elim env.enqueue_fault [
    | some e ↦ (db, err (storage e))
    | none ↦ (
      record db { outbox = db.outbox ++ msg ∷ [] },
      ok (record { result_id = env.new_id; result_status = status }),
    )
  ]

  -- `Process` behind the decision.
  unfoldable pub record_outcome :
      Env → ProcessParams D → String × Event → Db D → Db D × Result ProcessError Outcome
  record_outcome env p (status, event) db =
      let (db', failed) =
        insert_payment env.insert_fault
          (record {
            payment_id = env.new_id;
            payment_order = p.order_id;
            paid_amount = p.price;
            payment_status = status;
          })
          db in
      elim failed [
        | some e ↦ (db', err e)
        | none ↦
            finish env status
              (record { topic = env.out_topic; aggregate_id = p.order_id; payload = event }) db'
      ]

  unfoldable pub process :
      Registry → Env → ProcessParams D → Db D → Db D × Result ProcessError Outcome
  unfolding outcome record_outcome
  process reg env p db = elim (is_declined reg p.price) [
    | err e ↦ (db, err (undecided e))
    | ok declined ↦ record_outcome env p (outcome env p declined) db
  ]
