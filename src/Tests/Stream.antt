-- ===== src/Tests/Stream.antt =====
-- The theorems about the streams of order statuses at concrete inputs.
use Prim.Native.Char.{Char, code}
use go_boilerplate.Prelude.{
  ◌≡◌, refl, true, false, none, some, Option, List, [], ◌∷◌, String, pos, ◌==◌, if◌then◌else◌,
}
use go_boilerplate.Lineage.{Principal}
use go_boilerplate.Projection.{ReadDb, ReadRow, created, paid, order_created, payment_processed}
use go_boilerplate.Stream.{StatusUpdate, StatusCodec, new_streamer, Streamer, Slot}
use go_boilerplate.Stream.Handler.{
  became_live, serving, unused_conn, Conn, open_stream, status_text,
}
use go_boilerplate.Stream.Gateway.{
  Replica, idle_replica, ReplicaOp, projected, notified, acknowledged, lost, opened, began, woken,
  handled, run_replica,
}
use go_boilerplate.Stream.Ids.{Rises}
use go_boilerplate.Stream.Rising.{ids_rise}
use go_boilerplate.Stream.Owned.{empty_db, foreign_as_missing}

-- A broadcast as a text: each character of the id behind a mark, another mark, and the status.
abbrev write_update : String → String → String
write_update String.[] status = String.◌∷◌ "b" status
write_update (String.◌∷◌ c id) status = String.◌∷◌ "a" (String.◌∷◌ c (write_update id status))

abbrev more_id : Char → Option StatusUpdate → Option StatusUpdate
more_id c none = none
more_id c (some u) = some (record u { order_id = String.◌∷◌ c u.order_id })

abbrev read_update : String → Option StatusUpdate
read_update String.[] = none
read_update (String.◌∷◌ m String.[]) =
    if code m == b'b' then some (record { order_id = ""; status = "" }) else none
read_update (String.◌∷◌ m (String.◌∷◌ c text)) =
    if code m == b'b'
    then some (record { order_id = ""; status = String.◌∷◌ c text })
    else more_id c (read_update text)

abbrev marked : StatusCodec
marked = record { encode = λ u. write_update u.order_id u.status; decode = read_update }

abbrev as_uuid : String → Option String
as_uuid s = some s

abbrev alice : Principal
alice = record { subject = "alice"; roles = [] }

abbrev stored : ReadDb
stored = record {
  orders =
      (
        "o1",
        record {
          customer_id = "alice";
          amount_cents = pos 500;
          currency = "JPY";
          status = created;
        },
      )
      ∷ [];
  observed = [];
  ignored = [];
}

-- The subscription drops before the payment is published, and comes back.
abbrev gap : List ReplicaOp
gap =
    opened 0 true (some alice) none "o1"
    ∷ acknowledged
    ∷ began 0 became_live none true none
    ∷ lost
    ∷ projected none (payment_processed "o1")
    ∷ notified none true "o1"
    ∷ acknowledged
    ∷ woken 0
    ∷ handled 0 none true
    ∷ []

abbrev after_gap : Replica
after_gap = run_replica marked as_uuid gap (idle_replica stored (new_streamer true false []))

abbrev paid_row : ReadRow
paid_row = record { customer_id = "alice"; amount_cents = pos 500; currency = "JPY"; status = paid }

ids_rise_example : Rises (after_gap.conns 0).resumed_from (after_gap.conns 0).frames
ids_rise_example = ids_rise marked as_uuid stored (new_streamer true false []) gap 0

abbrev bob : Principal
bob = record { subject = "bob"; roles = [] }

abbrev created_row : ReadRow
created_row = record {
  customer_id = "alice";
  amount_cents = pos 500;
  currency = "JPY";
  status = created;
}

foreign_as_missing_example :
    open_stream as_uuid true (some bob) none stored 0 "o1" (new_streamer true false [], unused_conn)
    ≡ open_stream as_uuid true
        (some bob)
        none
        empty_db
        0
        "o1"
        (new_streamer true false [], unused_conn)
foreign_as_missing_example =
    foreign_as_missing as_uuid true bob stored 0 "o1" "o1" (new_streamer true false []) unused_conn
      created_row refl refl refl refl refl

abbrev to_refresh : Streamer
to_refresh = record (new_streamer true false []) {
  slots = λ n. record { pending_status = ""; refresh = true; notify = true };
}

abbrev serving_conn : Conn
serving_conn = record unused_conn { phase = serving; order = "o1" }
