-- ===== src/Stream/Gateway.antt =====
-- examples/gateway: the projection, `Notify`, the broadcast channel and the streams of one replica. Each
-- step of a goroutine that others can observe is an operation, so a list of operations is an
-- interleaving. The reader pool is the writer's, with no replica that lags. Redis delivers a broadcast, in
-- order, to a subscription that is live when it is published.
use go_boilerplate.Prelude.{
  ℕ, Bool, true, false, Option, none, some, List, [], ◌∷◌, ◌++◌, String, str_eq, ℤ, Result, ok, err,
  ◌==◌, if◌then◌else◌,
}
use go_boilerplate.Lineage.{Principal}
use go_boilerplate.Projection.{
  ReadDb, ViewEvent, ViewError, order_created, payment_processed, order_payment_timed_out,
  payment_failed_with, handle_event,
}
use go_boilerplate.Stream.{StatusCodec, Streamer, dispatch, subscribed, mark_down, shutdown}
use go_boilerplate.Stream.Handler.{
  notify_status, Problem, Phase, unused, serving, closed, waiting, handling, Conn, unused_conn,
  open_stream, Waited, begin_stream, wake_up, handle_wake, poll_tick, heartbeat_tick, leave,
}

-- `unannounced` is not in the code: the orders whose row was written and whose status was not published
-- since.
pub record Replica : Type 0 where
  pub db : ReadDb
  pub unannounced : List String
  pub channel : List String
  pub streamer : Streamer
  pub conns : ℕ → Conn

abbrev pub idle_replica : ReadDb → Streamer → Replica
idle_replica db s = record {
  db = db;
  unannounced = [];
  channel = [];
  streamer = s;
  conns = λ n. unused_conn;
}

pub data ReplicaOp : Type 0 where
  projected : Option String → ViewEvent → ReplicaOp
  notified : Option String → Bool → String → ReplicaOp
  received acknowledged lost stopped : ReplicaOp
  opened : ℕ → Bool → Option Principal → Option String → String → ReplicaOp
  began : ℕ → Waited → Option String → Bool → Option ℤ → ReplicaOp
  woken : ℕ → ReplicaOp
  handled ticked : ℕ → Option String → Bool → ReplicaOp
  beat : ℕ → Bool → ReplicaOp
  left : ℕ → ReplicaOp

abbrev pub order_of : ViewEvent → String
order_of (order_created raw customer amount currency) = raw
order_of (payment_processed raw) = raw
order_of (order_payment_timed_out raw) = raw
order_of (payment_failed_with raw reason) = raw

abbrev pub mem_text : String → List String → Bool
mem_text t [] = false
mem_text t (u ∷ us) = if str_eq u t then true else mem_text t us

abbrev pub remove_text : String → List String → List String
remove_text t [] = []
remove_text t (u ∷ us) = if str_eq u t then remove_text t us else u ∷ remove_text t us

-- The hook of a committed event is still to run.
abbrev pub committed : String → ReadDb × Option ViewError → Replica → Replica
committed raw (db, some e) w = w
committed raw (db, none) w = record w { db = db; unannounced = raw ∷ w.unannounced }

abbrev pub broadcast : String → Option String → Replica → Replica
broadcast raw none w = w
broadcast raw (some p) w = record w {
  channel = if w.streamer.live then w.channel ++ p ∷ [] else w.channel;
  unannounced = remove_text raw w.unannounced;
}

abbrev pub receive_next : StatusCodec → List String → Replica → Replica
receive_next codec [] w = w
receive_next codec (p ∷ ps) w = record w { channel = ps; streamer = dispatch codec p w.streamer }

abbrev pub put_conn : ℕ → Streamer × Conn → Replica → Replica
put_conn n (s, c) w = record w { streamer = s; conns = λ m. if m == n then c else w.conns m }

-- A stream that is refused has no run.
abbrev pub opened_conn : ℕ → Result Problem (Streamer × Conn) → Replica → Replica
opened_conn n (err p) w = w
opened_conn n (ok sc) w = put_conn n sc w

abbrev pub is_running : Phase → Bool
is_running unused = false
is_running (waiting status) = false
is_running serving = true
is_running (handling status refresh) = true
is_running closed = false

abbrev pub is_open : Phase → Bool
is_open unused = false
is_open (waiting status) = true
is_open serving = true
is_open (handling status refresh) = true
is_open closed = false

module _ (codec : StatusCodec) (parse_uuid : String → Option String) where
  -- What one run of `Stream` does next, where it stands at that point.
  abbrev pub conn_step : ReplicaOp → Phase → Replica → Replica
  conn_step (opened n free who fault raw) unused w =
      opened_conn n (open_stream parse_uuid free who fault w.db n raw (w.streamer, w.conns n)) w
  conn_step (began n waited fault written last_id) (waiting status) w =
      put_conn n
        (begin_stream parse_uuid waited fault written last_id w.db n status (w.streamer, w.conns n))
        w
  conn_step (woken n) serving w = put_conn n (wake_up n (w.streamer, w.conns n)) w
  conn_step (handled n fault written) (handling status refresh) w =
      put_conn n
        (handle_wake parse_uuid fault written w.db n status refresh (w.streamer, w.conns n)) w
  conn_step (ticked n fault written) serving w =
      put_conn n (poll_tick parse_uuid fault written w.db n (w.streamer, w.conns n)) w
  conn_step (beat n written) serving w =
      put_conn n (heartbeat_tick written n (w.streamer, w.conns n)) w
  conn_step (left n) serving w = put_conn n (leave n (w.streamer, w.conns n)) w
  conn_step op phase w = w

  unfoldable pub step : ReplicaOp → Replica → Replica
  step (projected fault e) w = committed (order_of e) (handle_event parse_uuid fault e w.db) w
  step (notified fault published raw) w =
      broadcast raw (notify_status codec parse_uuid fault published raw w.db w.streamer) w
  step received w = receive_next codec w.channel w
  step acknowledged w = record w { streamer = subscribed w.streamer }
  step lost w = record w { channel = []; streamer = mark_down w.streamer }
  step stopped w = record w { channel = []; streamer = shutdown w.streamer }
  step (opened n free who fault raw) w = conn_step (opened n free who fault raw) (w.conns n).phase w
  step (began n waited fault written last_id) w =
      conn_step (began n waited fault written last_id) (w.conns n).phase w
  step (woken n) w = conn_step (woken n) (w.conns n).phase w
  step (handled n fault written) w = conn_step (handled n fault written) (w.conns n).phase w
  step (ticked n fault written) w = conn_step (ticked n fault written) (w.conns n).phase w
  step (beat n written) w = conn_step (beat n written) (w.conns n).phase w
  step (left n) w = conn_step (left n) (w.conns n).phase w

  unfoldable pub run_replica : List ReplicaOp → Replica → Replica
  unfolding step
  run_replica [] w = w
  run_replica (op ∷ ops) w = run_replica ops (step op w)
