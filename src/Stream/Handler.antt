-- ===== src/Stream/Handler.antt =====
-- examples/gateway/internal/sse/sse.go: the reads of a status, `Notify` and the handler `Stream`, whose
-- select loop takes one event at a time. What the driver, Redis, the bulkhead and the client's connection
-- report is an argument. A write deadline that passes is a failed write.
use go_boilerplate.Prelude.{
  ℕ, Bool, true, false, not, ◌&&◌, ◌||◌, Option, none, some, List, [], ◌∷◌, ◌++◌, String, str_eq, ℤ,
  negsuc, ltb_ℤ, Result, ok, err, ◌==◌, if◌then◌else◌,
}
use go_boilerplate.Dict.{lookup}
use go_boilerplate.Lineage.{Principal}
use go_boilerplate.Projection.{
  ViewStatus, pending, created, paid, payment_failed, payment_timeout, ReadRow, ReadDb,
}
use go_boilerplate.Stream.{
  StatusCodec, status_ordinal, Slot, new_slot, take, mark_refresh, Streamer, register, unregister,
  ensure_subscriber,
}

abbrev pub status_text : ViewStatus → String
status_text pending = "pending"
status_text created = "created"
status_text paid = "paid"
status_text payment_failed = "payment_failed"
status_text payment_timeout = "payment_timeout"

pub data StreamError : Type 0 where
  order_not_found : StreamError
  read_failed : String → StreamError

abbrev pub found_row : Option ReadRow → Result StreamError (String × String)
found_row none = err order_not_found
found_row (some r) = ok (status_text r.status, r.customer_id)

-- The status of an order and its owner.
unfoldable pub current_status :
    (String → Option String)
    → Option String
    → String
    → ReadDb
    → Result StreamError (String × String)
current_status parse_uuid fault raw db = elim (parse_uuid raw) [
  | none ↦ err order_not_found
  | some id ↦ elim fault [ some e ↦ err (read_failed e) | none ↦ found_row (lookup id db.orders) ]
]

abbrev pub publish :
    StatusCodec → String → Bool → Result StreamError (String × String) → Option String
publish codec raw published (err e) = none
publish codec raw published (ok (status, owner)) =
    if published then some (codec.encode (record { order_id = raw; status = status })) else none

-- The payload that `Notify` puts on the channel; a failure is logged and nothing is sent.
unfoldable pub notify_status :
    StatusCodec
    → (String → Option String)
    → Option String
    → Bool
    → String
    → ReadDb
    → Streamer
    → Option String
unfolding current_status
notify_status codec parse_uuid fault published raw db s =
    if s.has_client
    then publish codec raw published (current_status parse_uuid fault raw db)
    else none

pub data Problem : Type 0 where
  sse_saturated unauthenticated no_such_order : Problem
  internal : String → Problem

abbrev pub has_role : String → List String → Bool
has_role role [] = false
has_role role (r ∷ rs) = str_eq r role || has_role role rs

abbrev pub admin_role : String
admin_role = "admin"

-- The initial status, or the refusal. A foreign order is refused as one that is not there.
abbrev pub grant : Bool → String → Result Problem String
grant not_found status = if not_found then err no_such_order else ok status

abbrev pub owned : Bool → Option Principal → Bool → String → String → Result Problem String
owned true principal not_found status owner = grant not_found status
owned false none not_found status owner = err unauthenticated
owned false (some p) not_found status owner =
    if not (has_role admin_role p.roles) && (not_found || not (str_eq owner p.subject))
    then grant true status
    else grant not_found status

unfoldable pub admit_stream :
    Bool → Option Principal → Result StreamError (String × String) → Result Problem String
admit_stream no_auth principal (err (read_failed e)) = err (internal e)
admit_stream no_auth principal (err order_not_found) = owned no_auth principal true "" ""
admit_stream no_auth principal (ok (status, owner)) = owned no_auth principal false status owner

-- The bulkhead is asked only where a cap is set.
abbrev pub permitted : Option ℕ → Bool → Bool
permitted none free = true
permitted (some cap_size) free = free

-- What the client is sent.
pub data Frame : Type 0 where
  event : ℤ → String → Frame
  comment : Frame

-- `handling` is the state between the drain of the slot and the write.
pub data Phase : Type 0 where
  unused serving closed : Phase
  waiting : String → Phase
  handling : String → Bool → Phase

-- The variables of one run of `Stream`. Two are not in the code: `resumed_from` is the id with which the
-- client came, and `synced` says that the store was read since the registration.
pub record Conn : Type 0 where
  pub phase : Phase
  pub order : String
  pub resumed_from : ℤ
  pub last_sent : ℤ
  pub frames : List Frame
  pub synced : Bool

abbrev pub unused_conn : Conn
unused_conn = record {
  phase = unused;
  order = "";
  resumed_from = negsuc 0;
  last_sent = negsuc 0;
  frames = [];
  synced = false;
}

-- `send`; the flag is the outcome of the write and the flush.
unfoldable pub send : Bool → String → Conn → Conn × Bool
send written status c =
    if ltb_ℤ c.last_sent (status_ordinal status)
    then (
      record c {
        last_sent = status_ordinal status;
        frames =
            if written then c.frames ++ event (status_ordinal status) status ∷ [] else c.frames;
      },
      written,
    )
    else (c, true)

abbrev pub set_slot : ℕ → Slot → Streamer → Streamer
set_slot n sl s = record s { slots = λ m. if m == n then sl else s.slots m }

-- Every return after the registration: the deferred `unregister`.
unfoldable pub leave : ℕ → Streamer × Conn → Streamer × Conn
leave n (s, c) = (if s.has_client then unregister c.order n s else s, record c { phase = closed })

-- The handler up to the wait for the subscription.
abbrev pub join : ℕ → String → Streamer → Streamer
join n raw s =
    if s.has_client then register raw n (set_slot n new_slot (ensure_subscriber s)) else s

abbrev pub joined :
    ℕ → String → Result Problem String → Streamer × Conn → Result Problem (Streamer × Conn)
joined n raw (err p) (s, c) = err p
joined n raw (ok status) (s, c) =
    ok (join n raw s, record c { phase = waiting status; order = raw; synced = false })

unfoldable pub open_stream :
    (String → Option String)
    → Bool
    → Option Principal
    → Option String
    → ReadDb
    → ℕ
    → String
    → Streamer × Conn
    → Result Problem (Streamer × Conn)
unfolding current_status admit_stream register
open_stream parse_uuid free principal fault db n raw (s, c) =
    if permitted s.max_streams free
    then joined n raw
        (admit_stream s.auth_disabled principal (current_status parse_uuid fault raw db)) (s, c)
    else err sse_saturated

-- How the wait for the subscription ends.
pub data Waited : Type 0 where
  became_live timed_out draining client_gone : Waited

abbrev pub snapshot : String → Result StreamError (String × String) → String × Bool
snapshot status (ok (cur, owner)) = (cur, true)
snapshot status (err e) = (status, false)

-- `Last-Event-ID`, where it is a number.
abbrev pub known_id : Option ℤ → ℤ
known_id none = negsuc 0
known_id (some v) = v

abbrev pub after_send : ℕ → Streamer → Conn × Bool → Streamer × Conn
after_send n s (c, true) = (s, record c { phase = serving })
after_send n s (c, false) = leave n (s, c)

abbrev pub first_send : ℕ → Bool → Option ℤ → String × Bool → Streamer × Conn → Streamer × Conn
first_send n written last_id (status, fresh) (s, c) = after_send n s (
    send written status
      (record c { resumed_from = known_id last_id; last_sent = known_id last_id; synced = fresh }))

unfoldable pub begin_stream :
    (String → Option String)
    → Waited
    → Option String
    → Bool
    → Option ℤ
    → ReadDb
    → ℕ
    → String
    → Streamer × Conn
    → Streamer × Conn
unfolding current_status send leave
begin_stream parse_uuid draining fault written last_id db n status (s, c) = leave n (s, c)
begin_stream parse_uuid client_gone fault written last_id db n status (s, c) = leave n (s, c)
begin_stream parse_uuid became_live fault written last_id db n status (s, c) =
    first_send n written last_id (snapshot status (current_status parse_uuid fault c.order db))
      (s, c)
begin_stream parse_uuid timed_out fault written last_id db n status (s, c) =
    first_send n written last_id (snapshot status (current_status parse_uuid fault c.order db))
      (s, c)

-- The case `<-slotNotify`: the signal is received and the slot is drained.
abbrev pub drained : ℕ → Streamer → Conn → Slot × String × Bool → Streamer × Conn
drained n s c (sl, status, refresh) =
    (set_slot n (record sl { notify = false }) s, record c { phase = handling status refresh })

unfoldable pub wake_up : ℕ → Streamer × Conn → Streamer × Conn
unfolding take
wake_up n (s, c) = if (s.slots n).notify then drained n s c (take (s.slots n)) else (s, c)

-- The later of the drained status and the one in the store; on a failed read the refresh is armed again.
abbrev pub newest : String → String → String
newest status cur = if ltb_ℤ (status_ordinal status) (status_ordinal cur) then cur else status

abbrev pub refreshed :
    ℕ
    → String
    → Bool
    → Result StreamError (String × String)
    → Streamer × Conn
    → (Streamer × Conn) × String
refreshed n status false read (s, c) = ((s, c), status)
refreshed n status true (ok (cur, owner)) (s, c) =
    ((s, record c { synced = true }), newest status cur)
refreshed n status true (err e) (s, c) = ((set_slot n (mark_refresh (s.slots n)) s, c), status)

abbrev pub send_taken : ℕ → Bool → (Streamer × Conn) × String → Streamer × Conn
send_taken n written ((s, c), status) =
    if str_eq status ""
    then (s, record c { phase = serving })
    else after_send n s (send written status c)

unfoldable pub handle_wake :
    (String → Option String)
    → Option String
    → Bool
    → ReadDb
    → ℕ
    → String
    → Bool
    → Streamer × Conn
    → Streamer × Conn
unfolding current_status send leave mark_refresh
handle_wake parse_uuid fault written db n status refresh (s, c) =
    send_taken n written
      (refreshed n status refresh (current_status parse_uuid fault c.order db) (s, c))

-- The case `<-poll.C`.
abbrev pub polled :
    ℕ → Bool → Result StreamError (String × String) → Streamer × Conn → Streamer × Conn
polled n written (err e) (s, c) = (s, c)
polled n written (ok (status, owner)) (s, c) =
    after_send n s (send written status (record c { synced = true }))

unfoldable pub poll_tick :
    (String → Option String) → Option String → Bool → ReadDb → ℕ → Streamer × Conn → Streamer × Conn
unfolding current_status send leave
poll_tick parse_uuid fault written db n (s, c) =
    polled n written (current_status parse_uuid fault c.order db) (s, c)

-- The case `<-heartbeat.C`.
unfoldable pub heartbeat_tick : Bool → ℕ → Streamer × Conn → Streamer × Conn
unfolding leave
heartbeat_tick written n (s, c) =
    if written then (s, record c { frames = c.frames ++ comment ∷ [] }) else leave n (s, c)
