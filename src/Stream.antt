-- ===== src/Stream.antt =====
-- examples/gateway/internal/sse/sse.go: the mailbox of a stream, the registry of open streams, the
-- subscriber's state and the broadcasts. A slot is a number that stands for its pointer, and a set of
-- slots a list; the channel `notify` of capacity 1 is a flag, and `liveCh` is `live` while it is closed.
-- The JSON of a broadcast is a parameter.
use go_boilerplate.Prelude.{
  ℕ, ◌*◌, Bool, true, false, not, ◌&&◌, ◌||◌, Option, none, some, List, [], ◌∷◌, String, str_eq, ℤ,
  pos, negsuc, pos_part, ltb_ℤ, ltb, ◌==◌, if◌then◌else◌,
}
use go_boilerplate.Dict.{Dict, lookup, insert, erase}
pub mod Handler
pub mod Gateway
pub mod Registry
pub mod Covers
pub mod Others
pub mod Own
pub mod Woken
pub mod Elsewhere
pub mod Shared
pub mod Delivered
pub mod Caught
pub mod Ids
pub mod Rising
pub mod Owned

abbrev pub default_heartbeat : ℕ
default_heartbeat = 15000000000

abbrev pub default_poll_interval : ℕ
default_poll_interval = 2000000000

abbrev pub safety_poll_multiplier : ℕ
safety_poll_multiplier = 30

pub record StatusUpdate : Type 0 where
  pub order_id : String
  pub status : String

pub record StatusCodec : Type 0 where
  pub encode : StatusUpdate → String
  pub decode : String → Option StatusUpdate

-- An unknown status has the ordinal -1.
unfoldable pub status_ordinal : String → ℤ
status_ordinal status =
    if str_eq status "pending"
    then pos 0
    else if str_eq status "created"
    then pos 1
    else if str_eq status "paid"
        || str_eq status "payment_failed"
        || str_eq status "payment_timeout"
    then pos 2
    else negsuc 0

pub record Slot : Type 0 where
  pub pending_status : String
  pub refresh : Bool
  pub notify : Bool

abbrev pub new_slot : Slot
new_slot = record { pending_status = ""; refresh = false; notify = false }

abbrev pub wake : Slot → Slot
wake sl = record sl { notify = true }

-- The highest ordinal wins.
unfoldable pub deliver : String → Slot → Slot
deliver status sl = wake (
    if ltb_ℤ (status_ordinal sl.pending_status) (status_ordinal status)
    then record sl { pending_status = status }
    else sl)

unfoldable pub mark_refresh : Slot → Slot
mark_refresh sl = wake (record sl { refresh = true })

unfoldable pub take : Slot → Slot × String × Bool
take sl = (record sl { pending_status = ""; refresh = false }, sl.pending_status, sl.refresh)

-- `max_streams` is the size of the bulkhead, none for no cap.
pub record Streamer : Type 0 where
  pub has_client : Bool
  pub auth_disabled : Bool
  pub heartbeat : ℕ
  pub poll_interval : ℕ
  pub max_streams : Option ℕ
  pub registry : Dict (List ℕ)
  pub slots : ℕ → Slot
  pub sub_started : Bool
  pub sub_cancelled : Bool
  pub live : Bool
  pub shut_down : Bool

pub data StreamOption : Type 0 where
  with_heartbeat with_poll_interval with_max_streams : ℤ → StreamOption

abbrev pub apply_option : StreamOption → Streamer → Streamer
apply_option (with_heartbeat d) s =
    if ltb 0 (pos_part d) then record s { heartbeat = pos_part d } else s
apply_option (with_poll_interval d) s =
    if ltb 0 (pos_part d) then record s { poll_interval = pos_part d } else s
apply_option (with_max_streams n) s =
    if ltb 0 (pos_part n) then record s { max_streams = some (pos_part n) } else s

abbrev pub apply_options : List StreamOption → Streamer → Streamer
apply_options [] s = s
apply_options (o ∷ os) s = apply_options os (apply_option o s)

abbrev pub new_streamer : Bool → Bool → List StreamOption → Streamer
new_streamer client no_auth opts = apply_options opts (record {
  has_client = client;
  auth_disabled = no_auth;
  heartbeat = default_heartbeat;
  poll_interval = default_poll_interval;
  max_streams = none;
  registry = [];
  slots = λ n. new_slot;
  sub_started = false;
  sub_cancelled = false;
  live = false;
  shut_down = false;
})

abbrev pub mem_slot : ℕ → List ℕ → Bool
mem_slot n [] = false
mem_slot n (m ∷ ms) = m == n || mem_slot n ms

abbrev pub remove_slot : ℕ → List ℕ → List ℕ
remove_slot n [] = []
remove_slot n (m ∷ ms) = if m == n then remove_slot n ms else m ∷ remove_slot n ms

-- The streams that watch an order.
abbrev pub watchers : String → Dict (List ℕ) → List ℕ
watchers id registry = elim (lookup id registry) [ none ↦ [] | some ns ↦ ns ]

unfoldable pub register : String → ℕ → Streamer → Streamer
register id n s = record s { registry = insert id (n ∷ watchers id s.registry) s.registry }

abbrev pub put_back : String → List ℕ → Dict (List ℕ) → Dict (List ℕ)
put_back id [] registry = erase id registry
put_back id (n ∷ ns) registry = insert id (n ∷ ns) registry

unfoldable pub unregister : String → ℕ → Streamer → Streamer
unregister id n s = record s {
  registry = put_back id (remove_slot n (watchers id s.registry)) s.registry;
}

-- Each slot of a set is changed once.
abbrev pub on_slots : (Slot → Slot) → List ℕ → (ℕ → Slot) → ℕ → Slot
on_slots f ns slots n = if mem_slot n ns then f (slots n) else slots n

abbrev pub deliver_update : Option StatusUpdate → Streamer → Streamer
deliver_update none s = s
deliver_update (some u) s =
    if str_eq u.order_id ""
    then s
    else record s { slots = on_slots (deliver u.status) (watchers u.order_id s.registry) s.slots }

-- A malformed broadcast is ignored.
unfoldable pub dispatch : StatusCodec → String → Streamer → Streamer
dispatch codec payload s = deliver_update (codec.decode payload) s

abbrev pub refresh_sets : Dict (List ℕ) → (ℕ → Slot) → ℕ → Slot
refresh_sets [] slots = slots
refresh_sets ((id, ns) ∷ sets) slots = refresh_sets sets (on_slots mark_refresh ns slots)

unfoldable pub broadcast_refresh : Streamer → Streamer
unfolding mark_refresh
broadcast_refresh s = record s { slots = refresh_sets s.registry s.slots }

-- The goroutine starts once, and not after a shutdown.
abbrev pub ensure_subscriber : Streamer → Streamer
ensure_subscriber s =
    if s.sub_started || s.sub_cancelled then s else record s { sub_started = true }

-- The acknowledged subscription of `subscribeOnce`.
unfoldable pub subscribed : Streamer → Streamer
unfolding broadcast_refresh
subscribed s =
    if s.sub_started && not s.sub_cancelled then broadcast_refresh (record s { live = true }) else s

abbrev pub mark_down : Streamer → Streamer
mark_down s = record s { live = false }

unfoldable pub shutdown : Streamer → Streamer
shutdown s = record s { shut_down = true; sub_cancelled = true; live = false }

-- The cadence of the poll, which is slow where broadcasts arrive.
unfoldable pub poll_every : Streamer → ℕ
poll_every s = if s.has_client then s.poll_interval * safety_poll_multiplier else s.poll_interval
