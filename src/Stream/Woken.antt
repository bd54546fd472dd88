-- ===== src/Stream/Woken.antt =====
-- examples/gateway/internal/sse/sse.go: a stream that opens, wakes, reads again, or beats keeps its order
-- covered.
use go_boilerplate.Prelude.{
  ℕ, ◌≡◌, refl, ap, ◌∙◌, Bool, true, false, ◌||◌, Option, some, List, String, str_eq, Result, ok,
  err, ==_iff, arith, Bool-cases, inl, inr, if◌then◌else◌,
}
use go_boilerplate.Projection.{ReadDb}
use go_boilerplate.Stream.{
  StatusCodec, new_slot, mark_refresh, take, Streamer, register, ensure_subscriber, mem_slot,
  watchers,
}
use go_boilerplate.Stream.Handler.{
  StreamError, current_status, serving, waiting, handling, Conn, set_slot, join, newest, wake_up,
  refreshed, send_taken, handle_wake, heartbeat_tick,
}
use go_boilerplate.Stream.Registry.{IsAwake, mem-register_self}
use go_boilerplate.Stream.Covers.{not-covered_by_empty, IsFollowed}
use go_boilerplate.Stream.Own.{current_status-found, CoveredWith, send-IsFollowed, leave-IsFollowed}

ensure-has_client : (s : Streamer) → (ensure_subscriber s).has_client ≡ s.has_client
ensure-has_client s = go (s.sub_started || s.sub_cancelled)
  where
    go : (b : Bool) → (if b then s else record s { sub_started = true }).has_client ≡ s.has_client
    go true = refl
    go false = refl

module _ (codec : StatusCodec) (o k : String) (un ch : List String) (db : ReadDb) (n : ℕ) where
  registered-IsFollowed :
      (raw status : String) (s : Streamer) (c : Conn) (b : Bool)
      → b ≡ true
      → s.has_client ≡ true
      → IsFollowed codec o k n
          (
            if b then register raw n (set_slot n new_slot (ensure_subscriber s)) else s,
            record c { phase = waiting status; order = raw; synced = false },
          )
          un
          ch
          db
  unfolding register
  registered-IsFollowed raw status s c false e client = cc
  registered-IsFollowed raw status s c true e client = (
    has,
    λ opened. mem-register_self raw n (set_slot n new_slot (ensure_subscriber s)),
    awake,
    λ running. cc,
  )
    where
      open_slots : (register raw n (set_slot n new_slot (ensure_subscriber s))).slots n ≡ new_slot
      open_slots = ground arith

      has : (register raw n (set_slot n new_slot (ensure_subscriber s))).has_client ≡ true
      has = ensure-has_client s ∙ client

      awake : IsAwake ((register raw n (set_slot n new_slot (ensure_subscriber s))).slots n)
      awake = rw open_slots (λ h. cc)

  pub join-IsFollowed :
      (raw status : String) (s : Streamer) (c : Conn)
      → s.has_client ≡ true
      → IsFollowed codec o k n
          (join n raw s, record c { phase = waiting status; order = raw; synced = false })
          un
          ch
          db
  join-IsFollowed raw status s c client =
      registered-IsFollowed raw status s c s.has_client client client

  pub wake_up-IsFollowed :
      (s : Streamer) (c : Conn)
      → c.phase ≡ serving
      → IsFollowed codec o k n (s, c) un ch db
      → IsFollowed codec o k n (wake_up n (s, c)) un ch db
  unfolding wake_up take
  wake_up-IsFollowed s c at h = elim (Bool-cases (s.slots n).notify) [
    | inr asleep ↦ rw asleep h
    | inl woken ↦
        let itself = (==_iff n n).1 refl in
        rw (woken, itself)
          (
            h.0,
            λ opened. h.1 (rw at refl),
            λ held. cc,
            λ running order_is synced_is r found.
                ground (arith, at, h.3 (rw at refl) order_is synced_is r found),
          )
  ]

  module _ (parse_uuid : String → Option String) (parsed : parse_uuid o ≡ some k) where
    send_taken-IsFollowed :
        (written : Bool) (st : String) (s : Streamer) (c : Conn)
        → s.has_client ≡ true
        → IsAwake (s.slots n)
        → mem_slot n (watchers c.order s.registry) ≡ true
        → CoveredWith codec o k un ch db n st c (s.slots n) s.live
        → IsFollowed codec o k n (send_taken n written ((s, c), st)) un ch db
    send_taken-IsFollowed written st s c client awake there known =
        elim (Bool-cases (str_eq st "")) [
          | inr some_status ↦
              rw some_status
                (send-IsFollowed codec o k un ch db n written st s c client awake there known)
          | inl nothing ↦ rw nothing (
            client,
            λ opened. there,
            awake,
            λ running order_is synced_is r found.
                ground (
                  arith,
                  known order_is synced_is r found,
                  not-covered_by_empty r.status st nothing,
                ),
          )
        ]

    refreshed-IsFollowed :
        (fault : Option String) (written : Bool) (st : String) (refresh : Bool) (s : Streamer)
        (c : Conn)
        → c.phase ≡ handling st refresh
        → IsFollowed codec o k n (s, c) un ch db
        → (read : Result StreamError (String × String))
        → current_status parse_uuid fault c.order db ≡ read
        → IsFollowed codec o k n
            (send_taken n written (refreshed n st refresh read (s, c)))
            un
            ch
            db
    unfolding mark_refresh
    refreshed-IsFollowed fault written st false s c at h read reads =
        send_taken-IsFollowed written st s c h.0 h.2 (h.1 (rw at refl))
          (λ order_is synced_is r found.
            ground (arith, at, h.3 (rw at refl) order_is synced_is r found))
    refreshed-IsFollowed fault written st true s c at h (err e) reads =
        send_taken-IsFollowed written st (set_slot n (mark_refresh (s.slots n)) s) c h.0
          (ground arith) (h.1 (rw at refl)) (λ order_is synced_is r found. ground arith)
    refreshed-IsFollowed fault written st true s c at h (ok (cur, owner)) reads =
        send_taken-IsFollowed written (newest st cur) s (record c { synced = true }) h.0 h.2
          (h.1 (rw at refl))
          (λ order_is synced_is r found.
            let same =
              current_status-found parse_uuid fault c.order k cur owner db r
                (ap parse_uuid order_is ∙ parsed) reads found in
            rw (← same) (ground arith))

    pub handle_wake-IsFollowed :
        (fault : Option String) (written : Bool) (st : String) (refresh : Bool) (s : Streamer)
        (c : Conn)
        → c.phase ≡ handling st refresh
        → IsFollowed codec o k n (s, c) un ch db
        → IsFollowed codec o k n
            (handle_wake parse_uuid fault written db n st refresh (s, c))
            un
            ch
            db
    unfolding handle_wake
    handle_wake-IsFollowed fault written st refresh s c at h =
        refreshed-IsFollowed fault written st refresh s c at h
          (current_status parse_uuid fault c.order db) refl

  pub heartbeat-IsFollowed :
      (written : Bool) (s : Streamer) (c : Conn)
      → IsFollowed codec o k n (s, c) un ch db
      → IsFollowed codec o k n (heartbeat_tick written n (s, c)) un ch db
  unfolding heartbeat_tick
  heartbeat-IsFollowed true s c h = h
  heartbeat-IsFollowed false s c h = leave-IsFollowed codec o k un ch db n s c h.0 h.2
