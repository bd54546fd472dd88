-- ===== src/Stream/Others.antt =====
-- examples/gateway/internal/sse/sse.go: a run of `Stream` changes its own slot and registration only.
use go_boilerplate.Prelude.{
  ℕ, refl, ◌∙◌, Bool, true, false, ◌||◌, Option, String, str_eq, ℤ, Result, ok, err, Bool-cases,
  inl, inr, if◌then◌else◌,
}
use go_boilerplate.Projection.{ReadDb}
use go_boilerplate.Stream.{
  Slot, new_slot, mark_refresh, take, Streamer, register, unregister, ensure_subscriber,
}
use go_boilerplate.Stream.Handler.{
  StreamError, Conn, send, leave, set_slot, join, after_send, first_send, known_id, newest,
  snapshot, current_status, Waited, became_live, timed_out, draining, client_gone, begin_stream,
  wake_up, refreshed, send_taken, handle_wake, polled, poll_tick, heartbeat_tick,
}
use go_boilerplate.Stream.Covers.{Others}
use go_boilerplate.Stream.Registry.{mem-register, mem-unregister}

pub Others-refl : (m : ℕ) (s : Streamer) → Others m s s
Others-refl m s = record {
  client_same = refl;
  live_same = refl;
  slots_same = λ n apart. refl;
  registered = λ n j apart h. h;
}

Others-trans : (m : ℕ) (s t u : Streamer) → Others m s t → Others m t u → Others m s u
Others-trans m s t u f g = record {
  client_same = g.client_same ∙ f.client_same;
  live_same = g.live_same ∙ f.live_same;
  slots_same = λ n apart. g.slots_same n apart ∙ f.slots_same n apart;
  registered = λ n j apart h. g.registered n j apart (f.registered n j apart h);
}

Others-set_slot : (m : ℕ) (sl : Slot) (s : Streamer) → Others m s (set_slot m sl s)
Others-set_slot m sl s = record {
  client_same = refl;
  live_same = refl;
  slots_same = λ n apart. rw apart;
  registered = λ n j apart h. h;
}

Others-unregister : (m : ℕ) (id : String) (s : Streamer) → Others m s (unregister id m s)
unfolding unregister
Others-unregister m id s = record {
  client_same = refl;
  live_same = refl;
  slots_same = λ n apart. refl;
  registered = λ n j apart h. mem-unregister id j m n s apart h;
}

Others-if :
    (b : Bool) (m : ℕ) (s t u : Streamer)
    → Others m s t
    → Others m s u
    → Others m s (if b then t else u)
Others-if true m s t u f g = f
Others-if false m s t u f g = g

pub Others-leave : (m : ℕ) (s : Streamer) (c : Conn) → Others m s (leave m (s, c)).0
unfolding leave
Others-leave m s c =
    Others-if s.has_client m s (unregister c.order m s) s (Others-unregister m c.order s)
      (Others-refl m s)

Others-ensure : (m : ℕ) (s : Streamer) → Others m s (ensure_subscriber s)
Others-ensure m s =
    Others-if (s.sub_started || s.sub_cancelled) m s s (record s { sub_started = true })
      (Others-refl m s)
      (record {
        client_same = refl;
        live_same = refl;
        slots_same = λ n apart. refl;
        registered = λ n j apart h. h;
      })

Others-register : (m : ℕ) (id : String) (s : Streamer) → Others m s (register id m s)
unfolding register
Others-register m id s = record {
  client_same = refl;
  live_same = refl;
  slots_same = λ n apart. refl;
  registered = λ n j apart h. mem-register id j m n s h;
}

pub Others-join : (m : ℕ) (id : String) (s : Streamer) → Others m s (join m id s)
Others-join m id s =
    let t : Streamer = ensure_subscriber s in
    let u : Streamer = set_slot m new_slot t in
    Others-if s.has_client m s (register id m u) s
      (Others-trans m s t (register id m u) (Others-ensure m s) (
        Others-trans m t u (register id m u) (Others-set_slot m new_slot t)
          (Others-register m id u)))
      (Others-refl m s)

Others-after_send : (m : ℕ) (s : Streamer) (r : Conn × Bool) → Others m s (after_send m s r).0
Others-after_send m s (c, true) = Others-refl m s
Others-after_send m s (c, false) = Others-leave m s c

Others-first_send :
    (m : ℕ) (written : Bool) (last_id : Option ℤ) (read : String × Bool) (s : Streamer) (c : Conn)
    → Others m s (first_send m written last_id read (s, c)).0
Others-first_send m written last_id (status, fresh) s c = Others-after_send m s (
    send written status
      (record c { resumed_from = known_id last_id; last_sent = known_id last_id; synced = fresh }))

module _ (parse_uuid : String → Option String) where
  pub Others-begin :
      (waited : Waited) (fault : Option String) (written : Bool) (last_id : Option ℤ) (db : ReadDb)
      (m : ℕ) (status : String) (s : Streamer) (c : Conn)
      → Others m s (begin_stream parse_uuid waited fault written last_id db m status (s, c)).0
  unfolding begin_stream
  Others-begin draining fault written last_id db m status s c = Others-leave m s c
  Others-begin client_gone fault written last_id db m status s c = Others-leave m s c
  Others-begin became_live fault written last_id db m status s c =
      Others-first_send m written last_id
        (snapshot status (current_status parse_uuid fault c.order db)) s c
  Others-begin timed_out fault written last_id db m status s c =
      Others-first_send m written last_id
        (snapshot status (current_status parse_uuid fault c.order db)) s c

  pub Others-wake_up : (m : ℕ) (s : Streamer) (c : Conn) → Others m s (wake_up m (s, c)).0
  unfolding wake_up
  Others-wake_up m s c = elim (Bool-cases (s.slots m).notify) [
    | inl woken ↦ rw woken (Others-set_slot m (record (take (s.slots m)).0 { notify = false }) s)
    | inr asleep ↦ rw asleep (Others-refl m s)
  ]

  Others-send_taken :
      (m : ℕ) (written : Bool) (s : Streamer) (c : Conn) (status : String)
      → Others m s (send_taken m written ((s, c), status)).0
  Others-send_taken m written s c status = elim (Bool-cases (str_eq status "")) [
    | inl nothing ↦ rw nothing (Others-refl m s)
    | inr some_status ↦ rw some_status (Others-after_send m s (send written status c))
  ]

  Others-refreshed :
      (m : ℕ) (written : Bool) (status : String) (refresh : Bool)
      (read : Result StreamError (String × String)) (s : Streamer) (c : Conn)
      → Others m s (send_taken m written (refreshed m status refresh read (s, c))).0
  Others-refreshed m written status false read s c = Others-send_taken m written s c status
  Others-refreshed m written status true (ok (cur, owner)) s c =
      Others-send_taken m written s (record c { synced = true }) (newest status cur)
  Others-refreshed m written status true (err e) s c =
      let t = set_slot m (mark_refresh (s.slots m)) s in
      Others-trans m s t (send_taken m written ((t, c), status)).0
        (Others-set_slot m (mark_refresh (s.slots m)) s) (Others-send_taken m written t c status)

  pub Others-handle_wake :
      (fault : Option String) (written : Bool) (db : ReadDb) (m : ℕ) (status : String)
      (refresh : Bool) (s : Streamer) (c : Conn)
      → Others m s (handle_wake parse_uuid fault written db m status refresh (s, c)).0
  unfolding handle_wake
  Others-handle_wake fault written db m status refresh s c =
      Others-refreshed m written status refresh (current_status parse_uuid fault c.order db) s c

  Others-polled :
      (m : ℕ) (written : Bool) (read : Result StreamError (String × String)) (s : Streamer)
      (c : Conn)
      → Others m s (polled m written read (s, c)).0
  Others-polled m written (err e) s c = Others-refl m s
  Others-polled m written (ok (status, owner)) s c =
      Others-after_send m s (send written status (record c { synced = true }))

  pub Others-poll_tick :
      (fault : Option String) (written : Bool) (db : ReadDb) (m : ℕ) (s : Streamer) (c : Conn)
      → Others m s (poll_tick parse_uuid fault written db m (s, c)).0
  unfolding poll_tick
  Others-poll_tick fault written db m s c =
      Others-polled m written (current_status parse_uuid fault c.order db) s c

pub Others-heartbeat :
    (written : Bool) (m : ℕ) (s : Streamer) (c : Conn)
    → Others m s (heartbeat_tick written m (s, c)).0
unfolding heartbeat_tick
Others-heartbeat true m s c = Others-refl m s
Others-heartbeat false m s c = Others-leave m s c
