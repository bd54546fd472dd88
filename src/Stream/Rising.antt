-- ===== src/Stream/Rising.antt =====
-- examples/gateway: the ids that a client is sent, whatever the interleaving.
use go_boilerplate.Prelude.{
  ℕ, ◌≡◌, refl, sym, Bool, true, false, Option, none, some, List, [], ◌∷◌, String, ℤ, Result, ok,
  err, ◌==◌, if◌then◌else◌,
}
use mathlib.Core.Path.{subst}
use go_boilerplate.Lineage.{Principal}
use go_boilerplate.Projection.{ReadDb, ViewError, handle_event}
use go_boilerplate.Stream.{StatusCodec, Streamer}
use go_boilerplate.Stream.Handler.{
  join, notify_status, Problem, Phase, unused, serving, waiting, handling, Conn, leave, joined,
  permitted, current_status, admit_stream, open_stream, Waited, begin_stream, wake_up, handle_wake,
  poll_tick, heartbeat_tick,
}
use go_boilerplate.Stream.Gateway.{
  Replica, idle_replica, ReplicaOp, projected, notified, received, acknowledged, lost, stopped,
  opened, began, woken, handled, ticked, beat, left, order_of, committed, broadcast, receive_next,
  opened_conn, put_conn, conn_step, step, run_replica,
}
use go_boilerplate.Stream.Ids.{
  Rises, IsFresh, IsOrdered, refreshed-IsOrdered, polled-IsOrdered, heartbeat-IsOrdered,
  leave-IsOrdered, begin-IsOrdered, wake_up-IsOrdered,
}

module _ (codec : StatusCodec) (parse_uuid : String → Option String) where
  put_conn-AllOrdered :
      (m : ℕ) (sc : Streamer × Conn) (w : Replica)
      → IsOrdered sc.1
      → ((n : ℕ) → IsOrdered (w.conns n))
      → (n : ℕ) → IsOrdered ((put_conn m sc w).conns n)
  put_conn-AllOrdered m (s, c) w own all n = go (n == m)
    where
      go : (b : Bool) → IsOrdered (if b then c else w.conns n)
      go true = own
      go false = all n

  opened-IsOrdered :
      (m : ℕ) (free : Bool) (who : Option Principal) (fault : Option String) (raw : String)
      (ph : Phase) (w : Replica)
      → (w.conns m).phase ≡ ph
      → ((n : ℕ) → IsOrdered (w.conns n))
      → (n : ℕ)
      → IsOrdered ((conn_step codec parse_uuid (opened m free who fault raw) ph w).conns n)
  unfolding open_stream
  opened-IsOrdered m free who fault raw unused w at all =
      go (permitted w.streamer.max_streams free)
        (admit_stream w.streamer.auth_disabled who (current_status parse_uuid fault raw w.db))
    where
      go :
          (b : Bool) (answer : Result Problem String)
          → (n : ℕ)
          → IsOrdered (
              (opened_conn m
                  (if b
                    then joined m raw answer (w.streamer, w.conns m)
                    else err Problem.sse_saturated)
                  w).conns
                n)
      go false answer = all
      go true (err p) = all
      go true (ok status) =
          put_conn-AllOrdered m
            (
              join m raw w.streamer,
              record (w.conns m) { phase = waiting status; order = raw; synced = false },
            )
            w ((all m).0, subst (λ p. IsFresh p (w.conns m).frames) at (all m).1) all
  opened-IsOrdered m free who fault raw ph w at all = all

  began-IsOrdered :
      (m : ℕ) (waited : Waited) (fault : Option String) (written : Bool) (last : Option ℤ)
      (ph : Phase) (w : Replica)
      → (w.conns m).phase ≡ ph
      → ((n : ℕ) → IsOrdered (w.conns n))
      → (n : ℕ)
      → IsOrdered ((conn_step codec parse_uuid (began m waited fault written last) ph w).conns n)
  began-IsOrdered m waited fault written last (waiting status) w at all =
      put_conn-AllOrdered m
        (begin_stream parse_uuid waited fault written last w.db m status (w.streamer, w.conns m)) w
        (begin-IsOrdered parse_uuid waited fault written last w.db m status w.streamer (w.conns m)
          (all m).0 (subst (λ p. IsFresh p (w.conns m).frames) at (all m).1))
        all
  began-IsOrdered m waited fault written last ph w at all = all

  woken-IsOrdered :
      (m : ℕ) (ph : Phase) (w : Replica)
      → (w.conns m).phase ≡ ph
      → ((n : ℕ) → IsOrdered (w.conns n))
      → (n : ℕ) → IsOrdered ((conn_step codec parse_uuid (woken m) ph w).conns n)
  woken-IsOrdered m serving w at all =
      put_conn-AllOrdered m (wake_up m (w.streamer, w.conns m)) w
        (wake_up-IsOrdered parse_uuid m w.streamer (w.conns m) (all m) (all m).0) all
  woken-IsOrdered m ph w at all = all

  handled-IsOrdered :
      (m : ℕ) (fault : Option String) (written : Bool) (ph : Phase) (w : Replica)
      → (w.conns m).phase ≡ ph
      → ((n : ℕ) → IsOrdered (w.conns n))
      → (n : ℕ) → IsOrdered ((conn_step codec parse_uuid (handled m fault written) ph w).conns n)
  unfolding handle_wake
  handled-IsOrdered m fault written (handling status refresh) w at all =
      put_conn-AllOrdered m
        (handle_wake parse_uuid fault written w.db m status refresh (w.streamer, w.conns m)) w
        (refreshed-IsOrdered m w.streamer written status refresh
          (current_status parse_uuid fault (w.conns m).order w.db) (w.conns m) (all m).0)
        all
  handled-IsOrdered m fault written ph w at all = all

  ticked-IsOrdered :
      (m : ℕ) (fault : Option String) (written : Bool) (ph : Phase) (w : Replica)
      → (w.conns m).phase ≡ ph
      → ((n : ℕ) → IsOrdered (w.conns n))
      → (n : ℕ) → IsOrdered ((conn_step codec parse_uuid (ticked m fault written) ph w).conns n)
  unfolding poll_tick
  ticked-IsOrdered m fault written serving w at all =
      put_conn-AllOrdered m (poll_tick parse_uuid fault written w.db m (w.streamer, w.conns m)) w
        (polled-IsOrdered m w.streamer written
          (current_status parse_uuid fault (w.conns m).order w.db) (w.conns m) at (all m).0)
        all
  ticked-IsOrdered m fault written ph w at all = all

  beat-IsOrdered :
      (m : ℕ) (written : Bool) (ph : Phase) (w : Replica)
      → (w.conns m).phase ≡ ph
      → ((n : ℕ) → IsOrdered (w.conns n))
      → (n : ℕ) → IsOrdered ((conn_step codec parse_uuid (beat m written) ph w).conns n)
  beat-IsOrdered m written serving w at all =
      put_conn-AllOrdered m (heartbeat_tick written m (w.streamer, w.conns m)) w
        (heartbeat-IsOrdered m w.streamer written (w.conns m) at (all m).0) all
  beat-IsOrdered m written ph w at all = all

  left-IsOrdered :
      (m : ℕ) (ph : Phase) (w : Replica)
      → (w.conns m).phase ≡ ph
      → ((n : ℕ) → IsOrdered (w.conns n))
      → (n : ℕ) → IsOrdered ((conn_step codec parse_uuid (left m) ph w).conns n)
  left-IsOrdered m serving w at all =
      put_conn-AllOrdered m (leave m (w.streamer, w.conns m)) w
        (leave-IsOrdered m w.streamer (w.conns m) (all m).0) all
  left-IsOrdered m ph w at all = all

  committed-conns :
      (raw : String) (result : ReadDb × Option ViewError) (w : Replica)
      → (committed raw result w).conns ≡ w.conns
  committed-conns raw (db, none) w = refl
  committed-conns raw (db, some e) w = refl

  broadcast-conns :
      (raw : String) (payload : Option String) (w : Replica)
      → (broadcast raw payload w).conns ≡ w.conns
  broadcast-conns raw none w = refl
  broadcast-conns raw (some p) w = refl

  receive-conns :
      (channel : List String) (w : Replica) → (receive_next codec channel w).conns ≡ w.conns
  receive-conns [] w = refl
  receive-conns (p ∷ ps) w = refl

  same_conns :
      (w w' : Replica)
      → w'.conns ≡ w.conns
      → ((n : ℕ) → IsOrdered (w.conns n))
      → (n : ℕ) → IsOrdered (w'.conns n)
  same_conns w w' e all = subst (λ f. (n : ℕ) → IsOrdered (f n)) (sym e) all

  step-IsOrdered :
      (op : ReplicaOp) (w : Replica)
      → ((n : ℕ) → IsOrdered (w.conns n))
      → (n : ℕ) → IsOrdered ((step codec parse_uuid op w).conns n)
  unfolding step
  step-IsOrdered (projected fault e) w all =
      same_conns w (step codec parse_uuid (projected fault e) w)
        (committed-conns (order_of e) (handle_event parse_uuid fault e w.db) w) all
  step-IsOrdered (notified fault published raw) w all =
      same_conns w (step codec parse_uuid (notified fault published raw) w)
        (broadcast-conns raw (notify_status codec parse_uuid fault published raw w.db w.streamer) w)
        all
  step-IsOrdered received w all =
      same_conns w (step codec parse_uuid received w) (receive-conns w.channel w) all
  step-IsOrdered acknowledged w all = all
  step-IsOrdered lost w all = all
  step-IsOrdered stopped w all = all
  step-IsOrdered (opened m free who fault raw) w all =
      opened-IsOrdered m free who fault raw (w.conns m).phase w refl all
  step-IsOrdered (began m waited fault written last) w all =
      began-IsOrdered m waited fault written last (w.conns m).phase w refl all
  step-IsOrdered (woken m) w all = woken-IsOrdered m (w.conns m).phase w refl all
  step-IsOrdered (handled m fault written) w all =
      handled-IsOrdered m fault written (w.conns m).phase w refl all
  step-IsOrdered (ticked m fault written) w all =
      ticked-IsOrdered m fault written (w.conns m).phase w refl all
  step-IsOrdered (beat m written) w all = beat-IsOrdered m written (w.conns m).phase w refl all
  step-IsOrdered (left m) w all = left-IsOrdered m (w.conns m).phase w refl all

  run-IsOrdered :
      (ops : List ReplicaOp) (w : Replica)
      → ((n : ℕ) → IsOrdered (w.conns n))
      → (n : ℕ) → IsOrdered ((run_replica codec parse_uuid ops w).conns n)
  unfolding run_replica
  run-IsOrdered [] w all = all
  run-IsOrdered (op ∷ ops) w all =
      run-IsOrdered ops (step codec parse_uuid op w) (step-IsOrdered op w all)

  -- From an idle replica, whatever steps of the projection, the subscriber and the streams follow, in any
  -- interleaving and with any faults: the events that a client is sent have ids above the one that it came
  -- with, each above the one before, and each id is the ordinal of the status that it carries.
  pub ids_rise :
      (db : ReadDb) (s : Streamer) (ops : List ReplicaOp) (n : ℕ)
      → let c = (run_replica codec parse_uuid ops (idle_replica db s)).conns n in
        Rises c.resumed_from c.frames
  ids_rise db s ops n = (run-IsOrdered ops (idle_replica db s) (λ m. ((tt, refl), refl)) n).0.0
