-- ===== src/Stream/Ids.antt =====
-- examples/gateway/internal/sse/sse.go: a run of `Stream` sends ids that rise.
use go_boilerplate.Prelude.{
  ℕ, ◌≡◌, refl, sym, Bool, true, false, Option, List, [], ◌∷◌, ◌++◌, String, str_eq, ℤ, ltb_ℤ,
  Result, ok, err, arith, Bool-cases, inl, inr, if◌then◌else◌,
}
use mathlib.Core.Path.{subst}
use go_boilerplate.Projection.{ReadDb}
use go_boilerplate.Stream.{status_ordinal, mark_refresh, take, Streamer}
use go_boilerplate.Stream.Handler.{
  StreamError, Frame, event, comment, Phase, unused, serving, closed, waiting, handling, Conn, send,
  leave, set_slot, after_send, first_send, snapshot, known_id, newest, current_status, Waited,
  became_live, timed_out, draining, client_gone, begin_stream, wake_up, refreshed, send_taken,
  polled, heartbeat_tick,
}
use go_boilerplate.Stream.Covers.{covered_by}

-- Each event's id is that of its status and above the ids before it, the first above `from`.
abbrev pub Rises : ℤ → List Frame → Type 0
Rises from [] = Unit
Rises from (event i status ∷ fs) = (ltb_ℤ from i ≡ true) × (i ≡ status_ordinal status) × Rises i fs
Rises from (comment ∷ fs) = Rises from fs

abbrev pub last_id : ℤ → List Frame → ℤ
last_id from [] = from
last_id from (event i status ∷ fs) = last_id i fs
last_id from (comment ∷ fs) = last_id from fs

Rises-event :
    (from i : ℤ) (status : String) (fs : List Frame)
    → Rises from fs
    → ltb_ℤ (last_id from fs) i ≡ true
    → i ≡ status_ordinal status
    → Rises from (fs ++ event i status ∷ []) × (last_id from (fs ++ event i status ∷ []) ≡ i)
Rises-event from i status [] rises above own = ((above, own, tt), refl)
Rises-event from i status (event j st ∷ fs) rises above own =
    let (more, last) = Rises-event j i status fs rises.2 above own in
    ((rises.0, rises.1, more), last)
Rises-event from i status (comment ∷ fs) rises above own =
    Rises-event from i status fs rises above own

Rises-comment :
    (from : ℤ) (fs : List Frame)
    → Rises from fs
    → Rises from (fs ++ comment ∷ []) × (last_id from (fs ++ comment ∷ []) ≡ last_id from fs)
Rises-comment from [] rises = (tt, refl)
Rises-comment from (event j st ∷ fs) rises =
    let (more, last) = Rises-comment j fs rises.2 in ((rises.0, rises.1, more), last)
Rises-comment from (comment ∷ fs) rises = Rises-comment from fs rises

abbrev pub IsRising : Conn → Type 0
IsRising c =
    Rises c.resumed_from c.frames
    × (covered_by (last_id c.resumed_from c.frames) c.last_sent ≡ true)

-- Nothing is sent before the first snapshot.
abbrev pub IsFresh : Phase → List Frame → Type 0
IsFresh unused fs = fs ≡ []
IsFresh (waiting status) fs = fs ≡ []
IsFresh serving fs = Unit
IsFresh (handling status refresh) fs = Unit
IsFresh closed fs = Unit

abbrev pub IsOrdered : Conn → Type 0
IsOrdered c = IsRising c × IsFresh c.phase c.frames

send-IsRising :
    (written : Bool) (status : String) (c : Conn) → IsRising c → IsRising (send written status c).0
unfolding send
send-IsRising written status c h = elim (Bool-cases (ltb_ℤ c.last_sent (status_ordinal status))) [
  | inr old ↦ rw old h
  | inl new ↦ rw new (go written (ground (arith, h, new)))
]
  where
    from : ℤ
    from = c.resumed_from

    go :
        (b : Bool)
        → ltb_ℤ (last_id from c.frames) (status_ordinal status) ≡ true
        → let fs = if b then c.frames ++ event (status_ordinal status) status ∷ [] else c.frames in
          Rises from fs × (covered_by (last_id from fs) (status_ordinal status) ≡ true)
    go false above = (h.0, ground arith)
    go true above =
        let (rises, last) =
          Rises-event from (status_ordinal status) status c.frames h.0 above refl in
        (rises, rw last (ground arith))

send-frames :
    (written : Bool) (status : String) (c : Conn)
    → (send written status c).0.resumed_from ≡ c.resumed_from
unfolding send
send-frames written status c = ground arith

module _ (n : ℕ) (s : Streamer) where
  pub leave-IsOrdered : (c : Conn) → IsRising c → IsOrdered (leave n (s, c)).1
  unfolding leave
  leave-IsOrdered c h = (h, tt)

  after_send-IsOrdered : (c : Conn) (b : Bool) → IsRising c → IsOrdered (after_send n s (c, b)).1
  after_send-IsOrdered c true h = (h, tt)
  after_send-IsOrdered c false h = leave-IsOrdered c h

  sent-IsOrdered :
      (written : Bool) (status : String) (c : Conn)
      → IsRising c
      → IsOrdered (after_send n s (send written status c)).1
  sent-IsOrdered written status c h =
      after_send-IsOrdered (send written status c).0 (send written status c).1
        (send-IsRising written status c h)

  begun-IsOrdered :
      (written : Bool) (last : Option ℤ) (read : String × Bool) (c : Conn)
      → c.frames ≡ []
      → IsOrdered (first_send n written last read (s, c)).1
  begun-IsOrdered written last (status, fresh) c none_yet =
      sent-IsOrdered written status
        (record c { resumed_from = known_id last; last_sent = known_id last; synced = fresh })
        (subst
          (λ fs.
            Rises (known_id last) fs
            × (covered_by (last_id (known_id last) fs) (known_id last) ≡ true))
          (sym none_yet) (tt, ground arith))

  taken-IsOrdered :
      (written : Bool) (status : String) (c : Conn)
      → IsRising c
      → IsOrdered (send_taken n written ((s, c), status)).1
  taken-IsOrdered written status c h = elim (Bool-cases (str_eq status "")) [
    | inl nothing ↦ rw nothing (h, tt)
    | inr some_status ↦ rw some_status (sent-IsOrdered written status c h)
  ]

pub refreshed-IsOrdered :
    (n : ℕ) (s : Streamer) (written : Bool) (status : String) (refresh : Bool)
    (read : Result StreamError (String × String)) (c : Conn)
    → IsRising c
    → IsOrdered (send_taken n written (refreshed n status refresh read (s, c))).1
refreshed-IsOrdered n s written status false read c h = taken-IsOrdered n s written status c h
refreshed-IsOrdered n s written status true (ok (cur, owner)) c h =
    taken-IsOrdered n s written (newest status cur) (record c { synced = true }) h
refreshed-IsOrdered n s written status true (err e) c h =
    taken-IsOrdered n (set_slot n (mark_refresh (s.slots n)) s) written status c h

pub polled-IsOrdered :
    (n : ℕ) (s : Streamer) (written : Bool) (read : Result StreamError (String × String)) (c : Conn)
    → c.phase ≡ serving
    → IsRising c
    → IsOrdered (polled n written read (s, c)).1
polled-IsOrdered n s written (err e) c at h = (h, subst (λ p. IsFresh p c.frames) (sym at) tt)
polled-IsOrdered n s written (ok (status, owner)) c at h =
    sent-IsOrdered n s written status (record c { synced = true }) h

pub heartbeat-IsOrdered :
    (n : ℕ) (s : Streamer) (written : Bool) (c : Conn)
    → c.phase ≡ serving
    → IsRising c
    → IsOrdered (heartbeat_tick written n (s, c)).1
unfolding heartbeat_tick
heartbeat-IsOrdered n s true c at h =
    let (rises, last) = Rises-comment c.resumed_from c.frames h.0 in
    ((rises, rw last h.1), subst (λ p. IsFresh p (c.frames ++ comment ∷ [])) (sym at) tt)
heartbeat-IsOrdered n s false c at h = leave-IsOrdered n s c h

module _ (parse_uuid : String → Option String) where
  pub begin-IsOrdered :
      (waited : Waited) (fault : Option String) (written : Bool) (last : Option ℤ) (db : ReadDb)
      (n : ℕ) (status : String) (s : Streamer) (c : Conn)
      → IsRising c
      → c.frames ≡ []
      → IsOrdered (begin_stream parse_uuid waited fault written last db n status (s, c)).1
  unfolding begin_stream
  begin-IsOrdered draining fault written last db n status s c h none_yet = leave-IsOrdered n s c h
  begin-IsOrdered client_gone fault written last db n status s c h none_yet =
      leave-IsOrdered n s c h
  begin-IsOrdered became_live fault written last db n status s c h none_yet =
      begun-IsOrdered n s written last
        (snapshot status (current_status parse_uuid fault c.order db)) c none_yet
  begin-IsOrdered timed_out fault written last db n status s c h none_yet =
      begun-IsOrdered n s written last
        (snapshot status (current_status parse_uuid fault c.order db)) c none_yet

  pub wake_up-IsOrdered :
      (n : ℕ) (s : Streamer) (c : Conn) → IsOrdered c → IsRising c → IsOrdered (wake_up n (s, c)).1
  unfolding wake_up take
  wake_up-IsOrdered n s c h rising = elim (Bool-cases (s.slots n).notify) [
    | inl signalled ↦ rw signalled (rising, tt)
    | inr asleep ↦ rw asleep h
  ]
