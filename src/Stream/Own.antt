-- ===== src/Stream/Own.antt =====
-- examples/gateway/internal/sse/sse.go: each step of a run of `Stream` keeps its order covered.
use go_boilerplate.Prelude.{
  ℕ, ◌≡◌, refl, ap, ◌∙◌, sym, Bool, true, false, ◌||◌, Option, some, List, String, ℤ, Result, ok,
  err, arith, Bool-cases, inl, inr, if◌then◌else◌,
}
use go_boilerplate.Dict.{lookup}
use go_boilerplate.Projection.{ReadDb, ReadRow}
use go_boilerplate.Stream.{
  StatusCodec, status_ordinal, Slot, Streamer, unregister, mem_slot, watchers,
}
use go_boilerplate.Stream.Handler.{
  status_text, StreamError, current_status, serving, closed, Conn, send, leave, after_send,
  first_send, snapshot, known_id, Waited, became_live, timed_out, draining, client_gone,
  begin_stream, polled, poll_tick,
}
use go_boilerplate.Stream.Gateway.{is_open}
use go_boilerplate.Stream.Registry.{IsAwake}
use go_boilerplate.Stream.Covers.{
  covered_by, covered_by_trans, send-covers, send-keeps, send-same, covers, Covered, IsFollowed,
}

-- A read that succeeds gives the status of the row.
pub current_status-found :
    (parse_uuid : String → Option String) (fault : Option String) (raw k st owner : String)
    (db : ReadDb) (r : ReadRow)
    → parse_uuid raw ≡ some k
    → current_status parse_uuid fault raw db ≡ ok (st, owner)
    → lookup k db.orders ≡ some r
    → st ≡ status_text r.status
unfolding current_status
current_status-found parse_uuid fault raw k st owner db r parsed e found = ground arith

module _ (codec : StatusCodec) (o k : String) (un ch : List String) (db : ReadDb) (n : ℕ) where
  left-IsFollowed :
      (b : Bool) (s : Streamer) (c : Conn)
      → s.has_client ≡ true
      → IsAwake (s.slots n)
      → IsFollowed codec o k n
          (if b then unregister c.order n s else s, record c { phase = closed })
          un
          ch
          db
  unfolding unregister
  left-IsFollowed true s c client awake =
      (client, λ opened. cc, awake, λ running. λ e. λ f. λ r. λ g. cc)
  left-IsFollowed false s c client awake =
      (client, λ opened. cc, awake, λ running. λ e. λ f. λ r. λ g. cc)

  pub leave-IsFollowed :
      (s : Streamer) (c : Conn)
      → s.has_client ≡ true
      → IsAwake (s.slots n)
      → IsFollowed codec o k n (leave n (s, c)) un ch db
  unfolding leave
  leave-IsFollowed s c client awake = left-IsFollowed s.has_client s c client awake

  after_send-IsFollowed :
      (s : Streamer) (c : Conn) (b : Bool)
      → s.has_client ≡ true
      → IsAwake (s.slots n)
      → mem_slot n (watchers c.order s.registry) ≡ true
      → Covered codec o k (record c { phase = serving }) (s.slots n) s.live un ch db
      → IsFollowed codec o k n (after_send n s (c, b)) un ch db
  after_send-IsFollowed s c true client awake there known = (client, λ opened. there, awake, known)
  after_send-IsFollowed s c false client awake there known = leave-IsFollowed s c client awake

  -- What covers an order where a status is about to be sent.
  abbrev pub CoveredWith : String → Conn → Slot → Bool → Type 0
  CoveredWith st c sl live =
      c.order ≡ o
      → c.synced ≡ true
      → (r : ReadRow) → lookup k db.orders ≡ some r
      → (covered_by (status_ordinal (status_text r.status)) (status_ordinal st)
          || covers codec o k (status_ordinal (status_text r.status)) (record c { phase = serving })
              sl live un ch)
        ≡ true

  pub send-IsFollowed :
      (written : Bool) (st : String) (s : Streamer) (c : Conn)
      → s.has_client ≡ true
      → IsAwake (s.slots n)
      → mem_slot n (watchers c.order s.registry) ≡ true
      → CoveredWith st c (s.slots n) s.live
      → IsFollowed codec o k n (after_send n s (send written st c)) un ch db
  send-IsFollowed written st s c client awake there known =
      after_send-IsFollowed s (send written st c).0 (send written st c).1 client awake
        (ap (λ t. mem_slot n (watchers t s.registry)) (send-same written st c).0 ∙ there)
        (λ running order_is synced_is r found.
          let ord : ℤ = status_ordinal (status_text r.status) in
          let before =
            known (sym (send-same written st c).0 ∙ order_is)
              (sym (send-same written st c).1 ∙ synced_is) r found in
          elim (Bool-cases (covered_by ord (status_ordinal st))) [
            | inl told ↦
                let now =
                  covered_by_trans ord (status_ordinal st) (send written st c).0.last_sent told
                    (send-covers written st c) in
                rw now refl
            | inr new ↦ elim (Bool-cases (covered_by ord c.last_sent)) [
              | inl told ↦ rw (send-keeps written st c ord told) refl
              | inr behind ↦ ground (arith, before)
            ]
          ])

  module _ (parse_uuid : String → Option String) (parsed : parse_uuid o ≡ some k) where
    begun-IsFollowed :
        (written : Bool) (last_id : Option ℤ) (fault : Option String) (status : String)
        (s : Streamer) (c : Conn)
        → is_open c.phase ≡ true
        → IsFollowed codec o k n (s, c) un ch db
        → (read : Result StreamError (String × String))
        → current_status parse_uuid fault c.order db ≡ read
        → IsFollowed codec o k n
            (first_send n written last_id (snapshot status read) (s, c))
            un
            ch
            db
    begun-IsFollowed written last_id fault status s c opened h (err e) reads =
        send-IsFollowed written status s
          (record c {
            resumed_from = known_id last_id;
            last_sent = known_id last_id;
            synced = false;
          })
          h.0 h.2 (h.1 opened) (λ order_is synced_is r found. cc)
    begun-IsFollowed written last_id fault status s c opened h (ok (cur, owner)) reads =
        send-IsFollowed written cur s
          (record c {
            resumed_from = known_id last_id;
            last_sent = known_id last_id;
            synced = true;
          })
          h.0 h.2 (h.1 opened)
          (λ order_is synced_is r found.
            let same =
              current_status-found parse_uuid fault c.order k cur owner db r
                (ap parse_uuid order_is ∙ parsed) reads found in
            rw same (ground arith))

    pub begin-IsFollowed :
        (waited : Waited) (fault : Option String) (written : Bool) (last_id : Option ℤ)
        (status : String) (s : Streamer) (c : Conn)
        → is_open c.phase ≡ true
        → IsFollowed codec o k n (s, c) un ch db
        → IsFollowed codec o k n
            (begin_stream parse_uuid waited fault written last_id db n status (s, c))
            un
            ch
            db
    unfolding begin_stream
    begin-IsFollowed draining fault written last_id status s c opened h =
        leave-IsFollowed s c h.0 h.2
    begin-IsFollowed client_gone fault written last_id status s c opened h =
        leave-IsFollowed s c h.0 h.2
    begin-IsFollowed became_live fault written last_id status s c opened h =
        begun-IsFollowed written last_id fault status s c opened h
          (current_status parse_uuid fault c.order db) refl
    begin-IsFollowed timed_out fault written last_id status s c opened h =
        begun-IsFollowed written last_id fault status s c opened h
          (current_status parse_uuid fault c.order db) refl

    polled-IsFollowed :
        (fault : Option String) (written : Bool) (s : Streamer) (c : Conn)
        → is_open c.phase ≡ true
        → IsFollowed codec o k n (s, c) un ch db
        → (read : Result StreamError (String × String))
        → current_status parse_uuid fault c.order db ≡ read
        → IsFollowed codec o k n (polled n written read (s, c)) un ch db
    polled-IsFollowed fault written s c opened h (err e) reads = h
    polled-IsFollowed fault written s c opened h (ok (cur, owner)) reads =
        send-IsFollowed written cur s (record c { synced = true }) h.0 h.2 (h.1 opened)
          (λ order_is synced_is r found.
            let same =
              current_status-found parse_uuid fault c.order k cur owner db r
                (ap parse_uuid order_is ∙ parsed) reads found in
            rw same (ground arith))

    pub poll_tick-IsFollowed :
        (fault : Option String) (written : Bool) (s : Streamer) (c : Conn)
        → is_open c.phase ≡ true
        → IsFollowed codec o k n (s, c) un ch db
        → IsFollowed codec o k n (poll_tick parse_uuid fault written db n (s, c)) un ch db
    unfolding poll_tick
    poll_tick-IsFollowed fault written s c opened h =
        polled-IsFollowed fault written s c opened h (current_status parse_uuid fault c.order db)
          refl
