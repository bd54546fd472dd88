-- ===== src/Stream/Owned.antt =====
-- examples/gateway/internal/sse/sse.go: who may open a stream, and a stream that cannot read the store.
use go_boilerplate.Prelude.{
  ℕ, zero, suc, ◌≡◌, refl, ap, ◌∙◌, sym, Bool, true, false, Option, none, some, [], String, str_eq,
  ok, err, arith, if◌then◌else◌,
}
use go_boilerplate.Dict.{lookup}
use go_boilerplate.Lineage.{Principal}
use go_boilerplate.Projection.{ReadDb, ReadRow}
use go_boilerplate.Stream.{mark_refresh, Streamer}
use go_boilerplate.Stream.Handler.{
  current_status, admit_stream, admin_role, has_role, open_stream, serving, Conn, wake_up,
  no_such_order, order_not_found, status_text, sse_saturated, permitted, joined, handle_wake,
  set_slot,
}

abbrev pub empty_db : ReadDb
empty_db = record { orders = []; observed = []; ignored = [] }

module _ (parse_uuid : String → Option String) (p : Principal) (db : ReadDb) (raw k : String)
    (plain : has_role admin_role p.roles ≡ false) (parsed : parse_uuid raw ≡ some k) where
  refused_foreign :
      (b : Bool) (r : ReadRow)
      → b ≡ false
      → lookup k db.orders ≡ some r
      → str_eq r.customer_id p.subject ≡ false
      → admit_stream b (some p) (current_status parse_uuid none raw db) ≡ err no_such_order
  unfolding current_status admit_stream
  refused_foreign b r auth found foreign =
      let read : current_status parse_uuid none raw db ≡ ok (status_text r.status, r.customer_id) =
        ground (arith, parsed) in
      ap (admit_stream b (some p)) read ∙ rw (auth, plain, foreign) refl

  refused_missing :
      (b : Bool)
      → b ≡ false
      → admit_stream b (some p) (current_status parse_uuid none raw empty_db) ≡ err no_such_order
  unfolding current_status admit_stream
  refused_missing b auth =
      let read : current_status parse_uuid none raw empty_db ≡ err order_not_found =
        ground (arith, parsed) in
      ap (admit_stream b (some p)) read ∙ rw (auth, plain) refl

-- With authentication on, a caller who is not an admin and does not own an order gets the answer, and
-- leaves the state, of a call on a read model with no rows: it cannot tell a foreign order from none.
pub foreign_as_missing :
    (parse_uuid : String → Option String) (free : Bool) (p : Principal) (db : ReadDb) (n : ℕ)
    (raw k : String) (s : Streamer) (c : Conn) (r : ReadRow)
    → s.auth_disabled ≡ false
    → has_role admin_role p.roles ≡ false
    → parse_uuid raw ≡ some k
    → lookup k db.orders ≡ some r
    → str_eq r.customer_id p.subject ≡ false
    → open_stream parse_uuid free (some p) none db n raw (s, c)
      ≡ open_stream parse_uuid free (some p) none empty_db n raw (s, c)
unfolding open_stream
foreign_as_missing parse_uuid free p db n raw k s c r auth plain parsed found foreign =
    ap
      (λ answer.
        if permitted s.max_streams free then joined n raw answer (s, c) else err sse_saturated)
      (refused_foreign parse_uuid p db raw k plain parsed s.auth_disabled r auth found foreign
        ∙ sym (refused_missing parse_uuid p db raw k plain parsed s.auth_disabled auth))

-- One turn of the loop on a signal, with what the driver reports for the read.
unfoldable pub turn :
    (String → Option String) → String → ReadDb → ℕ → Streamer × Conn → Streamer × Conn
unfolding wake_up handle_wake
turn parse_uuid fault db n (s, c) =
    let (s', c') = wake_up n (s, c) in
    handle_wake parse_uuid (some fault) true db n (s.slots n).pending_status (s.slots n).refresh
      (s', c')

unfoldable pub turns :
    ℕ → (String → Option String) → String → ReadDb → ℕ → Streamer × Conn → Streamer × Conn
unfolding turn
turns zero parse_uuid fault db n sc = sc
turns (suc i) parse_uuid fault db n sc =
    turns i parse_uuid fault db n (turn parse_uuid fault db n sc)

module _ (parse_uuid : String → Option String) (fault : String) (db : ReadDb) (n : ℕ)
    (k : String) where
  -- A stream that waits for a read of the store, and has nothing to send.
  abbrev pub IsRearmed : Streamer × Conn → Type 0
  IsRearmed (s, c) =
      (c.phase ≡ serving)
      × (parse_uuid c.order ≡ some k)
      × ((s.slots n).refresh ≡ true)
      × ((s.slots n).notify ≡ true)
      × ((s.slots n).pending_status ≡ "")

  abbrev rearmed : Streamer × Conn → Streamer × Conn
  rearmed (s, c) = (set_slot n (mark_refresh (s.slots n)) s, record c { phase = serving })
