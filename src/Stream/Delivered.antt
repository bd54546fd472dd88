-- ===== src/Stream/Delivered.antt =====
-- examples/gateway/internal/sse/sse.go: the subscriber keeps the order of each stream covered.
use go_boilerplate.Prelude.{
  ℕ, ◌≡◌, refl, ap, ◌∙◌, sym, Bool, true, false, not, ◌&&◌, Option, none, some, List, [], ◌∷◌,
  String, str_eq, eq_iff, ℤ, arith, Bool-cases, inl, inr, if◌then◌else◌,
}
use go_boilerplate.Stream.{
  StatusUpdate, StatusCodec, status_ordinal, Slot, deliver, dispatch, deliver_update, on_slots,
  subscribed, broadcast_refresh, mark_down, shutdown, mem_slot, watchers,
}
use go_boilerplate.Stream.Handler.{
  status_text, Phase, unused, serving, closed, waiting, handling, Conn,
}
use go_boilerplate.Stream.Gateway.{Replica, receive_next, is_running, is_open}
use go_boilerplate.Stream.Registry.{IsAwake, refresh_sets-mem, refresh_sets-IsAwake}
use go_boilerplate.Stream.Covers.{covered_by, covered_by_trans, covers, Follows}

deliver-covers :
    (st : String) (sl : Slot)
    → covered_by (status_ordinal st) (status_ordinal (deliver st sl).pending_status) ≡ true
unfolding deliver
deliver-covers st sl = ground arith

deliver-keeps :
    (st : String) (sl : Slot) (a : ℤ)
    → covered_by a (status_ordinal sl.pending_status) ≡ true
    → covered_by a (status_ordinal (deliver st sl).pending_status) ≡ true
unfolding deliver
deliver-keeps st sl a h = ground arith

deliver-same :
    (st : String) (sl : Slot)
    → ((deliver st sl).refresh ≡ sl.refresh) × ((deliver st sl).notify ≡ true)
unfolding deliver
deliver-same st sl = ground arith

pub running_open : (p : Phase) → is_running p ≡ true → is_open p ≡ true
running_open unused h = h
running_open (waiting status) h = refl
running_open serving h = h
running_open (handling status refresh) h = h
running_open closed h = h

module _ (codec : StatusCodec) (o k : String) (n : ℕ) (named : str_eq o "" ≡ false) where
  slot-Follows :
      (w : Replica) (u : StatusUpdate) (b : Bool)
      → mem_slot n (watchers u.order_id w.streamer.registry) ≡ b
      → IsAwake (w.streamer.slots n)
      → IsAwake
          (on_slots (deliver u.status) (watchers u.order_id w.streamer.registry) w.streamer.slots n)
  slot-Follows w u true there awake =
      rw there (λ held. (deliver-same u.status (w.streamer.slots n)).1)
  slot-Follows w u false there awake = rw there awake

  -- A broadcast that leaves the channel has reached the slots that watch its order.
  delivered-covers :
      (p : String) (ps : List String) (w : Replica) (u : StatusUpdate) (ord : ℤ) (c : Conn)
      → codec.decode p ≡ some u
      → (str_eq u.order_id o ≡ true → mem_slot n (watchers u.order_id w.streamer.registry) ≡ true)
      → covers codec o k ord c (w.streamer.slots n) w.streamer.live w.unannounced (p ∷ ps) ≡ true
      → covers codec o k ord c
          (on_slots (deliver u.status) (watchers u.order_id w.streamer.registry) w.streamer.slots n)
          w.streamer.live
          w.unannounced
          ps
        ≡ true
  delivered-covers p ps w u ord c reads watched h =
      let sl : Slot = w.streamer.slots n in
      elim (Bool-cases (mem_slot n (watchers u.order_id w.streamer.registry))) [
        | inr outside ↦ rw outside (ground (arith, reads, watched, h))
        | inl inside ↦ elim (Bool-cases (covered_by ord (status_ordinal u.status))) [
          | inl told ↦
              let now =
                covered_by_trans ord (status_ordinal u.status)
                  (status_ordinal (deliver u.status sl).pending_status) told
                  (deliver-covers u.status sl) in
              rw (inside, now) (ground arith)
          | inr new ↦ elim (Bool-cases (covered_by ord (status_ordinal sl.pending_status))) [
            | inl told ↦ rw (inside, deliver-keeps u.status sl ord told) (ground arith)
            | inr behind ↦ rw inside (ground (arith, reads, h, deliver-same u.status sl))
          ]
        ]
      ]

  pub received-Follows :
      (channel : List String) (w : Replica)
      → w.channel ≡ channel
      → Follows codec o k n w
      → Follows codec o k n (receive_next codec channel w)
  unfolding dispatch
  received-Follows [] w e h = h
  received-Follows (p ∷ ps) w e h = go (codec.decode p) refl
    where
      go :
          (read : Option StatusUpdate)
          → codec.decode p ≡ read
          → Follows codec o k n
              (record w { channel = ps; streamer = deliver_update read w.streamer })
      go none reads = (
        h.0,
        h.1,
        h.2,
        λ running order_is synced_is r found.
            ground (arith, e, reads, h.3 running order_is synced_is r found),
      )
      go (some u) reads = elim (Bool-cases (str_eq u.order_id "")) [
        | inl blank ↦ rw blank (
          h.0,
          h.1,
          h.2,
          λ running order_is synced_is r found. ground (
            arith,
            e,
            reads,
            eq_iff u.order_id o,
            eq_iff u.order_id "",
            eq_iff o "",
            h.3 running order_is synced_is r found,
          ),
        )
        | inr full ↦ rw full (
          h.0,
          h.1,
          slot-Follows w u (mem_slot n (watchers u.order_id w.streamer.registry)) refl h.2,
          λ running order_is synced_is r found.
              delivered-covers p ps w u (status_ordinal (status_text r.status)) (w.conns n) reads
                (λ own.
                  ap (λ t. mem_slot n (watchers t w.streamer.registry))
                    ((eq_iff u.order_id o).0 own ∙ sym order_is)
                  ∙ h.1 (running_open (w.conns n).phase running))
                (ap
                    (covers codec o k (status_ordinal (status_text r.status)) (w.conns n)
                      (w.streamer.slots n) w.streamer.live w.unannounced)
                    (sym e)
                  ∙ h.3 running order_is synced_is r found),
        )
      ]

module _ (codec : StatusCodec) (o k : String) (n : ℕ) where
  pub subscribed-Follows :
      (w : Replica)
      → Follows codec o k n w
      → Follows codec o k n (record w { streamer = subscribed w.streamer })
  unfolding subscribed broadcast_refresh
  subscribed-Follows w h = go (w.streamer.sub_started && not w.streamer.sub_cancelled)
    where
      go :
          (b : Bool)
          → Follows codec o k n (record w {
            streamer =
                if b then broadcast_refresh (record w.streamer { live = true }) else w.streamer;
          })
      go false = h
      go true = (
        h.0,
        h.1,
        refresh_sets-IsAwake w.streamer.registry n w.streamer.slots h.2,
        λ running order_is synced_is r found.
            let fresh =
              refresh_sets-mem w.streamer.registry (w.conns n).order n w.streamer.slots
                (h.1 (running_open (w.conns n).phase running)) in
            rw fresh (ground arith),
      )

  pub lost-Follows :
      (w : Replica)
      → Follows codec o k n w
      → Follows codec o k n (record w { channel = []; streamer = mark_down w.streamer })
  lost-Follows w h = (h.0, h.1, h.2, λ running order_is synced_is r found. ground arith)

  pub stopped-Follows :
      (w : Replica)
      → Follows codec o k n w
      → Follows codec o k n (record w { channel = []; streamer = shutdown w.streamer })
  unfolding shutdown
  stopped-Follows w h = (h.0, h.1, h.2, λ running order_is synced_is r found. ground arith)
