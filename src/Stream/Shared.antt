-- ===== src/Stream/Shared.antt =====
-- examples/gateway: the projection and `Notify` keep the order of each stream covered.
use go_boilerplate.Prelude.{
  ℕ, ◌≡◌, refl, ap, ◌∙◌, sym, Bool, true, false, Option, none, some, List, [], ◌∷◌, String, str_eq,
  eq_iff, arith, Bool-cases, inl, ◌⊎◌, inr,
}
use go_boilerplate.Dict.{lookup}
use go_boilerplate.Projection.{ReadDb, ReadRow, ViewEvent, ViewError, handle_event}
use go_boilerplate.Stream.{StatusUpdate, StatusCodec, status_ordinal, Streamer}
use go_boilerplate.Stream.Handler.{status_text, notify_status, current_status}
use go_boilerplate.Stream.Gateway.{Replica, order_of, committed, broadcast, mem_text, remove_text}
use go_boilerplate.Stream.Covers.{carries, in_channel-append, Follows}
use go_boilerplate.Stream.Elsewhere.{event-elsewhere}

mem-remove_text :
    (t u : String) (us : List String)
    → str_eq t u ≡ false
    → mem_text u (remove_text t us) ≡ mem_text u us
mem-remove_text t u [] apart = refl
mem-remove_text t u (v ∷ us) apart =
    ground (arith, eq_iff v t, eq_iff v u, eq_iff t u, mem-remove_text t u us apart)

module _ (codec : StatusCodec) (parse_uuid : String → Option String) (o k : String) (n : ℕ)
    (parsed : parse_uuid o ≡ some k) where
  abbrev wrote : ReadDb → List String → Replica → Replica
  wrote db un w = record w { db = db; unannounced = un }

  pub committed-Follows :
      (raw : String) (w : Replica) (result : ReadDb × Option ViewError)
      → (raw ≡ o) ⊎ (lookup k result.0.orders ≡ lookup k w.db.orders)
      → Follows codec o k n w
      → Follows codec o k n (committed raw result w)
  committed-Follows raw w (db, some e) where_to h = h
  committed-Follows raw w (db, none) (inl same) h = (
    h.0,
    h.1,
    h.2,
    λ running order_is synced_is r found. let own = (eq_iff raw o).1 same in ground arith,
  )
  committed-Follows raw w (db, none) (inr kept) h = (
    h.0,
    h.1,
    h.2,
    λ running order_is synced_is r found.
        ground (arith, h.3 running order_is synced_is r (sym kept ∙ found)),
  )

  pub projected-Follows :
      (fault : Option String) (e : ViewEvent) (w : Replica)
      → (parse_uuid (order_of e) ≡ parse_uuid o → order_of e ≡ o)
      → Follows codec o k n w
      → Follows codec o k n (committed (order_of e) (handle_event parse_uuid fault e w.db) w)
  projected-Follows fault e w spelled h = elim (event-elsewhere parse_uuid fault e k w.db) [
    | inl written ↦
        committed-Follows (order_of e) w (handle_event parse_uuid fault e w.db)
          (inl (spelled (written ∙ sym parsed))) h
    | inr kept ↦
        committed-Follows (order_of e) w (handle_event parse_uuid fault e w.db) (inr kept) h
  ]

  notify-payload :
      (fault : Option String) (published : Bool) (db : ReadDb) (s : Streamer) (p : String)
      (r : ReadRow)
      → notify_status codec parse_uuid fault published o db s ≡ some p
      → lookup k db.orders ≡ some r
      → p ≡ codec.encode (record { order_id = o; status = status_text r.status })
  unfolding notify_status current_status
  notify-payload fault published db s p r sent found = ground (arith, parsed)

  module _ (faithful : (u : StatusUpdate) → codec.decode (codec.encode u) ≡ some u) where
    payload-carries :
        (p : String) (st : String)
        → p ≡ codec.encode (record { order_id = o; status = st })
        → carries codec o (status_ordinal st) (codec.decode p) ≡ true
    payload-carries p st e =
        let u : StatusUpdate = record { order_id = o; status = st } in
        let read : codec.decode p ≡ some u = ap codec.decode e ∙ faithful u in
        rw read (ground (arith, (eq_iff o o).1 refl))

    broadcast-Follows :
        (raw : String) (w : Replica) (payload : Option String)
        → ((p : String) (r : ReadRow)
            → payload ≡ some p
            → str_eq raw o ≡ true
            → lookup k w.db.orders ≡ some r
            → carries codec o (status_ordinal (status_text r.status)) (codec.decode p) ≡ true)
        → Follows codec o k n w
        → Follows codec o k n (broadcast raw payload w)
    broadcast-Follows raw w none tells h = h
    broadcast-Follows raw w (some p) tells h = (
      h.0,
      h.1,
      h.2,
      λ running order_is synced_is r found. elim (Bool-cases (str_eq raw o)) [
        | inl own ↦ ground (
          arith,
          tells p r refl own found,
          in_channel-append codec o (status_ordinal (status_text r.status)) w.channel (p ∷ []),
        )
        | inr other ↦ ground (
          arith,
          h.3 running order_is synced_is r found,
          mem-remove_text raw o w.unannounced other,
          in_channel-append codec o (status_ordinal (status_text r.status)) w.channel (p ∷ []),
        )
      ],
    )

    pub notified-Follows :
        (fault : Option String) (published : Bool) (raw : String) (w : Replica)
        → Follows codec o k n w
        → Follows codec o k n
            (broadcast raw (notify_status codec parse_uuid fault published raw w.db w.streamer) w)
    notified-Follows fault published raw w h =
        broadcast-Follows raw w (notify_status codec parse_uuid fault published raw w.db w.streamer)
          (λ p r sent own found. payload-carries p (status_text r.status) (
            notify-payload fault published w.db w.streamer p r
              (ap (λ t. notify_status codec parse_uuid fault published t w.db w.streamer)
                  (sym ((eq_iff raw o).0 own))
                ∙ sent)
              found))
          h
