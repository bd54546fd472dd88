-- ===== src/Stream/Covers.antt =====
-- examples/gateway: what a stream still has to learn about its order, and where it is under way.
use go_boilerplate.Prelude.{
  ℕ, ◌≡◌, refl, ◌∙◌, sym, Bool, true, false, not, ◌&&◌, ◌||◌, Option, none, some, List, [], ◌∷◌,
  ◌++◌, String, str_eq, eq_iff, ℤ, pos, ltb_ℤ, ◌==◌, ==_iff, arith, Bool-cases, inl, inr,
  if◌then◌else◌,
}
use mathlib.Core.Path.{subst}
use go_boilerplate.Dict.{lookup}
use go_boilerplate.Projection.{
  ReadDb, ReadRow, ViewStatus, pending, created, paid, payment_failed, payment_timeout,
}
use go_boilerplate.Stream.{
  StatusUpdate, StatusCodec, status_ordinal, Slot, Streamer, mem_slot, watchers,
}
use go_boilerplate.Stream.Handler.{
  status_text, Phase, unused, serving, closed, waiting, handling, Conn, send,
}
use go_boilerplate.Stream.Gateway.{Replica, put_conn, mem_text, is_running, is_open}
use go_boilerplate.Stream.Registry.{IsAwake}

abbrev pub covered_by : ℤ → ℤ → Bool
covered_by a b = not (ltb_ℤ b a)

pub covered_by_trans :
    (a b c : ℤ) → covered_by a b ≡ true → covered_by b c ≡ true → covered_by a c ≡ true
covered_by_trans a b c h k = ground arith

-- The statuses of the read model are known, and the empty text is not.
pub status_ordinal_known :
    (st : ViewStatus) → covered_by (pos 0) (status_ordinal (status_text st)) ≡ true
unfolding status_ordinal
status_ordinal_known pending = refl
status_ordinal_known created = refl
status_ordinal_known paid = refl
status_ordinal_known payment_failed = refl
status_ordinal_known payment_timeout = refl

pub not-covered_by_empty :
    (st : ViewStatus) (t : String)
    → str_eq t "" ≡ true
    → covered_by (status_ordinal (status_text st)) (status_ordinal t) ≡ false
unfolding status_ordinal
not-covered_by_empty pending t e = rw ((eq_iff t "").0 e) refl
not-covered_by_empty created t e = rw ((eq_iff t "").0 e) refl
not-covered_by_empty paid t e = rw ((eq_iff t "").0 e) refl
not-covered_by_empty payment_failed t e = rw ((eq_iff t "").0 e) refl
not-covered_by_empty payment_timeout t e = rw ((eq_iff t "").0 e) refl

-- After `send` the client knows the status that was sent, and what it knew.
pub send-covers :
    (written : Bool) (status : String) (c : Conn)
    → covered_by (status_ordinal status) (send written status c).0.last_sent ≡ true
unfolding send
send-covers written status c = ground arith

pub send-keeps :
    (written : Bool) (status : String) (c : Conn) (a : ℤ)
    → covered_by a c.last_sent ≡ true
    → covered_by a (send written status c).0.last_sent ≡ true
unfolding send
send-keeps written status c a h = ground arith

pub send-same :
    (written : Bool) (status : String) (c : Conn)
    → ((send written status c).0.order ≡ c.order)
      × ((send written status c).0.synced ≡ c.synced)
      × ((send written status c).0.phase ≡ c.phase)
unfolding send
send-same written status c = ground arith

module _ (codec : StatusCodec) where
  abbrev pub carries : String → ℤ → Option StatusUpdate → Bool
  carries o ord none = false
  carries o ord (some u) = str_eq u.order_id o && covered_by ord (status_ordinal u.status)

  abbrev pub in_channel : String → ℤ → List String → Bool
  in_channel o ord [] = false
  in_channel o ord (p ∷ ps) = carries o ord (codec.decode p) || in_channel o ord ps

  pub in_channel-append :
      (o : String) (ord : ℤ) (ps qs : List String)
      → in_channel o ord (ps ++ qs) ≡ (in_channel o ord ps || in_channel o ord qs)
  in_channel-append o ord [] qs = refl
  in_channel-append o ord (p ∷ ps) qs = ground (arith, in_channel-append o ord ps qs)

abbrev pub in_hand : ℤ → Phase → Bool
in_hand ord (handling status refresh) = refresh || covered_by ord (status_ordinal status)
in_hand ord unused = false
in_hand ord serving = false
in_hand ord closed = false
in_hand ord (waiting status) = false

module _ (codec : StatusCodec) (o k : String) where
  -- The client knows at least `ord`, or its stream is going to.
  abbrev pub covers : ℤ → Conn → Slot → Bool → List String → List String → Bool
  covers ord c sl live un ch =
      covered_by ord c.last_sent
      || covered_by ord (status_ordinal sl.pending_status)
      || sl.refresh
      || in_hand ord c.phase
      || in_channel codec o ord ch
      || not live
      || mem_text o un

  abbrev pub Covered : Conn → Slot → Bool → List String → List String → ReadDb → Type 0
  Covered c sl live un ch db =
      is_running c.phase ≡ true
      → c.order ≡ o
      → c.synced ≡ true
      → (r : ReadRow) → lookup k db.orders ≡ some r
      → covers (status_ordinal (status_text r.status)) c sl live un ch ≡ true

  -- A stream that is open is registered, its slot wakes it, and its order is covered.
  abbrev pub IsFollowed : ℕ → Streamer × Conn → List String → List String → ReadDb → Type 0
  IsFollowed n (s, c) un ch db =
      (s.has_client ≡ true)
      × (is_open c.phase ≡ true → mem_slot n (watchers c.order s.registry) ≡ true)
      × IsAwake (s.slots n)
      × Covered c (s.slots n) s.live un ch db

  abbrev pub Follows : ℕ → Replica → Type 0
  Follows n w = IsFollowed n (w.streamer, w.conns n) w.unannounced w.channel w.db

-- What a run of `Stream` leaves to the others.
pub record Others (m : ℕ) (s s' : Streamer) : Type 0 where
  pub client_same : s'.has_client ≡ s.has_client
  pub live_same : s'.live ≡ s.live
  pub slots_same : (n : ℕ) → (n == m) ≡ false → s'.slots n ≡ s.slots n
  pub registered :
      (n : ℕ) (j : String)
      → (n == m) ≡ false
      → mem_slot n (watchers j s.registry) ≡ true
      → mem_slot n (watchers j s'.registry) ≡ true

module _ (codec : StatusCodec) (o k : String) where
  -- A step of one run, for that run and for another.
  pub put_conn-Follows :
      (m n : ℕ) (sc : Streamer × Conn) (w : Replica)
      → Others m w.streamer sc.0
      → (Follows codec o k m w → IsFollowed codec o k m sc w.unannounced w.channel w.db)
      → Follows codec o k n w
      → Follows codec o k n (put_conn m sc w)
  put_conn-Follows m n (s, c) w others own h = elim (Bool-cases (n == m)) [
    | inl same ↦
        let e : n ≡ m = (==_iff n m).0 same in
        let mine : (if n == m then c else w.conns n) ≡ c = rw same in
        subst (λ x. IsFollowed codec o k n (s, x) w.unannounced w.channel w.db) (sym mine)
          (subst (λ i. IsFollowed codec o k i (s, c) w.unannounced w.channel w.db) (sym e)
            (own (subst (λ i. Follows codec o k i w) e h)))
    | inr apart ↦
        let theirs : (if n == m then c else w.conns n) ≡ w.conns n = rw apart in
        subst (λ x. IsFollowed codec o k n (s, x) w.unannounced w.channel w.db) (sym theirs)
          (
            others.client_same ∙ h.0,
            λ opened. others.registered n (w.conns n).order apart (h.1 opened),
            subst IsAwake (sym (others.slots_same n apart)) h.2,
            subst (λ sl. Covered codec o k (w.conns n) sl s.live w.unannounced w.channel w.db)
                (sym (others.slots_same n apart))
                (subst
                  (λ b.
                    Covered codec o k (w.conns n) (w.streamer.slots n) b w.unannounced w.channel
                      w.db)
                  (sym others.live_same) h.3),
          )
  ]
