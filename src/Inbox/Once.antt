-- ===== src/Inbox/Once.antt =====
-- platform/messaging/inbox: deliveries of messages to one consumer, in any order and number.
use go_boilerplate.Prelude.{
  ◌≡◌, refl, Bool, true, false, Option, none, List, [], ◌∷◌, ◌++◌, eq_iff, arith, Result, ok,
  Bool-cases, Option-cases, inl, inr, ◌⊎◌,
}
use go_boilerplate.Tx.{TxFaults}
use go_boilerplate.Inbox.{InboxKey, InboxDb, Effect, is_seen, once, process_once}

-- One delivery: the message and what the driver reports on the way.
pub record Delivery (E : Type 0) : Type 0 where
  pub key : InboxKey
  pub tx : TxFaults E
  pub fault : Option E

-- The side effect of a message depends on its key only.
module _ {S E : Type 0} (fn : InboxKey → Effect S E) where
  unfoldable pub deliver : Delivery E → InboxDb S → InboxDb S × Result E Bool
  unfolding process_once
  deliver d db = process_once d.tx d.fault d.key (fn d.key) db

  unfoldable pub deliver_all : List (Delivery E) → InboxDb S → InboxDb S
  deliver_all [] db = db
  deliver_all (d ∷ ds) db = deliver_all ds (deliver d db).0

  -- From `s₀`, the side effects of the rows, the last row first, each row once and each effect
  -- without an error, lead to `s`.
  abbrev pub AppliedOnce : List InboxKey → S → S → Type 0
  AppliedOnce [] s₀ s = s ≡ s₀
  AppliedOnce (k ∷ ks) s₀ s =
      (t : S) × AppliedOnce ks s₀ t × (is_seen k ks ≡ false) × (fn k t ≡ (s, none))

  -- A delivery changes nothing, or adds the row of a new message and runs its effect.
  deliver-cases :
      (d : Delivery E) (db : InboxDb S)
      → ((deliver d db).0 ≡ db)
        ⊎ ((s : S) × (is_seen d.key db.inbox ≡ false)
            × (fn d.key db.rest ≡ (s, none))
            × ((deliver d db).0 ≡ record { inbox = d.key ∷ db.inbox; rest = s }))
  unfolding deliver once
  deliver-cases d db = elim (Option-cases d.tx.begin_fault) [
    | inr (e, failed) ↦ inl (ground arith)
    | inl begun ↦ elim (Option-cases d.fault) [
      | inr (e, failed) ↦ inl (ground arith)
      | inl inserted ↦ elim (Option-cases d.tx.commit_fault) [
        | inr (e, failed) ↦ inl (ground arith)
        | inl committed ↦ elim (Bool-cases (is_seen d.key db.inbox)) [
          | inl old ↦ inl (ground arith)
          | inr new ↦ elim (Option-cases (fn d.key db.rest).1) [
            | inr (e, failed) ↦ inl (ground arith)
            | inl fine ↦ inr ((fn d.key db.rest).0, new, ground arith, ground arith)
          ]
        ]
      ]
    ]
  ]

  deliver-AppliedOnce :
      (d : Delivery E) (db : InboxDb S) (s₀ : S)
      → AppliedOnce db.inbox s₀ db.rest
      → AppliedOnce (deliver d db).0.inbox s₀ (deliver d db).0.rest
  deliver-AppliedOnce d db s₀ h = elim (deliver-cases d db) [
    | inl same ↦ rw same h
    | inr (s, new, ran, changed) ↦ rw changed (db.rest, h, new, ran)
  ]

  -- A delivery that reports no error leaves the row of its message.
  seen-deliver :
      (d : Delivery E) (db : InboxDb S) {b : Bool}
      → (deliver d db).1 ≡ ok b
      → is_seen d.key (deliver d db).0.inbox ≡ true
  unfolding deliver once
  seen-deliver d db h = ground (
    arith,
    (eq_iff d.key.consumer d.key.consumer).1 refl,
    (eq_iff d.key.message_id d.key.message_id).1 refl,
  )

  -- A row is never lost.
  seen-stays :
      (d : Delivery E) (db : InboxDb S) (k : InboxKey)
      → is_seen k db.inbox ≡ true
      → is_seen k (deliver d db).0.inbox ≡ true
  seen-stays d db k h = elim (deliver-cases d db) [
    | inl same ↦ rw same h
    | inr (s, new, ran, changed) ↦ rw changed (ground arith)
  ]

  deliver_all-append :
      (xs ys : List (Delivery E)) (db : InboxDb S)
      → deliver_all (xs ++ ys) db ≡ deliver_all ys (deliver_all xs db)
  unfolding deliver_all
  deliver_all-append [] ys db = refl
  deliver_all-append (x ∷ xs) ys db = deliver_all-append xs ys (deliver x db).0

  deliver_all-AppliedOnce :
      (ds : List (Delivery E)) (db : InboxDb S) (s₀ : S)
      → AppliedOnce db.inbox s₀ db.rest
      → AppliedOnce (deliver_all ds db).inbox s₀ (deliver_all ds db).rest
  unfolding deliver_all
  deliver_all-AppliedOnce [] db s₀ h = h
  deliver_all-AppliedOnce (d ∷ ds) db s₀ h =
      deliver_all-AppliedOnce ds (deliver d db).0 s₀ (deliver-AppliedOnce d db s₀ h)

  seen_stays_all :
      (ds : List (Delivery E)) (db : InboxDb S) (k : InboxKey)
      → is_seen k db.inbox ≡ true
      → is_seen k (deliver_all ds db).inbox ≡ true
  unfolding deliver_all
  seen_stays_all [] db k h = h
  seen_stays_all (d ∷ ds) db k h = seen_stays_all ds (deliver d db).0 k (seen-stays d db k h)

  -- Messages, whose side effects depend on their keys only, are delivered in any order, any
  -- number of times and with any faults to a database with an empty inbox. Then the database is
  -- what the side effects of the messages in the inbox make of it, each of them run once and
  -- without an error; and a message of which one delivery reported no error is among them.
  pub delivered_exactly_once :
      (before after : List (Delivery E)) (d : Delivery E) (s₀ : S) {b : Bool}
      → let start : InboxDb S = record { inbox = []; rest = s₀ } in
        (deliver d (deliver_all before start)).1 ≡ ok b
        → let end : InboxDb S = deliver_all (before ++ d ∷ after) start in
          AppliedOnce end.inbox s₀ end.rest × (is_seen d.key end.inbox ≡ true)
  unfolding deliver_all
  delivered_exactly_once before after d s₀ h =
      let start : InboxDb S = record { inbox = []; rest = s₀ } in
      (
        deliver_all-AppliedOnce (before ++ d ∷ after) start s₀ refl,
        rw (deliver_all-append before (d ∷ after) start) (
            seen_stays_all after (deliver d (deliver_all before start)).0 d.key
              (seen-deliver d (deliver_all before start) h)),
      )
