-- ===== src/Retry/Parking.antt =====
-- platform/messaging/retry/escalate.go: the parking of keys.
use go_boilerplate.Prelude.{
  ℕ, suc, ◌+◌, ◌≤◌, ◌≡◌, refl, Bool, true, false, Option, some, ◌∷◌, String, str_eq, eq_iff, arith,
  pos, ok, Result-cases, inl, inr,
}
use go_boilerplate.Retry.{Policy, Record, Cause, publish_next}
use go_boilerplate.Retry.Escalator.{
  Escalator, ParkKey, Parked, same_park_key, find_parked, sweep, park, key_parked, escalate, divert,
  wrap_handler, routed,
}

same_park_key_self : (k : ParkKey) → same_park_key k k ≡ true
same_park_key_self k =
    ground (arith, (eq_iff k.park_topic k.park_topic).1 refl, (eq_iff k.park_key k.park_key).1 refl)

find_parked-sweep :
    (now t : ℕ) (k : ParkKey) (rest : Parked)
    → now ≤ t
    → find_parked k (sweep now ((k, t) ∷ rest)) ≡ some t
unfolding find_parked sweep
find_parked-sweep now t k rest h = ground (arith, same_park_key_self k)

same_park_key_refl :
    (topic key : String)
    → same_park_key
        (record { park_topic = topic; park_key = key })
        (record { park_topic = topic; park_key = key })
      ≡ true
same_park_key_refl topic key = same_park_key_self (record { park_topic = topic; park_key = key })

key_parked-park :
    (now t : ℕ) (topic key : String) (e : Escalator) (w : ℕ)
    → e.park_window ≡ pos (suc w)
    → str_eq key "" ≡ false
    → t ≤ now + suc w
    → key_parked t topic key (park now topic key e) ≡ (park now topic key e, true)
unfolding key_parked park find_parked sweep
key_parked-park now t topic key e w windowed keyed soon =
    ground (arith, same_park_key_refl topic key)

-- After an escalation that succeeds, with a parking window of `w + 1` and a key that is not empty, a
-- record of the same topic and key that comes within the window never reaches the handler, whatever
-- it would return: it is diverted.
pub parked_diverts :
    (f : Option String) (now : ℕ) (rec : Record) (cause : Cause) (e : Escalator) (w : ℕ)
    (dest : String) (handler : ℕ → Option Cause) (is_done : ℕ → Bool) (policy : Policy)
    (fault : Option String) (t later : ℕ) (next : Record)
    → e.park_window ≡ pos (suc w)
    → str_eq rec.key "" ≡ false
    → (escalate f now rec.topic rec cause e).1 ≡ ok dest
    → next.topic ≡ rec.topic
    → next.key ≡ rec.key
    → t ≤ now + suc w
    → let e' = (escalate f now rec.topic rec cause e).0 in
      wrap_handler handler is_done policy fault t later next e'
      ≡ routed (divert fault t next.topic next e')
unfolding wrap_handler escalate
parked_diverts f now rec cause e w dest handler is_done policy fault t later next windowed keyed
      sent same_t same_k soon =
    elim (Result-cases (publish_next e.policy f now rec.topic rec cause e.produced).1) [
      | inl (d, published) ↦ ground (
        arith,
        key_parked-park now t rec.topic rec.key
            (record e { produced = (publish_next e.policy f now rec.topic rec cause e.produced).0 })
            w windowed keyed soon,
      )
      | inr (x, failed) ↦ ground arith
    ]
