-- ===== src/Retry/Routing.antt =====
-- platform/messaging/retry/escalate.go: where `publishNext` sends a record.
use go_boilerplate.Prelude.{
  ℕ, zero, suc, ◌+◌, ◌<◌, ◌≡◌, refl, true, false, ◌||◌, none, some, List, [], ◌∷◌, ◌++◌, arith,
  if◌then◌else◌, length, ℤ, pos, ok, Bool-cases, inl, inr, String, get_elem?, leb,
}
use go_boilerplate.Retry.{
  Policy, Record, Cause, next_record, publish_next, parse_retry_headers, attempt_or_zero,
  tier_delay, tier_topic, dlt_topic, dead_letter, tier_record,
}

get_elem?-some : (xs : List ℕ) (i : ℕ) → i < length xs → (x : ℕ) × (get_elem? xs i ≡ some x)
get_elem?-some [] i h = elim h [ ]
get_elem?-some (x ∷ xs) zero h = (x, refl)
get_elem?-some (x ∷ xs) (suc i) h = get_elem?-some xs i (omega arith)

dead_letter_fields :
    (orig : String) (rec : Record) (cause : Cause)
    → ((dead_letter orig rec cause).key ≡ rec.key)
      × ((dead_letter orig rec cause).payload ≡ rec.payload)
      × ((dead_letter orig rec cause).topic ≡ dlt_topic orig)
unfolding dead_letter
dead_letter_fields orig rec cause = (refl, refl, refl)

tier_record_fields :
    (orig : String) (attempt : ℤ) (due : ℕ) (rec : Record) (cause : Cause)
    → ((tier_record orig attempt due rec cause).key ≡ rec.key)
      × ((tier_record orig attempt due rec cause).payload ≡ rec.payload)
      × ((tier_record orig attempt due rec cause).topic ≡ tier_topic orig attempt)
unfolding tier_record
tier_record_fields orig attempt due rec cause = (refl, refl, refl)

delay_found :
    (tiers : List ℕ) (n : ℕ) → n < length tiers → (d : ℕ) × (tier_delay tiers (pos n) ≡ some d)
delay_found tiers n h = get_elem?-some tiers n h

module _ (policy : Policy) (now n : ℕ) (orig : String) (rec : Record) (cause : Cause)
    (h : attempt_or_zero (parse_retry_headers rec) ≡ pos n) where
  built_dead :
      (leb (length policy.tiers) n || cause.permanent) ≡ true
      → next_record policy now orig rec cause ≡ ok (dead_letter orig rec cause)
  unfolding next_record
  built_dead dead = rw h (ground arith)

  built_tier :
      {d : ℕ}
      → (leb (length policy.tiers) n || cause.permanent) ≡ false
      → tier_delay policy.tiers (pos n) ≡ some d
      → next_record policy now orig rec cause ≡ ok (tier_record orig (pos n) (now + d) rec cause)
  unfolding next_record
  built_tier live found = rw h (ground arith)

  -- The record that is built, with its fields.
  next_record_routes :
      (out : Record) × (next_record policy now orig rec cause ≡ ok out)
      × (out.key ≡ rec.key)
      × (out.payload ≡ rec.payload)
      × (out.topic ≡ (
          if leb (length policy.tiers) n || cause.permanent
          then dlt_topic orig
          else tier_topic orig (pos n)))
  next_record_routes = elim (Bool-cases (leb (length policy.tiers) n || cause.permanent)) [
    | inl dead ↦
        let (key, payload, topic) = dead_letter_fields orig rec cause in
        (dead_letter orig rec cause, built_dead dead, key, payload, rw dead topic)
    | inr live ↦
        let (d, found) = delay_found policy.tiers n (ground arith) in
        let (key, payload, topic) = tier_record_fields orig (pos n) (now + d) rec cause in
        (
          tier_record orig (pos n) (now + d) rec cause,
          built_tier live found,
          key,
          payload,
          rw live topic,
        )
  ]

-- Where the record has been escalated `n` times and the producer accepts, one record is produced, and
-- it has the key and payload of the failed one. It goes to the dead-letter topic exactly if the cause
-- is permanent or there are at most `n` tiers, and to tier `n` of the topic otherwise.
pub publish_next_routes :
    (policy : Policy) (now n : ℕ) (orig : String) (rec : Record) (cause : Cause)
    (produced : List Record)
    → attempt_or_zero (parse_retry_headers rec) ≡ pos n
    → (out : Record) × (publish_next policy none now orig rec cause produced
        ≡ (produced ++ out ∷ [], ok out.topic))
      × (out.key ≡ rec.key)
      × (out.payload ≡ rec.payload)
      × (out.topic ≡ (
          if leb (length policy.tiers) n || cause.permanent
          then dlt_topic orig
          else tier_topic orig (pos n)))
unfolding publish_next
publish_next_routes policy now n orig rec cause produced h =
    let (out, built, key, payload, topic) = next_record_routes policy now n orig rec cause h in
    (out, rw (built, publish_next) refl, key, payload, topic)
