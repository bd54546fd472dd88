-- ===== src/Tests/Messaging.antt =====
-- The theorems about the retry topology at concrete inputs.
use go_boilerplate.Prelude.{◌≡◌, refl, false, none, some, [], arith, pos, itoa}
use go_boilerplate.Retry.{
  Record, Cause, codes, default_policy, publish_next, parse_retry_headers, next_record, tier_record,
  tier_topic,
}
use go_boilerplate.Retry.Escalator.{
  Escalator, new_escalator, escalate, divert, wrap_handler, routed,
}
use go_boilerplate.Retry.Parking.{parked_diverts}

abbrev base_record : Record
base_record = record { topic = "orders.commands"; key = "o1"; payload = "{}"; headers = [] }

abbrev timed_out : Cause
timed_out = record { cause_text = codes "timeout"; permanent = false; cause_code = none }

abbrev parking : Escalator
parking = new_escalator (some (pos 10_000)) default_policy

parked_diverts_example :
    let e' = (escalate none 7 "orders.commands" base_record timed_out parking).0 in
    wrap_handler (λ n. none) (λ n. false) default_policy none 9_000 9_001 base_record e'
    ≡ routed (divert none 9_000 "orders.commands" base_record e')
unfolding escalate publish_next parse_retry_headers next_record tier_record tier_topic itoa
parked_diverts_example =
    parked_diverts none 7 base_record timed_out parking 9_999 "orders.commands.retry.0" (λ n. none)
      (λ n. false) default_policy none 9_000 9_001 base_record refl refl refl refl refl
      (omega arith)
