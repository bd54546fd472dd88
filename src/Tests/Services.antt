-- ===== src/Tests/Services.antt =====
-- The theorems about the ledger and the services at concrete inputs.
use go_boilerplate.Prelude.{
  ◌≤◌, ◌≡◌, refl, Bool, true, false, Option, none, some, List, [], ◌∷◌, arith, String, ℤ, ◌+ℤ◌, pos,
  ok, length, inl,
}
use go_boilerplate.Dict.{lookup}
use go_boilerplate.Decimal.Whole.{whole_decimal, whole_laws}
use go_boilerplate.Money.Asset.{fiat, Registry}
use go_boilerplate.Money.Amount.{Money}
use go_boilerplate.Money.Arith.{add_money, neg_money}
use go_boilerplate.Ledger.{
  check_entries, check_entry, net_of, must_add, all_zero, debit, credit, Account, Posting, MemStore,
  new_mem_store, validate, register_account, post,
}
use go_boilerplate.Ledger.Balanced.{IsBalanced, validate-IsBalanced}
use go_boilerplate.Ledger.Invariant.{
  start, after_register, after_post, IsSound, Reach-IsSound, post_unchanged, post_idempotent,
}
use go_boilerplate.Orders.{paid, Row, Db, no_faults}
use go_boilerplate.Orders.Machine.{Op, creating, settling, expiring, run_all, run_all_settled}
use go_boilerplate.Orders.Timeout.{timeouts_of, emitted_count, empty_db, timeout_exactly_once}
use go_boilerplate.Payments as Pay
use go_boilerplate.Limits.{Memory, Limiter, sampled_oldest, allow}
use go_boilerplate.Limits.Bounds.{allow_bounded, allow_exceeds}
use go_boilerplate.Retry.{
  Record, Cause, default_policy, publish_next, parse_retry_headers, atoi, codes, tier_topic,
}
use go_boilerplate.Retry.Routing.{publish_next_routes}

abbrev reg : Registry
reg = ("JPY", record { code = "JPY"; exponent = pos 0; kind = fiat }) ∷ []

abbrev yen_of : ℤ → Money ℤ
yen_of n = record { amount = n; asset = "JPY" }

abbrev cash : Account
cash = record { account_id = "cash"; account_asset = "JPY"; normal = debit }

abbrev sales : Account
sales = record { account_id = "sales"; account_asset = "JPY"; normal = credit }

abbrev sale : Posting ℤ
sale = record {
  idempotency_key = "k1";
  entries =
      record { account = "cash"; direction = debit; amount = yen_of (pos 5) }
      ∷ record { account = "sales"; direction = credit; amount = yen_of (pos 5) }
      ∷ [];
}

abbrev opened : MemStore ℤ
opened = record { accounts = ("cash", cash) ∷ ("sales", sales) ∷ []; posted = []; seen = [] }

sale_valid : validate sale ≡ ok tt
unfolding validate net_of must_add add_money neg_money all_zero ◌+ℤ◌
sale_valid = refl

validate-IsBalanced_example : IsBalanced whole_laws sale
validate-IsBalanced_example = validate-IsBalanced whole_laws sale sale_valid

Reach-IsSound_example :
    IsSound whole_laws
      (post sale
        (register_account reg sales (register_account reg cash (new_mem_store {D = ℤ})).0).0).0
Reach-IsSound_example =
    Reach-IsSound whole_laws
      (after_post (after_register (after_register start reg cash) reg sales) sale)

post_unchanged_example : (post (record sale { idempotency_key = "" }) opened).0 ≡ opened
unfolding post validate
post_unchanged_example =
    post_unchanged (record sale { idempotency_key = "" }) opened (inl (λ e. cc))

post_idempotent_example : post sale (post sale opened).0 ≡ ((post sale opened).0, none)
unfolding post validate check_entries check_entry net_of must_add add_money neg_money all_zero ◌+ℤ◌
post_idempotent_example = post_idempotent sale sale opened refl refl refl

abbrev paid_row : Row ℤ
paid_row = record {
  customer_id = "c";
  amount = yen_of (pos 5);
  status = paid;
  timeout_emitted = false;
}

abbrev paid_db : Db ℤ
paid_db = record { rows = ("o1", paid_row) ∷ []; outbox = []; ignored_outcomes = [] }

abbrev calls : List (Op ℤ)
calls =
    creating no_faults (record { order_id = "o1"; customer = "c"; price = yen_of (pos 5) })
    ∷ expiring no_faults "o1"
    ∷ settling no_faults "o1" paid
    ∷ expiring no_faults "o1"
    ∷ []

run_all_settled_example : lookup "o1" (run_all some reg calls paid_db).rows ≡ some paid_row
run_all_settled_example = run_all_settled some reg calls paid_db "o1" refl refl

timeout_exactly_once_example :
    let db = run_all some reg calls empty_db in
    timeouts_of "o1" db.outbox ≡ emitted_count (lookup "o1" db.rows)
timeout_exactly_once_example = timeout_exactly_once some reg calls "o1"

abbrev call : Pay.Env
call = record {
  new_id = "p1";
  now = pos 7;
  out_topic = "payments.events";
  insert_fault = none;
  enqueue_fault = none;
}

abbrev bill : Pay.ProcessParams ℤ
bill = record { order_id = "o1"; price = yen_of (pos 2_000_000) }

abbrev one_token : Limiter Bool
one_token = record { new_limiter = true; allow_n = λ now l. (false, l) }

abbrev full_of : String → Memory Bool
full_of k = record {
  entries = (k, record { lim = true; last_seen = 3 }) ∷ [];
  max_entries = 1;
  idle_ttl = 600;
}

allow_bounded_example :
    length (allow one_token 9 (full_of "a").entries "b" (full_of "a")).0.entries ≤ 1
allow_bounded_example =
    allow_bounded one_token 9 "a" (record { lim = true; last_seen = 3 }) [] "b" (full_of "a") refl
      refl (omega arith)

allow_exceeds_example :
    length (allow one_token 9 (full_of "").entries "b" (full_of "")).0.entries ≡ 2
unfolding sampled_oldest
allow_exceeds_example =
    allow_exceeds one_token 9 (full_of "").entries "b" (full_of "") refl refl refl

abbrev failed_record : Option String → Record
failed_record attempt = record {
  topic = "orders.commands";
  key = "o1";
  payload = "{}";
  headers = elim attempt [
    | none ↦ []
    | some a ↦
        ("retry-attempt", codes a)
        ∷ ("retry-orig-topic", codes "orders.commands")
        ∷ ("retry-due-at", codes "5")
        ∷ []
  ];
}

abbrev timeout : Cause
timeout = record { cause_text = codes "timeout"; permanent = false; cause_code = none }

publish_next_routes_example :
    (out : Record) × (publish_next default_policy none 9 "orders.commands"
        (failed_record (some "2"))
        timeout
        []
      ≡ (out ∷ [], ok out.topic))
    × (out.key ≡ "o1")
    × (out.payload ≡ "{}")
    × (out.topic ≡ tier_topic "orders.commands" (pos 2))
unfolding parse_retry_headers atoi
publish_next_routes_example =
    publish_next_routes default_policy 9 2 "orders.commands" (failed_record (some "2")) timeout []
      refl
