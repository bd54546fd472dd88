-- ===== src/Stream/Elsewhere.antt =====
-- examples/gateway/internal/projection: an event leaves the rows of other orders alone.
use go_boilerplate.Prelude.{
  ◌≡◌, ap, ◌∙◌, false, Option, some, String, str_eq, eq_iff, ℤ, arith, Bool-cases, Option-cases,
  inl, ◌⊎◌, inr,
}
use go_boilerplate.Dict.{Dict, lookup, lookup-insert}
use go_boilerplate.Projection.{
  ReadDb, ReadRow, ViewEvent, order_created, payment_processed, order_payment_timed_out,
  payment_failed_with, handle_event, handle_terminal, mark_terminal, upsert_order_created,
  kept_status, placeholder, ViewStatus, paid, payment_failed, payment_timeout,
}
use go_boilerplate.Stream.Gateway.{order_of}

-- A row changes only by an event of its own order.
upsert-elsewhere :
    (k j customer : String) (amount : ℤ) (currency : String) (rows : Dict ReadRow)
    → str_eq k j ≡ false
    → lookup j (upsert_order_created k customer amount currency rows) ≡ lookup j rows
unfolding upsert_order_created
upsert-elsewhere k j customer amount currency rows apart =
    lookup-insert k j
      (record {
        customer_id = customer;
        amount_cents = amount;
        currency = currency;
        status = kept_status (lookup k rows);
      })
      rows
    ∙ rw apart

mark-elsewhere :
    (k j : String) (to : ViewStatus) (rows : Dict ReadRow)
    → str_eq k j ≡ false
    → lookup j (mark_terminal k to rows).0 ≡ lookup j rows
unfolding mark_terminal
mark-elsewhere k j to rows apart = elim (Option-cases (lookup k rows)) [
  | inl missing ↦ ground (arith, lookup-insert k j (placeholder to) rows)
  | inr (r, found) ↦ ground (arith, lookup-insert k j (record r { status = to }) rows)
]

module _ (parse_uuid : String → Option String) where
  terminal-elsewhere :
      (fault : Option String) (raw j : String) (to : ViewStatus) (db : ReadDb)
      → (parse_uuid raw ≡ some j)
        ⊎ (lookup j (handle_terminal parse_uuid fault raw to db).0.orders ≡ lookup j db.orders)
  terminal-elsewhere fault raw j to db = elim (Option-cases (parse_uuid raw)) [
    | inl bad ↦ inr (ground arith)
    | inr (k, parsed) ↦ elim (Bool-cases (str_eq k j)) [
      | inl same ↦ inl (parsed ∙ ap some ((eq_iff k j).0 same))
      | inr apart ↦ inr (ground (arith, mark-elsewhere k j to db.orders apart))
    ]
  ]

  pub event-elsewhere :
      (fault : Option String) (e : ViewEvent) (j : String) (db : ReadDb)
      → (parse_uuid (order_of e) ≡ some j)
        ⊎ (lookup j (handle_event parse_uuid fault e db).0.orders ≡ lookup j db.orders)
  unfolding handle_event
  event-elsewhere fault (order_created raw customer amount currency) j db =
      elim (Option-cases (parse_uuid raw)) [
        | inl bad ↦ inr (ground arith)
        | inr (k, parsed) ↦ elim (Bool-cases (str_eq k j)) [
          | inl same ↦ inl (parsed ∙ ap some ((eq_iff k j).0 same))
          | inr apart ↦
              inr (ground (arith, upsert-elsewhere k j customer amount currency db.orders apart))
        ]
      ]
  event-elsewhere fault (payment_processed raw) j db = terminal-elsewhere fault raw j paid db
  event-elsewhere fault (order_payment_timed_out raw) j db =
      terminal-elsewhere fault raw j payment_timeout db
  event-elsewhere fault (payment_failed_with raw reason) j db =
      terminal-elsewhere fault raw j payment_failed db
