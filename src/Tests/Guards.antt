-- ===== src/Tests/Guards.antt =====
-- The theorems about the read model of orders and the command pipeline at concrete inputs.
use go_boilerplate.Prelude.{
  ℕ, suc, ◌≡◌, refl, false, none, some, Option, List, [], ◌∷◌, String, pos, ok, err, inl,
}
use go_boilerplate.Dict.{lookup}
use go_boilerplate.Lineage.{Principal}
use go_boilerplate.Projection.{
  ReadDb, ViewEvent, order_created, paid, payment_failed_with, mark_terminal, upsert_order_created,
  placeholder,
}
use go_boilerplate.Projection.Terminal.{
  final_status, handle_all, first_terminal_wins, created_terminal_commute,
}
use go_boilerplate.Cqrs.{
  CommandError, CallContext, HandlerFunc, Pipeline, no_struct, decorate, behaviors,
}
use go_boilerplate.Cqrs.Guards.{unauthorized_blocked}

abbrev any_uuid : String → Option String
any_uuid s = some s

abbrev paid_order : ReadDb
paid_order = record { orders = ("o1", placeholder paid) ∷ []; observed = []; ignored = [] }

abbrev late_events : List (Option String × ViewEvent)
late_events =
    (none, payment_failed_with "o1" "declined")
    ∷ (none, order_created "o1" "c1" (pos 500) "JPY")
    ∷ []

first_terminal_wins_example :
    final_status (lookup "o1" (handle_all any_uuid late_events paid_order).orders) ≡ some paid
first_terminal_wins_example = first_terminal_wins any_uuid late_events paid_order "o1" paid refl

created_terminal_commute_example :
    lookup "o1" (mark_terminal "o1" paid (upsert_order_created "o1" "c1" (pos 500) "JPY" [])).0
    ≡ lookup "o1" (upsert_order_created "o1" "c1" (pos 500) "JPY" (mark_terminal "o1" paid []).0)
created_terminal_commute_example =
    created_terminal_commute "o1" "c1" (pos 500) "JPY" paid [] "o1" refl refl

abbrev anonymous : CallContext
anonymous = record { principal = none; caller_done = false; budget_spent = false }

abbrev refuse_all : Principal → ℕ → Option String
refuse_all who cmd = some "no"

abbrev guarded_pipeline : Pipeline ℕ String ℕ ℕ
guarded_pipeline = record {
  deadline = pos 0;
  authz = some refuse_all;
  caching = none;
  tx = none;
  uses_outbox = false;
  extra = [];
}

abbrev adding : HandlerFunc ℕ String ℕ ℕ
adding ctx cmd s = (suc s, ok cmd)

unauthorized_blocked_example :
    (e : CommandError String) × (decorate
        (behaviors (λ e. false) (λ c. no_struct) guarded_pipeline)
        adding
        anonymous
        7
        4
      ≡ (4, err e))
unauthorized_blocked_example =
    unauthorized_blocked anonymous 7 4 (λ e. false) (λ c. no_struct) guarded_pipeline adding
      refuse_all refl (inl refl)
