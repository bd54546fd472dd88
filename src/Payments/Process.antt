-- ===== src/Payments/Process.antt =====
-- examples/payments: the decline rule and the rows and events that `Process` writes.
use go_boilerplate.Prelude.{◌≡◌, ◌≢◌, refl, not, some, arith, negate, ok}
use go_boilerplate.Decimal.{Decimal}
use go_boilerplate.Money.Asset.{Asset, Registry, lookup_asset}
use go_boilerplate.Money.Amount.{Money, from_minor}
use go_boilerplate.Money.Arith.{cmp_money}
use go_boilerplate.Money.Compare.{greater_than_or_equal, is_lt}
use go_boilerplate.Money.Alloc.Conserve.{same_asset_lem}
use go_boilerplate.Payments.{decline_threshold_minor, is_declined}

module _ {D : Type 0} ⦃dec : Decimal D⦄ where
  -- For an amount of a registered asset the decision never fails: the payment is declined exactly
  -- when the amount is not below 1 000 000 smallest units of its own asset.
  pub is_declined_lem :
      (reg : Registry) (m : Money D) {a : Asset}
      → m.asset ≢ ""
      → lookup_asset m.asset reg ≡ some a
      → is_declined reg m
        ≡ ok (
            not (
              is_lt (
                dec.cmp m.amount
                  (dec.new_from_big_int decline_threshold_minor (negate a.exponent)))))
  unfolding is_declined from_minor greater_than_or_equal cmp_money
  is_declined_lem reg m {a = a} named known = ground (
    arith,
    same_asset_lem m
        (record {
          amount = dec.new_from_big_int decline_threshold_minor (negate a.exponent);
          asset = m.asset;
        })
        named refl,
  )
