-- ===== src/Money/Arith.antt =====
-- platform/money/arith.go, dec.go: arithmetic and the rounding modes.
use Prim.Native.Nat.{Ordering}
use go_boilerplate.Prelude.{
  ◌||◌, List, [], ◌∷◌, str_eq, ℤ, pos, ◌+ℤ◌, not, Result, ok, err, ◌>>=◌, ◌>>◌, if◌then◌else◌,
}
use go_boilerplate.Decimal.{Decimal}
use go_boilerplate.Money.Error.{
  Error, currency_mismatch, div_by_zero, invalid_amount, code_err, with_assets, with_detail,
}
use go_boilerplate.Money.Amount.{Money}

-- The six rounding modes; the source maps any other number to `half_even`.
pub data RoundingMode : Type 0 where
  half_even half_up down up ceil floor other_mode : RoundingMode

abbrev pub div_guard_digits : ℤ
div_guard_digits = pos 16

module _ {D : Type 0} ⦃dec : Decimal D⦄ where
  unfoldable pub apply_mode : RoundingMode → D → ℤ → D
  apply_mode half_even d scale = dec.round_bank d scale
  apply_mode half_up d scale = dec.round d scale
  apply_mode down d scale = dec.truncate d scale
  apply_mode up d scale = dec.round_up d scale
  apply_mode ceil d scale = dec.round_ceil d scale
  apply_mode floor d scale = dec.round_floor d scale
  apply_mode other_mode d scale = dec.round_bank d scale

  unfoldable pub same_asset : Money D → Money D → Result Error (Unit {0})
  same_asset m n =
      if str_eq m.asset "" || str_eq n.asset ""
      then err
          (with_detail "zero-value Money is not a valid operand" (code_err currency_mismatch ""))
      else if not (str_eq m.asset n.asset)
      then err (with_assets m.asset n.asset (code_err currency_mismatch ""))
      else ok tt

  unfoldable pub add_money : Money D → Money D → Result Error (Money D)
  unfolding same_asset
  add_money m n = do
    same_asset m n
    ok (record { amount = dec.add m.amount n.amount; asset = m.asset })

  -- The loop of `Sum` over `ms[1:]`.
  unfoldable pub sum_from : Money D → List (Money D) → Result Error (Money D)
  sum_from total [] = ok total
  sum_from total (m ∷ ms) = do t ← add_money total m; sum_from t ms

  unfoldable pub sum_money : List (Money D) → Result Error (Money D)
  sum_money [] = err (with_detail "needs at least one operand" (code_err invalid_amount "Sum"))
  sum_money (m ∷ ms) = sum_from m ms

  unfoldable pub sub_money : Money D → Money D → Result Error (Money D)
  unfolding same_asset
  sub_money m n = do
    same_asset m n
    ok (record { amount = dec.sub m.amount n.amount; asset = m.asset })

  unfoldable pub mul_money : Money D → D → Money D
  mul_money m factor = record { amount = dec.mul m.amount factor; asset = m.asset }

  unfoldable pub div_round_money : Money D → D → ℤ → RoundingMode → Result Error (Money D)
  unfolding apply_mode
  div_round_money m divisor scale mode =
      if dec.is_zero divisor
      then err (code_err div_by_zero "")
      else let q = dec.div_round m.amount divisor (scale +ℤ div_guard_digits) in
        ok (record { amount = apply_mode mode q scale; asset = m.asset })

  unfoldable pub neg_money : Money D → Money D
  neg_money m = record { amount = dec.neg m.amount; asset = m.asset }

  unfoldable pub abs_money : Money D → Money D
  abs_money m = record { amount = dec.abs m.amount; asset = m.asset }

  unfoldable pub cmp_money : Money D → Money D → Result Error Ordering
  unfolding same_asset
  cmp_money m n = do same_asset m n; ok (dec.cmp m.amount n.amount)
