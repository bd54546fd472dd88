-- ===== src/Money/Compare.antt =====
-- platform/money/compare.go, convert.go, round.go: comparison, conversion and rounding.
use Prim.Native.Nat.{Ordering}
use go_boilerplate.Prelude.{
  Bool, true, false, ◌&&◌, Option, none, some, String, str_eq, ℤ, pos, negsuc, not, ltb_ℤ, Result,
  ok, err, ◌>>=◌, ◌>>◌, guard, if◌then◌else◌,
}
use go_boilerplate.Decimal.{Decimal}
use go_boilerplate.Money.Error.{
  Error, currency_mismatch, unknown_asset, invalid_rate, code_err, with_asset, with_assets,
  with_detail,
}
use go_boilerplate.Money.Asset.{Registry, lookup_asset}
use go_boilerplate.Money.Amount.{Money, require_asset, exponent_or_zero}
use go_boilerplate.Money.Arith.{RoundingMode, apply_mode, sub_money, mul_money, cmp_money}

-- `c < 0` and `c > 0`.
abbrev pub is_lt : Ordering → Bool
is_lt Ordering.lt = true
is_lt Ordering.eq = false
is_lt Ordering.gt = false

abbrev pub is_gt : Ordering → Bool
is_gt Ordering.lt = false
is_gt Ordering.eq = false
is_gt Ordering.gt = true

-- `return test(c), err`, where `c` is 0 beside an error.
abbrev pub test_cmp : (Ordering → Bool) → Result Error Ordering → Bool × Option Error
test_cmp t (ok c) = (t c, none)
test_cmp t (err e) = (t Ordering.eq, some e)

pub record Rate (D : Type 0) : Type 0 where
  pub rate_from : String
  pub rate_to : String
  pub factor : D

module _ {D : Type 0} ⦃dec : Decimal D⦄ where
  unfoldable pub less_than : Money D → Money D → Bool × Option Error
  less_than m n = test_cmp is_lt (cmp_money m n)

  unfoldable pub less_than_or_equal : Money D → Money D → Bool × Option Error
  less_than_or_equal m n = test_cmp (λ c. not (is_gt c)) (cmp_money m n)

  unfoldable pub greater_than : Money D → Money D → Bool × Option Error
  greater_than m n = test_cmp is_gt (cmp_money m n)

  unfoldable pub greater_than_or_equal : Money D → Money D → Bool × Option Error
  greater_than_or_equal m n = test_cmp (λ c. not (is_lt c)) (cmp_money m n)

  unfoldable pub min_money : Money D → Money D → Result Error (Money D)
  min_money m n = do c ← cmp_money m n; if not (is_gt c) then ok m else ok n

  unfoldable pub max_money : Money D → Money D → Result Error (Money D)
  max_money m n = do c ← cmp_money m n; if not (is_lt c) then ok m else ok n

  unfoldable pub equal_money : Money D → Money D → Bool
  equal_money m n = str_eq m.asset n.asset && dec.equal m.amount n.amount

  -- `Convert`: the guards stand in the order of the source.
  unfoldable pub convert : Registry → Money D → Rate D → Result Error (Money D)
  convert reg m r = do
    guard (str_eq m.asset r.rate_from)
        (with_assets m.asset r.rate_from (code_err currency_mismatch "Convert"))
    a ←
        require_asset (lookup_asset r.rate_to reg)
          (with_asset r.rate_to (code_err unknown_asset "Convert"))
    guard (ltb_ℤ (pos 0) (dec.sign r.factor)) (
        with_detail "rate factor must be > 0"
          (with_assets r.rate_from r.rate_to (code_err invalid_rate "Convert")))
    ok (record { amount = dec.mul m.amount r.factor; asset = r.rate_to })

  unfoldable pub round_to : Money D → ℤ → RoundingMode → Money D
  unfolding apply_mode
  round_to m scale mode = record { amount = apply_mode mode m.amount scale; asset = m.asset }

  unfoldable pub round_money : Registry → Money D → RoundingMode → Money D
  unfolding round_to
  round_money reg m mode = round_to m (exponent_or_zero (lookup_asset m.asset reg)) mode

  unfoldable pub truncate_money : Money D → ℤ → Money D
  truncate_money m scale = record { amount = dec.truncate m.amount scale; asset = m.asset }

  unfoldable pub whole : Money D → Money D
  unfolding truncate_money
  whole m = truncate_money m (pos 0)

  -- `f, _ := m.Sub(m.Whole())`: beside an error `Sub` returns `Money{}`.
  unfoldable pub fraction : Money D → Money D
  unfolding sub_money whole
  fraction m = elim (sub_money m (whole m)) [
    | ok f ↦ f
    | err _ ↦ record { amount = dec.zero_decimal; asset = "" }
  ]

  unfoldable pub percent : Money D → D → Money D
  unfolding mul_money
  percent m p = mul_money m (dec.shift p (negsuc 1))
