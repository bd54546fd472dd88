-- ===== src/Money/Validate.antt =====
-- platform/money/validate.go: the composable rules. A rule returns `none` for a bare nil.
use Prim.Native.Nat.{Ordering}
use go_boilerplate.Prelude.{
  Bool, true, false, ◌||◌, not, Option, none, some, List, [], ◌∷◌, String, str_eq, ◌<>◌, itoa, ℤ,
  pos, negate, ltb_ℤ, Result, ok, err, if◌then◌else◌,
}
use go_boilerplate.Decimal.{Decimal}
use go_boilerplate.Money.Error.{
  Error, out_of_range, invalid_amount, unknown_asset, scale_exceeded, asset_not_allowed,
  not_multiple, code_err, with_asset, with_detail,
}
use go_boilerplate.Money.Asset.{Asset, Registry, lookup_asset}
use go_boilerplate.Money.Amount.{Money}
use go_boilerplate.Money.Arith.{same_asset, cmp_money}
use go_boilerplate.Money.Compare.{is_lt, is_gt}
pub mod Laws

-- The error of a failed check, or none.
abbrev pub check : Bool → Error → Option Error
check true e = none
check false e = some e

-- `e.Op = op` on a failure.
abbrev pub rename_op : String → Option Error → Option Error
rename_op o none = none
rename_op o (some e) = some (record e { op = o })

-- `if e != nil { return e }`, then what follows.
abbrev pub first_failure : Option Error → Option Error → Option Error
first_failure none rest = rest
first_failure (some e) rest = some e

abbrev pub Rule : Type 0 → Type 0
Rule D = Money D → Option Error

module _ {D : Type 0} ⦃dec : Decimal D⦄ where
  unfoldable pub validate : Money D → List (Rule D) → Option Error
  validate m [] = none
  validate m (r ∷ rs) = first_failure (r m) (validate m rs)

  unfoldable pub positive : Rule D
  positive m =
      check (ltb_ℤ (pos 0) (dec.sign m.amount))
        (with_detail "must be > 0" (code_err out_of_range "Validate.Positive"))

  unfoldable pub non_negative : Rule D
  non_negative m =
      check (not (ltb_ℤ (dec.sign m.amount) (pos 0)))
        (with_detail "must be >= 0" (code_err out_of_range "Validate.NonNegative"))

  unfoldable pub non_zero : Rule D
  non_zero m =
      check (not (dec.is_zero m.amount))
        (with_detail "must be non-zero" (code_err invalid_amount "Validate.NonZero"))

  -- `Min`; the errors of `Cmp` are money errors already, so `asErr` returns them as they are.
  unfoldable pub at_least : Money D → Rule D
  at_least lo m = elim (cmp_money m lo) [
    | err e ↦ some e
    | ok c ↦ check (not (is_lt c)) (
        with_detail ("must be >= " <> dec.to_string lo.amount)
          (with_asset m.asset (code_err out_of_range "Validate.Min")))
  ]

  -- `Max`.
  unfoldable pub at_most : Money D → Rule D
  at_most hi m = elim (cmp_money m hi) [
    | err e ↦ some e
    | ok c ↦ check (not (is_gt c)) (
        with_detail ("must be <= " <> dec.to_string hi.amount)
          (with_asset m.asset (code_err out_of_range "Validate.Max")))
  ]

  unfoldable pub between : Money D → Money D → Rule D
  between lo hi m =
      first_failure (rename_op "Validate.Between" (at_least lo m))
        (rename_op "Validate.Between" (at_most hi m))

  unfoldable pub scale_of : Money D → ℤ
  scale_of m = let e = dec.exponent m.amount in if ltb_ℤ e (pos 0) then negate e else pos 0

  unfoldable pub scale_within : Money D → ℤ → String → Option Error
  unfolding scale_of
  scale_within m n op =
      let s = scale_of m in
      check (not (ltb_ℤ n s)) (
        with_detail ("scale " <> itoa s <> " exceeds max " <> itoa n)
          (with_asset m.asset (code_err scale_exceeded op)))

  unfoldable pub max_scale : Registry → Rule D
  unfolding scale_within
  max_scale reg m = elim (lookup_asset m.asset reg) [
    | none ↦ some (with_asset m.asset (code_err unknown_asset "Validate.MaxScale"))
    | some a ↦ scale_within m a.exponent "Validate.MaxScale"
  ]

  unfoldable pub scale_at_most : ℤ → Rule D
  unfolding scale_within
  scale_at_most n m = scale_within m n "Validate.ScaleAtMost"

  unfoldable pub allowed_assets : List String → Rule D
  allowed_assets [] m =
      some (with_asset m.asset (code_err asset_not_allowed "Validate.AllowedAssets"))
  allowed_assets (c ∷ cs) m = if str_eq m.asset c then none else allowed_assets cs m

  unfoldable pub multiple_of : Money D → Rule D
  multiple_of step m = elim (same_asset m step) [
    | err e ↦ some e
    | ok _ ↦
        if dec.is_zero step.amount
        then some (
            with_detail "step must be non-zero"
              (with_asset m.asset (code_err invalid_amount "Validate.MultipleOf")))
        else check (dec.is_zero (dec.mod_of m.amount step.amount)) (
            with_detail ("must be a multiple of " <> dec.to_string step.amount)
              (with_asset m.asset (code_err not_multiple "Validate.MultipleOf")))
  ]
