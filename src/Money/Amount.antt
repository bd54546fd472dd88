-- ===== src/Money/Amount.antt =====
-- platform/money/money.go: amounts, their constructors and their minor units. The methods of
-- `decimal` are those of the interface `Decimal`; the registry is an argument.
pub mod Minor
use go_boilerplate.Prelude.{
  Bool, false, not, ◌||◌, Option, none, some, String, ◌<>◌, ℤ, pos, negate, ltb_ℤ, Result, ok, err,
  ◌>>=◌, ◌>>◌, if◌then◌else◌,
}
use go_boilerplate.Decimal.{Decimal}
use go_boilerplate.Money.Error.{
  Error, unknown_asset, parse_failed, invalid_amount, amount_too_large, inexact_minor, code_err,
  with_asset, with_detail, wrap,
}
use go_boilerplate.Money.Asset.{Asset, Registry, lookup_asset}

pub record Money (D : Type 0) : Type 0 where
  pub amount : D
  pub asset : String

abbrev pub max_parse_digits : ℤ
max_parse_digits = pos 1000

abbrev pub max_parse_exp : ℤ
max_parse_exp = pos 256

-- `a, ok := Lookup(code)` where the error path returns `e`.
abbrev pub require_asset : Option Asset → Error → Result Error Asset
require_asset none e = err e
require_asset (some a) e = ok a

-- `a, _ := Lookup(code)`: the exponent of the zero `Asset` where the code is unknown.
abbrev pub exponent_or_zero : Option Asset → ℤ
exponent_or_zero none = pos 0
exponent_or_zero (some a) = a.exponent

module _ {D : Type 0} ⦃dec : Decimal D⦄ where
  unfoldable pub guard_magnitude : D → String → Result Error (Unit {0})
  guard_magnitude d op =
      if ltb_ℤ max_parse_digits (dec.num_digits d)
      then err (with_detail "coefficient exceeds digit bound" (code_err amount_too_large op))
      else let e = dec.exponent d in
        if ltb_ℤ max_parse_exp e || ltb_ℤ e (negate max_parse_exp)
        then err (with_detail "exponent out of bounds" (code_err amount_too_large op))
        else ok tt

  -- The error text of `decimal.NewFromString` comes from that library, as a function of its input.
  abbrev pub parsed : Option D → Error → Result Error D
  parsed none e = err e
  parsed (some d) e = ok d

  unfoldable pub parse : (String → String) → Registry → String → String → Result Error (Money D)
  unfolding guard_magnitude
  parse cause reg s asset = do
    a ← require_asset (lookup_asset asset reg) (with_asset asset (code_err unknown_asset "Parse"))
    d ←
        parsed (dec.new_from_string s)
          (wrap (cause s) (with_detail s (code_err parse_failed "Parse")))
    guard_magnitude d "Parse"
    ok (record { amount = d; asset = asset })

  abbrev pub zero_of : (String → String) → Registry → String → Result Error (Money D)
  zero_of cause reg asset = parse cause reg "0" asset

  -- The nil `*big.Int` is `none`.
  unfoldable pub from_minor : Registry → Option ℤ → String → Result Error (Money D)
  from_minor reg none asset = err (with_detail "nil amount" (code_err invalid_amount "FromMinor"))
  from_minor reg (some minor) asset = do
    a ←
        require_asset (lookup_asset asset reg)
          (with_asset asset (code_err unknown_asset "FromMinor"))
    ok (record { amount = dec.new_from_big_int minor (negate a.exponent); asset = asset })

  unfoldable pub minor_units : Registry → Money D → Result Error ℤ
  minor_units reg m = do
    a ←
        require_asset (lookup_asset m.asset reg)
          (with_asset m.asset (code_err unknown_asset "Minor"))
    let shifted = dec.shift m.amount a.exponent
    if dec.equal shifted (dec.truncate shifted (pos 0))
        then ok (dec.big_int shifted)
        else err (
            with_detail "amount has sub-smallest-unit precision"
              (with_asset m.asset (code_err inexact_minor "Minor")))

  abbrev pub sub_minor : Option Asset → D → Bool
  sub_minor none d = false
  sub_minor (some a) d =
      let shifted = dec.shift d a.exponent in not (dec.equal shifted (dec.truncate shifted (pos 0)))

  unfoldable pub has_sub_minor : Registry → Money D → Bool
  has_sub_minor reg m = sub_minor (lookup_asset m.asset reg) m.amount

  unfoldable pub money_string : Money D → String
  money_string m = dec.to_string m.amount <> " " <> m.asset
