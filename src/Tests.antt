-- ===== src/Tests.antt =====
-- The theorems at concrete inputs, over whole-number amounts in yen.
mod Services
mod Messaging
mod Delivery
mod Hooks
mod Guards
mod Audit
mod Partitions
mod Stream
use go_boilerplate.Prelude.{
  ℕ, suc, ◌+◌, ◌*◌, ◌^◌, ◌<◌, ◌≡◌, ◌≢◌, ◌↔◌, refl, Bool, true, Option, none, some, List, [], ◌∷◌,
  ◌++◌, map, arith, String, str_eq, eq_iff, ℤ, pos, negsuc, negate, sign, ok, err, length, inl, inr,
  ltb_ℤ, if◌then◌else◌, replicate, leb, ◌||◌, not,
}
use go_boilerplate.Dict.{Dict, lookup, contains}
use go_boilerplate.Decimal.{Decimal}
use go_boilerplate.Decimal.Whole.{whole_decimal, whole_values, whole_laws}
use go_boilerplate.Money.Error.{Error, invalid_ratio}
use go_boilerplate.Money.Asset.{Asset, fiat, Registry, lookup_asset, register}
use go_boilerplate.Money.Amount.{Money, has_sub_minor, exponent_or_zero}
use go_boilerplate.Money.Arith.{sum_money}
use go_boilerplate.Money.Compare.{equal_money}
use go_boilerplate.Money.Alloc.{allocate, split, part, whole_minor}
use go_boilerplate.Money.Alloc.Shares.{sum}
use go_boilerplate.Money.Alloc.Fair.{
  allocate_exact, split_fair, allocate_negative, allocate_overflow, huge_ratios,
}
use go_boilerplate.Money.Asset.Register.{register_all, register_all_stable, register_ok}

abbrev yen : Asset
yen = record { code = "JPY"; exponent = pos 0; kind = fiat }

abbrev yen_registry : Registry
yen_registry = ("JPY", yen) ∷ []

abbrev price : Money ℤ
price = record { amount = pos 100; asset = "JPY" }

price_named : price.asset ≢ ""
price_named e = cc ((eq_iff "JPY" "").1 e)

allocate_exact_example :
    (parts : List (Money ℤ)) × (allocate yen_registry price (map pos (1 ∷ 1 ∷ 1 ∷ [])) ≡ ok parts)
    × (u : Money ℤ) × (sum_money parts ≡ ok u)
    × (equal_money u price ≡ true)
unfolding has_sub_minor sum
allocate_exact_example =
    allocate_exact whole_laws yen_registry price 1 (1 ∷ 1 ∷ []) price_named refl refl (omega arith)
      (omega arith)

split_fair_example :
    split yen_registry price (pos 3)
    ≡ ok (map (part yen_registry price (pos 1)) (pos 34 ∷ pos 33 ∷ pos 33 ∷ []))
unfolding whole_minor
split_fair_example = split_fair yen_registry price 100 3 refl (omega arith) (omega arith)

allocate_overflow_example :
    (ss : List ℕ) × (allocate yen_registry price (map pos huge_ratios)
      ≡ ok (map (part yen_registry price (pos 1)) (map pos ss)))
    × (length ss ≡ 3)
    × (sum ss ≡ 100 * (2 ^ 64 + 1))
unfolding whole_minor
allocate_overflow_example = allocate_overflow yen_registry price 100 refl

register_all_stable_example :
    lookup_asset "JPY" (register_all (record yen { exponent = pos 2 } ∷ []) yen_registry) ≡ some yen
register_all_stable_example =
    register_all_stable (record yen { exponent = pos 2 } ∷ []) yen_registry "JPY" refl
