-- ===== src/Money/Alloc.antt =====
-- platform/money/alloc.go: `Split` and `Allocate`. The big integers are ℤ; `total` is an `int`, so
-- its sum wraps at 64 bits.
pub mod Shares
pub mod Conserve
pub mod Fair
use go_boilerplate.Prelude.{
  ℕ, zero, suc, ◌+◌, ◌%◌, List, [], ◌∷◌, map, String, ◌<>◌, itoa, ℤ, pos, pos_part, negate, abs,
  sign, ltb_ℤ, eqb_ℤ, ◌+ℤ◌, ◌-ℤ◌, ◌*ℤ◌, div_ℤ, wrap64, Result, ok, err, ◌>>=◌, if◌then◌else◌,
  length, replicate,
}
use go_boilerplate.Decimal.{Decimal}
use go_boilerplate.Money.Error.{Error, invalid_ratio, code_err, with_detail}
use go_boilerplate.Money.Asset.{Registry, lookup_asset}
use go_boilerplate.Money.Amount.{Money, exponent_or_zero}

abbrev bad_ratio : String → Error
bad_ratio d = with_detail d (code_err invalid_ratio "Allocate")

-- The loop that checks and adds up the ratios.
unfoldable pub total_ratio : ℤ → List ℤ → Result Error ℤ
total_ratio total [] = ok total
total_ratio total (r ∷ rs) =
    let rest = total_ratio (wrap64 (total +ℤ r)) rs in
    if ltb_ℤ r (pos 0) then err (bad_ratio ("negative ratio " <> itoa r)) else rest

-- The share of one ratio: `Mul`, then `Div` by the total.
unfoldable pub share : ℤ → ℤ → ℤ → ℤ
share whole total r = div_ℤ (whole *ℤ r) total

-- The loop that fills `shares`.
unfoldable pub shares_of : ℤ → ℤ → List ℤ → List ℤ
shares_of whole total rs = map (share whole total) rs

-- `allocated`: the sum that the same loop accumulates.
unfoldable pub allocated_from : ℤ → List ℤ → ℤ
allocated_from acc [] = acc
allocated_from acc (s ∷ ss) = allocated_from (acc +ℤ s) ss

-- `shares[i].Add(shares[i], one)`.
unfoldable pub bump : List ℤ → ℕ → List ℤ
bump [] i = []
bump (s ∷ ss) zero = (s +ℤ pos 1) ∷ ss
bump (s ∷ ss) (suc i) = s ∷ bump ss i

-- The loop that hands out the remainder. It runs while the remainder is positive and takes one from
-- it in each round, so the number of rounds left is the remainder's positive part.
unfoldable pub hand_out : ℕ → ℕ → List ℤ → List ℤ
hand_out zero i shares = shares
hand_out (suc n) i shares = hand_out n ((i + 1) % length shares) (bump shares i)

-- The shares of a magnitude, as `Allocate` computes them.
unfoldable pub split_magnitude : ℤ → ℤ → List ℤ → List ℤ
split_magnitude whole total ratios =
    let shares = shares_of whole total ratios in
    let remainder = whole -ℤ allocated_from (pos 0) shares in hand_out (pos_part remainder) 0 shares

-- `v := s; if sign < 0 { v = -s }`.
abbrev pub with_sign : ℤ → ℤ → ℤ
with_sign sgn s = if ltb_ℤ sgn (pos 0) then negate s else s

module _ {D : Type 0} ⦃dec : Decimal D⦄ where
  -- The integer of smallest units that is allocated.
  unfoldable pub whole_minor : Registry → Money D → ℤ
  whole_minor reg m = dec.big_int (dec.shift m.amount (exponent_or_zero (lookup_asset m.asset reg)))

  -- The last loop: one amount for each share.
  unfoldable pub part : Registry → Money D → ℤ → ℤ → Money D
  part reg m sgn s = record {
    amount =
        dec.new_from_big_int (with_sign sgn s)
          (negate (exponent_or_zero (lookup_asset m.asset reg)));
    asset = m.asset;
  }

  unfoldable pub allocate : Registry → Money D → List ℤ → Result Error (List (Money D))
  allocate reg m [] = err (bad_ratio "needs at least one ratio")
  allocate reg m (r ∷ rs) = do
    total ← total_ratio (pos 0) (r ∷ rs)
    let minor = whole_minor reg m
    if eqb_ℤ total (pos 0)
        then err (bad_ratio "ratios sum to zero")
        else ok (map (part reg m (sign minor)) (split_magnitude (abs minor) total (r ∷ rs)))

  unfoldable pub split : Registry → Money D → ℤ → Result Error (List (Money D))
  split reg m n =
      if ltb_ℤ (pos 0) n
      then allocate reg m (replicate (pos_part n) (pos 1))
      else err (with_detail ("needs n > 0, got " <> itoa n) (code_err invalid_ratio "Split"))
