-- ===== src/Money/Alloc/Fair.antt =====
-- platform/money/alloc.go: exactness, `Split`, the error paths, and the overflow of `total`.
use native.Mathlib.Nat.{mod-lt, div-add-mod, mul-one}
use go_boilerplate.Prelude.{
  ℕ, zero, suc, ◌+◌, ◌*◌, ◌/◌, ◌%◌, ◌-◌, ◌^◌, ◌≤◌, ◌<◌, ◌≡◌, ◌≢◌, refl, ap, ◌∙◌, ◌++◌, Bool, true,
  false, Option, some, none, List, [], ◌∷◌, map, arith, eq_iff, ℤ, pos, negate, abs, sign, ltb_ℤ,
  ◌+ℤ◌, wrap64, ok, err, length, replicate, Bool-cases, inl, inr, not, ◌||◌, itoa, ◌<>◌,
}
use go_boilerplate.Decimal.{Decimal, Values, DecimalLaws}
use go_boilerplate.Money.Error.{Error, invalid_ratio, with_detail, code_err}
use go_boilerplate.Money.Asset.{Asset, Registry, lookup_asset}
use go_boilerplate.Money.Amount.{Money, exponent_or_zero, has_sub_minor, sub_minor}
use go_boilerplate.Money.Arith.{sum_money}
use go_boilerplate.Money.Compare.{equal_money}
use go_boilerplate.Money.Alloc.{allocate, split, part, bad_ratio, whole_minor, total_ratio}
use go_boilerplate.Money.Alloc.Shares.{
  sum, fair_shares, floors, first_plus, split_magnitude-over, length-floors,
}
use go_boilerplate.Money.Alloc.Conserve.{allocate_conserves, allocate_value}

not_eq_false : (b : Bool) → not b ≡ false → b ≡ true
not_eq_false b h = ground arith

module _ {D V : Type 0} ⦃dec : Decimal D⦄ {vals : Values V} (laws : DecimalLaws dec vals) where
  exact_minor :
      (o : Option Asset) (d : D) {a : Asset}
      → o ≡ some a
      → sub_minor o d ≡ false
      → laws.value (
          dec.new_from_big_int
            (dec.big_int (dec.shift d (exponent_or_zero o)))
            (negate (exponent_or_zero o)))
        ≡ laws.value d
  exact_minor none d known exact = cc
  exact_minor (some b) d known exact = laws.value-new_big_int d b.exponent (not_eq_false _ exact)

  exact_value :
      (reg : Registry) (m : Money D) {a : Asset}
      → lookup_asset m.asset reg ≡ some a
      → has_sub_minor reg m ≡ false
      → laws.value (
          dec.new_from_big_int
            (whole_minor reg m)
            (negate (exponent_or_zero (lookup_asset m.asset reg))))
        ≡ laws.value m.amount
  unfolding has_sub_minor whole_minor
  exact_value reg m known exact = exact_minor (lookup_asset m.asset reg) m.amount known exact

  equal_money_lem :
      (m n : Money D)
      → m.asset ≡ n.asset
      → laws.value m.amount ≡ laws.value n.amount
      → equal_money m n ≡ true
  unfolding equal_money
  equal_money_lem m n same val =
      rw ((eq_iff m.asset n.asset).1 same, (laws.equal_iff m.amount n.amount).1 val)

  -- For an amount of a registered asset with no precision below the smallest unit, the parts of
  -- `Allocate`, by ratios that are not negative and whose sum is positive and fits an `int`, add up
  -- by `Sum` to an amount that is `Equal` to the whole.
  pub allocate_exact :
      (reg : Registry) (m : Money D) {a : Asset} (r : ℕ) (rs : List ℕ)
      → m.asset ≢ ""
      → lookup_asset m.asset reg ≡ some a
      → has_sub_minor reg m ≡ false
      → 0 < sum (r ∷ rs)
      → sum (r ∷ rs) < 2 ^ 63
      → (parts : List (Money D)) × (allocate reg m (map pos (r ∷ rs)) ≡ ok parts)
        × (u : Money D) × (sum_money parts ≡ ok u)
        × (equal_money u m ≡ true)
  allocate_exact reg m {a = a} r rs named known exact h small =
      let (parts, done, _, u, summed, same, val) =
        allocate_conserves laws reg m r rs named h small in
      (parts, done, u, summed, equal_money_lem u m same (val ∙ exact_value reg m known exact))

ones : ℕ → List ℕ
ones n = replicate n 1

sum-ones : (n : ℕ) → sum (replicate n 1) ≡ n
unfolding sum
sum-ones zero = refl
sum-ones (suc n) = omega (arith, sum-ones n)

floors-ones : (a t n : ℕ) → floors a t (replicate n 1) ≡ replicate n (a * 1 / t)
unfolding floors
floors-ones a t zero = refl
floors-ones a t (suc n) = rw (floors-ones a t n)

map-replicate : (n : ℕ) → map pos (replicate n 1) ≡ replicate n (pos 1)
map-replicate zero = refl
map-replicate (suc n) = rw (map-replicate n)

sum-replicate : (n q : ℕ) → sum (replicate n q) ≡ n * q
unfolding sum
sum-replicate zero q = omega arith
sum-replicate (suc n) q = omega (arith, sum-replicate n q)

sub_zero : (n : ℕ) → n ≡ n - 0
sub_zero n = omega arith

sub_suc : (n k : ℕ) → n - k ≡ suc n - suc k
sub_suc n k = omega arith

first_plus-replicate :
    (k n q : ℕ) → k ≤ n → first_plus k (replicate n q) ≡ replicate k (suc q) ++ replicate (n - k) q
unfolding first_plus
first_plus-replicate zero zero q h = refl
first_plus-replicate (suc k) zero q h = elim h [ ]
first_plus-replicate zero (suc n) q h = ap (λ (j : ℕ). replicate j q) (sub_zero (suc n))
first_plus-replicate (suc k) (suc n) q h =
    ap (λ (l : List ℕ). suc q ∷ l)
      (first_plus-replicate k n q (omega arith)
        ∙ ap (λ (j : ℕ). replicate k (suc q) ++ replicate j q) (sub_suc n k))

-- An equal split: `a % n` shares of one unit more, then the others.
fair_shares-ones :
    (a n : ℕ)
    → 0 < n
    → fair_shares a (replicate n 1)
      ≡ replicate (a % n) (suc (a / n)) ++ replicate (n - a % n) (a / n)
unfolding fair_shares
fair_shares-ones a n h =
    let left : a - n * (a / n) ≡ a % n = omega (arith, div-add-mod a n) in
    rw (
      sum-ones n,
      floors-ones a n n,
      sum-replicate n (a * 1 / n),
      mul-one a,
      left,
      first_plus-replicate (a % n) n (a / n) (omega (arith, mod-lt a h)),
    )

ltb_ℤ-suc : (k : ℕ) → ltb_ℤ (pos 0) (pos (suc k)) ≡ true
ltb_ℤ-suc k = ground arith

module _ {D : Type 0} ⦃dec : Decimal D⦄ where
  -- `Split` of an amount of `a` smallest units into `n` parts, for a positive `int` `n`, succeeds with
  -- exactly `n` parts: the first `a % n` of `a / n + 1` units and the others of `a / n`, each with
  -- the amount's sign.
  pub split_fair :
      (reg : Registry) (m : Money D) (a n : ℕ)
      → abs (whole_minor reg m) ≡ pos a
      → 0 < n
      → n < 2 ^ 63
      → split reg m (pos n)
        ≡ ok (
            map
              (part reg m (sign (whole_minor reg m)))
              (map pos (replicate (a % n) (suc (a / n)) ++ replicate (n - a % n) (a / n))))
  unfolding split
  split_fair reg m a zero ea h small = elim h [ ]
  split_fair reg m a (suc k) ea h small =
      rw (← map-replicate (suc k), ← fair_shares-ones a (suc k) h, ltb_ℤ-suc k)
        (allocate_value reg m a 1 (replicate k 1) ea (omega (arith, sum-ones (suc k)))
          (omega (arith, sum-ones (suc k))))

abbrev pub any_negative : List ℤ → Bool
any_negative [] = false
any_negative (r ∷ rs) = ltb_ℤ r (pos 0) || any_negative rs

total_ratio_negative :
    (t : ℤ) (rs : List ℤ)
    → any_negative rs ≡ true
    → (e : Error) × (total_ratio t rs ≡ err e) × (e.error_code ≡ invalid_ratio)
unfolding total_ratio
total_ratio_negative t [] h = cc
total_ratio_negative t (r ∷ rs) h = elim (Bool-cases (ltb_ℤ r (pos 0))) [
  | inl neg ↦ (bad_ratio ("negative ratio " <> itoa r), rw neg, refl)
  | inr nonneg ↦
      let (e, failed, code) = total_ratio_negative (wrap64 (t +ℤ r)) rs (rw nonneg at h) in
      (e, rw nonneg failed, code)
]

module _ {D : Type 0} ⦃dec : Decimal D⦄ where
  -- `Allocate` by a list of ratios of which any is negative fails with the code for an invalid
  -- ratio, whatever the others add up to; so does `Split` into zero or fewer parts.
  pub allocate_negative :
      (reg : Registry) (m : Money D) (rs : List ℤ) (n : ℤ)
      → any_negative rs ≡ true
      → ltb_ℤ (pos 0) n ≡ false
      → ((e : Error) × (allocate reg m rs ≡ err e) × (e.error_code ≡ invalid_ratio))
        × ((e : Error) × (split reg m n ≡ err e) × (e.error_code ≡ invalid_ratio))
  unfolding allocate split
  allocate_negative reg m [] n h k = cc
  allocate_negative reg m (r ∷ rs) n h k =
      let (e, failed, code) = total_ratio_negative (pos 0) (r ∷ rs) h in
      (
        (e, rw failed, code),
        (with_detail ("needs n > 0, got " <> itoa n) (code_err invalid_ratio "Split"), rw k, refl),
      )

-- Three ratios, each a positive `int`, whose sum is 2 ^ 64 + 1.
abbrev pub huge_ratios : List ℕ
huge_ratios = 9223372036854775807 ∷ 9223372036854775807 ∷ 3 ∷ []

huge_total : total_ratio (pos 0) (map pos huge_ratios) ≡ ok (pos 1)
unfolding total_ratio wrap64 ◌+ℤ◌
huge_total = refl

floors-huge : (a : ℕ) → sum (floors a 1 huge_ratios) ≡ a * (2 ^ 64 + 1)
unfolding floors sum
floors-huge a = omega arith

module _ {D : Type 0} ⦃dec : Decimal D⦄ where
  -- The sum of the ratios wraps at 64 bits and `Allocate` then creates money: by three ratios, each
  -- a positive `int`, every amount of `a` smallest units is divided, with no error, into three parts
  -- of `a * (2 ^ 64 + 1)` units together, with the amount's sign.
  pub allocate_overflow :
      (reg : Registry) (m : Money D) (a : ℕ)
      → abs (whole_minor reg m) ≡ pos a
      → (ss : List ℕ) × (allocate reg m (map pos huge_ratios)
          ≡ ok (map (part reg m (sign (whole_minor reg m))) (map pos ss)))
        × (length ss ≡ 3)
        × (sum ss ≡ a * (2 ^ 64 + 1))
  unfolding allocate
  allocate_overflow reg m a ea = (
    floors a 1 huge_ratios,
    rw (huge_total, ea, split_magnitude-over a 1 huge_ratios (omega (arith, floors-huge a))),
    length-floors a 1 huge_ratios,
    floors-huge a,
  )
