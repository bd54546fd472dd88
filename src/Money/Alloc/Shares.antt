-- ===== src/Money/Alloc/Shares.antt =====
-- platform/money/alloc.go: what the loops of `Allocate` compute, over plain numbers.
use native.Mathlib.Nat.{
  div-add-mod, mod-eq_of_lt, mod-lt, le_of_mul-le-mul_right, lt_of_mul-lt-mul_right,
}
use mathlib.Core.List.{append_assoc}
use go_boilerplate.Prelude.{
  ℕ, zero, suc, ◌+◌, ◌-◌, ◌*◌, ◌/◌, ◌%◌, ◌^◌, ◌≤◌, ◌<◌, ◌≡◌, refl, ap, sym, ◌∙◌, List, [], ◌∷◌,
  ◌++◌, map, arith, ℤ, pos, pos_part, ltb_ℤ, false, ◌+ℤ◌, ◌-ℤ◌, ◌*ℤ◌, div_ℤ, wrap64, ok, length,
  length-append, length-map,
}
use go_boilerplate.Money.Alloc.{
  total_ratio, share, shares_of, allocated_from, bump, hand_out, split_magnitude,
}

unfoldable pub sum : List ℕ → ℕ
sum [] = 0
sum (n ∷ ns) = n + sum ns

-- One more for each of the first `n`.
unfoldable pub first_plus : ℕ → List ℕ → List ℕ
first_plus n [] = []
first_plus zero (s ∷ ss) = s ∷ ss
first_plus (suc n) (s ∷ ss) = suc s ∷ first_plus n ss

-- The shares rounded down.
unfoldable pub floors : ℕ → ℕ → List ℕ → List ℕ
floors a total rs = map (λ r. a * r / total) rs

-- The reference: every share rounded down, and one unit more for the earliest, as many as are left.
unfoldable pub fair_shares : ℕ → List ℕ → List ℕ
fair_shares a rs = let fs = floors a (sum rs) rs in first_plus (a - sum fs) fs

wrap64_small : (n : ℕ) → n < 2 ^ 63 → wrap64 (pos n) ≡ pos n
unfolding wrap64
wrap64_small n h = ground arith

add_pos : (a b : ℕ) → pos a +ℤ pos b ≡ pos (a + b)
unfolding ◌+ℤ◌
add_pos a b = ground arith

sub_pos : (a b : ℕ) → b ≤ a → pos_part (pos a -ℤ pos (0 + b)) ≡ a - b
unfolding ◌-ℤ◌
sub_pos a b h = ground arith

mul_pos : (a b : ℕ) → pos a *ℤ pos b ≡ pos (a * b)
unfolding ◌*ℤ◌
mul_pos a b = ground arith

ltb_ℤ-pos : (r : ℕ) → ltb_ℤ (pos r) (pos 0) ≡ false
ltb_ℤ-pos r = ground arith

total_ratio-pos :
    (t : ℕ) (rs : List ℕ)
    → t + sum rs < 2 ^ 63
    → total_ratio (pos t) (map pos rs) ≡ ok (pos (t + sum rs))
unfolding total_ratio sum
total_ratio-pos t [] h = ap (λ (n : ℕ). ok (pos n)) (omega arith)
total_ratio-pos t (r ∷ rs) h =
    rw
      (
        add_pos t r,
        wrap64_small (t + r) (omega arith),
        total_ratio-pos (t + r) rs (omega arith),
        ltb_ℤ-pos r,
      )
      (ap (λ (n : ℕ). ok (pos n)) (omega arith))

pub total_ratio-sum :
    (rs : List ℕ) → sum rs < 2 ^ 63 → total_ratio (pos 0) (map pos rs) ≡ ok (pos (sum rs))
total_ratio-sum rs h = total_ratio-pos 0 rs (omega arith) ∙ ap (λ (n : ℕ). ok (pos n)) (omega arith)

share_pos : (a t r : ℕ) → share (pos a) (pos t) (pos r) ≡ pos (a * r / t)
unfolding share div_ℤ
share_pos a t r = rw (mul_pos a r)

shares_of-pos :
    (a t : ℕ) (rs : List ℕ) → shares_of (pos a) (pos t) (map pos rs) ≡ map pos (floors a t rs)
unfolding shares_of floors
shares_of-pos a t [] = refl
shares_of-pos a t (r ∷ rs) = cc (share_pos a t r, shares_of-pos a t rs)

allocated_from-pos :
    (acc : ℕ) (ss : List ℕ) → allocated_from (pos acc) (map pos ss) ≡ pos (acc + sum ss)
unfolding allocated_from sum
allocated_from-pos acc [] = ap pos (omega arith)
allocated_from-pos acc (s ∷ ss) =
    ap (λ (z : ℤ). allocated_from z (map pos ss)) (add_pos acc s)
    ∙ allocated_from-pos (acc + s) ss
    ∙ ap pos (omega arith)

bump-middle :
    (pre : List ℕ) (s : ℕ) (ss : List ℕ)
    → bump (map pos (pre ++ s ∷ ss)) (length pre) ≡ map pos (pre ++ suc s ∷ ss)
unfolding bump
bump-middle [] s ss = rw (add_pos s 1) (ap (λ (n : ℕ). pos n ∷ map pos ss) (omega arith))
bump-middle (p ∷ pre) s ss = rw (bump-middle pre s ss)

first_plus-zero : (ss : List ℕ) → first_plus zero ss ≡ ss
unfolding first_plus
first_plus-zero [] = refl
first_plus-zero (s ∷ ss) = refl

snoc : (pre : List ℕ) (s : ℕ) (ss : List ℕ) → (pre ++ s ∷ []) ++ ss ≡ pre ++ s ∷ ss
snoc pre s ss = append_assoc pre (s ∷ []) ss

length-numbers :
    (pre : List ℕ) (s : ℕ) (ss : List ℕ)
    → length (map pos (pre ++ s ∷ ss)) ≡ length pre + 1 + length ss
length-numbers [] s ss = rw (length-map ss pos) (omega arith)
length-numbers (p ∷ pre) s ss = omega (arith, length-numbers pre s ss)

next_index :
    (pre : List ℕ) (s : ℕ) (ss : List ℕ)
    → 0 < length ss
    → (length pre + 1) % (length pre + 1 + length ss) ≡ length (pre ++ suc s ∷ [])
next_index pre s ss h =
    mod-eq_of_lt (omega arith) ∙ sym (length-append pre (suc s ∷ []) ∙ omega arith)

-- The hand-out loop, started behind `pre`, reaches the shares in order.
hand_out-first_plus :
    (n : ℕ) (pre ss : List ℕ)
    → n ≤ length ss
    → hand_out n (length pre) (map pos (pre ++ ss)) ≡ map pos (pre ++ first_plus n ss)
unfolding hand_out first_plus
hand_out-first_plus zero pre [] h = refl
hand_out-first_plus zero pre (s ∷ ss) h = refl
hand_out-first_plus (suc n) pre [] h = elim h [ ]
hand_out-first_plus (suc zero) pre (s ∷ ss) h = rw (bump-middle pre s ss, first_plus-zero ss)
hand_out-first_plus (suc (suc n)) pre (s ∷ ss) h = rw (
  bump-middle pre s ss,
  length-numbers pre s ss,
  next_index pre s ss (omega arith),
  ← snoc pre (suc s) ss,
  hand_out-first_plus (suc n) (pre ++ suc s ∷ []) ss (omega arith),
  snoc pre (suc s) (first_plus (suc n) ss),
)

pub sum-first_plus : (n : ℕ) (ss : List ℕ) → n ≤ length ss → sum (first_plus n ss) ≡ sum ss + n
unfolding sum first_plus
sum-first_plus zero [] h = omega arith
sum-first_plus (suc n) [] h = elim h [ ]
sum-first_plus zero (s ∷ ss) h = omega arith
sum-first_plus (suc n) (s ∷ ss) h = omega (arith, sum-first_plus n ss (omega arith))

pub length-floors : (a t : ℕ) (rs : List ℕ) → length (floors a t rs) ≡ length rs
unfolding floors
length-floors a t rs = length-map rs _

pub length-first_plus : (n : ℕ) (ss : List ℕ) → length (first_plus n ss) ≡ length ss
unfolding first_plus
length-first_plus n [] = refl
length-first_plus zero (s ∷ ss) = refl
length-first_plus (suc n) (s ∷ ss) = ap suc (length-first_plus n ss)

-- One share loses less than one unit by rounding down.
floor_bounds : (a t r : ℕ) → 0 < t → (a * r / t * t ≤ a * r) × (a * r + 1 ≤ a * r / t * t + t)
floor_bounds a t r h = (
  omega (arith, div-add-mod (a * r) t, mod-lt (a * r) h),
  omega (arith, div-add-mod (a * r) t, mod-lt (a * r) h),
)

floors_bounds :
    (a t : ℕ) (rs : List ℕ)
    → 0 < t
    → (sum (floors a t rs) * t ≤ a * sum rs)
      × (a * sum rs + length rs ≤ sum (floors a t rs) * t + length rs * t)
unfolding sum floors
floors_bounds a t [] h = (omega arith, omega arith)
floors_bounds a t (r ∷ rs) h = (
  omega (arith, floor_bounds a t r h, floors_bounds a t rs h),
  omega (arith, floor_bounds a t r h, floors_bounds a t rs h),
)

-- The shares rounded down fall short of the whole by fewer units than there are shares.
pub remainder_bounds :
    (a r : ℕ) (rs : List ℕ)
    → 0 < sum (r ∷ rs)
    → let fs = floors a (sum (r ∷ rs)) (r ∷ rs) in (sum fs ≤ a) × (a - sum fs < length (r ∷ rs))
remainder_bounds a r rs h =
    let (low, high) = floors_bounds a (sum (r ∷ rs)) (r ∷ rs) h in
    let below : a < sum (floors a (sum (r ∷ rs)) (r ∷ rs)) + length (r ∷ rs) =
      lt_of_mul-lt-mul_right (sum (r ∷ rs)) (omega (arith, high)) in
    (le_of_mul-le-mul_right low h, omega (arith, below))

-- `Allocate` computes the reference shares.
pub split_magnitude-fair :
    (a r : ℕ) (rs : List ℕ)
    → 0 < sum (r ∷ rs)
    → split_magnitude (pos a) (pos (sum (r ∷ rs))) (map pos (r ∷ rs))
      ≡ map pos (fair_shares a (r ∷ rs))
unfolding split_magnitude fair_shares
split_magnitude-fair a r rs h =
    let rest = remainder_bounds a r rs h in
    rw
      (
        shares_of-pos a (sum (r ∷ rs)) (r ∷ rs),
        allocated_from-pos 0 (floors a (sum (r ∷ rs)) (r ∷ rs)),
        sub_pos a (sum (floors a (sum (r ∷ rs)) (r ∷ rs))) rest.0,
      )
      (hand_out-first_plus (a - sum (floors a (sum (r ∷ rs)) (r ∷ rs))) []
        (floors a (sum (r ∷ rs)) (r ∷ rs))
        (omega (arith, rest, length-floors a (sum (r ∷ rs)) (r ∷ rs))))

-- The reference shares add up to the whole.
pub sum-fair_shares : (a r : ℕ) (rs : List ℕ) → 0 < sum (r ∷ rs) → sum (fair_shares a (r ∷ rs)) ≡ a
unfolding fair_shares
sum-fair_shares a r rs h =
    let rest = remainder_bounds a r rs h in
    sum-first_plus _ (floors a (sum (r ∷ rs)) (r ∷ rs))
      (omega (arith, rest, length-floors a (sum (r ∷ rs)) (r ∷ rs)))
    ∙ omega (arith, rest)

pub length-fair_shares : (a : ℕ) (rs : List ℕ) → length (fair_shares a rs) ≡ length rs
unfolding fair_shares
length-fair_shares a rs = length-first_plus _ (floors a (sum rs) rs) ∙ length-floors a (sum rs) rs

sub_pos_over : (a b : ℕ) → a ≤ b → pos_part (pos a -ℤ pos (0 + b)) ≡ 0
unfolding ◌-ℤ◌
sub_pos_over a b h = ground arith

-- Shares that exceed the whole are returned as they are.
pub split_magnitude-over :
    (a t : ℕ) (rs : List ℕ)
    → a ≤ sum (floors a t rs)
    → split_magnitude (pos a) (pos t) (map pos rs) ≡ map pos (floors a t rs)
unfolding split_magnitude hand_out
split_magnitude-over a t rs h = rw (
  shares_of-pos a t rs,
  allocated_from-pos 0 (floors a t rs),
  sub_pos_over a (sum (floors a t rs)) h,
)
