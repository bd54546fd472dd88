-- ===== src/Money/Alloc/Conserve.antt =====
-- platform/money/alloc.go: `Allocate` against the package's own `Sum` and `Equal`.
use go_boilerplate.Prelude.{
  ℕ, zero, suc, ◌+◌, ◌^◌, ◌<◌, ◌≡◌, ◌≢◌, refl, sym, ◌∙◌, false, List, [], ◌∷◌, map, arith, eq_iff,
  ℤ, pos, negsuc, negate, abs, sign, eqb_ℤ, ◌+ℤ◌, ok, length, length-map,
}
use go_boilerplate.Decimal.{Decimal, Values, DecimalLaws}
use go_boilerplate.Money.Asset.{Registry, lookup_asset}
use go_boilerplate.Money.Amount.{Money, exponent_or_zero}
use go_boilerplate.Money.Arith.{same_asset, add_money, sum_from, sum_money}
use go_boilerplate.Money.Alloc.{allocate, part, whole_minor, with_sign}
use go_boilerplate.Money.Alloc.Shares.{
  sum, fair_shares, total_ratio-sum, split_magnitude-fair, sum-fair_shares, length-fair_shares,
}

with_sign_abs : (z : ℤ) → with_sign (sign z) (abs z) ≡ z
with_sign_abs (pos zero) = refl
with_sign_abs (pos (suc n)) = refl
with_sign_abs (negsuc n) = refl

with_sign-add :
    (g : ℤ) (a b : ℕ) → with_sign g (pos (a + b)) ≡ with_sign g (pos a) +ℤ with_sign g (pos b)
unfolding ◌+ℤ◌
with_sign-add g a b = ground arith

with_sign_zero : (g : ℤ) → with_sign g (pos 0) ≡ pos 0
with_sign_zero g = ground arith

eqb_ℤ-pos : (n : ℕ) → 0 < n → eqb_ℤ (pos n) (pos 0) ≡ false
eqb_ℤ-pos n h = ground arith

pub abs_pos : (z : ℤ) → (n : ℕ) × (abs z ≡ pos n)
abs_pos (pos n) = (n, refl)
abs_pos (negsuc n) = (suc n, refl)

module _ {D : Type 0} ⦃dec : Decimal D⦄ where
  pub same_asset_lem : (m n : Money D) → m.asset ≢ "" → n.asset ≡ m.asset → same_asset m n ≡ ok tt
  unfolding same_asset
  same_asset_lem m n h e =
      ground (arith, eq_iff m.asset "", eq_iff n.asset "", eq_iff m.asset n.asset)

  pub add_parts :
      (t p : Money D)
      → t.asset ≢ ""
      → p.asset ≡ t.asset
      → add_money t p ≡ ok (record { amount = dec.add t.amount p.amount; asset = t.asset })
  unfolding add_money
  add_parts t p h e = rw (same_asset_lem t p h e)

  pub allocate_value :
      (reg : Registry) (m : Money D) (a r : ℕ) (rs : List ℕ)
      → abs (whole_minor reg m) ≡ pos a
      → 0 < sum (r ∷ rs)
      → sum (r ∷ rs) < 2 ^ 63
      → allocate reg m (map pos (r ∷ rs))
        ≡ ok (map (part reg m (sign (whole_minor reg m))) (map pos (fair_shares a (r ∷ rs))))
  unfolding allocate
  allocate_value reg m a r rs ea h small = rw (
    total_ratio-sum (r ∷ rs) small,
    eqb_ℤ-pos (sum (r ∷ rs)) h,
    ea,
    split_magnitude-fair a r rs h,
  )

module _ {D V : Type 0} ⦃dec : Decimal D⦄ {vals : Values V} (laws : DecimalLaws dec vals) where
  open laws use {value}

  -- What `Sum` adds to its total over the parts.
  sum_parts :
      (reg : Registry) (m t : Money D) (g : ℤ) (ss : List ℕ)
      → m.asset ≢ ""
      → t.asset ≡ m.asset
      → (u : Money D) × (sum_from t (map (part reg m g) (map pos ss)) ≡ ok u)
        × (u.asset ≡ m.asset)
        × (value u.amount
            ≡ vals.plus (value t.amount) (
                value (
                  dec.new_from_big_int
                    (with_sign g (pos (sum ss)))
                    (negate (exponent_or_zero (lookup_asset m.asset reg))))))
  unfolding sum_from sum part
  sum_parts reg m t g [] h e =
      (t, refl, e, rw (with_sign_zero g, laws.value-new_zero, vals.plus_comm, vals.zero-plus))
  sum_parts reg m t g (s ∷ ss) h e =
      let p = part reg m g (pos s) in
      let next : Money D = record { amount = dec.add t.amount p.amount; asset = t.asset } in
      let (u, summed, same, val) = sum_parts reg m next g ss h e in
      (
        u,
        rw (add_parts t p (rw e h) (sym e)) summed,
        same,
        rw (val, with_sign-add g s (sum ss), laws.value-new_add, laws.value-add, vals.plus_assoc),
      )

  -- `Sum` over the parts gives the amount of the whole number of units.
  sum_money_parts :
      (reg : Registry) (m : Money D) (g : ℤ) (ss : List ℕ)
      → m.asset ≢ ""
      → 0 < length ss
      → (u : Money D) × (sum_money (map (part reg m g) (map pos ss)) ≡ ok u)
        × (u.asset ≡ m.asset)
        × (value u.amount
            ≡ value (
                dec.new_from_big_int
                  (with_sign g (pos (sum ss)))
                  (negate (exponent_or_zero (lookup_asset m.asset reg)))))
  unfolding sum_money sum part
  sum_money_parts reg m g [] h l = elim l [ ]
  sum_money_parts reg m g (s ∷ ss) h l =
      let (u, summed, same, val) = sum_parts reg m (part reg m g (pos s)) g ss h refl in
      (u, summed, same, val ∙ sym (rw (with_sign-add g s (sum ss)) (laws.value-new_add _ _ _)))

  pub allocate_conserves :
      (reg : Registry) (m : Money D) (r : ℕ) (rs : List ℕ)
      → m.asset ≢ ""
      → 0 < sum (r ∷ rs)
      → sum (r ∷ rs) < 2 ^ 63
      → (parts : List (Money D)) × (allocate reg m (map pos (r ∷ rs)) ≡ ok parts)
        × (length parts ≡ length (r ∷ rs))
        × (u : Money D) × (sum_money parts ≡ ok u)
        × (u.asset ≡ m.asset)
        × (value u.amount
            ≡ value (
                dec.new_from_big_int
                  (whole_minor reg m)
                  (negate (exponent_or_zero (lookup_asset m.asset reg)))))
  allocate_conserves reg m r rs named h small =
      let (a, ea) = abs_pos (whole_minor reg m) in
      let g = sign (whole_minor reg m) in
      let fair = fair_shares a (r ∷ rs) in
      let count = length-fair_shares a (r ∷ rs) in
      let (u, summed, same, val) = sum_money_parts reg m g fair named (omega (arith, count)) in
      (
        map (part reg m g) (map pos fair),
        allocate_value reg m a r rs ea h small,
        length-map (map pos fair) (part reg m g) ∙ length-map fair pos ∙ count,
        u,
        summed,
        same,
        val ∙ rw (sum-fair_shares a r rs h, ← ea, with_sign_abs (whole_minor reg m)),
      )
