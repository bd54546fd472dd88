-- ===== src/Decimal/Whole.antt =====
-- A concrete instance of the decimal interface: whole numbers, which is what the library computes
-- with for an asset of exponent 0 and amounts that have no fraction. The scale arguments are ignored.
use Prim.Native.Nat.{compare, Ordering}
use go_boilerplate.Prelude.{
  ◌+◌, ◌≡◌, ◌↔◌, refl, true, some, none, str_eq, itoa, arith, ℤ, pos, pos_part, neg_part, negate,
  abs, sign, ltb_ℤ, eqb_ℤ, ◌+ℤ◌, ◌-ℤ◌, ◌*ℤ◌, div_ℤ, int_laws, if◌then◌else◌, eq_of_parts,
  negate_parts, +ℤ_parts,
}
use go_boilerplate.Decimal.{Decimal, Values, DecimalLaws}

abbrev pub compare_ℤ : ℤ → ℤ → Ordering
compare_ℤ a b = compare (pos_part a + neg_part b) (pos_part b + neg_part a)

instance abbrev pub whole_decimal : Decimal ℤ
whole_decimal = record {
  zero_decimal = pos 0;
  new_from_string = λ s. if str_eq s "0" then some (pos 0) else none;
  new_from_big_int = λ m e. m;
  add = ◌+ℤ◌;
  sub = λ a b. a +ℤ negate b;
  mul = ◌*ℤ◌;
  neg = negate;
  abs = abs;
  shift = λ d e. d;
  truncate = λ d n. d;
  mod_of = λ a b. a -ℤ div_ℤ a b *ℤ b;
  div_round = λ a b n. div_ℤ a b;
  round_bank = λ d n. d;
  round = λ d n. d;
  round_up = λ d n. d;
  round_ceil = λ d n. d;
  round_floor = λ d n. d;
  big_int = λ d. d;
  cmp = compare_ℤ;
  equal = eqb_ℤ;
  is_zero = λ d. eqb_ℤ d (pos 0);
  is_negative = λ d. ltb_ℤ d (pos 0);
  is_positive = λ d. ltb_ℤ (pos 0) d;
  sign = sign;
  exponent = λ d. pos 0;
  num_digits = λ d. pos 1;
  to_string = itoa;
}

pub plus_comm_ℤ : (a b : ℤ) → a +ℤ b ≡ b +ℤ a
plus_comm_ℤ a b = omega int_laws

pub plus_assoc_ℤ : (a b c : ℤ) → (a +ℤ b) +ℤ c ≡ a +ℤ (b +ℤ c)
plus_assoc_ℤ a b c = omega int_laws

pub zero-plus_ℤ : (a : ℤ) → pos 0 +ℤ a ≡ a
zero-plus_ℤ a = omega int_laws

pub plus-minus_ℤ : (a : ℤ) → a +ℤ negate a ≡ pos 0
plus-minus_ℤ a = eq_of_parts _ _ (omega (arith, +ℤ_parts a (negate a), negate_parts a))

pub compare_eq_ℤ : (a b : ℤ) → (compare_ℤ a b ≡ Ordering.eq) ↔ (a ≡ b)
compare_eq_ℤ a b = ((λ h. eq_of_parts a b (ground arith)), (λ h. ground arith))

pub compare_lt_ℤ : (a b : ℤ) → (compare_ℤ a b ≡ Ordering.lt) ↔ (compare_ℤ b a ≡ Ordering.gt)
compare_lt_ℤ a b = ((λ h. ground arith), (λ h. ground arith))

pub compare_trans_ℤ :
    (a b c : ℤ)
    → compare_ℤ a b ≡ Ordering.lt
    → compare_ℤ b c ≡ Ordering.lt
    → compare_ℤ a c ≡ Ordering.lt
compare_trans_ℤ a b c h k = ground arith

pub eqb_iff_ℤ : (a b : ℤ) → (eqb_ℤ a b ≡ true) ↔ (a ≡ b)
eqb_iff_ℤ a b = ((λ h. eq_of_parts a b (ground arith)), (λ h. ground arith))

abbrev pub whole_values : Values ℤ
whole_values = record {
  zero_value = pos 0;
  plus = ◌+ℤ◌;
  minus = negate;
  plus_comm = plus_comm_ℤ;
  plus_assoc = plus_assoc_ℤ;
  zero-plus = zero-plus_ℤ;
  plus-minus = plus-minus_ℤ;
  compare_values = compare_ℤ;
  compare_eq = compare_eq_ℤ;
  compare_lt = compare_lt_ℤ;
  compare_trans = compare_trans_ℤ;
}

abbrev pub whole_laws : DecimalLaws whole_decimal whole_values
whole_laws = record {
  value = λ d. d;
  value-add = λ a b. refl;
  value-sub = λ a b. refl;
  value-neg = λ a. refl;
  value-new_zero = λ e. refl;
  value-new_add = λ m n e. refl;
  is_zero_iff = λ a. eqb_iff_ℤ a (pos 0);
  cmp_lem = λ a b. refl;
  equal_iff = eqb_iff_ℤ;
  big_int-shift_new = λ m e. refl;
  whole-shift_new = λ m e. (eqb_iff_ℤ m m).1 refl;
  value-new_big_int = λ a e h. refl;
  zero_string = pos 0;
  new-zero_string = refl;
  is_zero-zero_string = refl;
  num_digits-zero_string = refl;
  exponent-zero_string = refl;
}
