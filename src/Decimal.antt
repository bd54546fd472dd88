-- ===== src/Decimal.antt =====
-- The interface of the decimal library (github.com/shopspring/decimal), which the program calls and
-- does not implement: its type is a parameter `D`, and its operations are the fields of a record.
-- `DecimalLaws` states the documented behaviour that the theorems rely on. Two decimals may differ
-- and have one value (0.1 and 0.10), so the laws speak of the value, an element of an ordered
-- commutative group `V`.
use Prim.Native.Nat.{Ordering}
use go_boilerplate.Prelude.{ℕ, ◌≡◌, ◌↔◌, Bool, true, false, Option, String, ℤ, pos, negate, ◌+ℤ◌}
pub mod Whole

pub record Decimal (D : Type 0) : Type 0 where
  -- `decimal.Decimal{}`
  pub zero_decimal : D
  pub new_from_string : String → Option D
  pub new_from_big_int : ℤ → ℤ → D
  pub add : D → D → D
  pub sub : D → D → D
  pub mul : D → D → D
  pub neg : D → D
  pub abs : D → D
  pub shift : D → ℤ → D
  pub truncate : D → ℤ → D
  pub mod_of : D → D → D
  pub div_round : D → D → ℤ → D
  pub round_bank : D → ℤ → D
  pub round : D → ℤ → D
  pub round_up : D → ℤ → D
  pub round_ceil : D → ℤ → D
  pub round_floor : D → ℤ → D
  pub big_int : D → ℤ
  pub cmp : D → D → Ordering
  pub equal : D → D → Bool
  pub is_zero : D → Bool
  pub is_negative : D → Bool
  pub is_positive : D → Bool
  pub sign : D → ℤ
  pub exponent : D → ℤ
  pub num_digits : D → ℤ
  pub to_string : D → String

-- The values that decimals stand for.
pub record Values (V : Type 0) : Type 0 where
  pub zero_value : V
  pub plus : V → V → V
  pub minus : V → V
  pub plus_comm : (a b : V) → plus a b ≡ plus b a
  pub plus_assoc : (a b c : V) → plus (plus a b) c ≡ plus a (plus b c)
  pub zero-plus : (a : V) → plus zero_value a ≡ a
  pub plus-minus : (a : V) → plus a (minus a) ≡ zero_value
  pub compare_values : V → V → Ordering
  pub compare_eq : (a b : V) → (compare_values a b ≡ Ordering.eq) ↔ (a ≡ b)
  pub compare_lt :
      (a b : V) → (compare_values a b ≡ Ordering.lt) ↔ (compare_values b a ≡ Ordering.gt)
  pub compare_trans :
      (a b c : V)
      → compare_values a b ≡ Ordering.lt
      → compare_values b c ≡ Ordering.lt
      → compare_values a c ≡ Ordering.lt

pub record DecimalLaws {D V : Type 0} (dec : Decimal D) (vals : Values V) : Type 0 where
  pub value : D → V
  pub value-add : (a b : D) → value (dec.add a b) ≡ vals.plus (value a) (value b)
  pub value-sub : (a b : D) → value (dec.sub a b) ≡ vals.plus (value a) (vals.minus (value b))
  pub value-neg : (a : D) → value (dec.neg a) ≡ vals.minus (value a)
  pub value-new_zero : (e : ℤ) → value (dec.new_from_big_int (pos 0) e) ≡ vals.zero_value
  pub value-new_add :
      (m n e : ℤ)
      → value (dec.new_from_big_int (m +ℤ n) e)
        ≡ vals.plus (value (dec.new_from_big_int m e)) (value (dec.new_from_big_int n e))
  pub is_zero_iff : (a : D) → (dec.is_zero a ≡ true) ↔ (value a ≡ vals.zero_value)
  pub cmp_lem : (a b : D) → dec.cmp a b ≡ vals.compare_values (value a) (value b)
  pub equal_iff : (a b : D) → (dec.equal a b ≡ true) ↔ (value a ≡ value b)
  -- Shifting by the exponent that a decimal was built with gives back its coefficient.
  pub big_int-shift_new :
      (m e : ℤ) → dec.big_int (dec.shift (dec.new_from_big_int m (negate e)) e) ≡ m
  pub whole-shift_new :
      (m e : ℤ)
      → let d = dec.shift (dec.new_from_big_int m (negate e)) e in
        dec.equal d (dec.truncate d (pos 0)) ≡ true
  -- A decimal that is whole once it is shifted is what its integer, shifted back, stands for.
  pub value-new_big_int :
      (a : D) (e : ℤ)
      → dec.equal (dec.shift a e) (dec.truncate (dec.shift a e) (pos 0)) ≡ true
      → value (dec.new_from_big_int (dec.big_int (dec.shift a e)) (negate e)) ≡ value a
  -- "0" parses to a zero of one digit.
  pub zero_string : D
  pub new-zero_string : dec.new_from_string "0" ≡ Option.some zero_string
  pub is_zero-zero_string : dec.is_zero zero_string ≡ true
  pub num_digits-zero_string : dec.num_digits zero_string ≡ pos 1
  pub exponent-zero_string : dec.exponent zero_string ≡ pos 0
