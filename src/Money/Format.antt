-- ===== src/Money/Format.antt =====
-- platform/money/format.go: `Format` and its options. A value of an enumeration that has no name is
-- the case `other_…`. The text of a decimal is ASCII, so its length in bytes is its length.
use Prim.Native.Char.{code}
use go_boilerplate.Prelude.{
  ℕ, zero, suc, ◌-◌, ◌/◌, ◌%◌, Bool, true, false, not, ◌||◌, String, str_eq, ◌<>◌, leb, ◌==◌, ℤ,
  pos, negsuc, ltb_ℤ, pos_part, if◌then◌else◌,
}
use go_boilerplate.Decimal.{Decimal}
use go_boilerplate.Money.Asset.{Registry, lookup_asset}
use go_boilerplate.Money.Amount.{Money, exponent_or_zero}
use go_boilerplate.Money.Arith.{half_even, apply_mode}

pub data Position : Type 0 where
  symbol_none symbol_prefix symbol_suffix other_position : Position

pub data NegativeStyle : Type 0 where
  neg_minus neg_parens other_style : NegativeStyle

pub data ScaleMode : Type 0 where
  scale_asset scale_full scale_fixed other_scale : ScaleMode

pub record FormatOptions : Type 0 where
  pub decimal_sep : String
  pub group_sep : String
  pub group_size : ℤ
  pub symbol : String
  pub symbol_pos : Position
  pub use_code : Bool
  pub negative : NegativeStyle
  pub scale_mode : ScaleMode
  pub fixed_scale : ℤ

abbrev pub us : FormatOptions
us = record {
  decimal_sep = ".";
  group_sep = ",";
  group_size = pos 3;
  symbol = "";
  symbol_pos = symbol_prefix;
  use_code = false;
  negative = neg_minus;
  scale_mode = scale_asset;
  fixed_scale = pos 0;
}

abbrev pub eu : FormatOptions
eu = record us { decimal_sep = ","; group_sep = "."; symbol_pos = symbol_suffix }

abbrev pub ru : FormatOptions
ru = record us { decimal_sep = ","; group_sep = " "; symbol_pos = symbol_suffix }

abbrev pub crypto_fmt : FormatOptions
crypto_fmt = record us {
  group_sep = "";
  group_size = pos 0;
  use_code = true;
  symbol_pos = symbol_none;
  scale_mode = scale_full;
}

unfoldable pub symbol_for : String → String
symbol_for asset =
    if str_eq asset "USD"
    then "$"
    else if str_eq asset "EUR"
    then "€"
    else if str_eq asset "GBP"
    then "£"
    else if str_eq asset "JPY"
    then "¥"
    else if str_eq asset "RUB"
    then "₽"
    else ""

unfoldable pub text_length : String → ℕ
text_length String.[] = 0
text_length (String.◌∷◌ c s) = suc (text_length s)

-- `s[:n]` and `s[n:]`.
unfoldable pub text_take : ℕ → String → String
text_take zero s = ""
text_take (suc n) String.[] = ""
text_take (suc n) (String.◌∷◌ c s) = String.◌∷◌ c (text_take n s)

unfoldable pub text_drop : ℕ → String → String
text_drop zero s = s
text_drop (suc n) String.[] = ""
text_drop (suc n) (String.◌∷◌ c s) = text_drop n s

-- `strings.Repeat("0", n)`.
unfoldable pub zeros : ℕ → String
zeros zero = ""
zeros (suc n) = "0" <> zeros n

-- `strings.HasPrefix` and `strings.TrimPrefix` for "-".
unfoldable pub cut_minus : String → Bool × String
cut_minus String.[] = (false, "")
cut_minus (String.◌∷◌ c s) = if code c == b'-' then (true, s) else (false, String.◌∷◌ c s)

-- `strings.Cut` at ".".
unfoldable pub cut_point : String → String × String
cut_point String.[] = ("", "")
cut_point (String.◌∷◌ c s) =
    let (int_part, frac_part) = cut_point s in
    if code c == b'.' then ("", s) else (String.◌∷◌ c int_part, frac_part)

-- The loop over the groups that are left, behind the first one.
unfoldable pub group_rest : ℕ → String → ℕ → String → String
group_rest zero sep size s = ""
group_rest (suc groups) sep size s =
    sep <> text_take size s <> group_rest groups sep size (text_drop size s)

-- The digits of the first group: the remainder, or a whole group.
abbrev pub first_group : ℕ → ℕ → ℕ
first_group n zero = 0
first_group n (suc k) = if n % suc k == 0 then suc k else n % suc k

abbrev pub groups_left : ℕ → ℕ → ℕ
groups_left n zero = 0
groups_left n (suc k) = (n - first_group n (suc k)) / suc k

unfoldable pub group_digits : String → String → ℤ → String
unfolding text_length text_take text_drop group_rest
group_digits int_part sep size =
    let n = text_length int_part in
    let width = pos_part size in
    if (str_eq sep "" || not (ltb_ℤ (pos 0) size)) || leb n width
    then int_part
    else text_take (first_group n width) int_part
      <> group_rest (groups_left n width) sep width (text_drop (first_group n width) int_part)

-- The symbol and the number in their order.
abbrev pub with_symbol : Position → String → String → String
with_symbol symbol_none sym num = num
with_symbol symbol_prefix sym num = sym <> num
with_symbol symbol_suffix sym num = if str_eq sym "" then num else num <> " " <> sym
with_symbol other_position sym num = ""

abbrev pub with_minus : NegativeStyle → Bool → String → String
with_minus style false token = token
with_minus neg_parens true token = "(" <> token <> ")"
with_minus neg_minus true token = "-" <> token
with_minus other_style true token = token

-- `fracPart` with zeros up to the scale.
abbrev pub padded : ℤ → String → String
padded target frac =
    if ltb_ℤ (pos 0) target then frac <> zeros (pos_part target - text_length frac) else frac

module _ {D : Type 0} ⦃dec : Decimal D⦄ where
  -- The local copy that is rounded for display.
  unfoldable pub display_amount : Registry → Money D → FormatOptions → D
  display_amount reg m o = elim o.scale_mode [
    | scale_asset ↦ apply_mode half_even m.amount (exponent_or_zero (lookup_asset m.asset reg))
    | scale_fixed ↦ apply_mode half_even m.amount o.fixed_scale
    | scale_full ↦ m.amount
    | other_scale ↦ m.amount
  ]

  unfoldable pub target_scale : Registry → Money D → FormatOptions → ℤ
  target_scale reg m o = elim o.scale_mode [
    | scale_asset ↦ exponent_or_zero (lookup_asset m.asset reg)
    | scale_fixed ↦ o.fixed_scale
    | scale_full ↦ negsuc 0
    | other_scale ↦ negsuc 0
  ]

  unfoldable pub format : Registry → Money D → FormatOptions → String
  format reg m o =
      let (neg, mag) = cut_minus (dec.to_string (display_amount reg m o)) in
      let (int_part, cut_frac) = cut_point mag in
      let frac = padded (target_scale reg m o) cut_frac in
      let grouped = group_digits int_part o.group_sep o.group_size in
      let num = if str_eq frac "" then grouped else grouped <> o.decimal_sep <> frac in
      let sym = if str_eq o.symbol "" then symbol_for m.asset else o.symbol in
      let body = with_symbol o.symbol_pos sym num in
      let token = if o.use_code then body <> " " <> m.asset else body in
      with_minus o.negative neg token
