-- ===== src/Money/Error.antt =====
-- platform/money/error.go: the structured error and its rendering. The cause that an error wraps
-- comes from another package and is the text that it renders as.
use go_boilerplate.Prelude.{
  Bool, true, false, not, ◌&&◌, Option, none, some, String, str_eq, ◌<>◌, if◌then◌else◌,
}

pub data ErrorCode : Type 0 where
  currency_mismatch unknown_asset div_by_zero invalid_amount parse_failed : ErrorCode
  out_of_range scale_exceeded asset_not_allowed not_multiple invalid_ratio : ErrorCode
  amount_too_large inexact_minor invalid_rate : ErrorCode

pub ErrorCode-discrete : Discrete ErrorCode
ErrorCode-discrete = hlevel

unfoldable pub code_string : ErrorCode → String
code_string currency_mismatch = "currency mismatch"
code_string unknown_asset = "unknown asset"
code_string div_by_zero = "division by zero"
code_string invalid_amount = "invalid amount"
code_string parse_failed = "parse failed"
code_string out_of_range = "out of range"
code_string scale_exceeded = "scale exceeded"
code_string asset_not_allowed = "asset not allowed"
code_string not_multiple = "not a multiple"
code_string invalid_ratio = "invalid ratio"
code_string amount_too_large = "amount too large"
code_string inexact_minor = "inexact minor units"
code_string invalid_rate = "invalid rate"

pub record Error : Type 0 where
  pub error_code : ErrorCode
  pub op : String
  pub asset : String
  pub asset2 : String
  pub detail : String
  pub wrapped : Option String

abbrev pub code_err : ErrorCode → String → Error
code_err c o = record {
  error_code = c;
  op = o;
  asset = "";
  asset2 = "";
  detail = "";
  wrapped = none;
}

abbrev pub with_assets : String → String → Error → Error
with_assets a b e = record e { asset = a; asset2 = b }

abbrev pub with_asset : String → Error → Error
with_asset a e = record e { asset = a }

abbrev pub with_detail : String → Error → Error
with_detail d e = record e { detail = d }

abbrev pub wrap : String → Error → Error
wrap cause e = record e { wrapped = some cause }

assets_part : String → String → String
assets_part a b =
    if not (str_eq a "") && not (str_eq b "")
    then " (" <> a <> " vs " <> b <> ")"
    else if not (str_eq a "")
    then " (" <> a <> ")"
    else ""

unfoldable pub error_string : Error → String
unfolding code_string assets_part
error_string e =
    "money: "
    <> (if str_eq e.op "" then "" else e.op <> ": ")
    <> code_string e.error_code
    <> assets_part e.asset e.asset2
    <> (if str_eq e.detail "" then "" else ": " <> e.detail)
    <> elim e.wrapped [ none ↦ "" | some cause ↦ ": " <> cause ]

-- `Is`: two money errors match by their codes.
unfoldable pub is_code : Error → Error → Bool
is_code e target = elim (ErrorCode-discrete target.error_code e.error_code) [
  | yes _ ↦ true
  | no _ ↦ false
]
