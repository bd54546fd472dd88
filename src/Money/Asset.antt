-- ===== src/Money/Asset.antt =====
-- platform/money/asset.go: asset definitions and the registry. The registry is the package's global
-- map; its lock makes each function one step, so it is passed from call to call.
pub mod Register
use mathlib.Core.Logic.{ite}
use go_boilerplate.Prelude.{
  ℕ, ◌+◌, ◌≡◌, refl, Bool, true, false, ◌&&◌, Option, none, some, List, [], ◌∷◌, ◌++◌, map, String,
  str_eq, ℤ, pos, ltb_ℤ, Result, ok, err, if◌then◌else◌, ℤ-discrete,
}
use go_boilerplate.Dict.{Dict, lookup, insert}

pub data Kind : Type 0 where
  fiat crypto : Kind

pub Kind-discrete : Discrete Kind
Kind-discrete = hlevel

pub record Asset : Type 0 where
  pub code : String
  pub exponent : ℤ
  pub kind : Kind

-- `==` on two assets.
unfoldable pub same_definition : Asset → Asset → Bool
same_definition a b =
    str_eq a.code b.code
    && elim (ℤ-discrete a.exponent b.exponent) [ yes _ ↦ true | no _ ↦ false ]
    && elim (Kind-discrete a.kind b.kind) [ yes _ ↦ true | no _ ↦ false ]

abbrev pub Registry : Type 0
Registry = Dict Asset

pub data RegisterError : Type 0 where
  empty_code : RegisterError
  negative_exponent : String → ℤ → RegisterError
  conflict : String → Asset → RegisterError

-- The guard `existing != a`, over what the registry holds for the code.
abbrev pub clashes : Option Asset → Asset → Bool
clashes none a = false
clashes (some existing) a = if same_definition existing a then false else true

abbrev pub or_else : Option Asset → Asset → Asset
or_else none a = a
or_else (some existing) a = existing

-- `Register`: the registry after the call, and the error.
unfoldable pub register : Asset → Registry → Registry × Option RegisterError
register a r =
    if str_eq a.code ""
    then (r, some empty_code)
    else if ltb_ℤ a.exponent (pos 0)
    then (r, some (negative_exponent a.code a.exponent))
    else if clashes (lookup a.code r) a
    then (r, some (conflict a.code (or_else (lookup a.code r) a)))
    else (insert a.code a r, none)

abbrev pub lookup_asset : String → Registry → Option Asset
lookup_asset = lookup

abbrev pub exp0 : List String
exp0 =
    "BIF" ∷ "CLP" ∷ "DJF" ∷ "GNF" ∷ "ISK" ∷ "JPY" ∷ "KMF" ∷ "KRW" ∷ "PYG" ∷ "RWF" ∷ "UGX" ∷ "UYI"
    ∷ "VND" ∷ "VUV" ∷ "XAF" ∷ "XOF" ∷ "XPF" ∷ []

abbrev pub exp3 : List String
exp3 = "BHD" ∷ "IQD" ∷ "JOD" ∷ "KWD" ∷ "LYD" ∷ "OMR" ∷ "TND" ∷ []

abbrev pub exp4 : List String
exp4 = "CLF" ∷ "UYW" ∷ []

abbrev pub exp2 : List String
exp2 =
    "AED" ∷ "AFN" ∷ "ALL" ∷ "AMD" ∷ "ANG" ∷ "AOA" ∷ "ARS" ∷ "AUD" ∷ "AWG" ∷ "AZN" ∷ "BAM" ∷ "BBD"
    ∷ "BDT" ∷ "BGN" ∷ "BMD" ∷ "BND" ∷ "BOB" ∷ "BOV" ∷ "BRL" ∷ "BSD" ∷ "BTN" ∷ "BWP" ∷ "BYN" ∷ "BZD"
    ∷ "CAD" ∷ "CDF" ∷ "CHE" ∷ "CHF" ∷ "CHW" ∷ "CNY" ∷ "COP" ∷ "COU" ∷ "CRC" ∷ "CUP" ∷ "CVE" ∷ "CZK"
    ∷ "DKK" ∷ "DOP" ∷ "DZD" ∷ "EGP" ∷ "ERN" ∷ "ETB" ∷ "EUR" ∷ "FJD" ∷ "FKP" ∷ "GBP" ∷ "GEL" ∷ "GHS"
    ∷ "GIP" ∷ "GMD" ∷ "GTQ" ∷ "GYD" ∷ "HKD" ∷ "HNL" ∷ "HRK" ∷ "HTG" ∷ "HUF" ∷ "IDR" ∷ "ILS" ∷ "INR"
    ∷ "IRR" ∷ "JMD" ∷ "KES" ∷ "KGS" ∷ "KHR" ∷ "KPW" ∷ "KYD" ∷ "KZT" ∷ "LAK" ∷ "LBP" ∷ "LKR" ∷ "LRD"
    ∷ "LSL" ∷ "MAD" ∷ "MDL" ∷ "MGA" ∷ "MKD" ∷ "MMK" ∷ "MNT" ∷ "MOP" ∷ "MRU" ∷ "MUR" ∷ "MVR" ∷ "MWK"
    ∷ "MXN" ∷ "MXV" ∷ "MYR" ∷ "MZN" ∷ "NAD" ∷ "NGN" ∷ "NIO" ∷ "NOK" ∷ "NPR" ∷ "NZD" ∷ "PAB" ∷ "PEN"
    ∷ "PGK" ∷ "PHP" ∷ "PKR" ∷ "PLN" ∷ "QAR" ∷ "RON" ∷ "RSD" ∷ "RUB" ∷ "SAR" ∷ "SBD" ∷ "SCR" ∷ "SDG"
    ∷ "SEK" ∷ "SGD" ∷ "SHP" ∷ "SLE" ∷ "SOS" ∷ "SRD" ∷ "SSP" ∷ "STN" ∷ "SVC" ∷ "SYP" ∷ "SZL" ∷ "THB"
    ∷ "TJS" ∷ "TMT" ∷ "TOP" ∷ "TRY" ∷ "TTD" ∷ "TWD" ∷ "TZS" ∷ "UAH" ∷ "USD" ∷ "USN" ∷ "UYU" ∷ "UZS"
    ∷ "VED" ∷ "VES" ∷ "WST" ∷ "YER" ∷ "ZAR" ∷ "ZMW" ∷ "ZWG" ∷ "ZWL" ∷ []

abbrev pub crypto_asset : String → ℤ → Asset
crypto_asset c e = record { code = c; exponent = e; kind = crypto }

abbrev pub crypto_assets : List Asset
crypto_assets =
    crypto_asset "BTC" (pos 8)
    ∷ crypto_asset "ETH" (pos 18)
    ∷ crypto_asset "USDT" (pos 6)
    ∷ crypto_asset "USDC" (pos 6)
    ∷ crypto_asset "SOL" (pos 9)
    ∷ crypto_asset "BNB" (pos 18)
    ∷ crypto_asset "XRP" (pos 6)
    ∷ crypto_asset "ADA" (pos 6)
    ∷ crypto_asset "DOGE" (pos 8)
    ∷ crypto_asset "LTC" (pos 8)
    ∷ []

abbrev pub fiat_assets : List String → ℤ → List Asset
fiat_assets codes e = map (λ c. record { code = c; exponent = e; kind = fiat }) codes

unfoldable pub builtin_assets : List Asset
builtin_assets =
    fiat_assets exp0 (pos 0)
    ++ (fiat_assets exp2 (pos 2)
        ++ (fiat_assets exp3 (pos 3) ++ (fiat_assets exp4 (pos 4) ++ crypto_assets)))

-- `init`: every built-in asset is written under its code.
seed : List Asset → Registry → Registry
seed [] r = r
seed (a ∷ rest) r = seed rest (insert a.code a r)

unfoldable pub initial_registry : Registry
unfolding seed builtin_assets
initial_registry = seed builtin_assets []
