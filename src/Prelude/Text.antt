-- ===== src/Prelude/Text.antt =====
-- Texts: concatenation, and the decimal form that `strconv.Itoa` writes.
use Prim.Native.Nat.{ℕ, zero, suc, ◌/◌, ◌%◌}
use Prim.Native.String.{String}
use Prim.Native.String
use go_boilerplate.Prelude.Tests.{ltb, ◌==◌, if◌then◌else◌}
use go_boilerplate.Prelude.Int.{ℤ, pos, negsuc}

infixr 66 ◌<>◌
abbrev pub ◌<>◌ : String → String → String
s <> t = String.◌++◌ s t

digit : ℕ → String
digit n =
    if n == 0
    then "0"
    else if n == 1
    then "1"
    else if n == 2
    then "2"
    else if n == 3
    then "3"
    else if n == 4
    then "4"
    else if n == 5
    then "5"
    else if n == 6
    then "6"
    else if n == 7
    then "7"
    else if n == 8
    then "8"
    else "9"

-- `n` has at most `n + 1` digits, so `suc n` is fuel enough.
decimal_digits : ℕ → ℕ → String
decimal_digits zero n = ""
decimal_digits (suc f) n =
    let high = decimal_digits f (n / 10) in if ltb n 10 then digit n else high <> digit (n % 10)

unfoldable pub itoa : ℤ → String
unfolding decimal_digits digit
itoa (pos n) = decimal_digits (suc n) n
itoa (negsuc n) = "-" <> decimal_digits (suc (suc n)) (suc n)
