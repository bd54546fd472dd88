-- ===== src/Retry.antt =====
-- platform/messaging/retry: the headers and topics of retry.go and the escalator of escalate.go.
-- The headers' values and the error texts, which the code walks, are bytes, in UTF-8; topics and keys
-- are texts. Time is in milliseconds. A cause is its text, whether it is permanent, and its code if it has one.
use Prim.Native.Char.{code}
use Prim.Native.String.{String}
use mathlib.Core.List.{reverse}
use go_boilerplate.Prelude.{
  ℕ, zero, suc, ◌+◌, ◌-◌, ◌*◌, ◌^◌, Bool, true, false, not, ◌&&◌, ◌||◌, Option, none, some, List,
  [], ◌∷◌, ◌++◌, str_eq, ◌<>◌, itoa, ltb, leb, ◌==◌, ℤ, pos, negsuc, negate, ltb_ℤ, ◌+ℤ◌, Result,
  ok, err, ◌>>=◌, ◌>>◌, if◌then◌else◌, length, get_elem?, take,
}
use go_boilerplate.Dict.{Dict, lookup, insert, contains, erase}
pub use go_boilerplate.Prelude.{Bytes}
pub mod Truncate
pub mod Routing
pub mod Escalator
pub mod Parking
pub mod Redrive
pub mod Passes
pub mod Kept

abbrev pub codes : String → Bytes
codes String.[] = []
codes (String.◌∷◌ c s) = code c ∷ codes s

abbrev pub is_digit : ℕ → Bool
is_digit c = leb b'0' c && leb c b'9'

-- The digits of `strconv.ParseInt` in base 10, with the value so far.
unfoldable pub parse_digits : ℕ → Bytes → Option ℕ
parse_digits n [] = some n
parse_digits n (c ∷ s) =
    let rest = parse_digits (n * 10 + (c - b'0')) s in if is_digit c then rest else none

-- The range of `int64` (and of `int`): the bound on the magnitude differs by the sign.
abbrev pub in_range : Bool → Option ℕ → Option ℤ
in_range minus none = none
in_range true (some n) = if leb n (2 ^ 63) then some (negate (pos n)) else none
in_range false (some n) = if ltb n (2 ^ 63) then some (pos n) else none

unfoldable pub parse_unsigned : Bool → Bytes → Option ℤ
unfolding parse_digits
parse_unsigned minus [] = none
parse_unsigned minus (c ∷ s) = in_range minus (parse_digits 0 (c ∷ s))

-- `strconv.Atoi` and `strconv.ParseInt(s, 10, 64)`.
unfoldable pub atoi : Bytes → Option ℤ
unfolding parse_unsigned
atoi [] = none
atoi (c ∷ s) =
    if c == b'-'
    then parse_unsigned true s
    else if c == b'+'
    then parse_unsigned false s
    else parse_unsigned false (c ∷ s)

-- A byte that continues a character: `b & 0xC0 == 0x80`.
abbrev pub is_continuation : ℕ → Bool
is_continuation b = leb 0x80 b && leb b 0xBF

-- `utf8.RuneCount` of a UTF-8 text.
unfoldable pub rune_count : Bytes → ℕ
rune_count [] = 0
rune_count (b ∷ s) = let rest = rune_count s in if is_continuation b then rest else suc rest

-- The bytes that a lead byte announces.
abbrev pub announced : ℕ → ℕ
announced b = if ltb b 0x80 then 0 else if ltb b 0xE0 then 1 else if ltb b 0xF0 then 2 else 3

-- `utf8.Valid` of a part of a UTF-8 text that begins at a character: it ends with a whole one.
unfoldable pub valid_from : ℕ → Bytes → Bool
valid_from zero [] = true
valid_from (suc n) [] = false
valid_from zero (b ∷ s) = not (is_continuation b) && valid_from (announced b) s
valid_from (suc n) (b ∷ s) = is_continuation b && valid_from n s

-- `for !utf8.Valid(b) { b = b[:len(b)-1] }`; each round takes a byte off, so `length b` is enough.
unfoldable pub walk_back : ℕ → Bytes → Bytes
walk_back zero b = b
walk_back (suc f) b =
    let rest = walk_back f (take (length b - 1) b) in if valid_from 0 b then b else rest

-- The truncation in `SetRetryHeaders`: it begins only above 512 characters.
unfoldable pub shorten_error : Bytes → Bytes
unfolding rune_count walk_back valid_from
shorten_error s =
    if ltb 512 (rune_count s)
    then (if ltb 512 (length s) then walk_back 512 (take 512 s) else s)
    else s

-- `for len(b) > 0 && b[len(b)-1]&0xC0 == 0x80 { b = b[:len(b)-1] }`, over the bytes in reverse.
unfoldable pub strip_continuations : Bytes → Bytes
strip_continuations [] = []
strip_continuations (b ∷ s) = if is_continuation b then strip_continuations s else b ∷ s

unfoldable pub truncate : Bytes → ℕ → Bytes
unfolding strip_continuations
truncate s max_bytes =
    if leb (length s) max_bytes
    then s
    else reverse (strip_continuations (reverse (take max_bytes s)))

abbrev pub header_attempt : String
header_attempt = "retry-attempt"

abbrev pub header_orig_topic : String
header_orig_topic = "retry-orig-topic"

abbrev pub header_due_at : String
header_due_at = "retry-due-at"

abbrev pub header_last_error : String
header_last_error = "retry-last-error"

abbrev pub header_dlt_original_topic : String
header_dlt_original_topic = "x-original-topic"

abbrev pub header_dlt_error_code : String
header_dlt_error_code = "x-error-code"

pub record Policy : Type 0 where
  pub tiers : List ℕ
  pub fast_attempts : ℤ
  pub fast_backoff : ℤ
  pub key_parking_window : ℤ

abbrev pub default_policy : Policy
default_policy = record {
  tiers = 5_000 ∷ 30_000 ∷ 300_000 ∷ [];
  fast_attempts = pos 1;
  fast_backoff = pos 100;
  key_parking_window = pos 0;
}

pub record Cause : Type 0 where
  pub cause_text : Bytes
  pub permanent : Bool
  pub cause_code : Option Bytes

pub record Record : Type 0 where
  pub topic : String
  pub key : String
  pub payload : String
  pub headers : Dict Bytes

unfoldable pub tier_topic : String → ℤ → String
tier_topic base idx = base <> ".retry." <> itoa idx

unfoldable pub dlt_topic : String → String
dlt_topic base = base <> ".DLT"

-- The four retry headers.
unfoldable pub set_retry_headers : ℤ → String → ℕ → Cause → Record → Record
unfolding shorten_error
set_retry_headers attempt orig due cause rec = record rec {
  headers = insert header_last_error (shorten_error cause.cause_text) (
      insert header_due_at (codes (itoa (pos due))) (
        insert header_orig_topic (codes orig)
          (insert header_attempt (codes (itoa attempt)) rec.headers)));
}

pub record RetryHeaders : Type 0 where
  pub attempt : ℤ
  pub orig_topic : Bytes
  pub due_at : ℤ

-- `strconv` of an optional header.
abbrev pub number_of : Option Bytes → Option ℤ
number_of none = none
number_of (some s) = atoi s

abbrev pub retry_headers : Option ℤ → Option Bytes → Option ℤ → Option RetryHeaders
retry_headers (some a) (some o) (some d) = some (record { attempt = a; orig_topic = o; due_at = d })
retry_headers _ _ _ = none

unfoldable pub parse_retry_headers : Record → Option RetryHeaders
parse_retry_headers rec =
    retry_headers (number_of (lookup header_attempt rec.headers))
      (lookup header_orig_topic rec.headers) (number_of (lookup header_due_at rec.headers))

-- `0` where the headers are absent or malformed.
abbrev pub attempt_or_zero : Option RetryHeaders → ℤ
attempt_or_zero none = pos 0
attempt_or_zero (some h) = h.attempt

-- `tiers[attempt]`: an index out of range, a negative one too, panics.
abbrev pub tier_delay : List ℕ → ℤ → Option ℕ
tier_delay tiers (pos i) = get_elem? tiers i
tier_delay tiers (negsuc i) = none

pub data RetryError : Type 0 where
  index_panic : RetryError
  produce_failed : String → RetryError

abbrev pub with_error_code : Option Bytes → Dict Bytes → Dict Bytes
with_error_code none h = h
with_error_code (some c) h = insert header_dlt_error_code c h

-- The record that goes to the dead-letter topic.
unfoldable pub dead_letter : String → Record → Cause → Record
unfolding truncate
dead_letter orig rec cause = record {
  topic = dlt_topic orig;
  key = rec.key;
  payload = rec.payload;
  headers = with_error_code cause.cause_code (
      insert header_dlt_original_topic (codes orig)
        (insert header_last_error (truncate cause.cause_text 512) rec.headers));
}

-- The record that goes to a tier.
unfoldable pub tier_record : String → ℤ → ℕ → Record → Cause → Record
unfolding set_retry_headers
tier_record orig attempt due rec cause =
    set_retry_headers (attempt +ℤ pos 1) orig due cause
      (record rec { topic = tier_topic orig attempt })

-- The destination record that `publishNext` builds.
unfoldable pub next_record : Policy → ℕ → String → Record → Cause → Result RetryError Record
next_record policy now orig rec cause =
    let attempt = attempt_or_zero (parse_retry_headers rec) in
    let to_dlt = not (ltb_ℤ attempt (pos (length policy.tiers))) || cause.permanent in
    if to_dlt then ok (dead_letter orig rec cause) else elim (tier_delay policy.tiers attempt) [
      | none ↦ err index_panic
      | some d ↦ ok (tier_record orig attempt (now + d) rec cause)
    ]

-- `publishNext`: the records produced so far, and the destination's name or the error.
unfoldable pub publish_next :
    Policy
    → Option String
    → ℕ
    → String
    → Record
    → Cause
    → List Record
    → List Record × Result RetryError String
publish_next policy fault now orig rec cause produced =
    elim (next_record policy now orig rec cause) [
      | err e ↦ (produced, err e)
      | ok out ↦ elim fault [
        | some e ↦ (produced, err (produce_failed e))
        | none ↦ (produced ++ out ∷ [], ok out.topic)
      ]
    ]
