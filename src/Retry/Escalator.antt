-- ===== src/Retry/Escalator.antt =====
-- platform/messaging/retry/escalate.go: the escalator with its table of parked keys, and the handler
-- that `WrapHandler` builds; `BaseTopic` of retry.go. A call holds the table's lock while it reads or
-- writes it. The wait between two attempts is left out, and whether the context is done after it is an argument.
use go_boilerplate.Prelude.{
  ℕ, zero, suc, ◌+◌, Bool, true, false, not, ◌&&◌, ◌||◌, Option, none, some, List, [], ◌∷◌, ◌++◌,
  String, str_eq, ltb, leb, ◌==◌, ℤ, pos, ltb_ℤ, pos_part, Result, ok, err, if◌then◌else◌, length,
  take, drop,
}
use go_boilerplate.Retry.{Bytes, codes, is_digit, Policy, Cause, Record, RetryError, publish_next}

-- The key of a parked record: the base topic and the record's key.
pub record ParkKey : Type 0 where
  pub park_topic : String
  pub park_key : String

abbrev pub same_park_key : ParkKey → ParkKey → Bool
same_park_key a b = str_eq a.park_topic b.park_topic && str_eq a.park_key b.park_key

abbrev pub park_sweep_every : ℕ
park_sweep_every = 256

abbrev pub Parked : Type 0
Parked = List (ParkKey × ℕ)

pub record Escalator : Type 0 where
  pub policy : Policy
  pub park_window : ℤ
  pub parked : Parked
  pub park_ops : ℕ
  pub produced : List Record

-- `WithKeyParking`, where it is given, overrides the policy's window.
abbrev pub window_of : Option ℤ → Policy → ℤ
window_of none p = p.key_parking_window
window_of (some w) p = w

abbrev pub new_escalator : Option ℤ → Policy → Escalator
new_escalator option p = record {
  policy = p;
  park_window = window_of option p;
  parked = [];
  park_ops = 0;
  produced = [];
}

unfoldable pub find_parked : ParkKey → Parked → Option ℕ
find_parked k [] = none
find_parked k ((k', until) ∷ rest) =
    let found = find_parked k rest in if same_park_key k' k then some until else found

unfoldable pub unpark : ParkKey → Parked → Parked
unpark k [] = []
unpark k ((k', until) ∷ rest) =
    let kept = unpark k rest in if same_park_key k' k then kept else (k', until) ∷ kept

-- The sweep: what has not expired stays.
unfoldable pub sweep : ℕ → Parked → Parked
sweep now [] = []
sweep now ((k, until) ∷ rest) =
    let kept = sweep now rest in if ltb until now then kept else (k, until) ∷ kept

-- No parking without a window, nor for a record with no key.
abbrev pub parking_off : Escalator → String → Bool
parking_off e key = not (ltb_ℤ (pos 0) e.park_window) || str_eq key ""

unfoldable pub park : ℕ → String → String → Escalator → Escalator
unfolding unpark sweep
park now topic key e =
    if parking_off e key
    then e
    else (let k : ParkKey = record { park_topic = topic; park_key = key } in
        let table = (k, now + pos_part e.park_window) ∷ unpark k e.parked in
        if leb park_sweep_every (suc e.park_ops)
        then record e { parked = sweep now table; park_ops = 0 }
        else record e { parked = table; park_ops = suc e.park_ops })

-- `KeyParked` drops the entry that it finds expired.
unfoldable pub key_parked : ℕ → String → String → Escalator → Escalator × Bool
unfolding find_parked unpark
key_parked now topic key e =
    if parking_off e key
    then (e, false)
    else (let k : ParkKey = record { park_topic = topic; park_key = key } in
        elim (find_parked k e.parked) [
          | none ↦ (e, false)
          | some until ↦
              if ltb until now then (record e { parked = unpark k e.parked }, false) else (e, true)
        ])

-- `publishNext` on the escalator's producer.
abbrev pub publish :
    Option String → ℕ → String → Record → Cause → Escalator → Escalator × Result RetryError String
publish fault now orig rec cause e =
    let (produced, result) = publish_next e.policy fault now orig rec cause e.produced in
    (record e { produced = produced }, result)

-- A successful escalation parks the record's key.
abbrev pub park_after :
    ℕ
    → String
    → String
    → Escalator × Result RetryError String
    → Escalator × Result RetryError String
park_after now orig key (e, err x) = (e, err x)
park_after now orig key (e, ok dest) = (park now orig key e, ok dest)

unfoldable pub escalate :
    Option String → ℕ → String → Record → Cause → Escalator → Escalator × Result RetryError String
escalate fault now orig rec cause e =
    park_after now orig rec.key (publish fault now orig rec cause e)

-- The cause of a diverted record; the dash of the text is three bytes.
abbrev pub err_key_parked : Cause
err_key_parked = record {
  cause_text =
      codes "retry: key parked "
      ++ (0xE2 ∷ 0x80 ∷ 0x94 ∷ [])
      ++ codes " diverted to preserve per-key order";
  permanent = false;
  cause_code = none;
}

unfoldable pub divert :
    Option String → ℕ → String → Record → Escalator → Escalator × Result RetryError String
divert fault now orig rec e = publish fault now orig rec err_key_parked e

pub data WrapError : Type 0 where
  context_done : WrapError
  not_routed : RetryError → WrapError

-- How the fast attempts end.
pub data Attempts : Type 0 where
  handled done : Attempts
  failed : Cause → Attempts

-- The loop over the fast attempts that are left; `handler n` is what the handler returns in attempt
-- `n`, and `is_done n` whether the context is done in the wait after it.
unfoldable pub fast_loop : (ℕ → Option Cause) → (ℕ → Bool) → ℕ → ℕ → Cause → Attempts
fast_loop handler is_done n zero last = failed last
fast_loop handler is_done n (suc left) last = elim (handler n) [
  | none ↦ handled
  | some c ↦
      let rest = fast_loop handler is_done (suc n) left c in
      if c.permanent || left == 0 then failed c else if is_done n then done else rest
]

-- `FastAttempts`, at least one.
abbrev pub fast_attempts_of : Policy → ℕ
fast_attempts_of p = if ltb_ℤ (pos 0) p.fast_attempts then pos_part p.fast_attempts else 1

abbrev pub routed : Escalator × Result RetryError String → Escalator × Option WrapError
routed (e, ok dest) = (e, none)
routed (e, err x) = (e, some (not_routed x))

abbrev pub no_cause : Cause
no_cause = record { cause_text = []; permanent = false; cause_code = none }

-- The handler that `WrapHandler` returns. `now` is the time at its start and `later` the time at the
-- escalation.
unfoldable pub wrap_handler :
    (ℕ → Option Cause)
    → (ℕ → Bool)
    → Policy
    → Option String
    → ℕ
    → ℕ
    → Record
    → Escalator
    → Escalator × Option WrapError
unfolding key_parked divert escalate fast_loop
wrap_handler handler is_done policy fault now later rec e =
    let (e', parked) = key_parked now rec.topic rec.key e in
    elim parked [
      | true ↦ routed (divert fault now rec.topic rec e')
      | false ↦ elim (fast_loop handler is_done 1 (fast_attempts_of policy) no_cause) [
        | handled ↦ (e', none)
        | done ↦ (e', some context_done)
        | failed c ↦ routed (escalate fault later rec.topic rec c e')
      ]
    ]

-- `strings.HasPrefix`.
unfoldable pub has_prefix : Bytes → Bytes → Bool
has_prefix [] s = true
has_prefix (c ∷ p) [] = false
has_prefix (c ∷ p) (d ∷ s) = let rest = has_prefix p s in if c == d then rest else false

-- `strings.LastIndex`, from position `i` on.
unfoldable pub last_index : Bytes → ℕ → Bytes → Option ℕ
unfolding has_prefix
last_index marker i [] = none
last_index marker i (c ∷ s) =
    let later = last_index marker (suc i) s in
    elim later [ some j ↦ some j | none ↦ if has_prefix marker (c ∷ s) then some i else none ]

abbrev pub all_digits : Bytes → Bool
all_digits [] = true
all_digits (c ∷ s) = is_digit c && all_digits s

-- The part before the marker, for a suffix that is not empty and holds digits only.
abbrev pub base_of : Bytes → Bytes → Option Bytes
base_of base [] = none
base_of base (c ∷ s) = if all_digits (c ∷ s) then some base else none

abbrev pub marker : Bytes
marker = codes ".retry."

unfoldable pub base_topic : Bytes → Option Bytes
unfolding last_index
base_topic topic = elim (last_index marker 0 topic) [
  | none ↦ none
  | some zero ↦ none
  | some (suc i) ↦ base_of (take (suc i) topic) (drop (suc i + length marker) topic)
]
