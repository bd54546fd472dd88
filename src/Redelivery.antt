-- ===== src/Redelivery.antt =====
-- platform/messaging/kafka/run.go: how one poll's records of a partition are processed, by `Run` and by
-- `RunBatch`, and the pause of a partition whose handler keeps failing. Time is in nanoseconds.
use go_boilerplate.Prelude.{
  ℕ, zero, suc, ◌+◌, ◌-◌, ◌*◌, ◌^◌, Bool, true, false, ◌&&◌, ◌||◌, Option, none, some, List, [],
  ◌∷◌, ltb, leb, ℤ, pos, negsuc, wrap64, pos_part, ltb_ℤ, if◌then◌else◌, length, get_elem?,
}
pub mod Pause

abbrev pub redelivery_backoff_floor : ℕ
redelivery_backoff_floor = 100_000_000

abbrev pub redelivery_backoff_cap : ℕ
redelivery_backoff_cap = 5_000_000_000

abbrev pub capped : ℤ → ℕ
capped (negsuc n) = redelivery_backoff_cap
capped (pos zero) = redelivery_backoff_cap
capped (pos (suc n)) = if ltb redelivery_backoff_cap (suc n) then redelivery_backoff_cap else suc n

-- `redeliveryBackoffFloor << (failures - 1)` in 64 bits, capped; `n` is `failures - 1`.
unfoldable pub redelivery_delay : ℕ → ℕ
redelivery_delay n = capped (wrap64 (pos (redelivery_backoff_floor * 2 ^ n)))

-- The last record that succeeded and the first that failed, with the state that the handlers left.
pub record Outcome (A S : Type 0) : Type 0 where
  pub state : S
  pub last : Option A
  pub first_bad : Option A

-- `processed` within the records, as `RunBatch` bounds it.
abbrev pub bounded : ℤ → ℕ → ℕ
bounded (negsuc n) len = 0
bounded (pos n) len = if ltb len n then len else n

abbrev pub last_of : {A : Type 0} → ℕ → List A → Option A
last_of zero rs = none
last_of (suc n) rs = get_elem? rs n

abbrev pub bad_of : {A E : Type 0} → Option E → ℕ → List A → Option A
bad_of none n rs = none
bad_of (some e) n rs = get_elem? rs n

module _ {A E S : Type 0} where
  -- The loop of `Run` over the records of a partition.
  unfoldable pub run_records : (A → S → S × Option E) → Option A → List A → S → Outcome A S
  run_records handler last [] s = record { state = s; last = last; first_bad = none }
  run_records handler last (r ∷ rs) s =
      let (s', failed) = handler r s in
      elim failed [
        | some e ↦ record { state = s'; last = last; first_bad = some r }
        | none ↦ run_records handler (some r) rs s'
      ]

  unfoldable pub run_batch : (List A → S → S × ℤ × Option E) → List A → S → Outcome A S
  run_batch handler [] s = record { state = s; last = none; first_bad = none }
  run_batch handler (r ∷ rs) s =
      let (s', processed, failed) = handler (r ∷ rs) s in
      let n = bounded processed (length (r ∷ rs)) in
      record { state = s'; last = last_of n (r ∷ rs); first_bad = bad_of failed n (r ∷ rs) }
