-- ===== src/Redelivery/Pause.antt =====
-- platform/messaging/kafka/run.go: the pause of a failing partition, beyond the point where the shift
-- overflows.
use Prim.Native.Nat.{min}
use native.Mathlib.Nat.{two-pow-succ}
use go_boilerplate.Prelude.{
  ap, ◌∙◌, ltb→lt, ℕ, zero, suc, ◌+◌, ◌-◌, ◌*◌, ◌^◌, ◌<◌, ◌%◌, ◌≡◌, refl, arith, Bool, true, ◌&&◌,
  ltb, ◌==◌, ==_iff, pos, wrap64, Bool-cases, inl, inr,
}
use go_boilerplate.Redelivery.{
  redelivery_backoff_floor, redelivery_backoff_cap, capped, redelivery_delay,
}

-- Whether the pauses after up to `bound` failures are the floor doubled.
pauses_double : ℕ → Bool
pauses_double zero = true
pauses_double (suc bound) =
    pauses_double bound
    && (redelivery_delay bound == min (redelivery_backoff_floor * 2 ^ bound) redelivery_backoff_cap)

early_pause :
    (n k : ℕ)
    → pauses_double (k + suc n) ≡ true
    → redelivery_delay n ≡ min (redelivery_backoff_floor * 2 ^ n) redelivery_backoff_cap
unfolding pauses_double
early_pause n zero tested = (==_iff _ _).0 (ground arith)
early_pause n (suc k) tested =
    let same : suc (k + suc n) ≡ suc k + suc n = omega arith in
    let here : pauses_double (suc (k + suc n)) ≡ true = ap pauses_double same ∙ tested in
    early_pause n k (ground arith)

before_overflow : pauses_double 56 ≡ true
unfolding pauses_double redelivery_delay wrap64
before_overflow = refl

-- From the 57th failure on the shifted floor is a multiple of 2 ^ 64.
shifted : (k : ℕ) → redelivery_backoff_floor * 2 ^ (k + 56) ≡ (390625 * 2 ^ k) * 2 ^ 64
shifted zero = omega arith
shifted (suc k) =
    let step : 2 ^ (suc k + 56) ≡ 2 ^ suc (k + 56) = ap (λ (t : ℕ). 2 ^ t) (omega arith) in
    omega (arith, step, two-pow-succ (k + 56), two-pow-succ k, shifted k)

pow_pos : (n : ℕ) → 0 < 2 ^ n
pow_pos zero = omega arith
pow_pos (suc n) = omega (arith, pow_pos n)

wrapped : (m : ℕ) → capped (wrap64 (pos (m * 2 ^ 64))) ≡ redelivery_backoff_cap
unfolding wrap64
wrapped m = let none_left : (m * 2 ^ 64) % 2 ^ 64 ≡ 0 = omega arith in rw none_left refl

-- After `n + 1` failures in a row a partition pauses for 100 ms doubled `n` times, and for 5 s at
-- most, for every `n`: the shift that overflows 64 bits does not shorten the pause.
pub redelivery_delay-min :
    (n : ℕ) → redelivery_delay n ≡ min (redelivery_backoff_floor * 2 ^ n) redelivery_backoff_cap
unfolding redelivery_delay
redelivery_delay-min n = elim (Bool-cases (ltb n 56)) [
  | inl early ↦
      let bound : (56 - suc n) + suc n ≡ 56 = ground (arith, ltb→lt n 56 early) in
      early_pause n (56 - suc n) (ap pauses_double bound ∙ before_overflow)
  | inr late ↦
      let back : n ≡ (n - 56) + 56 = ground arith in
      rw back
        (rw (shifted (n - 56)) (wrapped (390625 * 2 ^ (n - 56)) ∙ omega (arith, pow_pos (n - 56))))
]
