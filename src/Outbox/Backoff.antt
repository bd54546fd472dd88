-- ===== src/Outbox/Backoff.antt =====
-- platform/messaging/outbox: the backoff of the relay's `Run`.
use Prim.Native.Nat.{min}
use go_boilerplate.Prelude.{ℕ, zero, suc, ◌-◌, ◌*◌, ◌^◌, ◌≤◌, ◌<◌, ◌≡◌, arith}
use go_boilerplate.Outbox.{backoff_base, backoff_max, backoff_loop, backoff_after}

pow_pos : (n : ℕ) → 0 < 2 ^ n
pow_pos zero = omega arith
pow_pos (suc n) = omega (arith, pow_pos n)

double_pow : (b n : ℕ) → b * 2 ^ suc n ≡ (b * 2) * 2 ^ n
double_pow b n = grind arith

le-mul_pow : (b n : ℕ) → b ≤ b * 2 ^ n
le-mul_pow b n = grind (arith, pow_pos n)

backoff_loop-min : (n b : ℕ) → b ≤ backoff_max → backoff_loop n b ≡ min (b * 2 ^ n) backoff_max
unfolding backoff_loop
backoff_loop-min zero b h = ground arith
backoff_loop-min (suc n) b h =
    ground (arith, backoff_loop-min n (b * 2), double_pow b n, le-mul_pow (b * 2) n)

-- After `n + 1` failures in a row the relay waits 100 ms doubled `n` times, and 30 s at most.
pub backoff_after-min : (n : ℕ) → backoff_after (suc n) ≡ min (backoff_base * 2 ^ n) backoff_max
unfolding backoff_after
backoff_after-min n =
    let step : suc n - 1 ≡ n = omega arith in
    rw step (backoff_loop-min n backoff_base (omega arith))
