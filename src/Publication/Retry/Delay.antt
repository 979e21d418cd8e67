-- ===== src/Publication/Retry/Delay.antt =====
-- Bounds of the delay between attempts.
use danangmap_backend.Prelude.{ℕ, zero, suc, ◌-◌, ◌*◌, ◌^◌, ◌≤◌, min, arith}
use danangmap_backend.Publication.Retry.{retry_delay}

power_positive : (n : ℕ) → 1 ≤ 2 ^ n
power_positive zero = omega arith
power_positive (suc n) = omega (arith, power_positive n)

times_positive : (a b : ℕ) → 1 ≤ b → a ≤ a * b
times_positive zero b h = omega arith
times_positive (suc a) b h = omega (arith, times_positive a b h)

pub retry_delay_bounds :
    (backoff attempts : ℕ)
    → (min backoff 60000 ≤ retry_delay backoff attempts) × (retry_delay backoff attempts ≤ 60000)
unfolding retry_delay
retry_delay_bounds backoff attempts =
    let more =
      times_positive backoff (2 ^ min (attempts - 1) 8) (power_positive (min (attempts - 1) 8)) in
    (omega (arith, more), omega arith)
