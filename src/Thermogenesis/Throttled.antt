-- ===== src/Thermogenesis/Throttled.antt =====
-- src/thermogenesis.rs: the size of a throttled batch.
use slope.Base.{ℕ, true, ◌*◌, ◌/◌, ◌≤◌, ◌<◌, max, ◌≡◌, refl, some, ltb, u64_mod, arith}
use slope.Thermogenesis.{
  ThermalPage, throttled_batch_size, hint, ThrottleHint, full, half, quarter, minimal,
  work_fraction_millipct,
}

fraction_bound : (h : ThrottleHint) → work_fraction_millipct h ≤ 1_000
unfolding work_fraction_millipct
fraction_bound full = omega arith
fraction_bound half = omega arith
fraction_bound quarter = omega arith
fraction_bound minimal = omega arith

bounded :
    (h : ThrottleHint) (base : ℕ)
    → base * 1_000 < u64_mod
    → (base * work_fraction_millipct h < u64_mod) × (base * work_fraction_millipct h / 1_000 ≤ base)
unfolding work_fraction_millipct
bounded full base k = (omega arith, omega arith)
bounded half base k = (omega arith, omega arith)
bounded quarter base k = (omega arith, omega arith)
bounded minimal base k = (omega arith, omega arith)

-- A batch has at least one item, and no more than were asked for unless that is none.
pub throttled_batch_size_bounds :
    (p : ThermalPage) (base : ℕ)
    → base * 1_000 < u64_mod
    → (n : ℕ) × (throttled_batch_size p base ≡ some n) × (1 ≤ n) × (n ≤ max base 1)
unfolding throttled_batch_size
throttled_batch_size_bounds p base k =
    let (fits, less) = bounded (hint p) base k in
    let room : ltb (base * work_fraction_millipct (hint p)) u64_mod ≡ true = ground arith in
    (
      max (base * work_fraction_millipct (hint p) / 1_000) 1,
      rw room refl,
      omega arith,
      omega (arith, less),
    )
