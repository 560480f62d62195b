-- ===== src/Service/Calibrator.antt =====
-- src/service_calculus.rs: `ResidualCalibrator<N>`. `n` stands for the const parameter `N`, and
-- the array of residuals is a list of that length.
pub mod Coverage
use slope.Base.{
  ℕ, ◌+◌, ◌-◌, ◌*◌, ◌/◌, ◌%◌, ◌^◌, ◌≤◌, ◌<◌, min, Bool, ◌||◌, ◌==◌, leb, if◌then◌else◌, List, [],
  ◌∷◌, length, take, set, get_or, replicate, Result, ok, err, ◌>>=◌, ok_or, checked_add,
  checked_mul, saturating_add, bit_or, u64_mod, u64_max, u8_mod, ◌≡◌, arith, All, some, none,
}
use slope.Base.Sort.{sort}
use slope.Service.Curve.{mix}

pub data CalibrationFault : Type 0 where
  zero_capacity invalid_coverage time_regression arithmetic_overflow : CalibrationFault
  corrupt_certificate : CalibrationFault

pub record ResidualCalibrator : Type 0 where
  pub residuals : List ℕ
  pub length : ℕ
  pub cursor : ℕ
  pub samples : ℕ
  pub coverage_numerator : ℕ
  pub coverage_denominator : ℕ
  pub additive_slack : ℕ
  pub maximum_guard : ℕ
  pub secret : ℕ
  pub root : ℕ

mix_all : ℕ → List ℕ → ℕ
mix_all state [] = state
mix_all state (r ∷ rs) = mix_all (mix state r) rs

unfoldable pub calibrator_root : ResidualCalibrator → ℕ
unfolding mix_all
calibrator_root c =
    let s₁ : ℕ = mix (mix (mix c.secret c.samples) c.length) c.cursor in
    let s₂ : ℕ = mix s₁ (bit_or c.coverage_numerator (c.coverage_denominator * 2 ^ 8)) in
    let s₃ : ℕ = mix (mix s₂ c.additive_slack) c.maximum_guard in
    mix_all s₃ (take c.length c.residuals)

unfoldable pub verify_root : ResidualCalibrator → Bool
verify_root c = c.root == calibrator_root c

unfoldable pub seal : ResidualCalibrator → ResidualCalibrator
seal c = record c { root = calibrator_root c }

unfoldable pub fresh : ℕ → ℕ → ℕ → ℕ → ℕ → ℕ → ResidualCalibrator
fresh n numerator denominator slack maximum secret = record {
  residuals = replicate n 0;
  length = 0;
  cursor = 0;
  samples = 0;
  coverage_numerator = numerator;
  coverage_denominator = denominator;
  additive_slack = slack;
  maximum_guard = maximum;
  secret = secret;
  root = 0;
}

unfoldable pub new : ℕ → ℕ → ℕ → ℕ → ℕ → ℕ → Result CalibrationFault ResidualCalibrator
unfolding seal fresh
new n numerator denominator slack maximum secret =
    if n == 0
    then err zero_capacity
    else (if numerator == 0
          || (denominator == 0 || (leb denominator numerator || (maximum == 0 || secret == 0)))
        then err invalid_coverage
        else ok (seal (fresh n numerator denominator slack maximum secret)))

unfoldable pub kernel_default : ℕ → ℕ → ℕ → ℕ → Result CalibrationFault ResidualCalibrator
unfolding new
kernel_default n slack maximum secret = new n 15 16 slack maximum secret

-- The place in the sorted residuals that the coverage asks for.
unfoldable pub guard_index : ResidualCalibrator → Result CalibrationFault ℕ
guard_index c = do
  retained ← ok_or (checked_add c.length 1) arithmetic_overflow
  numerator ← ok_or (checked_mul retained c.coverage_numerator) arithmetic_overflow
  padded ← ok_or (checked_add numerator (c.coverage_denominator - 1)) arithmetic_overflow
  let rank = padded / c.coverage_denominator
  ok (min (rank - 1) (c.length - 1))

unfoldable pub guard : ResidualCalibrator → Result CalibrationFault ℕ
unfolding guard_index
guard c = if c.length == 0 then ok (min c.additive_slack c.maximum_guard) else do
  let sorted = sort (take c.length c.residuals)
  index ← guard_index c
  value ← ok_or (checked_add (get_or sorted index 0) c.additive_slack) arithmetic_overflow
  ok (min value c.maximum_guard)

-- The new state, and the guard that it gives.
unfoldable pub push : ℕ → ResidualCalibrator → ℕ → Result CalibrationFault ℕ × ResidualCalibrator
unfolding seal
push n c residual =
    let bounded : ℕ = min residual c.maximum_guard in
    let c₁ : ResidualCalibrator = seal (record c {
      residuals = set c.residuals c.cursor bounded;
      cursor = (c.cursor + 1) % n;
      length = min (saturating_add c.length 1) n;
      samples = saturating_add c.samples 1;
    }) in
    (guard c₁, c₁)
