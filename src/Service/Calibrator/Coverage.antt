-- ===== src/Service/Calibrator/Coverage.antt =====
-- src/service_calculus.rs: what the calibrator's guard covers, and what keeps it computable.
use slope.Base.{
  ℕ, suc, ◌+◌, ◌-◌, ◌*◌, ◌≤◌, ◌<◌, ◌^◌, min, ◌≡◌, ◌≢◌, refl, subst, true, All, length, take, get_or,
  Result, ok, err, ok-injective, sym, ◌∙◌, ◌⊎◌, ltb, u64_mod, u8_mod, arith, length-take,
  length-set, length-replicate, leb, ◌==◌, ==_iff, leb→le, Bool-cases, inl, inr,
}
use slope.Base.Sort.{
  sort, length-sort, sort-Rises, count_le, count_le-sort, count_le_mono, order_statistic,
  sort-All-le, get_or-All-le, take-All-le, set-All-le, replicate-All-le,
}
use slope.Service.Calibrator.{
  CalibrationFault, arithmetic_overflow, ResidualCalibrator, calibrator_root, verify_root, seal,
  fresh, new, guard_index, guard, push,
}
use native.Mathlib.Nat.{mod-lt}
use slope.Service.Curve.{div_ceil, le-div_ceil-mul}

-- A calibrator between calls, for an array of `n` words that fits in memory.
pub record IsValid (n : ℕ) (c : ResidualCalibrator) : Type 0 where
  pub room : (0 < n) × (n < 2 ^ 56)
  pub array : length c.residuals ≡ n
  pub retained : c.length ≤ n
  pub cursor : c.cursor < n
  pub residuals : All (λ x. x ≤ c.maximum_guard) c.residuals
  pub coverage : (0 < c.coverage_numerator) × (c.coverage_numerator < c.coverage_denominator)
  pub denominator : c.coverage_denominator < u8_mod

-- The order statistic's place is always computed: nothing overflows.
guard_index-ok :
    (n : ℕ) (c : ResidualCalibrator)
    → IsValid n c
    → guard_index c
      ≡ ok (
          min
            (div_ceil ((c.length + 1) * c.coverage_numerator) c.coverage_denominator - 1)
            (c.length - 1))
unfolding guard_index
guard_index-ok n c v = ground (arith, small)
  where
    small : (c.length + 1) * c.coverage_numerator ≤ (n + 1) * 254
    small = grind arith

-- The bound that `guard` computes from the order statistic.
abbrev guard_value : ResidualCalibrator → ℕ → ℕ
guard_value c i =
    min (get_or (sort (take c.length c.residuals)) i 0 + c.additive_slack) c.maximum_guard

sorted-le :
    (n : ℕ) (c : ResidualCalibrator) (i : ℕ)
    → IsValid n c
    → get_or (sort (take c.length c.residuals)) i 0 ≤ c.maximum_guard
sorted-le n c i v =
    get_or-All-le c.maximum_guard _ i
      (sort-All-le c.maximum_guard _ (take-All-le c.maximum_guard c.length c.residuals v.residuals))

-- The order statistic that a valid calibrator adds its slack to.
abbrev statistic : ResidualCalibrator → ℕ → ℕ
statistic c i = get_or (sort (take c.length c.residuals)) i 0

guard_fits :
    (n : ℕ) (c : ResidualCalibrator) (i : ℕ)
    → IsValid n c
    → c.length ≢ 0
    → guard_index c ≡ ok i
    → statistic c i + c.additive_slack < u64_mod
    → guard c ≡ ok (guard_value c i)
unfolding guard
guard_fits n c i v h e fits = rw (e, guard) (ground (arith, fits))

guard_overflows :
    (n : ℕ) (c : ResidualCalibrator) (i : ℕ)
    → IsValid n c
    → c.length ≢ 0
    → guard_index c ≡ ok i
    → u64_mod ≤ statistic c i + c.additive_slack
    → guard c ≡ err arithmetic_overflow
unfolding guard
guard_overflows n c i v h e big = rw (e, guard) (ground (arith, big))

guard_lem :
    (n : ℕ) (c : ResidualCalibrator) (i g : ℕ)
    → IsValid n c
    → c.length ≢ 0
    → guard_index c ≡ ok i
    → guard c ≡ ok g
    → guard_value c i ≡ g
guard_lem n c i g v h e is = elim (Bool-cases (ltb (statistic c i + c.additive_slack) u64_mod)) [
  | inl fits ↦ ok-injective (sym (guard_fits n c i v h e (ground arith)) ∙ is)
  | inr big ↦ absurd (ground (arith, guard_overflows n c i v h e (ground arith), is))
]

-- What a guard can be.
abbrev pub IsGuard : ResidualCalibrator → Result CalibrationFault ℕ → Type 0
IsGuard c r =
    ((g : ℕ) × (r ≡ ok g) × (g ≤ c.maximum_guard))
    ⊎ ((r ≡ err arithmetic_overflow)
        × (c.length ≢ 0)
        × (u64_mod ≤ c.maximum_guard + c.additive_slack))

-- The guard of a valid calibrator is a number up to its limit; or it is the fault of an overflow,
-- and this only if residuals are retained and the limit and the slack, which new does not check
-- together, have a sum of 2^64 or more.
pub guard-IsGuard : (n : ℕ) (c : ResidualCalibrator) → IsValid n c → IsGuard c (guard c)
unfolding guard
guard-IsGuard n c v = elim (Bool-cases (c.length == 0)) [
  | inl e ↦ inl (min c.additive_slack c.maximum_guard, rw (e, guard) refl, omega arith)
  | inr e ↦ guard_at _ (ground arith) (guard_index-ok n c v)
]
  where
    guard_at : (i : ℕ) → c.length ≢ 0 → guard_index c ≡ ok i → IsGuard c (guard c)
    guard_at i some_left at = elim (Bool-cases (ltb (statistic c i + c.additive_slack) u64_mod)) [
      | inl fits ↦
          inl (guard_value c i, guard_fits n c i v some_left at (ground arith), omega arith)
      | inr big ↦ inr (
        guard_overflows n c i v some_left at (ground arith),
        some_left,
        ground (arith, sorted-le n c i v),
      )
    ]

length-sorted :
    (n : ℕ) (c : ResidualCalibrator)
    → IsValid n c
    → length (sort (take c.length c.residuals)) ≡ c.length
length-sorted n c v = omega (
  arith,
  length-sort (take c.length c.residuals),
  length-take c.length c.residuals,
  v.array,
  v.retained,
)

-- A guard at place `i` of the sorted residuals covers at least `i + 1` of them.
guard_value-covers :
    (n : ℕ) (c : ResidualCalibrator) (i : ℕ)
    → IsValid n c
    → i < c.length
    → suc i ≤ count_le (guard_value c i) (take c.length c.residuals)
guard_value-covers n c i v h =
    let retained = take c.length c.residuals in
    omega (
      arith,
      count_le-sort (guard_value c i) retained,
      count_le_mono (get_or (sort retained) i 0) (guard_value c i) (sort retained)
          (omega (arith, sorted-le n c i v)),
      order_statistic 0 (sort retained) i (sort-Rises retained)
          (omega (arith, length-sorted n c v)),
    )

scale : (a k d : ℕ) → a ≤ k → a * d ≤ k * d
scale a k d h = grind arith

covered_fraction :
    (a b k m d : ℕ) → suc (min (a - 1) (b - 1)) ≤ k → m ≤ a * d → min m (b * d) ≤ k * d
covered_fraction a b k m d h p = elim (Bool-cases (leb a k)) [
  | inl e ↦ omega (arith, scale a k d (leb→le a k e))
  | inr e ↦ omega (arith, scale b k d (ground arith))
]

-- Of the k > 0 retained residuals of a valid calibrator the guard is at least as large as the
-- coverage fraction of k + 1 of them, or as all k.
pub guard-covers :
    (n : ℕ) (c : ResidualCalibrator) (g : ℕ)
    → IsValid n c
    → c.length ≢ 0
    → guard c ≡ ok g
    → min ((c.length + 1) * c.coverage_numerator) (c.length * c.coverage_denominator)
      ≤ count_le g (take c.length c.residuals) * c.coverage_denominator
guard-covers n c g v h e = rw (← same) (
    covered_fraction rank c.length _ _ _ (guard_value-covers n c i v (omega arith))
      (le-div_ceil-mul _ _ (omega arith)))
  where
    rank : ℕ
    rank = div_ceil ((c.length + 1) * c.coverage_numerator) c.coverage_denominator

    i : ℕ
    i = min (rank - 1) (c.length - 1)

    same : guard_value c i ≡ g
    same = guard_lem n c i g v h (guard_index-ok n c v) e

seal-verify_root : (c : ResidualCalibrator) → verify_root (seal c) ≡ true
unfolding verify_root seal calibrator_root
seal-verify_root c = (==_iff _ _).1 refl

seal-IsValid : (n : ℕ) (c : ResidualCalibrator) → IsValid n c → IsValid n (seal c)
unfolding seal
seal-IsValid n c v = record {
  room = v.room;
  array = v.array;
  retained = v.retained;
  cursor = v.cursor;
  residuals = v.residuals;
  coverage = v.coverage;
  denominator = v.denominator;
}

fresh-IsValid :
    (n numerator denominator slack maximum secret : ℕ)
    → 0 < n
    → n < 2 ^ 56
    → 0 < numerator
    → numerator < denominator
    → denominator < u8_mod
    → IsValid n (fresh n numerator denominator slack maximum secret)
unfolding fresh
fresh-IsValid n numerator denominator slack maximum secret some_room fits a b small = record {
  room = (some_room, fits);
  array = length-replicate n 0;
  retained = omega arith;
  cursor = some_room;
  residuals = replicate-All-le maximum n;
  coverage = (a, b);
  denominator = small;
}

pub new-IsValid :
    (n numerator denominator slack maximum secret : ℕ) (c : ResidualCalibrator)
    → n < 2 ^ 56
    → denominator < u8_mod
    → new n numerator denominator slack maximum secret ≡ ok c
    → IsValid n c
unfolding new
new-IsValid n numerator denominator slack maximum secret c fits small e = subst (IsValid n) made (
    seal-IsValid n _ (
      fresh-IsValid n numerator denominator slack maximum secret (ground arith) fits (ground arith)
        (ground arith) small))
  where
    made : seal (fresh n numerator denominator slack maximum secret) ≡ c
    made = ground arith

-- Pushing any residual keeps a valid calibrator valid, and its root is that of its content.
pub push-IsValid :
    (n : ℕ) (c : ResidualCalibrator) (residual : ℕ)
    → IsValid n c
    → IsValid n (push n c residual).1 × (verify_root (push n c residual).1 ≡ true)
unfolding push seal
push-IsValid n c residual v = (
  record {
    room = v.room;
    array = omega (arith, length-set c.residuals c.cursor (min residual c.maximum_guard), v.array);
    retained = omega arith;
    cursor = mod-lt (c.cursor + 1) v.room.0;
    residuals = set-All-le c.maximum_guard c.cursor _ c.residuals (omega arith) v.residuals;
    coverage = v.coverage;
    denominator = v.denominator;
  },
  seal-verify_root _,
)
