-- ===== src/Service/Curve.antt =====
-- src/service_calculus.rs: `ServiceCurve`, its delay bound, and `mix`.
use slope.Base.{
  ℕ, zero, suc, ◌+◌, ◌-◌, ◌*◌, ◌/◌, ◌≤◌, ◌<◌, Bool, true, ◌&&◌, ◌||◌, not, ◌!=◌, leb, ltb,
  if◌then◌else◌, Option, none, some, checked_add, checked_mul, wrapping_mul, shr, bit_xor, u64_mod,
  u16_mod, ◌≡◌, arith, Bool-cases, inl, inr,
}
use native.Mathlib.Nat.{div-add-mod, mod-lt, div-mul-le_self}

infixl 5 ◌>>=◌
abbrev ◌>>=◌ : {A B : Type 0} → Option A → (A → Option B) → Option B
none >>= f = none
some a >>= f = f a

unfoldable pub mix : ℕ → ℕ → ℕ
unfolding wrapping_mul shr
mix state word =
    let s₁ : ℕ = bit_xor state (wrapping_mul word 0x9e37_79b9_7f4a_7c15) in
    let s₂ : ℕ = wrapping_mul (bit_xor s₁ (shr s₁ 30)) 0xbf58_476d_1ce4_e5b9 in
    let s₃ : ℕ = wrapping_mul (bit_xor s₂ (shr s₂ 27)) 0x94d0_49bb_1331_11eb in
    bit_xor s₃ (shr s₃ 31)

pub record ServiceCurve : Type 0 where
  pub minimum_completions_per_window : ℕ
  pub maximum_admissions_per_window : ℕ
  pub window_ticks : ℕ
  pub latency_ticks : ℕ
  pub maximum_backlog : ℕ

unfoldable pub valid : ServiceCurve → Bool
valid c =
    c.minimum_completions_per_window != 0
    && (c.maximum_admissions_per_window != 0
        && (c.window_ticks != 0
            && (c.maximum_backlog != 0
                && (leb c.minimum_completions_per_window c.maximum_backlog
                    && leb c.maximum_admissions_per_window c.maximum_backlog))))

unfoldable pub deterministic_delay : ServiceCurve → ℕ → Option ℕ
unfolding valid
deterministic_delay c backlog_before =
    if not (valid c) || leb c.maximum_backlog backlog_before then none else do
      demand ← checked_add backlog_before 1
      let service = c.minimum_completions_per_window
      padded ← checked_add demand (service - 1)
      let windows = padded / service
      ticks ← checked_mul windows c.window_ticks
      checked_add c.latency_ticks ticks

unfoldable pub service_curve_root : ℕ → ServiceCurve → ℕ
service_curve_root secret c =
    mix
      (mix
        (mix (mix (mix secret c.minimum_completions_per_window) c.maximum_admissions_per_window)
          c.window_ticks)
        c.latency_ticks)
      c.maximum_backlog

-- The fields are machine words of the source's widths.
pub record Fits (c : ServiceCurve) : Type 0 where
  pub minimum_completions : c.minimum_completions_per_window < u16_mod
  pub maximum_admissions : c.maximum_admissions_per_window < u16_mod
  pub window : c.window_ticks < u64_mod
  pub latency : c.latency_ticks < u64_mod
  pub backlog : c.maximum_backlog < u16_mod

-- Division that rounds up.
abbrev pub div_ceil : ℕ → ℕ → ℕ
div_ceil n s = (n + (s - 1)) / s

pub le-div_ceil-mul : (n s : ℕ) → 0 < s → n ≤ div_ceil n s * s
le-div_ceil-mul n s h = omega (arith, div-add-mod (n + (s - 1)) s, mod-lt (n + (s - 1)) h)

pred-mul-lt : (q n s : ℕ) → 0 < s → 0 < n → q * s ≤ n + (s - 1) → (q - 1) * s < n
pred-mul-lt zero n s h k p = omega arith
pred-mul-lt (suc q) n s h k p = grind arith

pub div_ceil-pred-mul-lt : (n s : ℕ) → 0 < s → 0 < n → (div_ceil n s - 1) * s < n
div_ceil-pred-mul-lt n s h k = pred-mul-lt (div_ceil n s) n s h k (div-mul-le_self (n + (s - 1)) s)

pub window_positive : (c : ServiceCurve) → valid c ≡ true → 0 < c.window_ticks
unfolding valid
window_positive c v = ground arith

positive : (c : ServiceCurve) → valid c ≡ true → 0 < c.minimum_completions_per_window
unfolding valid
positive c v = ground arith

-- For a valid curve and a backlog under its limit the delay is the latency and the ticks of the
-- least number of windows whose guaranteed completions cover the backlog and the new job, or
-- nothing if 64 bits cannot hold it.
pub deterministic_delay_lem :
    (c : ServiceCurve) (backlog : ℕ)
    → Fits c
    → valid c ≡ true
    → backlog < c.maximum_backlog
    → (w : ℕ) × (backlog + 1 ≤ w * c.minimum_completions_per_window)
      × ((w - 1) * c.minimum_completions_per_window < backlog + 1)
      × (deterministic_delay c backlog ≡ (
          if ltb (c.latency_ticks + w * c.window_ticks) u64_mod
          then some (c.latency_ticks + w * c.window_ticks)
          else none))
unfolding deterministic_delay valid
deterministic_delay_lem c backlog f v h = (
  w,
  le-div_ceil-mul (backlog + 1) _ (positive c v),
  div_ceil-pred-mul-lt (backlog + 1) _ (positive c v) (omega arith),
  ground arith,
)
  where
    w : ℕ
    w = div_ceil (backlog + 1) c.minimum_completions_per_window

product_positive : (a b : ℕ) → 0 < a → 0 < b → 0 < a * b
product_positive zero b h k = elim h [ ]
product_positive (suc a) zero h k = elim k [ ]
product_positive (suc a) (suc b) h k = omega arith

factor_positive : (a b : ℕ) → 0 < a * b → 0 < a
factor_positive zero b h = omega arith
factor_positive (suc a) b h = omega arith

-- A granted delay is never zero.
pub deterministic_delay-pos :
    (c : ServiceCurve) (backlog d : ℕ) → deterministic_delay c backlog ≡ some d → 0 < d
unfolding deterministic_delay
deterministic_delay-pos c backlog d e = elim (Bool-cases (valid c)) [
  | inl v ↦
      let service = c.minimum_completions_per_window in
      let covered = le-div_ceil-mul (backlog + 1) service (positive c v) in
      let some_window = factor_positive (div_ceil (backlog + 1) service) service (omega arith) in
      ground (arith, product_positive _ c.window_ticks some_window (window_positive c v))
  | inr v ↦ ground arith
]
