-- ===== src/Service/Controller/Window.antt =====
-- src/service_calculus.rs: the service window, and the invariant that every call keeps.
use slope.Base.{
  ℕ, ◌+◌, ◌-◌, ◌*◌, ◌/◌, ◌≤◌, ◌<◌, ◌≡◌, true, ok, leb, leb→le, Bool-cases, inl, inr, ◌⊎◌, ◌==◌,
  if◌then◌else◌, u64_mod, arith,
}
use native.Mathlib.Nat.{div-mul-le_self, div-add-mod, mod-lt, div-eq_of_lt}
use slope.Service.Curve
use slope.Service.Calibrator.Coverage
use slope.Service.Controller.{ServiceController, q16_one, reject, settle, advance}

pub record IsValid (n : ℕ) (c : ServiceController) : Type 0 where
  pub curve : Curve.valid c.curve ≡ true
  pub fits : Curve.Fits c.curve
  pub admitted : c.admitted_in_window ≤ c.curve.maximum_admissions_per_window
  pub window : c.last_tick < c.window_start + c.curve.window_ticks
  pub calibrator : Coverage.IsValid n c.calibrator

positive : (n : ℕ) (c : ServiceController) → IsValid n c → 0 < c.curve.window_ticks
positive n c v = Curve.window_positive c.curve v.curve

-- Whether a window has passed.
quotient_cases : (a b : ℕ) → 0 < b → ((a < b) × (a / b ≡ 0)) ⊎ ((b ≤ a) × (1 ≤ a / b))
quotient_cases a b h = elim (Bool-cases (leb b a)) [
  | inl e ↦ inr (leb→le b a e, grind (arith, div-add-mod a b, mod-lt a h))
  | inr e ↦ inl (ground arith, div-eq_of_lt (ground arith))
]

-- Whole windows that have passed at `now`.
abbrev pub windows_at : ServiceController → ℕ → ℕ
windows_at c now = (now - c.window_start) / c.curve.window_ticks

-- What an advance to `now` leaves.
pub record Advanced (now : ℕ) (c c' : ServiceController) : Type 0 where
  pub start : c'.window_start ≡ c.window_start + windows_at c now * c.curve.window_ticks
  pub within : (c'.window_start ≤ now) × (now < c'.window_start + c.curve.window_ticks)
  pub tick : c'.last_tick ≡ now
  pub admitted : c'.admitted_in_window ≡ (if windows_at c now == 0 then c.admitted_in_window else 0)
  pub drained :
      c'.virtual_backlog_q16
      ≡ c.virtual_backlog_q16 - windows_at c now * c.curve.minimum_completions_per_window * q16_one

-- The parts that no advance touches; the virtual backlog only falls.
pub record Kept (c c' : ServiceController) : Type 0 where
  pub curve : c'.curve ≡ c.curve
  pub secret : c'.secret ≡ c.secret
  pub sequence : c'.reservation_sequence ≡ c.reservation_sequence
  pub accepted : c'.accepted ≡ c.accepted
  pub observed : c'.observed ≡ c.observed
  pub root : c'.curve_root ≡ c.curve_root
  pub calibrator : c'.calibrator ≡ c.calibrator
  pub backlog : c'.virtual_backlog_q16 ≤ c.virtual_backlog_q16

pub advance-Kept : (now : ℕ) (c : ServiceController) → Kept c (advance now c).1
unfolding advance settle reject
advance-Kept now c = ground arith

-- An advance of a valid controller to a tick below 2^64 that succeeds moves the window by whole
-- windows to the one that holds the present tick, resets the admissions exactly when a window has
-- passed, and drains the guaranteed completions of the windows passed from the virtual backlog.
pub advance-Advanced :
    (n now : ℕ) (c : ServiceController)
    → IsValid n c
    → now < u64_mod
    → (advance now c).0 ≡ ok tt
    → Advanced now c (advance now c).1
unfolding advance settle reject
advance-Advanced n now c v w e = ground (
  arith,
  quotient_cases (now - c.window_start) c.curve.window_ticks (positive n c v),
  positive n c v,
  div-mul-le_self (now - c.window_start) c.curve.window_ticks,
  div-add-mod (now - c.window_start) c.curve.window_ticks,
  mod-lt (now - c.window_start) (positive n c v),
)

pub advance-IsValid :
    (n now : ℕ) (c : ServiceController) → IsValid n c → now < u64_mod → IsValid n (advance now c).1
unfolding advance settle reject
advance-IsValid n now c v w = ground (
  arith,
  positive n c v,
  div-mul-le_self (now - c.window_start) c.curve.window_ticks,
  div-add-mod (now - c.window_start) c.curve.window_ticks,
  mod-lt (now - c.window_start) (positive n c v),
)
