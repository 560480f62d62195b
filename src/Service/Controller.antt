-- ===== src/Service/Controller.antt =====
-- src/service_calculus.rs: `ServiceController<N>`. `n` stands for the const parameter `N`. A method
-- on `&mut self` returns its result and the state that it leaves, on the error paths too.
pub mod Admission
pub mod Window
pub mod Settings
pub mod Rollback
use slope.Base.{
  ℕ, ◌+◌, ◌-◌, ◌*◌, ◌/◌, ◌^◌, Bool, true, false, not, ◌&&◌, ◌||◌, ◌==◌, ◌!=◌, ltb, leb,
  if◌then◌else◌, max, Option, none, some, Result, ok, err, ◌>>=◌, ok_or, map_err, checked_add,
  checked_mul, saturating_add, saturating_mul, u16_mod, u16_max, u64_max,
}
use slope.Service.Curve
use slope.Service.Curve.{ServiceCurve, deterministic_delay, service_curve_root, mix}
use slope.Service.Calibrator.{ResidualCalibrator, guard, push, kernel_default}
use slope.Service.Certificate
use slope.Service.Certificate.{AdmissionCertificate, admission_certificate_root}

pub data AdmissionFault : Type 0 where
  invalid_curve backlog_saturated arrival_envelope_exceeded deadline_unsafe : AdmissionFault
  time_regression arithmetic_overflow stale_reservation corrupt_observation : AdmissionFault

pub record ServiceController : Type 0 where
  pub curve : ServiceCurve
  pub secret : ℕ
  pub window_start : ℕ
  pub last_tick : ℕ
  pub admitted_in_window : ℕ
  pub reservation_sequence : ℕ
  pub accepted : ℕ
  pub rejected : ℕ
  pub observed : ℕ
  pub virtual_backlog_q16 : ℕ
  pub curve_root : ℕ
  pub calibrator : ResidualCalibrator

abbrev pub Outcome : Type 0 → Type 0
Outcome A = Result AdmissionFault A × ServiceController

abbrev pub q16_one : ℕ
q16_one = 65_536

unfoldable pub new : ℕ → ServiceCurve → ℕ → ℕ → Result AdmissionFault ServiceController
new n curve now_tick secret =
    if not (Curve.valid curve) || (secret == 0 || n == 0)
    then err invalid_curve
    else (if service_curve_root secret curve == 0 then err invalid_curve else do
      maximum_guard ←
          ok_or (checked_mul curve.window_ticks curve.maximum_backlog) arithmetic_overflow
      calibrator ←
          map_err (λ _. invalid_curve)
            (kernel_default n 1 (max maximum_guard 1) (mix secret 0x4341_4c49_4252_4154))
      ok (record {
        curve = curve;
        secret = secret;
        window_start = now_tick;
        last_tick = now_tick;
        admitted_in_window = 0;
        reservation_sequence = 0;
        accepted = 0;
        rejected = 0;
        observed = 0;
        virtual_backlog_q16 = 0;
        curve_root = service_curve_root secret curve;
        calibrator = calibrator;
      }))

unfoldable pub reject : ServiceController → ServiceController
reject c = record c { rejected = saturating_add c.rejected 1 }

-- The windows' credit is taken from the virtual backlog after the window has moved, so its overflow
-- leaves the window moved and the tick not recorded.
unfoldable pub settle : ℕ → ℕ → ServiceController → Outcome (Unit {0})
settle windows now_tick c = elim (checked_mul windows c.curve.minimum_completions_per_window) [
  | none ↦ (err arithmetic_overflow, c)
  | some completions ↦ elim (checked_mul completions q16_one) [
    | none ↦ (err arithmetic_overflow, c)
    | some service ↦ (
      ok tt,
      record c { virtual_backlog_q16 = c.virtual_backlog_q16 - service; last_tick = now_tick },
    )
  ]
]

unfoldable pub advance : ℕ → ServiceController → Outcome (Unit {0})
unfolding reject settle
advance now_tick c =
    if ltb now_tick c.last_tick || ltb now_tick c.window_start
    then (err time_regression, reject c)
    else (let elapsed : ℕ = now_tick - c.window_start in
        if leb c.curve.window_ticks elapsed
        then (let windows : ℕ = elapsed / c.curve.window_ticks in
            elim (checked_mul windows c.curve.window_ticks) [
              | none ↦ (err arithmetic_overflow, c)
              | some ticks ↦ elim (checked_add c.window_start ticks) [
                | none ↦ (err arithmetic_overflow, c)
                | some start ↦
                    settle windows now_tick
                      (record c { window_start = start; admitted_in_window = 0 })
              ]
            ])
        else (ok tt, record c { last_tick = now_tick }))

unfoldable pub drift_penalty_ticks : ServiceController → ℕ
drift_penalty_ticks c =
    let jobs : ℕ = c.virtual_backlog_q16 / 2 ^ 16 in
    let service : ℕ = c.curve.minimum_completions_per_window in
    let windows : ℕ = saturating_add jobs (service - 1) / service in
    if jobs == 0 then 0 else saturating_mul windows c.curve.window_ticks

unfoldable pub uncertainty_guard_ticks : ServiceController → ℕ
uncertainty_guard_ticks c = elim (guard c.calibrator) [ ok g ↦ g | err _ ↦ c.curve.window_ticks ]

-- The delay bound of one new job, in its parts, and the earliest deadline that it allows.
pub record Quote : Type 0 where
  pub deterministic : ℕ
  pub uncertainty : ℕ
  pub drift_penalty : ℕ
  pub delay : ℕ
  pub required_deadline : ℕ

unfoldable pub quote : ServiceController → ℕ → ℕ → Result AdmissionFault Quote
quote c now_tick backlog_before = do
  deterministic ← ok_or (deterministic_delay c.curve backlog_before) backlog_saturated
  uncertainty ← map_err (λ _. arithmetic_overflow) (guard c.calibrator)
  let drift_penalty = drift_penalty_ticks c
  guarded ← ok_or (checked_add deterministic uncertainty) arithmetic_overflow
  delay ← ok_or (checked_add guarded drift_penalty) arithmetic_overflow
  required_deadline ← ok_or (checked_add now_tick delay) arithmetic_overflow
  ok (record {
    deterministic = deterministic;
    uncertainty = uncertainty;
    drift_penalty = drift_penalty;
    delay = delay;
    required_deadline = required_deadline;
  })

-- The certificate before its root is filled in. The controller is the one after the reservation.
abbrev pub draft : ServiceController → ℕ → ℕ → ℕ → ℕ → Quote → AdmissionCertificate
draft c now_tick deadline_tick backlog_before admitted_before q = record {
  reservation_sequence = c.reservation_sequence;
  admitted_tick = now_tick;
  window_start = c.window_start;
  backlog_before = backlog_before;
  admitted_before = admitted_before;
  deterministic_delay_ticks = q.deterministic;
  uncertainty_guard_ticks = q.uncertainty;
  drift_penalty_ticks = q.drift_penalty;
  delay_bound_ticks = q.delay;
  deadline_slack_ticks = deadline_tick - q.required_deadline;
  curve_root = c.curve_root;
  calibration_root = c.calibrator.root;
  certificate_root = 0;
}

-- The end of `admit`: the counters move, and the certificate is made out.
unfoldable pub reserve : ℕ → ℕ → ℕ → Quote → ServiceController → Outcome AdmissionCertificate
reserve now_tick deadline_tick backlog_before q c = elim (checked_add c.reservation_sequence 1) [
  | none ↦ (err arithmetic_overflow, c)
  | some sequence ↦
      if leb u16_max c.admitted_in_window
      then (err arithmetic_overflow, c)
      else (let c₁ : ServiceController = record c {
        admitted_in_window = c.admitted_in_window + 1;
        reservation_sequence = sequence;
        accepted = saturating_add c.accepted 1;
        virtual_backlog_q16 = saturating_add c.virtual_backlog_q16 q16_one;
      } in
          if leb u16_mod backlog_before
          then (err backlog_saturated, c₁)
          else (let certificate : AdmissionCertificate =
                draft c₁ now_tick deadline_tick backlog_before c.admitted_in_window q in
              (
                ok (record certificate {
                  certificate_root = admission_certificate_root c.secret certificate;
                }),
                c₁,
              )))
]

-- `admit` once the clock has been advanced.
unfoldable pub admit_now : ℕ → ℕ → ℕ → ServiceController → Outcome AdmissionCertificate
unfolding reject
admit_now now_tick deadline_tick backlog_before c =
    if leb c.curve.maximum_backlog backlog_before
    then (err backlog_saturated, reject c)
    else (if leb c.curve.maximum_admissions_per_window c.admitted_in_window
        then (err arrival_envelope_exceeded, reject c)
        else elim (quote c now_tick backlog_before) [
          | err fault ↦ (err fault, c)
          | ok q ↦
              if ltb deadline_tick q.required_deadline
              then (err deadline_unsafe, reject c)
              else reserve now_tick deadline_tick backlog_before q c
        ])

-- The `?` after a call of `advance`.
abbrev pub after_advance {ℓ} :
    {A : Type ℓ}
    → Result AdmissionFault (Unit {0}) × ServiceController
    → (ServiceController → Result AdmissionFault A × ServiceController)
    → Result AdmissionFault A × ServiceController
after_advance (ok _, c) k = k c
after_advance (err fault, c) k = (err fault, c)

unfoldable pub admit : ℕ → ℕ → ℕ → ServiceController → Outcome AdmissionCertificate
admit now_tick deadline_tick backlog_before c =
    after_advance (advance now_tick c) (admit_now now_tick deadline_tick backlog_before)

unfoldable pub verify_certificate : ServiceController → AdmissionCertificate → Bool
unfolding Certificate.valid
verify_certificate c a =
    Certificate.valid a
    && (a.curve_root == c.curve_root && a.certificate_root == admission_certificate_root c.secret a)

unfoldable pub rollback : AdmissionCertificate → ServiceController → Outcome (Unit {0})
rollback a c =
    if not (verify_certificate c a)
      || (a.window_start != c.window_start
          || (a.reservation_sequence != c.reservation_sequence
              || c.admitted_in_window
                != (if leb u16_max a.admitted_before then u16_max else a.admitted_before + 1)))
    then (err stale_reservation, c)
    else (
      ok tt,
      record c {
        admitted_in_window = a.admitted_before;
        accepted = c.accepted - 1;
        virtual_backlog_q16 = c.virtual_backlog_q16 - q16_one;
      },
    )

-- What a job that ran past its bound adds to the virtual backlog.
unfoldable pub pressure : ServiceController → ℕ → ℕ
pressure c excess = elim (checked_mul excess q16_one) [
  | none ↦ u64_max
  | some scaled ↦ if c.curve.window_ticks == 0 then u64_max else scaled / c.curve.window_ticks
]

-- The end of `observe_completion`, with the result of the calibrator's `push`.
unfoldable pub drain : AdmissionCertificate → ℕ → ℕ → ServiceController → Outcome ℕ
unfolding pressure
drain a observed_delay g c =
    let c₁ : ServiceController = record c {
      virtual_backlog_q16 = c.virtual_backlog_q16 - q16_one;
    } in
    let c₂ : ServiceController =
      if ltb a.delay_bound_ticks observed_delay
      then record c₁ {
        virtual_backlog_q16 =
            saturating_add c₁.virtual_backlog_q16
              (pressure c₁ (observed_delay - a.delay_bound_ticks));
      }
      else c₁ in
    (ok g, record c₂ { observed = saturating_add c₂.observed 1 })

unfoldable pub record_residual : ℕ → AdmissionCertificate → ℕ → ServiceController → Outcome ℕ
record_residual n a completion_tick c =
    let observed_delay : ℕ = completion_tick - a.admitted_tick in
    elim (checked_add a.deterministic_delay_ticks a.drift_penalty_ticks) [
      | none ↦ (err arithmetic_overflow, c)
      | some predicted ↦
          let (r, calibrator) = push n c.calibrator (observed_delay - predicted) in
          let c₁ : ServiceController = record c { calibrator = calibrator } in
          elim r [ err _ ↦ (err corrupt_observation, c₁) | ok g ↦ drain a observed_delay g c₁ ]
    ]

unfoldable pub observe_completion : ℕ → AdmissionCertificate → ℕ → ServiceController → Outcome ℕ
observe_completion n a completion_tick c =
    if not (verify_certificate c a) || ltb completion_tick a.admitted_tick
    then (err corrupt_observation, c)
    else after_advance (advance completion_tick c) (record_residual n a completion_tick)
