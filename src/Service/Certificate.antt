-- ===== src/Service/Certificate.antt =====
-- src/service_calculus.rs: `AdmissionCertificate` and its root.
use slope.Base.{ℕ, ◌*◌, ◌^◌, Bool, ◌&&◌, ◌!=◌, bit_or}
use slope.Service.Curve.{mix}

pub record AdmissionCertificate : Type 0 where
  pub reservation_sequence : ℕ
  pub admitted_tick : ℕ
  pub window_start : ℕ
  pub backlog_before : ℕ
  pub admitted_before : ℕ
  pub deterministic_delay_ticks : ℕ
  pub uncertainty_guard_ticks : ℕ
  pub drift_penalty_ticks : ℕ
  pub delay_bound_ticks : ℕ
  pub deadline_slack_ticks : ℕ
  pub curve_root : ℕ
  pub calibration_root : ℕ
  pub certificate_root : ℕ

unfoldable pub valid : AdmissionCertificate → Bool
valid a =
    a.reservation_sequence != 0
    && (a.delay_bound_ticks != 0
        && (a.curve_root != 0 && (a.calibration_root != 0 && a.certificate_root != 0)))

unfoldable pub admission_certificate_root : ℕ → AdmissionCertificate → ℕ
admission_certificate_root secret a =
    let s₁ : ℕ = mix secret a.reservation_sequence in
    let s₂ : ℕ = mix s₁ a.admitted_tick in
    let s₃ : ℕ = mix s₂ a.window_start in
    let s₄ : ℕ = mix s₃ (bit_or a.backlog_before (a.admitted_before * 2 ^ 16)) in
    let s₅ : ℕ = mix s₄ a.deterministic_delay_ticks in
    let s₆ : ℕ = mix s₅ a.uncertainty_guard_ticks in
    let s₇ : ℕ = mix s₆ a.drift_penalty_ticks in
    let s₈ : ℕ = mix s₇ a.delay_bound_ticks in
    let s₉ : ℕ = mix s₈ a.deadline_slack_ticks in mix (mix s₉ a.curve_root) a.calibration_root
