-- ===== src/Service/Tests.antt =====
-- Runs of src/service_calculus.rs, after its own tests.
use slope.Base.{suc, ◌*◌, ◌≤◌, ◌≡◌, refl, ap, some, ok, err, u64_max, [], ◌∷◌, min, take, arith}
use slope.Base.Sort.{count_le}
use slope.Service.Curve.{ServiceCurve, Fits, valid, deterministic_delay, service_curve_root, mix}
use slope.Service.Calibrator.{
  ResidualCalibrator, arithmetic_overflow, new, kernel_default, fresh, seal, calibrator_root, push,
  guard,
}
use slope.Service.Calibrator.Coverage
use slope.Service.Controller
use slope.Service.Controller.{
  ServiceController, stale_reservation, advance, settle, admit, admit_now, quote, reserve, rollback,
  drift_penalty_ticks, verify_certificate,
}
use slope.Service.Controller.Admission
use slope.Service.Controller.Settings
use slope.Service.Controller.Window
use slope.Service.Controller.Rollback
use slope.Service.Certificate.{AdmissionCertificate, admission_certificate_root}

abbrev curve : ServiceCurve
curve = record {
  minimum_completions_per_window = 2;
  maximum_admissions_per_window = 4;
  window_ticks = 100;
  latency_ticks = 20;
  maximum_backlog = 8;
}

curve-Fits : Fits curve
curve-Fits = record {
  minimum_completions = omega arith;
  maximum_admissions = omega arith;
  window = omega arith;
  latency = omega arith;
  backlog = omega arith;
}

two_windows : deterministic_delay curve 2 ≡ some 220
unfolding deterministic_delay
two_windows = refl

-- Three residuals in a calibrator of eight places.
abbrev sampled : ResidualCalibrator
unfolding fresh seal push
sampled = (push 8 (push 8 (push 8 (fresh 8 15 16 1 1_000 7) 5).1 900).1 2_000).1

sampled-IsValid : Coverage.IsValid 8 sampled
unfolding fresh seal push
sampled-IsValid = record {
  room = (omega arith, omega arith);
  array = refl;
  retained = omega arith;
  cursor = omega arith;
  residuals = omega arith;
  coverage = (omega arith, omega arith);
  denominator = omega arith;
}

sampled-guard : guard sampled ≡ ok 1_000
unfolding fresh seal push guard
sampled-guard = refl

guard-covers_example : min (4 * 15) (3 * 16) ≤ count_le 1_000 (take 3 sampled.residuals) * 16
unfolding fresh seal push
guard-covers_example =
    Coverage.guard-covers 8 sampled 1_000 sampled-IsValid (omega arith) sampled-guard

guard-IsGuard_example : Coverage.IsGuard sampled (guard sampled)
guard-IsGuard_example = Coverage.guard-IsGuard 8 sampled sampled-IsValid

-- A calibrator that new makes, and whose guard overflows after one residual.
abbrev crowded : ResidualCalibrator
unfolding fresh seal push
crowded = (push 1 (seal (fresh 1 1 2 u64_max u64_max 1)) 5).1

crowded_made : new 1 1 2 u64_max u64_max 1 ≡ ok (seal (fresh 1 1 2 u64_max u64_max 1))
unfolding new fresh seal
crowded_made = refl

crowded_fails : guard crowded ≡ err arithmetic_overflow
unfolding fresh seal push guard
crowded_fails = refl

abbrev started : ServiceController
unfolding fresh seal
started = record {
  curve = curve;
  secret = 7;
  window_start = 1_000;
  last_tick = 1_000;
  admitted_in_window = 0;
  reservation_sequence = 0;
  accepted = 0;
  rejected = 0;
  observed = 0;
  virtual_backlog_q16 = 0;
  curve_root = service_curve_root 7 curve;
  calibrator = seal (fresh 8 15 16 1 800 (mix 7 0x4341_4c49_4252_4154));
}

starts : Controller.new 8 curve 1_000 7 ≡ ok started
unfolding Controller.new kernel_default fresh seal service_curve_root mix valid
starts = refl

started-IsValid : Window.IsValid 8 started
started-IsValid = Admission.new-IsValid 8 curve 1_000 7 started (omega arith) curve-Fits starts

-- The source's admission at 1000 with the deadline 1500, on an empty backlog.
abbrev drafted : AdmissionCertificate
unfolding fresh seal
drafted = record {
  reservation_sequence = 1;
  admitted_tick = 1_000;
  window_start = 1_000;
  backlog_before = 0;
  admitted_before = 0;
  deterministic_delay_ticks = 120;
  uncertainty_guard_ticks = 1;
  drift_penalty_ticks = 0;
  delay_bound_ticks = 121;
  deadline_slack_ticks = 379;
  curve_root = service_curve_root 7 curve;
  calibration_root = started.calibrator.root;
  certificate_root = 0;
}

abbrev certificate : AdmissionCertificate
unfolding fresh seal admission_certificate_root mix
certificate = record drafted { certificate_root = admission_certificate_root 7 drafted }

abbrev after_admit : ServiceController
unfolding fresh seal
after_admit = record started {
  admitted_in_window = 1;
  reservation_sequence = 1;
  accepted = 1;
  virtual_backlog_q16 = 65_536;
}

admits : admit 1_000 1_500 0 started ≡ (ok certificate, after_admit)
unfolding admit fresh seal admission_certificate_root mix advance admit_now quote
    deterministic_delay guard drift_penalty_ticks reserve valid service_curve_root calibrator_root
admits = refl

admit-IsAdmitted_example :
    Window.Advanced 1_000 started (advance 1_000 started).1
    × Window.Kept started (advance 1_000 started).1
    × Admission.IsAdmitted 1_000 1_500 0
        (advance 1_000 started).1
        (admit 1_000 1_500 0 started).1
        certificate
admit-IsAdmitted_example =
    Admission.admit-IsAdmitted 8 1_000 1_500 0 started certificate started-IsValid (omega arith)
      (ap (λ (o : Controller.Outcome AdmissionCertificate). o.0) admits)

advance-Advanced_example : Window.Advanced 1_250 started (advance 1_250 started).1
unfolding advance settle fresh seal
advance-Advanced_example =
    Window.advance-Advanced 8 1_250 started started-IsValid (omega arith) refl

run-IsValid_example :
    Window.IsValid 8 (Admission.run 8 (Admission.admits 1_000 1_500 0 (omega arith) ∷ []) started)
    × Settings.SameSettings started
        (Admission.run 8 (Admission.admits 1_000 1_500 0 (omega arith) ∷ []) started)
run-IsValid_example =
    Admission.run-IsValid 8 (Admission.admits 1_000 1_500 0 (omega arith) ∷ []) started
      started-IsValid

admit-rollback_example : rollback certificate after_admit ≡ (
  ok tt,
  record (advance 1_000 started).1 {
    reservation_sequence = suc (advance 1_000 started).1.reservation_sequence;
  },
)
unfolding fresh seal service_curve_root mix calibrator_root admission_certificate_root
admit-rollback_example =
    Rollback.admit-rollback 1_000 1_500 0 started after_admit certificate admits (omega arith)
      (omega arith) (omega arith) (omega arith) (omega arith)
