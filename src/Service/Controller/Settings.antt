-- ===== src/Service/Controller/Settings.antt =====
-- src/service_calculus.rs: no call changes what the calibrator was made with.
use slope.Base.{ℕ, ◌≡◌, ap, ◌∙◌, inl, inr, Result, ok, err, Result-cases, arith}
use slope.Service.Calibrator.{ResidualCalibrator, push, seal}
use slope.Service.Certificate.{AdmissionCertificate}
use slope.Service.Controller.{
  AdmissionFault, ServiceController, Quote, reject, reserve, quote, admit_now, after_advance,
  advance, admit, rollback, drain, record_residual, observe_completion,
}
use slope.Service.Controller.Window.{advance-Kept}

-- The guard limit and the slack are the same.
abbrev pub SameSettings : ServiceController → ServiceController → Type 0
SameSettings c c' =
    (c'.calibrator.maximum_guard ≡ c.calibrator.maximum_guard)
    × (c'.calibrator.additive_slack ≡ c.calibrator.additive_slack)

pub SameSettings-trans :
    (a b c : ServiceController) → SameSettings a b → SameSettings b c → SameSettings a c
SameSettings-trans a b c (p, q) (r, s) = (r ∙ p, s ∙ q)

after_advance-SameSettings :
    {A : Type 0} (c : ServiceController) (r : Result AdmissionFault (Unit {0}) × ServiceController)
    (k : ServiceController → Result AdmissionFault A × ServiceController)
    → ((d : ServiceController) → SameSettings d (k d).1)
    → r.1.calibrator ≡ c.calibrator
    → SameSettings c (after_advance r k).1
after_advance-SameSettings c (ok tt, d) k keeps same =
    SameSettings-trans c d (k d).1
      (
        ap (λ (x : ResidualCalibrator). x.maximum_guard) same,
        ap (λ (x : ResidualCalibrator). x.additive_slack) same,
      )
      (keeps d)
after_advance-SameSettings c (err f, d) k keeps same = (
  ap (λ (x : ResidualCalibrator). x.maximum_guard) same,
  ap (λ (x : ResidualCalibrator). x.additive_slack) same,
)

reserve-SameSettings :
    (now deadline backlog : ℕ) (q : Quote) (c : ServiceController)
    → SameSettings c (reserve now deadline backlog q c).1
unfolding reserve
reserve-SameSettings now deadline backlog q c = ground arith

admit_now-SameSettings :
    (now deadline backlog : ℕ) (c : ServiceController)
    → SameSettings c (admit_now now deadline backlog c).1
unfolding admit_now reject
admit_now-SameSettings now deadline backlog c = elim (Result-cases (quote c now backlog)) [
  | inl (q, h) ↦ ground (arith, reserve-SameSettings now deadline backlog q c)
  | inr (f, h) ↦ ground arith
]

pub admit-SameSettings :
    (now deadline backlog : ℕ) (c : ServiceController)
    → SameSettings c (admit now deadline backlog c).1
unfolding admit
admit-SameSettings now deadline backlog c =
    after_advance-SameSettings c (advance now c) _ (admit_now-SameSettings now deadline backlog)
      (advance-Kept now c).calibrator

pub rollback-SameSettings :
    (a : AdmissionCertificate) (c : ServiceController) → SameSettings c (rollback a c).1
unfolding rollback
rollback-SameSettings a c = ground arith

drain-SameSettings :
    (a : AdmissionCertificate) (delay g : ℕ) (c : ServiceController)
    → SameSettings c (drain a delay g c).1
unfolding drain
drain-SameSettings a delay g c = ground arith

record_residual-SameSettings :
    (n : ℕ) (a : AdmissionCertificate) (tick : ℕ) (c : ServiceController)
    → SameSettings c (record_residual n a tick c).1
unfolding record_residual drain push seal
record_residual-SameSettings n a tick c = ground arith

pub observe_completion-SameSettings :
    (n : ℕ) (a : AdmissionCertificate) (tick : ℕ) (c : ServiceController)
    → SameSettings c (observe_completion n a tick c).1
unfolding observe_completion
observe_completion-SameSettings n a tick c = ground (
  arith,
  after_advance-SameSettings c (advance tick c) (record_residual n a tick)
      (record_residual-SameSettings n a tick) (advance-Kept tick c).calibrator,
)
