-- ===== src/Service/Controller/Admission.antt =====
-- src/service_calculus.rs: what an admission promises, and that no call breaks the invariant.
use slope.Base.{
  ℕ, suc, ◌+◌, ◌-◌, ◌^◌, ◌*◌, ◌≤◌, ◌<◌, ◌≡◌, refl, Result, ok, err, some, Result-cases,
  Option-cases, inl, inr, u64_mod, checked_add, arith, List, [], ◌∷◌, u16_max, max,
}
use slope.Service.Curve
use slope.Service.Curve.{deterministic_delay}
use slope.Service.Calibrator.{guard, push, kernel_default}
use slope.Service.Calibrator
use slope.Service.Calibrator.Coverage
use slope.Service.Certificate.{AdmissionCertificate, admission_certificate_root}
use slope.Service.Controller.{
  new, ServiceController, AdmissionFault, Outcome, Quote, reject, advance, quote, reserve,
  admit_now, after_advance, admit, drift_penalty_ticks, rollback, drain, record_residual,
  observe_completion,
}
use slope.Service.Controller.Settings.{
  SameSettings, SameSettings-trans, admit-SameSettings, rollback-SameSettings,
  observe_completion-SameSettings,
}
use slope.Service.Controller.Window.{
  IsValid, Kept, Advanced, advance-Kept, advance-Advanced, advance-IsValid,
}

-- A quote adds up, and its parts come from the curve, the calibrator and the virtual backlog.
pub record IsQuote (c : ServiceController) (now backlog : ℕ) (q : Quote) : Type 0 where
  pub deterministic : deterministic_delay c.curve backlog ≡ some q.deterministic
  pub uncertainty : guard c.calibrator ≡ ok q.uncertainty
  pub drift : q.drift_penalty ≡ drift_penalty_ticks c
  pub delay : q.delay ≡ q.deterministic + q.uncertainty + q.drift_penalty
  pub deadline : q.required_deadline ≡ now + q.delay

pub quote-IsQuote :
    (c : ServiceController) (now backlog : ℕ) (q : Quote)
    → quote c now backlog ≡ ok q
    → IsQuote c now backlog q
unfolding quote
quote-IsQuote c now backlog q e =
    ground
      (arith, Option-cases (deterministic_delay c.curve backlog), Result-cases (guard c.calibrator))

-- What `admit` promises: `c₀` is the controller when the clock has been advanced, `c'` the one that
-- is left, and `a` the certificate.
pub record IsAdmitted (now by before : ℕ) (c₀ c' : ServiceController) (a : AdmissionCertificate)
    : Type 0 where
  pub backlog : (before < c₀.curve.maximum_backlog) × (a.backlog_before ≡ before)
  pub deterministic : deterministic_delay c₀.curve before ≡ some a.deterministic_delay_ticks
  pub uncertainty : guard c₀.calibrator ≡ ok a.uncertainty_guard_ticks
  pub drift : a.drift_penalty_ticks ≡ drift_penalty_ticks c₀
  pub bound :
      a.delay_bound_ticks
      ≡ a.deterministic_delay_ticks + a.uncertainty_guard_ticks + a.drift_penalty_ticks
  pub deadline : now + a.delay_bound_ticks + a.deadline_slack_ticks ≡ by
  pub sequence :
      (a.reservation_sequence ≡ suc c₀.reservation_sequence)
      × (c'.reservation_sequence ≡ suc c₀.reservation_sequence)
  pub envelope :
      (c₀.admitted_in_window < c₀.curve.maximum_admissions_per_window)
      × (a.admitted_before ≡ c₀.admitted_in_window)
      × (c'.admitted_in_window ≡ suc c₀.admitted_in_window)
  pub window : (a.window_start ≡ c₀.window_start) × (a.admitted_tick ≡ now)
  pub root : a.certificate_root ≡ admission_certificate_root c₀.secret a

reserve-IsAdmitted :
    (now deadline backlog : ℕ) (q : Quote) (c : ServiceController) (a : AdmissionCertificate)
    → IsQuote c now backlog q
    → q.required_deadline ≤ deadline
    → backlog < c.curve.maximum_backlog
    → c.admitted_in_window < c.curve.maximum_admissions_per_window
    → (reserve now deadline backlog q c).0 ≡ ok a
    → IsAdmitted now deadline backlog c (reserve now deadline backlog q c).1 a
unfolding reserve admission_certificate_root
reserve-IsAdmitted now deadline backlog q c a k d b m e = ground arith

admit_now-IsAdmitted :
    (now deadline backlog : ℕ) (c : ServiceController) (a : AdmissionCertificate)
    → (admit_now now deadline backlog c).0 ≡ ok a
    → IsAdmitted now deadline backlog c (admit_now now deadline backlog c).1 a
unfolding admit_now
admit_now-IsAdmitted now deadline backlog c a e = elim (Result-cases (quote c now backlog)) [
  | inl (q, h) ↦
      ground
        (arith, reserve-IsAdmitted now deadline backlog q c a (quote-IsQuote c now backlog q h))
  | inr (f, h) ↦ ground arith
]

after_advance-ok :
    (r : Outcome (Unit {0})) (k : ServiceController → Outcome AdmissionCertificate)
    (a : AdmissionCertificate)
    → (after_advance r k).0 ≡ ok a
    → (r.0 ≡ ok tt) × (after_advance r k ≡ k r.1)
after_advance-ok (ok tt, c) k a e = (refl, refl)
after_advance-ok (err f, c) k a e = cc

-- A successful admission on a valid controller, at a tick below 2^64, is priced on the controller
-- advanced to the present tick: the delay bound is the sum of the curve's delay, the calibrator's
-- guard and the drift penalty; it fits before the deadline with exactly the slack that the
-- certificate states; backlog and window were under their limits; the certificate takes the next
-- sequence number and the root of its content.
pub admit-IsAdmitted :
    (n now deadline backlog : ℕ) (c : ServiceController) (a : AdmissionCertificate)
    → IsValid n c
    → now < u64_mod
    → (admit now deadline backlog c).0 ≡ ok a
    → Advanced now c (advance now c).1
      × Kept c (advance now c).1
      × IsAdmitted now deadline backlog (advance now c).1 (admit now deadline backlog c).1 a
unfolding admit
admit-IsAdmitted n now deadline backlog c a v w e =
    let (done, same) = after_advance-ok (advance now c) (admit_now now deadline backlog) a e in
    (
      advance-Advanced n now c v w done,
      advance-Kept now c,
      rw same (admit_now-IsAdmitted now deadline backlog (advance now c).1 a (rw same at e)),
    )

reserve-IsValid :
    (n now deadline backlog : ℕ) (q : Quote) (c : ServiceController)
    → IsValid n c
    → c.admitted_in_window < c.curve.maximum_admissions_per_window
    → IsValid n (reserve now deadline backlog q c).1
unfolding reserve
reserve-IsValid n now deadline backlog q c v h = ground arith

admit_now-IsValid :
    (n now deadline backlog : ℕ) (c : ServiceController)
    → IsValid n c
    → IsValid n (admit_now now deadline backlog c).1
unfolding admit_now reject
admit_now-IsValid n now deadline backlog c v = elim (Result-cases (quote c now backlog)) [
  | inl (q, h) ↦ ground (arith, reserve-IsValid n now deadline backlog q c v)
  | inr (f, h) ↦ ground arith
]

after_advance-IsValid :
    (n : ℕ) {A : Type 0} (r : Result AdmissionFault (Unit {0}) × ServiceController)
    (k : ServiceController → Result AdmissionFault A × ServiceController)
    → ((c : ServiceController) → IsValid n c → IsValid n (k c).1)
    → IsValid n r.1
    → IsValid n (after_advance r k).1
after_advance-IsValid n (ok tt, c) k keeps v = keeps c v
after_advance-IsValid n (err f, c) k keeps v = v

admit-IsValid :
    (n now deadline backlog : ℕ) (c : ServiceController)
    → IsValid n c
    → now < u64_mod
    → IsValid n (admit now deadline backlog c).1
unfolding admit
admit-IsValid n now deadline backlog c v w =
    after_advance-IsValid n (advance now c) _ (admit_now-IsValid n now deadline backlog)
      (advance-IsValid n now c v w)

rollback-IsValid :
    (n : ℕ) (a : AdmissionCertificate) (c : ServiceController)
    → IsValid n c
    → a.admitted_before ≤ u16_max
    → IsValid n (rollback a c).1
unfolding rollback
rollback-IsValid n a c v w = ground arith

drain-IsValid :
    (n : ℕ) (a : AdmissionCertificate) (delay g : ℕ) (c : ServiceController)
    → IsValid n c
    → IsValid n (drain a delay g c).1
unfolding drain
drain-IsValid n a delay g c v = ground arith

pushed : ℕ → AdmissionCertificate → ℕ → ServiceController → ℕ → ServiceController
pushed n a tick c predicted = record c {
  calibrator = (push n c.calibrator (tick - a.admitted_tick - predicted)).1;
}

pushed-IsValid :
    (n : ℕ) (a : AdmissionCertificate) (tick : ℕ) (c : ServiceController) (predicted : ℕ)
    → IsValid n c
    → IsValid n (pushed n a tick c predicted)
unfolding pushed
pushed-IsValid n a tick c predicted v = record {
  curve = v.curve;
  fits = v.fits;
  admitted = v.admitted;
  window = v.window;
  calibrator = (Coverage.push-IsValid n c.calibrator _ v.calibrator).0;
}

record_residual-IsValid :
    (n : ℕ) (a : AdmissionCertificate) (tick : ℕ) (c : ServiceController)
    → IsValid n c
    → IsValid n (record_residual n a tick c).1
unfolding record_residual
record_residual-IsValid n a tick c v =
    elim (Option-cases (checked_add a.deterministic_delay_ticks a.drift_penalty_ticks)) [
      | inl e ↦ rw (e, record_residual) v
      | inr (predicted, e) ↦
          elim (Result-cases (push n c.calibrator (tick - a.admitted_tick - predicted)).0) [
            | inl (g, h) ↦
                rw (e, record_residual)
                  (rw h (
                    drain-IsValid n a _ g _
                      (unfold pushed in pushed-IsValid n a tick c predicted v)))
            | inr (f, h) ↦
                rw (e, record_residual)
                  (rw h (unfold pushed in pushed-IsValid n a tick c predicted v))
          ]
    ]

observe_completion-IsValid :
    (n : ℕ) (a : AdmissionCertificate) (tick : ℕ) (c : ServiceController)
    → IsValid n c
    → tick < u64_mod
    → IsValid n (observe_completion n a tick c).1
unfolding observe_completion
observe_completion-IsValid n a tick c v w = ground (
  arith,
  after_advance-IsValid n (advance tick c) (record_residual n a tick)
      (record_residual-IsValid n a tick) (advance-IsValid n tick c v w),
)

-- The calls of a client, with words of the source's widths.
pub data Call : Type 0 where
  admits : (now deadline backlog : ℕ) → now < u64_mod → Call
  rolls_back : (a : AdmissionCertificate) → a.admitted_before ≤ u16_max → Call
  observes : (a : AdmissionCertificate) (tick : ℕ) → tick < u64_mod → Call

pub apply : ℕ → Call → ServiceController → ServiceController
apply n (admits now deadline backlog w) c = (admit now deadline backlog c).1
apply n (rolls_back a w) c = (rollback a c).1
apply n (observes a tick w) c = (observe_completion n a tick c).1

pub run : ℕ → List Call → ServiceController → ServiceController
run n [] c = c
run n (k ∷ ks) c = run n ks (apply n k c)

apply-IsValid : (n : ℕ) (k : Call) (c : ServiceController) → IsValid n c → IsValid n (apply n k c)
unfolding apply
apply-IsValid n (admits now deadline backlog w) c v = admit-IsValid n now deadline backlog c v w
apply-IsValid n (rolls_back a w) c v = rollback-IsValid n a c v w
apply-IsValid n (observes a tick w) c v = observe_completion-IsValid n a tick c v w

apply-SameSettings : (n : ℕ) (k : Call) (c : ServiceController) → SameSettings c (apply n k c)
unfolding apply
apply-SameSettings n (admits now deadline backlog w) c = admit-SameSettings now deadline backlog c
apply-SameSettings n (rolls_back a w) c = rollback-SameSettings a c
apply-SameSettings n (observes a tick w) c = observe_completion-SameSettings n a tick c

-- After any history of admissions, rollbacks and completions, successful or not, on a valid
-- controller, the window has admitted at most its limit, the clock lies before the end of the
-- window, the calibrator is valid, and its guard limit and slack are those of the start.
pub run-IsValid :
    (n : ℕ) (ks : List Call) (c : ServiceController)
    → IsValid n c
    → IsValid n (run n ks c) × SameSettings c (run n ks c)
unfolding run
run-IsValid n [] c v = (v, (refl, refl))
run-IsValid n (k ∷ ks) c v =
    let (kept, same) = run-IsValid n ks (apply n k c) (apply-IsValid n k c v) in
    (
      kept,
      SameSettings-trans c (apply n k c) (run n ks (apply n k c)) (apply-SameSettings n k c) same,
    )

kernel_default-IsValid :
    (n slack maximum secret : ℕ) (c : Calibrator.ResidualCalibrator)
    → n < 2 ^ 56
    → kernel_default n slack maximum secret ≡ ok c
    → Coverage.IsValid n c
unfolding kernel_default
kernel_default-IsValid n slack maximum secret c fits e =
    Coverage.new-IsValid n 15 16 slack maximum secret c fits (omega arith) e

-- A controller that is made over a curve of the source's word widths starts valid, if the array
-- fits in memory.
pub new-IsValid :
    (n : ℕ) (curve : Curve.ServiceCurve) (now secret : ℕ) (c : ServiceController)
    → n < 2 ^ 56
    → Curve.Fits curve
    → new n curve now secret ≡ ok c
    → IsValid n c
unfolding new
new-IsValid n curve now secret c fits words e = elim (Result-cases made) [
  | inl (calibrator, h) ↦ ground (
    arith,
    Curve.window_positive curve,
    kernel_default-IsValid n 1 guard_limit _ calibrator fits h,
  )
  | inr (f, h) ↦ ground arith
]
  where
    guard_limit : ℕ
    guard_limit = max (curve.window_ticks * curve.maximum_backlog) 1

    made : Result Calibrator.CalibrationFault Calibrator.ResidualCalibrator
    made = kernel_default n 1 guard_limit (Curve.mix secret 0x4341_4c49_4252_4154)
