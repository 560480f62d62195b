-- ===== src/Service/Controller/Rollback.antt =====
-- src/service_calculus.rs: a rollback undoes the admission that it is given, once.
use slope.Base.{
  ℕ, suc, ◌+◌, ◌<◌, ◌≡◌, ◌≢◌, sym, ap, ◌∙◌, ok, err, Result-cases, inl, inr, u64_mod, u64_max,
  u16_max, arith,
}
use slope.Service.Curve.{deterministic_delay-pos}
use slope.Service.Certificate.{AdmissionCertificate, admission_certificate_root}
use slope.Service.Controller.{
  ServiceController, stale_reservation, Quote, q16_one, quote, reserve, admit_now, rollback,
  verify_certificate, Outcome, advance, after_advance, admit,
}
use slope.Service.Controller.Admission.{quote-IsQuote}
use slope.Service.Calibrator.{ResidualCalibrator}
use slope.Service.Controller.Window.{Kept, advance-Kept}

-- A certificate that has been rolled back is stale: a second rollback fails with
-- StaleReservation, if its count of earlier admissions is below 65535.
pub rollback_once :
    (a : AdmissionCertificate) (c : ServiceController)
    → a.admitted_before < u16_max
    → (rollback a c).0 ≡ ok tt
    → (rollback a (rollback a c).1).0 ≡ err stale_reservation
unfolding rollback
rollback_once a c w e = ground arith

reserve-rollback :
    (now deadline backlog : ℕ) (q : Quote) (c c' : ServiceController) (a : AdmissionCertificate)
    → reserve now deadline backlog q c ≡ (ok a, c')
    → 0 < q.delay
    → c.accepted < u64_max
    → c.virtual_backlog_q16 + q16_one < u64_mod
    → c.curve_root ≢ 0
    → c.calibrator.root ≢ 0
    → a.certificate_root ≢ 0
    → rollback a c' ≡ (ok tt, record c { reservation_sequence = suc c.reservation_sequence })
unfolding reserve rollback verify_certificate admission_certificate_root
reserve-rollback now deadline backlog q c c' a e d x y r s t = ground arith

admit_now-rollback :
    (now deadline backlog : ℕ) (c c' : ServiceController) (a : AdmissionCertificate)
    → admit_now now deadline backlog c ≡ (ok a, c')
    → c.accepted < u64_max
    → c.virtual_backlog_q16 + q16_one < u64_mod
    → c.curve_root ≢ 0
    → c.calibrator.root ≢ 0
    → a.certificate_root ≢ 0
    → rollback a c' ≡ (ok tt, record c { reservation_sequence = suc c.reservation_sequence })
unfolding admit_now
admit_now-rollback now deadline backlog c c' a e x y r s t =
    elim (Result-cases (quote c now backlog)) [
      | inl (q, h) ↦
          let k = quote-IsQuote c now backlog q h in
          let d = deterministic_delay-pos c.curve backlog q.deterministic k.deterministic in
          ground (arith, k.delay, d, reserve-rollback now deadline backlog q c c' a)
      | inr (f, h) ↦ ground arith
    ]

advanced-rollback :
    (now deadline backlog : ℕ) (c c' : ServiceController) (a : AdmissionCertificate)
    (r : Outcome (Unit {0}))
    → after_advance r (admit_now now deadline backlog) ≡ (ok a, c')
    → Kept c r.1
    → c.accepted < u64_max
    → c.virtual_backlog_q16 + q16_one < u64_mod
    → c.curve_root ≢ 0
    → c.calibrator.root ≢ 0
    → a.certificate_root ≢ 0
    → rollback a c' ≡ (ok tt, record r.1 { reservation_sequence = suc r.1.reservation_sequence })
advanced-rollback now deadline backlog c c' a (ok tt, c₀) e k x y r s t =
    admit_now-rollback now deadline backlog c₀ c' a e (omega (arith, k.accepted))
      (omega (arith, k.backlog)) (λ z. r (sym k.root ∙ z))
      (λ z. s (sym (ap (λ (w : ResidualCalibrator). w.root) k.calibrator) ∙ z)) t
advanced-rollback now deadline backlog c c' a (err f, c₀) e k x y r s t = absurd (err-ne-ok e)
  where
    err-ne-ok : ◌≡◌ {A = Outcome AdmissionCertificate} (err f, c₀) (ok a, c') → ⊥
    err-ne-ok h = ground arith

-- An admission that is rolled back at once leaves the controller as the advance of the clock left
-- it, but for the sequence number, which stays used up, if the counters have room for the job and
-- the three roots of the certificate are not zero.
pub admit-rollback :
    (now deadline backlog : ℕ) (c c' : ServiceController) (a : AdmissionCertificate)
    → admit now deadline backlog c ≡ (ok a, c')
    → c.accepted < u64_max
    → c.virtual_backlog_q16 + q16_one < u64_mod
    → c.curve_root ≢ 0
    → c.calibrator.root ≢ 0
    → a.certificate_root ≢ 0
    → let c₀ = (advance now c).1 in
      rollback a c' ≡ (ok tt, record c₀ { reservation_sequence = suc c₀.reservation_sequence })
unfolding admit
admit-rollback now deadline backlog c c' a e x y r s t =
    advanced-rollback now deadline backlog c c' a (advance now c) e (advance-Kept now c) x y r s t
