-- ===== src/Hermes/Manifold.antt =====
-- src/hermes_manifold.rs, `HermesManifold`. A method on `&mut self` returns its result and the
-- state that it leaves, on the error paths too.
use slope.Base.{
  ℕ, ◌+◌, ◌%◌, Bool, true, not, ◌&&◌, ◌==◌, if◌then◌else◌, Option, none, some, is_some, List, [],
  ◌∷◌, Result, ok, err, bit_or, u32_mod, saturating_add_u32,
}
use slope.Hermes.Phase.{
  HermesPhase, offline, probed, firmwared, queued, negotiated, online, recovering, quarantined,
  phase_eq, is_live,
}
use slope.Hermes.Feature.{well_formed}
use slope.Hermes.Evidence.{
  HermesEvidence, OnlineCertificate, ManifoldFault, empty, seal, invalid_phase_jump, missing_pci,
  missing_firmware, missing_iommu, missing_domain, empty_features, ill_formed_features,
  certificate_missing,
}

pub record HermesManifold : Type 0 where
  pub generation : ℕ
  pub phase : HermesPhase
  pub evidence : HermesEvidence
  pub certificate : Option OnlineCertificate
  pub corrected_faults : ℕ
  pub fatal_faults : ℕ

abbrev pub Outcome : Type 0
Outcome = Result ManifoldFault (Unit {0}) × HermesManifold

unfoldable pub dark : ℕ → HermesManifold
dark generation = record {
  generation = generation;
  phase = offline;
  evidence = empty;
  certificate = none;
  corrected_faults = 0;
  fatal_faults = 0;
}

unfoldable pub is_online : HermesManifold → Bool
unfolding is_live
is_online m = is_live m.phase && is_some m.certificate

-- The flags of src/quantum_crest.rs that a manifold contributes.
abbrev pub flag_hermes_online : ℕ
flag_hermes_online = 1

abbrev pub flag_quarantine_active : ℕ
flag_quarantine_active = 8

abbrev pub flag_dma_revoked : ℕ
flag_dma_revoked = 16

abbrev pub flag_recovery_pending : ℕ
flag_recovery_pending = 32

unfoldable pub snapshot_flags : HermesManifold → ℕ
unfolding is_online
snapshot_flags m =
    let flags₀ : ℕ = 0 in
    let flags₁ = if is_online m then bit_or flags₀ flag_hermes_online else flags₀ in
    let flags₂ =
      if phase_eq m.phase recovering then bit_or flags₁ flag_recovery_pending else flags₁ in
    if phase_eq m.phase quarantined
    then bit_or flags₂ (bit_or flag_quarantine_active flag_dma_revoked)
    else flags₂

unfoldable pub observe_probe : Bool → HermesManifold → Outcome
observe_probe pci_matched m =
    if not (phase_eq m.phase offline)
    then (err invalid_phase_jump, m)
    else (if not pci_matched then (err missing_pci, m) else (
      ok tt,
      record m { evidence = record m.evidence { pci_matched = true }; phase = probed },
    ))

unfoldable pub observe_firmware : Bool → HermesManifold → Outcome
observe_firmware measured m =
    if not (phase_eq m.phase probed)
    then (err invalid_phase_jump, m)
    else (if not measured then (err missing_firmware, m) else (
      ok tt,
      record m { evidence = record m.evidence { firmware_measured = true }; phase = firmwared },
    ))

unfoldable pub arm_queues : Bool → ℕ → HermesManifold → Outcome
arm_queues iommu domain m =
    if not (phase_eq m.phase firmwared)
    then (err invalid_phase_jump, m)
    else (if not iommu
        then (err missing_iommu, m)
        else (if domain == 0 then (err missing_domain, m) else (
          ok tt,
          record m {
            evidence = record m.evidence { iommu_isolated = true; dma_domain = domain };
            phase = queued;
          },
        )))

unfoldable pub negotiate : ℕ → HermesManifold → Outcome
negotiate features m =
    if not (phase_eq m.phase queued)
    then (err invalid_phase_jump, m)
    else (if features == 0
        then (err empty_features, m)
        else (if not (well_formed features) then (err ill_formed_features, m) else (
          ok tt,
          record m {
            evidence = record m.evidence { negotiated_features = features };
            phase = negotiated;
          },
        )))

-- The three observations are stored before the seal is tried, and stay if it fails.
unfoldable pub certify : HermesManifold → Result ManifoldFault OnlineCertificate → Outcome
certify m (err fault) = (err fault, m)
certify m (ok certificate) = (ok tt, record m { certificate = some certificate; phase = online })

unfoldable pub ignite : Bool → Bool → Bool → HermesManifold → Outcome
unfolding certify
ignite wpr mailbox ready m =
    if not (phase_eq m.phase negotiated)
    then (err invalid_phase_jump, m)
    else (let m₁ : HermesManifold = record m {
      evidence = record m.evidence {
        wpr_locked = wpr;
        boot_mailbox_ok = mailbox;
        ready_queue_observed = ready;
      };
    } in
        certify m₁ (seal m₁.generation m₁.evidence))

unfoldable pub detect_fault : Bool → HermesManifold → Outcome
detect_fault fatal m =
    if not (phase_eq m.phase online)
    then (err invalid_phase_jump, m)
    else (if not (is_some m.certificate)
        then (err certificate_missing, m)
        else (let m₁ : HermesManifold =
              if fatal
              then record m { fatal_faults = saturating_add_u32 m.fatal_faults 1 }
              else record m { corrected_faults = saturating_add_u32 m.corrected_faults 1 } in
            (ok tt, record m₁ { phase = recovering })))

unfoldable pub restore : HermesManifold → Outcome
restore m =
    if not (phase_eq m.phase recovering)
    then (err invalid_phase_jump, m)
    else (if not (is_some m.certificate)
        then (err certificate_missing, m)
        else (ok tt, record m { phase = online }))

unfoldable pub contain : HermesManifold → Outcome
contain m =
    if not (phase_eq m.phase recovering)
    then (err invalid_phase_jump, m)
    else (ok tt, record m { phase = quarantined })

unfoldable pub release : HermesManifold → Outcome
unfolding dark
release m =
    if not (phase_eq m.phase quarantined)
    then (err invalid_phase_jump, m)
    else (ok tt, dark ((m.generation + 1) % u32_mod))

-- The calls that a driver can make, and what a history of them leaves.
pub data Call : Type 0 where
  observes_probe observes_firmware : Bool → Call
  arms_queues : Bool → ℕ → Call
  negotiates : ℕ → Call
  ignites : Bool → Bool → Bool → Call
  detects_fault : Bool → Call
  restores contains releases : Call

unfoldable pub apply : Call → HermesManifold → Outcome
apply (observes_probe pci) m = observe_probe pci m
apply (observes_firmware measured) m = observe_firmware measured m
apply (arms_queues iommu domain) m = arm_queues iommu domain m
apply (negotiates features) m = negotiate features m
apply (ignites wpr mailbox ready) m = ignite wpr mailbox ready m
apply (detects_fault fatal) m = detect_fault fatal m
apply restores m = restore m
apply contains m = contain m
apply releases m = release m

unfoldable pub run : List Call → HermesManifold → HermesManifold
run [] m = m
run (c ∷ cs) m = run cs (apply c m).1
