-- ===== src/Hermes/Evidence.antt =====
-- src/hermes_manifold.rs: the evidence for going online, and the sealed certificate.
use slope.Base.{
  ℕ, Bool, false, not, ◌==◌, if◌then◌else◌, Result, ok, err, ◌>>◌, wrapping_mul, rotate_left,
  bit_xor,
}
use slope.Hermes.Feature.{well_formed}

pub data ManifoldFault : Type 0 where
  invalid_phase_jump missing_pci missing_firmware missing_iommu missing_domain : ManifoldFault
  missing_wpr missing_mailbox missing_ready_queue empty_features : ManifoldFault
  ill_formed_features generation_mismatch certificate_missing : ManifoldFault

pub record HermesEvidence : Type 0 where
  pub pci_matched : Bool
  pub firmware_measured : Bool
  pub iommu_isolated : Bool
  pub dma_domain : ℕ
  pub wpr_locked : Bool
  pub boot_mailbox_ok : Bool
  pub ready_queue_observed : Bool
  pub negotiated_features : ℕ

abbrev pub empty : HermesEvidence
empty = record {
  pci_matched = false;
  firmware_measured = false;
  iommu_isolated = false;
  dma_domain = 0;
  wpr_locked = false;
  boot_mailbox_ok = false;
  ready_queue_observed = false;
  negotiated_features = 0;
}

unfoldable pub online_ready : HermesEvidence → Result ManifoldFault (Unit {0})
online_ready e =
    if not e.pci_matched
    then err missing_pci
    else (if not e.firmware_measured
        then err missing_firmware
        else (if not e.iommu_isolated
            then err missing_iommu
            else (if e.dma_domain == 0
                then err missing_domain
                else (if not e.wpr_locked
                    then err missing_wpr
                    else (if not e.boot_mailbox_ok
                        then err missing_mailbox
                        else (if not e.ready_queue_observed
                            then err missing_ready_queue
                            else (if e.negotiated_features == 0
                                then err empty_features
                                else (if not (well_formed e.negotiated_features)
                                    then err ill_formed_features
                                    else ok tt))))))))

pub record OnlineCertificate : Type 0 where
  pub generation : ℕ
  pub dma_domain : ℕ
  pub negotiated_features : ℕ
  pub root : ℕ

-- One round of the seal: absorb a rotated word and multiply.
absorb : ℕ → ℕ → ℕ
unfolding wrapping_mul
absorb state word = wrapping_mul (bit_xor state word) 0x9e37_79b1_85eb_ca87

-- The seal's word before the test for zero.
pub seal_word : ℕ → HermesEvidence → ℕ
unfolding absorb rotate_left
seal_word generation e =
    absorb
      (absorb (absorb 0x4845_524d_4553_4d4e (rotate_left generation 7))
        (rotate_left e.dma_domain 13))
      (rotate_left e.negotiated_features 19)

unfoldable pub seal_root : ℕ → HermesEvidence → ℕ
seal_root generation e = let state = seal_word generation e in if state == 0 then 1 else state

unfoldable pub seal : ℕ → HermesEvidence → Result ManifoldFault OnlineCertificate
seal generation e = do
  online_ready e
  ok (record {
    generation = generation;
    dma_domain = e.dma_domain;
    negotiated_features = e.negotiated_features;
    root = seal_root generation e;
  })
