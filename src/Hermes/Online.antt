-- ===== src/Hermes/Online.antt =====
-- src/hermes_manifold.rs: what a manifold's phase says of its evidence and its certificate.
use slope.Base.{
  ℕ, ◌≡◌, ◌≢◌, refl, subst, Bool, true, Result, ok, err, Option, none, some, List, [], ◌∷◌, arith,
  Result-cases, Bool-cases, inl, inr,
}
use slope.Hermes.Phase.{
  HermesPhase, offline, probed, firmwared, queued, negotiated, online, recovering, quarantined,
  as_u8, phase_eq,
}
use slope.Hermes.Feature.{well_formed}
use slope.Hermes.Evidence.{
  HermesEvidence, OnlineCertificate, ManifoldFault, online_ready, seal, seal_root,
  certificate_missing,
}
use slope.Hermes.Manifold.{
  HermesManifold, Call, observes_probe, observes_firmware, arms_queues, negotiates, ignites,
  detects_fault, restores, contains, releases, dark, observe_probe, observe_firmware, arm_queues,
  negotiate, ignite, detect_fault, restore, contain, release, certify, apply, run,
}

-- The certificate that a seal of the manifold's own generation and evidence gives.
abbrev Sealed : ℕ → HermesEvidence → Option OnlineCertificate → Type 0
Sealed g e o = (c : OnlineCertificate) × (o ≡ some c) × (seal g e ≡ ok c)

-- The gates that lie behind each phase.
abbrev Gated : HermesPhase → ℕ → HermesEvidence → Option OnlineCertificate → Type 0
Gated offline g e o = o ≡ none
Gated probed g e o = (o ≡ none) × (e.pci_matched ≡ true)
Gated firmwared g e o = (o ≡ none) × (e.pci_matched ≡ true) × (e.firmware_measured ≡ true)
Gated queued g e o =
    (o ≡ none)
    × (e.pci_matched ≡ true)
    × (e.firmware_measured ≡ true)
    × (e.iommu_isolated ≡ true)
    × (e.dma_domain ≢ 0)
Gated negotiated g e o =
    (o ≡ none)
    × (e.pci_matched ≡ true)
    × (e.firmware_measured ≡ true)
    × (e.iommu_isolated ≡ true)
    × (e.dma_domain ≢ 0)
    × (e.negotiated_features ≢ 0)
    × (well_formed e.negotiated_features ≡ true)
Gated online g e o = Sealed g e o
Gated recovering g e o = Sealed g e o
Gated quarantined g e o = Sealed g e o

pub record IsSound (m : HermesManifold) : Type 0 where
  pub gated : Gated m.phase m.generation m.evidence m.certificate

dark-IsSound : (g : ℕ) → IsSound (dark g)
unfolding dark
dark-IsSound g = record { gated = refl }

certify-IsSound :
    (m : HermesManifold) (r : Result ManifoldFault OnlineCertificate)
    → seal m.generation m.evidence ≡ r
    → IsSound m
    → IsSound (certify m r).1
unfolding certify
certify-IsSound m (err f) e v = v
certify-IsSound m (ok c) e v = record { gated = (c, refl, e) }

abbrev observed : Bool → Bool → Bool → HermesManifold → HermesManifold
observed a b c m = record m {
  evidence = record m.evidence { wpr_locked = a; boot_mailbox_ok = b; ready_queue_observed = c };
}

observed-IsSound :
    (a b c : Bool) (m : HermesManifold)
    → phase_eq m.phase negotiated ≡ true
    → IsSound m
    → IsSound (observed a b c m)
unfolding as_u8
observed-IsSound a b c m e v = ground arith

ignite-IsSound : (a b c : Bool) (m : HermesManifold) → IsSound m → IsSound (ignite a b c m).1
unfolding ignite
ignite-IsSound a b c m v = elim (Bool-cases (phase_eq m.phase negotiated)) [
  | inl e ↦
      rw (e, ignite) (certify-IsSound (observed a b c m) _ refl (observed-IsSound a b c m e v))
  | inr e ↦ rw (e, ignite) v
]

-- Every call keeps the evidence of a manifold in step with its phase, whether it succeeds or not.
pub apply-IsSound : (c : Call) (m : HermesManifold) → IsSound m → IsSound (apply c m).1
unfolding apply observe_probe observe_firmware arm_queues negotiate detect_fault restore contain
    release as_u8
apply-IsSound (observes_probe b) m v = ground arith
apply-IsSound (observes_firmware b) m v = ground arith
apply-IsSound (arms_queues b n) m v = ground arith
apply-IsSound (negotiates n) m v = ground arith
apply-IsSound (ignites a b c) m v = ignite-IsSound a b c m v
apply-IsSound (detects_fault b) m v = ground arith
apply-IsSound restores m v = ground arith
apply-IsSound contains m v = ground arith
apply-IsSound releases m v = ground arith

run-IsSound : (cs : List Call) (m : HermesManifold) → IsSound m → IsSound (run cs m)
unfolding run
run-IsSound [] m v = v
run-IsSound (c ∷ cs) m v = run-IsSound cs (apply c m).1 (apply-IsSound c m v)

seal-ok :
    (g : ℕ) (e : HermesEvidence) (c : OnlineCertificate)
    → seal g e ≡ ok c
    → (online_ready e ≡ ok tt)
      × (c.generation ≡ g)
      × (c.dma_domain ≡ e.dma_domain)
      × (c.negotiated_features ≡ e.negotiated_features)
      × (c.root ≡ seal_root g e)
      × (c.root ≢ 0)
unfolding seal seal_root
seal-ok g e c h = ground (arith, Result-cases (online_ready e))

-- What an online manifold holds.
pub record HasAuthority (m : HermesManifold) (c : OnlineCertificate) : Type 0 where
  pub held : m.certificate ≡ some c
  pub ready : online_ready m.evidence ≡ ok tt
  pub generation : c.generation ≡ m.generation
  pub domain : c.dma_domain ≡ m.evidence.dma_domain
  pub features : c.negotiated_features ≡ m.evidence.negotiated_features
  pub root : (c.root ≡ seal_root m.generation m.evidence) × (c.root ≢ 0)

IsSound-HasAuthority :
    (m : HermesManifold) → IsSound m → m.phase ≡ online → (c : OnlineCertificate) × HasAuthority m c
IsSound-HasAuthority m v e =
    let (c, held, sealed) = subst (λ p. Gated p m.generation m.evidence m.certificate) e v.gated in
    let facts = seal-ok m.generation m.evidence c sealed in
    (
      c,
      record {
        held = held;
        ready = facts.0;
        generation = facts.1;
        domain = facts.2;
        features = facts.3;
        root = (facts.4, facts.5);
      },
    )

-- Whatever calls are made on a manifold that starts dark, if its phase is online then it holds a
-- certificate, sealed with a nonzero root over its own generation, domain and features, and its
-- evidence passes every gate of online_ready.
pub run-HasAuthority :
    (generation : ℕ) (cs : List Call)
    → (run cs (dark generation)).phase ≡ online
    → (c : OnlineCertificate) × HasAuthority (run cs (dark generation)) c
run-HasAuthority generation cs e =
    IsSound-HasAuthority _ (run-IsSound cs _ (dark-IsSound generation)) e

online_ready_names_gates : (e : HermesEvidence) → online_ready e ≢ err certificate_missing
unfolding online_ready
online_ready_names_gates e = ground arith

ignite_names_gates :
    (a b c : Bool) (m : HermesManifold) → (ignite a b c m).0 ≢ err certificate_missing
unfolding ignite certify seal
ignite_names_gates a b c m = ground (arith, online_ready_names_gates (observed a b c m).evidence)

sound_has_certificate :
    (c : Call) (m : HermesManifold) → IsSound m → (apply c m).0 ≢ err certificate_missing
unfolding apply observe_probe observe_firmware arm_queues negotiate detect_fault restore contain
    release as_u8
sound_has_certificate (ignites a b c) m v = ignite_names_gates a b c m
sound_has_certificate _ m v = ground arith

-- In a history from the dark no call ever fails with CertificateMissing.
pub certificate_never_missing :
    (generation : ℕ) (cs : List Call) (c : Call)
    → (apply c (run cs (dark generation))).0 ≢ err certificate_missing
certificate_never_missing generation cs c =
    sound_has_certificate c _ (run-IsSound cs _ (dark-IsSound generation))
