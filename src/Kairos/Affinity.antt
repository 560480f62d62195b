-- ===== src/Kairos/Affinity.antt =====
-- src/kairos.rs, `compute_affinity`: the hint names a domain that can do the work.
use slope.Base.{ℕ, ◌≡◌, ◌⊎◌, Bool, true, false, not, ◌&&◌, ◌||◌, ◌!=◌, bit_and, List, [], ◌∷◌}
use slope.Kairos.Topology.{
  CpuKind, symmetric, DomainDescriptor, TopologySnapshot, has_trait, WorkloadClass, compute, io,
  offload_work, any_work, CpuAffinityHint, is_offload, is_io, performance, efficiency, offload,
}
use slope.Kairos.Suited.{IsSuited}

-- The first suited domain of a list: none before it is suited.
pub data IsFirst (s : TopologySnapshot) (class : WorkloadClass) (kind : CpuKind)
    (d : DomainDescriptor) : List DomainDescriptor → Type 0 where
  is_head : (ds : List DomainDescriptor) → IsSuited s class kind d → IsFirst s class kind d (d ∷ ds)
  is_later :
      (e : DomainDescriptor) (ds : List DomainDescriptor)
      → ¬ IsSuited s class kind e
      → IsFirst s class kind d ds
      → IsFirst s class kind d (e ∷ ds)

pub NoneSuited : TopologySnapshot → WorkloadClass → CpuKind → List DomainDescriptor → Type 0
NoneSuited s class kind [] = Unit {0}
NoneSuited s class kind (d ∷ ds) = (¬ IsSuited s class kind d) × NoneSuited s class kind ds

-- I/O work may always use symmetric threads, offload work never, and compute work on a machine with
-- the trait.
abbrev pub eligible : ℕ → TopologySnapshot → WorkloadClass → Bool
eligible smp s io = true
eligible smp s offload_work = false
eligible smp s compute = bit_and s.trait_flags smp != 0
eligible smp s any_work = bit_and s.trait_flags smp != 0

-- The hint for a domain.
abbrev pub hint_for :
    ℕ → TopologySnapshot → WorkloadClass → CpuKind → DomainDescriptor → CpuAffinityHint
hint_for smp s class kind d = record {
  domain_id = d.id;
  preferred_kind = kind;
  smp_eligible = eligible smp s class;
}

abbrev code_hint :
    ℕ → TopologySnapshot → WorkloadClass → CpuKind → DomainDescriptor → CpuAffinityHint
code_hint smp s class kind d = record {
  domain_id = d.id;
  preferred_kind = kind;
  smp_eligible = not (is_offload class) && (is_io class || has_trait smp s);
}

abbrev pub no_wish : CpuAffinityHint
no_wish = record { domain_id = 0; preferred_kind = symmetric; smp_eligible = true }

abbrev pub IsBest :
    ℕ
    → TopologySnapshot
    → WorkloadClass
    → CpuKind
    → List DomainDescriptor
    → CpuAffinityHint
    → Type 0
IsBest smp s class kind ds hint =
    ((d : DomainDescriptor) × IsFirst s class kind d ds × (hint ≡ hint_for smp s class kind d))
    ⊎ (NoneSuited s class kind ds × (hint ≡ no_wish))

-- What each class of work asks for.
abbrev pub Suggests : ℕ → TopologySnapshot → WorkloadClass → CpuAffinityHint → Type 0
Suggests smp s compute hint = IsBest smp s compute performance s.domains hint
Suggests smp s io hint = IsBest smp s io efficiency s.domains hint
Suggests smp s offload_work hint = IsBest smp s offload_work offload s.domains hint
Suggests smp s any_work hint = hint ≡ no_wish
