-- ===== src/Kairos/Topology.antt =====
-- src/kairos.rs, `TopologySnapshot`: CPUs, domains and the questions asked of them. The arrays are
-- lists of the entries in use. The flag `trait_flags::SMP` of the kairos crate is an argument.
use slope.Base.{
  ℕ, ◌+◌, Bool, true, false, not, ◌&&◌, ◌||◌, ◌==◌, ◌!=◌, Option, none, some, List, [], ◌∷◌, any,
  find, bit_and, if◌then◌else◌,
}

pub data CpuKind : Type 0 where
  symmetric performance efficiency offload unknown : CpuKind

unfoldable pub from_raw : ℕ → CpuKind
from_raw value =
    if value == 0
    then symmetric
    else (if value == 1
        then performance
        else (if value == 2 then efficiency else (if value == 3 then offload else unknown)))

-- The derived equality.
unfoldable pub kind_eq : CpuKind → CpuKind → Bool
kind_eq symmetric symmetric = true
kind_eq performance performance = true
kind_eq efficiency efficiency = true
kind_eq offload offload = true
kind_eq unknown unknown = true
kind_eq _ _ = false

-- `package_id` is the source's `package`, a word that is reserved here.
pub record CpuDescriptor : Type 0 where
  pub logical_id : ℕ
  pub hardware_id : ℕ
  pub package_id : ℕ
  pub core : ℕ
  pub thread : ℕ
  pub numa_domain : ℕ
  pub kind : CpuKind
  pub enabled : Bool

pub data DomainKind : Type 0 where
  machine numa : DomainKind

unfoldable pub is_numa_kind : DomainKind → Bool
is_numa_kind machine = false
is_numa_kind numa = true

pub record DomainDescriptor : Type 0 where
  pub id : ℕ
  pub kind : DomainKind
  pub parent : Option ℕ
  pub members : List ℕ

pub record TopologySnapshot : Type 0 where
  pub cpus : List CpuDescriptor
  pub domains : List DomainDescriptor
  pub trait_flags : ℕ

unfoldable pub has_trait : ℕ → TopologySnapshot → Bool
has_trait flag s = bit_and s.trait_flags flag != 0

unfoldable pub numa_domain_of : ℕ → TopologySnapshot → Option ℕ
numa_domain_of logical_cpu_id s = elim (find (λ cpu. cpu.logical_id == logical_cpu_id) s.cpus) [
  | none ↦ none
  | some cpu ↦ some cpu.numa_domain
]

abbrev pub is_enabled : TopologySnapshot → ℕ → Bool
is_enabled s logical_id = any (λ cpu. (cpu.logical_id == logical_id) && cpu.enabled) s.cpus

-- `filter(..).count()`.
unfoldable pub count_members : (ℕ → Bool) → List ℕ → ℕ
count_members test [] = 0
count_members test (id ∷ ids) = (if test id then 1 else 0) + count_members test ids

unfoldable pub enabled_member_count : TopologySnapshot → DomainDescriptor → ℕ
unfolding count_members
enabled_member_count s domain = count_members (is_enabled s) domain.members

abbrev pub is_enabled_kind : TopologySnapshot → CpuKind → ℕ → Bool
is_enabled_kind s kind logical_id =
    any (λ cpu. (cpu.logical_id == logical_id) && (cpu.enabled && kind_eq cpu.kind kind)) s.cpus

unfoldable pub domain_has_enabled_kind : TopologySnapshot → DomainDescriptor → CpuKind → Bool
domain_has_enabled_kind s domain kind = any (is_enabled_kind s kind) domain.members

pub data WorkloadClass : Type 0 where
  compute io offload_work any_work : WorkloadClass

pub record CpuAffinityHint : Type 0 where
  pub domain_id : ℕ
  pub preferred_kind : CpuKind
  pub smp_eligible : Bool

abbrev pub any_hint : CpuAffinityHint
any_hint = record { domain_id = 0; preferred_kind = symmetric; smp_eligible = true }

abbrev pub is_offload : WorkloadClass → Bool
is_offload compute = false
is_offload io = false
is_offload offload_work = true
is_offload any_work = false

abbrev pub is_io : WorkloadClass → Bool
is_io compute = false
is_io io = true
is_io offload_work = false
is_io any_work = false

abbrev pub preferred : WorkloadClass → Option CpuKind
preferred compute = some performance
preferred io = some efficiency
preferred offload_work = some offload
preferred any_work = none

-- The loop of `compute_affinity` over the domains.
unfoldable pub seek_domain :
    ℕ → TopologySnapshot → WorkloadClass → CpuKind → List DomainDescriptor → CpuAffinityHint
unfolding has_trait domain_has_enabled_kind is_numa_kind
seek_domain smp s class kind [] = any_hint
seek_domain smp s class kind (domain ∷ domains) =
    let rest = seek_domain smp s class kind domains in
    if not (is_offload class) && not (is_numa_kind domain.kind)
    then rest
    else (if domain_has_enabled_kind s domain kind
        then record {
          domain_id = domain.id;
          preferred_kind = kind;
          smp_eligible = not (is_offload class) && (is_io class || has_trait smp s);
        }
        else rest)

unfoldable pub compute_affinity : ℕ → WorkloadClass → TopologySnapshot → CpuAffinityHint
unfolding seek_domain
compute_affinity smp class s = elim (preferred class) [
  | none ↦ any_hint
  | some kind ↦ seek_domain smp s class kind s.domains
]
