-- ===== src/Kairos/Suited.antt =====
-- src/kairos.rs, `compute_affinity`: which domain is suited to a class of work.
use slope.Base.{
  ℕ, ◌≡◌, refl, subst, ◌⊎◌, inl, inr, Bool, true, false, ◌&&◌, ◌||◌, ◌==◌, any, Bool-cases, List,
  [], ◌∷◌, arith,
}
use slope.Kairos.Topology.{
  CpuKind, symmetric, unknown, kind_eq, CpuDescriptor, DomainKind, machine, numa, is_enabled_kind,
  DomainDescriptor, TopologySnapshot, is_numa_kind, domain_has_enabled_kind, WorkloadClass, compute,
  io, offload_work, any_work, is_offload, performance, efficiency, offload,
}

-- One of the CPUs has the number, is enabled and is of the kind.
abbrev pub IsEnabledCpu : CpuKind → ℕ → List CpuDescriptor → Type 0
IsEnabledCpu kind id [] = ⊥
IsEnabledCpu kind id (cpu ∷ cpus) =
    ((cpu.logical_id ≡ id) × (cpu.enabled ≡ true) × (cpu.kind ≡ kind)) ⊎ IsEnabledCpu kind id cpus

-- One of the numbers is that of such a CPU.
abbrev pub HasEnabled : List CpuDescriptor → CpuKind → List ℕ → Type 0
HasEnabled cpus kind [] = ⊥
HasEnabled cpus kind (id ∷ ids) = IsEnabledCpu kind id cpus ⊎ HasEnabled cpus kind ids

-- A domain is suited to a class if it is a NUMA domain, or the class is offload work, and one of its
-- CPUs is enabled and of the kind.
abbrev pub IsSuited : TopologySnapshot → WorkloadClass → CpuKind → DomainDescriptor → Type 0
IsSuited s class kind d =
    ((d.kind ≡ numa) ⊎ (class ≡ offload_work)) × HasEnabled s.cpus kind d.members

kind_eq-≡ : (k l : CpuKind) → kind_eq k l ≡ true → k ≡ l
unfolding kind_eq
kind_eq-≡ symmetric symmetric h = refl
kind_eq-≡ performance performance h = refl
kind_eq-≡ efficiency efficiency h = refl
kind_eq-≡ offload offload h = refl
kind_eq-≡ unknown unknown h = refl
kind_eq-≡ _ _ h = absurd (ground (arith, h))

kind_eq_refl : (k : CpuKind) → kind_eq k k ≡ true
unfolding kind_eq
kind_eq_refl symmetric = refl
kind_eq_refl performance = refl
kind_eq_refl efficiency = refl
kind_eq_refl offload = refl
kind_eq_refl unknown = refl

kind_eq-true : (k l : CpuKind) → k ≡ l → kind_eq k l ≡ true
kind_eq-true k l e = subst (λ m. kind_eq k m ≡ true) e (kind_eq_refl k)

-- What the search for a CPU answers.
abbrev test_cpu : CpuKind → ℕ → List CpuDescriptor → Bool
test_cpu kind id cpus =
    any (λ cpu. (cpu.logical_id == id) && (cpu.enabled && kind_eq cpu.kind kind)) cpus

test_cpu-IsEnabledCpu :
    (kind : CpuKind) (id : ℕ) (cpus : List CpuDescriptor)
    → test_cpu kind id cpus ≡ true
    → IsEnabledCpu kind id cpus
test_cpu-IsEnabledCpu kind id [] h = absurd (ground arith)
test_cpu-IsEnabledCpu kind id (cpu ∷ cpus) h = elim (Bool-cases (test_cpu kind id cpus)) [
  | inl e ↦ inr (test_cpu-IsEnabledCpu kind id cpus e)
  | inr e ↦ inl (ground (arith, h, e), ground (arith, h, e), kind_eq-≡ _ _ (ground (arith, h, e)))
]

IsEnabledCpu-test_cpu :
    (kind : CpuKind) (id : ℕ) (cpus : List CpuDescriptor)
    → IsEnabledCpu kind id cpus
    → test_cpu kind id cpus ≡ true
IsEnabledCpu-test_cpu kind id [] h = absurd h
IsEnabledCpu-test_cpu kind id (cpu ∷ cpus) (inl (same, on, is)) =
    ground (arith, same, on, kind_eq-true _ _ is)
IsEnabledCpu-test_cpu kind id (cpu ∷ cpus) (inr later) =
    ground (arith, IsEnabledCpu-test_cpu kind id cpus later)

any-HasEnabled :
    (s : TopologySnapshot) (kind : CpuKind) (ids : List ℕ)
    → any (is_enabled_kind s kind) ids ≡ true
    → HasEnabled s.cpus kind ids
any-HasEnabled s kind [] h = absurd (ground arith)
any-HasEnabled s kind (id ∷ ids) h = elim (Bool-cases (is_enabled_kind s kind id)) [
  | inl e ↦ inl (test_cpu-IsEnabledCpu kind id s.cpus e)
  | inr e ↦ inr (any-HasEnabled s kind ids (ground (arith, h, e)))
]

HasEnabled-any :
    (s : TopologySnapshot) (kind : CpuKind) (ids : List ℕ)
    → HasEnabled s.cpus kind ids
    → any (is_enabled_kind s kind) ids ≡ true
HasEnabled-any s kind [] h = absurd h
HasEnabled-any s kind (id ∷ ids) (inl now) =
    ground (arith, IsEnabledCpu-test_cpu kind id s.cpus now)
HasEnabled-any s kind (id ∷ ids) (inr later) = ground (arith, HasEnabled-any s kind ids later)

-- The test of the loop.
abbrev pub is_suited : TopologySnapshot → WorkloadClass → CpuKind → DomainDescriptor → Bool
is_suited s class kind d =
    (is_offload class || is_numa_kind d.kind) && domain_has_enabled_kind s d kind

place-numa :
    (class : WorkloadClass) (k : DomainKind)
    → (is_offload class || is_numa_kind k) ≡ true
    → (k ≡ numa) ⊎ (class ≡ offload_work)
unfolding is_numa_kind
place-numa offload_work k h = inr refl
place-numa class numa h = inl refl
place-numa compute machine h = absurd (ground (arith, h))
place-numa io machine h = absurd (ground (arith, h))
place-numa any_work machine h = absurd (ground (arith, h))

numa-place :
    (class : WorkloadClass) (k : DomainKind)
    → (k ≡ numa) ⊎ (class ≡ offload_work)
    → (is_offload class || is_numa_kind k) ≡ true
unfolding is_numa_kind
numa-place class k (inl e) = rw (e, is_numa_kind) (ground arith)
numa-place class k (inr e) = rw e refl

pub is_suited-IsSuited :
    (s : TopologySnapshot) (class : WorkloadClass) (kind : CpuKind) (d : DomainDescriptor)
    → is_suited s class kind d ≡ true
    → IsSuited s class kind d
unfolding domain_has_enabled_kind
is_suited-IsSuited s class kind d h = (
  place-numa class d.kind (ground (arith, h)),
  any-HasEnabled s kind d.members (ground (arith, h)),
)

IsSuited-is_suited :
    (s : TopologySnapshot) (class : WorkloadClass) (kind : CpuKind) (d : DomainDescriptor)
    → IsSuited s class kind d
    → is_suited s class kind d ≡ true
unfolding domain_has_enabled_kind
IsSuited-is_suited s class kind d (place, one) =
    ground (arith, numa-place class d.kind place, HasEnabled-any s kind d.members one)

pub not-IsSuited :
    (s : TopologySnapshot) (class : WorkloadClass) (kind : CpuKind) (d : DomainDescriptor)
    → is_suited s class kind d ≡ false
    → ¬ IsSuited s class kind d
not-IsSuited s class kind d h k = ground (arith, h, IsSuited-is_suited s class kind d k)
