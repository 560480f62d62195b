-- ===== src/Kairos/Iterate.antt =====
-- src/kairos.rs: the iterators over the CPUs of a NUMA domain and over the domains.
use slope.Base.{
  ℕ, zero, suc, ◌+◌, ◌<◌, ◌≡◌, refl, ap, ◌∙◌, Bool, true, false, ◌&&◌, ◌==◌, Bool-cases, inl, inr,
  Option, none, some, List, [], ◌∷◌, drop, length, get_elem?, if◌then◌else◌, arith,
}
use slope.Kairos.Topology.{CpuDescriptor, DomainDescriptor, TopologySnapshot}

pub record NucleusCpuIter : Type 0 where
  pub snapshot : TopologySnapshot
  pub domain_id : ℕ
  pub index : ℕ

unfoldable pub numa_local_cpus : ℕ → TopologySnapshot → NucleusCpuIter
numa_local_cpus domain_id s = record { snapshot = s; domain_id = domain_id; index = 0 }

abbrev pub is_local : ℕ → CpuDescriptor → Bool
is_local domain_id cpu = cpu.enabled && (cpu.numa_domain == domain_id)

-- The loop from an index on, over the CPUs that stand there.
unfoldable pub seek_local : ℕ → ℕ → List CpuDescriptor → Option CpuDescriptor × ℕ
seek_local domain_id index [] = (none, index)
seek_local domain_id index (cpu ∷ cpus) =
    let rest = seek_local domain_id (suc index) cpus in
    if is_local domain_id cpu then (some cpu, suc index) else rest

unfoldable pub next : NucleusCpuIter → Option CpuDescriptor × NucleusCpuIter
unfolding seek_local
next it =
    let (found, index) = seek_local it.domain_id it.index (drop it.index it.snapshot.cpus) in
    (found, record it { index = index })

pub record DomainIterator : Type 0 where
  pub snapshot : TopologySnapshot
  pub index : ℕ

unfoldable pub domain_iter : TopologySnapshot → DomainIterator
domain_iter s = record { snapshot = s; index = 0 }

unfoldable pub next_domain : DomainIterator → Option DomainDescriptor × DomainIterator
next_domain it = elim (get_elem? it.snapshot.domains it.index) [
  | none ↦ (none, it)
  | some domain ↦ (some domain, record it { index = it.index + 1 })
]

abbrev pub met : Option CpuDescriptor → Option (List CpuDescriptor) → Option (List CpuDescriptor)
met none rest = some []
met (some cpu) none = none
met (some cpu) (some cpus) = some (cpu ∷ cpus)

-- A `for` loop over the CPUs, with a bound on its rounds; none when it does not end within it.
unfoldable pub collect : ℕ → NucleusCpuIter → Option (List CpuDescriptor)
collect zero it = none
collect (suc rounds) it = met (next it).0 (collect rounds (next it).1)

-- The enabled CPUs of a domain.
abbrev pub local_cpus : ℕ → List CpuDescriptor → List CpuDescriptor
local_cpus domain_id [] = []
local_cpus domain_id (cpu ∷ cpus) =
    if is_local domain_id cpu then cpu ∷ local_cpus domain_id cpus else local_cpus domain_id cpus

list_tail :
    (c cpu : CpuDescriptor) (cpus rest : List CpuDescriptor)
    → ◌≡◌ {A = List CpuDescriptor} (c ∷ cpus) (cpu ∷ rest)
    → cpus ≡ rest
list_tail c cpu cpus rest h = ap (λ l. drop 1 l) h

drop-suc :
    (cpus : List CpuDescriptor) (i : ℕ) (cpu : CpuDescriptor) (rest : List CpuDescriptor)
    → drop i cpus ≡ cpu ∷ rest
    → drop (suc i) cpus ≡ rest
drop-suc [] zero cpu rest h = absurd (cc)
drop-suc [] (suc i) cpu rest h = absurd (cc)
drop-suc (c ∷ cpus) zero cpu rest h = list_tail c cpu cpus rest h
drop-suc (c ∷ cpus) (suc i) cpu rest h = drop-suc cpus i cpu rest h

module _ (s : TopologySnapshot) (domain_id : ℕ) where
  abbrev at : ℕ → NucleusCpuIter
  at index = record { snapshot = s; domain_id = domain_id; index = index }

  next_take :
      (cpu : CpuDescriptor) (cpus : List CpuDescriptor) (index : ℕ)
      → drop index s.cpus ≡ cpu ∷ cpus
      → is_local domain_id cpu ≡ true
      → next (at index) ≡ (some cpu, at (suc index))
  unfolding next seek_local
  next_take cpu cpus index h e = rw (h, e) refl

  next_skip :
      (cpu : CpuDescriptor) (cpus : List CpuDescriptor) (index : ℕ)
      → drop index s.cpus ≡ cpu ∷ cpus
      → is_local domain_id cpu ≡ false
      → next (at index) ≡ next (at (suc index))
  unfolding next seek_local
  next_skip cpu cpus index h e = rw (h, drop-suc s.cpus index cpu cpus h, e) refl

  collect-next :
      (rounds : ℕ) (a b : NucleusCpuIter)
      → next a ≡ next b
      → collect (suc rounds) a ≡ collect (suc rounds) b
  unfolding collect
  collect-next rounds a b h = ap (λ x. met x.0 (collect rounds x.1)) h

  collect_end :
      (rounds index : ℕ) → drop index s.cpus ≡ [] → collect (suc rounds) (at index) ≡ some []
  unfolding collect next seek_local
  collect_end rounds index h = rw h refl

  collect_more :
      (rounds : ℕ) (cpu : CpuDescriptor) (cpus : List CpuDescriptor) (index : ℕ)
      → next (at index) ≡ (some cpu, at (suc index))
      → collect rounds (at (suc index)) ≡ some cpus
      → collect (suc rounds) (at index) ≡ some (cpu ∷ cpus)
  unfolding collect
  collect_more rounds cpu cpus index h k =
      ap (λ x. met x.0 (collect rounds x.1)) h ∙ ap (met (some cpu)) k

  collect-local_cpus :
      (cpus : List CpuDescriptor) (index rounds : ℕ)
      → drop index s.cpus ≡ cpus
      → length cpus < rounds
      → collect rounds (at index) ≡ some (local_cpus domain_id cpus)
  collect-local_cpus cpus index zero h k = absurd (omega arith)
  collect-local_cpus [] index (suc rounds) h k = collect_end rounds index h
  collect-local_cpus (cpu ∷ cpus) index (suc rounds) h k =
      elim (Bool-cases (is_local domain_id cpu)) [
        | inl e ↦ rw e (
            collect_more rounds cpu (local_cpus domain_id cpus) index (next_take cpu cpus index h e)
              (collect-local_cpus cpus (suc index) rounds (drop-suc s.cpus index cpu cpus h)
                (omega arith)))
        | inr e ↦ rw e (
            collect-next rounds (at index) (at (suc index)) (next_skip cpu cpus index h e)
            ∙ collect-local_cpus cpus (suc index) (suc rounds) (drop-suc s.cpus index cpu cpus h)
                (omega arith))
      ]

-- A loop over numa_local_cpus ends, after at most one round more than there are CPUs, and meets
-- exactly the enabled CPUs of that NUMA domain, each once and in their order.
pub collect-numa_local_cpus :
    (s : TopologySnapshot) (domain_id : ℕ)
    → collect (suc (length s.cpus)) (numa_local_cpus domain_id s)
      ≡ some (local_cpus domain_id s.cpus)
unfolding numa_local_cpus
collect-numa_local_cpus s domain_id =
    collect-local_cpus s domain_id s.cpus 0 (suc (length s.cpus)) refl (omega arith)
