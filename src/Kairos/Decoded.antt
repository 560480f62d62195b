-- ===== src/Kairos/Decoded.antt =====
-- src/kairos.rs: what the entries of a topology are, said of the kernel's words alone.
use slope.Base.{
  ℕ, ◌≡◌, ◌≢◌, refl, sym, subst, ◌⊎◌, inl, inr, Bool, true, false, Bool-cases, ◌==◌, ◌!=◌, Option,
  none, some, List, [], ◌∷◌, ◌++◌, map, take, arith, ltb, ◌<◌,
}
use slope.Kairos.Topology.{
  CpuKind, symmetric, performance, efficiency, offload, unknown, CpuDescriptor, DomainKind, machine,
  numa, DomainDescriptor, from_raw,
}
use slope.Kairos.Reply.{RawCpu, RawDomain, cpu_of, domain_of, is_cpu, is_domain, contains}

-- The number is not one of those.
abbrev pub Absent : ℕ → List ℕ → Type 0
Absent id [] = Unit {0}
Absent id (other ∷ ids) = (other ≢ id) × Absent id ids

-- No number stands twice.
abbrev pub Distinct : List ℕ → Type 0
Distinct [] = Unit {0}
Distinct (id ∷ ids) = Absent id ids × Distinct ids

-- One of the CPUs, or of the domains, has the number.
abbrev pub IsCpu : ℕ → List CpuDescriptor → Type 0
IsCpu id [] = ⊥
IsCpu id (cpu ∷ cpus) = (cpu.logical_id ≡ id) ⊎ IsCpu id cpus

abbrev pub IsDomain : ℕ → List DomainDescriptor → Type 0
IsDomain id [] = ⊥
IsDomain id (domain ∷ domains) = (domain.id ≡ id) ⊎ IsDomain id domains

-- A parent, if there is one, is the number of a domain.
abbrev pub IsParent : List DomainDescriptor → Option ℕ → Type 0
IsParent domains none = Unit {0}
IsParent domains (some parent) = IsDomain parent domains

-- The words for the kinds of a CPU and of a domain.
abbrev pub IsKind : ℕ → CpuKind → Type 0
IsKind word symmetric = word ≡ 0
IsKind word performance = word ≡ 1
IsKind word efficiency = word ≡ 2
IsKind word offload = word ≡ 3
IsKind word unknown = 3 < word

abbrev pub IsDomainKind : ℕ → DomainKind → Type 0
IsDomainKind word machine = word ≡ 0
IsDomainKind word numa = word ≡ 1

-- A word for a truth value.
abbrev pub IsFlag : ℕ → Bool → Type 0
IsFlag word true = word ≢ 0
IsFlag word false = word ≡ 0

abbrev pub IsParentOf : RawDomain → Option ℕ → Type 0
IsParentOf raw none = raw.parent_valid ≡ 0
IsParentOf raw (some parent) = (raw.parent_valid ≢ 0) × (parent ≡ raw.parent_id)

-- An entry that says what its words say.
pub record IsCpuOf (raw : RawCpu) (c : CpuDescriptor) : Type 0 where
  pub logical_id : c.logical_id ≡ raw.logical_id
  pub hardware_id : c.hardware_id ≡ raw.hardware_id
  pub package_id : c.package_id ≡ raw.package_id
  pub core : c.core ≡ raw.core
  pub thread : c.thread ≡ raw.thread
  pub numa_domain : c.numa_domain ≡ raw.numa_domain
  pub kind : IsKind raw.kind c.kind
  pub enabled : IsFlag raw.enabled c.enabled

pub record IsDomainOf (raw : RawDomain) (d : DomainDescriptor) : Type 0 where
  pub id : d.id ≡ raw.id
  pub kind : IsDomainKind raw.kind d.kind
  pub parent : IsParentOf raw d.parent
  pub members : d.members ≡ take raw.member_count raw.members

-- Two lists of the same length whose entries belong together.
abbrev pub Pairwise : {A B : Type 0} → (A → B → Type 0) → List A → List B → Type 0
Pairwise R [] [] = Unit {0}
Pairwise R [] (y ∷ ys) = ⊥
Pairwise R (x ∷ xs) [] = ⊥
Pairwise R (x ∷ xs) (y ∷ ys) = R x y × Pairwise R xs ys

contains-Absent : (id : ℕ) (ids : List ℕ) → contains id ids ≡ false → Absent id ids
contains-Absent id [] h = tt
contains-Absent id (other ∷ ids) h =
    ((λ e. ground (arith, h, e)), contains-Absent id ids (ground (arith, h)))

pub Absent-snoc : (y x : ℕ) (xs : List ℕ) → Absent y xs → x ≢ y → Absent y (xs ++ (x ∷ []))
Absent-snoc y x [] h k = (k, tt)
Absent-snoc y x (z ∷ xs) (a, h) k = (a, Absent-snoc y x xs h k)

pub Distinct-snoc :
    (x : ℕ) (xs : List ℕ) → contains x xs ≡ false → Distinct xs → Distinct (xs ++ (x ∷ []))
Distinct-snoc x [] h d = (tt, tt)
Distinct-snoc x (y ∷ xs) h (a, d) =
    (Absent-snoc y x xs a (λ e. ground (arith, h, sym e)), Distinct-snoc x xs (ground (arith, h)) d)

pub is_cpu-IsCpu : (id : ℕ) (cpus : List CpuDescriptor) → is_cpu id cpus ≡ true → IsCpu id cpus
is_cpu-IsCpu id [] h = absurd (ground arith)
is_cpu-IsCpu id (cpu ∷ cpus) h = elim (Bool-cases (cpu.logical_id == id)) [
  | inl e ↦ inl (ground arith)
  | inr e ↦ inr (is_cpu-IsCpu id cpus (ground (arith, h, e)))
]

pub is_domain-IsDomain :
    (id : ℕ) (domains : List DomainDescriptor) → is_domain id domains ≡ true → IsDomain id domains
is_domain-IsDomain id [] h = absurd (ground arith)
is_domain-IsDomain id (domain ∷ domains) h = elim (Bool-cases (domain.id == id)) [
  | inl e ↦ inl (ground arith)
  | inr e ↦ inr (is_domain-IsDomain id domains (ground (arith, h, e)))
]

from_raw-IsKind : (word : ℕ) → IsKind word (from_raw word)
unfolding from_raw
from_raw-IsKind word = elim (Bool-cases (word == 0)) [
  | inl a ↦ rw (a, from_raw) (ground arith)
  | inr a ↦ elim (Bool-cases (word == 1)) [
    | inl b ↦ rw (a, b, from_raw) (ground arith)
    | inr b ↦ elim (Bool-cases (word == 2)) [
      | inl c ↦ rw (a, b, c, from_raw) (ground arith)
      | inr c ↦ elim (Bool-cases (word == 3)) [
        | inl d ↦ rw (a, b, c, d, from_raw) (ground arith)
        | inr d ↦ rw (a, b, c, d, from_raw) (ground arith)
      ]
    ]
  ]
]

word-IsFlag : (word : ℕ) → IsFlag word (word != 0)
word-IsFlag word = elim (Bool-cases (word != 0)) [
  | inl e ↦ subst (IsFlag word) (sym e) (λ h. ground arith)
  | inr e ↦ subst (IsFlag word) (sym e) (ground arith)
]

cpu_of-IsCpuOf : (raw : RawCpu) → IsCpuOf raw (cpu_of raw)
unfolding cpu_of
cpu_of-IsCpuOf raw = record {
  logical_id = refl;
  hardware_id = refl;
  package_id = refl;
  core = refl;
  thread = refl;
  numa_domain = refl;
  kind = from_raw-IsKind raw.kind;
  enabled = word-IsFlag raw.enabled;
}

pub domain_of-IsDomainOf :
    (raw : RawDomain) → ltb 1 raw.kind ≡ false → IsDomainOf raw (domain_of raw)
unfolding domain_of
domain_of-IsDomainOf raw h = record {
  id = refl;
  kind = elim (Bool-cases (raw.kind == 1)) [
    | inl e ↦ rw e (ground arith)
    | inr e ↦ rw e (ground arith)
  ];
  parent = elim (Bool-cases (raw.parent_valid != 0)) [
    | inl e ↦ rw e ((λ k. ground arith), refl)
    | inr e ↦ rw e (ground arith)
  ];
  members = refl;
}

pub cpu_of-Pairwise : (raws : List RawCpu) → Pairwise IsCpuOf raws (map cpu_of raws)
cpu_of-Pairwise [] = tt
cpu_of-Pairwise (raw ∷ raws) = (cpu_of-IsCpuOf raw, cpu_of-Pairwise raws)
