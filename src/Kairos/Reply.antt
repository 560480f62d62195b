-- ===== src/Kairos/Reply.antt =====
-- src/kairos.rs, `TopologySnapshot::query` and `from_raw`: the kernel's reply and its validation. The
-- records are those of the kairos crate, with the fields that the code reads; the sizes of its arrays
-- are arguments. A count fits `usize`, so that its conversion does not fail.
use slope.Base.{
  ℕ, Bool, true, false, not, ◌||◌, ltb, ◌==◌, ◌!=◌, none, some, Result, ok, err, ◌>>=◌, List, [],
  ◌∷◌, ◌++◌, any, take, if◌then◌else◌,
}
use slope.Kairos.Topology.{
  CpuDescriptor, DomainDescriptor, machine, numa, TopologySnapshot, from_raw,
}

pub data KairosError : Type 0 where
  syscall_failed : ℕ → KairosError
  not_ready busy invalid_topology : KairosError

pub record RawCpu : Type 0 where
  pub logical_id : ℕ
  pub hardware_id : ℕ
  pub package_id : ℕ
  pub core : ℕ
  pub thread : ℕ
  pub numa_domain : ℕ
  pub kind : ℕ
  pub enabled : ℕ

pub record RawDomain : Type 0 where
  pub id : ℕ
  pub kind : ℕ
  pub parent_valid : ℕ
  pub parent_id : ℕ
  pub member_count : ℕ
  pub members : List ℕ

pub record RawTopologyReply : Type 0 where
  pub cpu_count : ℕ
  pub domain_count : ℕ
  pub trait_flags : ℕ
  pub cpus : List RawCpu
  pub domains : List RawDomain

-- The arrays' sizes.
pub record Limits : Type 0 where
  pub maximum_cpus : ℕ
  pub maximum_domains : ℕ
  pub maximum_cpus_per_domain : ℕ

unfoldable pub cpu_of : RawCpu → CpuDescriptor
unfolding from_raw
cpu_of raw = record {
  logical_id = raw.logical_id;
  hardware_id = raw.hardware_id;
  package_id = raw.package_id;
  core = raw.core;
  thread = raw.thread;
  numa_domain = raw.numa_domain;
  kind = from_raw raw.kind;
  enabled = raw.enabled != 0;
}

abbrev pub is_cpu : ℕ → List CpuDescriptor → Bool
is_cpu id cpus = any (λ cpu. cpu.logical_id == id) cpus

abbrev pub is_domain : ℕ → List DomainDescriptor → Bool
is_domain id domains = any (λ domain. domain.id == id) domains

-- The loop over the CPUs, after those in `before`.
unfoldable pub read_cpus :
    List CpuDescriptor → List RawCpu → Result KairosError (List CpuDescriptor)
unfolding cpu_of
read_cpus before [] = ok before
read_cpus before (raw ∷ raws) =
    let rest = read_cpus (before ++ (cpu_of raw ∷ [])) raws in
    if is_cpu raw.logical_id before then err invalid_topology else rest

-- `contains`, and a member that stands before itself.
abbrev pub contains : ℕ → List ℕ → Bool
contains id ids = any (λ other. other == id) ids

unfoldable pub repeats : List ℕ → List ℕ → Bool
repeats before [] = false
repeats before (id ∷ ids) =
    let rest = repeats (before ++ (id ∷ [])) ids in contains id before || rest

unfoldable pub domain_of : RawDomain → DomainDescriptor
domain_of raw = record {
  id = raw.id;
  kind = if raw.kind == 1 then numa else machine;
  parent = if raw.parent_valid != 0 then some raw.parent_id else none;
  members = take raw.member_count raw.members;
}

abbrev pub refuses : Limits → List CpuDescriptor → List DomainDescriptor → RawDomain → Bool
refuses limits cpus before raw =
    let members : List ℕ = take raw.member_count raw.members in
    ltb limits.maximum_cpus_per_domain raw.member_count
    || ltb 1 raw.kind
    || is_domain raw.id before
    || repeats [] members
    || any (λ id. not (is_cpu id cpus)) members

-- The loop over the domains.
unfoldable pub read_domains :
    Limits
    → List CpuDescriptor
    → List DomainDescriptor
    → List RawDomain
    → Result KairosError (List DomainDescriptor)
unfolding repeats domain_of
read_domains limits cpus before [] = ok before
read_domains limits cpus before (raw ∷ raws) =
    let rest = read_domains limits cpus (before ++ (domain_of raw ∷ [])) raws in
    if refuses limits cpus before raw then err invalid_topology else rest

abbrev pub is_orphan : List DomainDescriptor → DomainDescriptor → Bool
is_orphan domains domain = elim domain.parent [
  | none ↦ false
  | some parent ↦ not (is_domain parent domains)
]

abbrev pub miscounted : Limits → RawTopologyReply → Bool
miscounted limits reply =
    (reply.cpu_count == 0)
    || (reply.domain_count == 0)
    || ltb limits.maximum_cpus reply.cpu_count
    || ltb limits.maximum_domains reply.domain_count

unfoldable pub snapshot_of : Limits → RawTopologyReply → Result KairosError TopologySnapshot
unfolding read_cpus read_domains
snapshot_of limits reply =
    if miscounted limits reply
    then err invalid_topology
    else (read_cpus [] (take reply.cpu_count reply.cpus) >>= λ cpus.
        read_domains limits cpus [] (take reply.domain_count reply.domains) >>= λ domains.
        if any (is_orphan domains) domains
        then err invalid_topology
        else ok (record { cpus = cpus; domains = domains; trait_flags = reply.trait_flags }))

-- `query`, on the flag of the process-wide slot: the guard gives it back on every path.
unfoldable pub query :
    Limits → Result ℕ RawTopologyReply → Bool → Result KairosError TopologySnapshot × Bool
unfolding snapshot_of
query limits answer true = (err busy, true)
query limits (err e) false = (err (syscall_failed e), false)
query limits (ok reply) false = (snapshot_of limits reply, false)
