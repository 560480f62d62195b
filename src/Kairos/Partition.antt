-- ===== src/Kairos/Partition.antt =====
-- src/kairos.rs, `TopologySnapshot::partition_work`. `MAXIMUM_DOMAINS` of the kairos crate is an
-- argument; none stands for a panic: a slice of the chunks past their end, or a subtraction below 0.
use slope.Base.{
  ℕ, zero, suc, ◌+◌, ◌-◌, ◌*◌, ◌/◌, ◌%◌, ltb, ◌==◌, Option, none, some, List, [], ◌∷◌,
  if◌then◌else◌,
}
use slope.Kairos.Topology.{DomainDescriptor, TopologySnapshot, is_numa_kind, enabled_member_count}

pub record WorkSlice : Type 0 where
  pub domain_id : ℕ
  pub start : ℕ
  pub end : ℕ

unfoldable pub len : WorkSlice → ℕ
len w = w.end - w.start

-- A NUMA domain with its number of enabled CPUs, which is not zero.
pub record Weighted : Type 0 where
  pub domain_id : ℕ
  pub weight : ℕ

unfoldable pub weigh : TopologySnapshot → List DomainDescriptor → List Weighted
unfolding is_numa_kind enabled_member_count
weigh s [] = []
weigh s (domain ∷ domains) =
    let rest = weigh s domains in
    let weight : ℕ = enabled_member_count s domain in
    if is_numa_kind domain.kind
    then (if weight == 0 then rest else record { domain_id = domain.id; weight = weight } ∷ rest)
    else rest

unfoldable pub total_weight : List Weighted → ℕ
total_weight [] = 0
total_weight (w ∷ ws) = w.weight + total_weight ws

-- The share of a domain, and the shares of all, before the remainder is handed round.
abbrev pub share : ℕ → ℕ → Weighted → ℕ
share total enabled_total w =
    total / enabled_total * w.weight + total % enabled_total * w.weight / enabled_total

unfoldable pub chunks : ℕ → ℕ → List Weighted → List ℕ
chunks total enabled_total [] = []
chunks total enabled_total (w ∷ ws) = share total enabled_total w ∷ chunks total enabled_total ws

unfoldable pub sum : List ℕ → ℕ
sum [] = 0
sum (chunk ∷ rest) = chunk + sum rest

-- One more for each of the first `left` chunks. What lies past the domains is never read.
unfoldable pub bump : ℕ → List ℕ → List ℕ
bump zero cs = cs
bump (suc left) [] = []
bump (suc left) (chunk ∷ cs) = (chunk + 1) ∷ bump left cs

-- The slices, each from where the one before ends.
unfoldable pub lay_out : ℕ → List Weighted → List ℕ → List WorkSlice
lay_out cursor [] cs = []
lay_out cursor (w ∷ ws) [] = []
lay_out cursor (w ∷ ws) (chunk ∷ cs) =
    record { domain_id = w.domain_id; start = cursor; end = cursor + chunk }
    ∷ lay_out (cursor + chunk) ws cs

unfoldable pub partition_weighted : ℕ → ℕ → List Weighted → Option (List WorkSlice)
unfolding total_weight chunks sum bump lay_out
partition_weighted maximum_domains total ws =
    let enabled_total : ℕ = total_weight ws in
    if enabled_total == 0
    then some (record { domain_id = 0; start = 0; end = total } ∷ [])
    else (let shares : List ℕ = chunks total enabled_total ws in
        let allocated : ℕ = sum shares in
        if ltb total allocated
        then none
        else (if ltb maximum_domains (total - allocated)
            then none
            else some (lay_out 0 ws (bump (total - allocated) shares))))

unfoldable pub partition_work : ℕ → ℕ → TopologySnapshot → Option (List WorkSlice)
unfolding weigh partition_weighted
partition_work maximum_domains total s =
    partition_weighted maximum_domains total (weigh s s.domains)
