-- ===== src/Kairos/Validated.antt =====
-- src/kairos.rs, `TopologySnapshot::from_raw`: what a topology that was accepted satisfies.
use slope.Base.{
  ℕ, ◌≤◌, ◌<◌, ◌≡◌, refl, sym, ap, subst, ◌∙◌, false, not, ◌||◌, ltb, ◌==◌, some, Option-cases, inl,
  inr, ok, bind_ok, guard_ok, ok-injective, List, [], ◌∷◌, ◌++◌, map, any, All, take, length,
  length-take, arith,
}
use slope.Kairos.Topology.{CpuDescriptor, DomainDescriptor, TopologySnapshot}
use slope.Kairos.Decoded.{
  Distinct, IsCpu, IsParent, IsCpuOf, IsDomainOf, Pairwise, Distinct-snoc, is_cpu-IsCpu,
  is_domain-IsDomain, cpu_of-Pairwise, domain_of-IsDomainOf,
}
use slope.Kairos.Reply.{
  invalid_topology, RawCpu, RawDomain, RawTopologyReply, Limits, cpu_of, domain_of, is_cpu,
  is_domain, read_cpus, contains, repeats, refuses, miscounted, read_domains, is_orphan,
  snapshot_of,
}

append_assoc :
    {A : Type 0} (xs : List A) (y : A) (ys : List A) → (xs ++ (y ∷ [])) ++ ys ≡ xs ++ (y ∷ ys)
append_assoc [] y ys = refl
append_assoc {A} (x ∷ xs) y ys = ap (λ (l : List A). x ∷ l) (append_assoc xs y ys)

append-nil : {A : Type 0} (xs : List A) → xs ++ [] ≡ xs
append-nil [] = refl
append-nil {A} (x ∷ xs) = ap (λ (l : List A). x ∷ l) (append-nil xs)

repeats-Distinct :
    (before ids : List ℕ) → repeats before ids ≡ false → Distinct before → Distinct (before ++ ids)
unfolding repeats
repeats-Distinct before [] h d = subst Distinct (sym (append-nil before)) d
repeats-Distinct before (id ∷ ids) h d = subst Distinct (append_assoc before id ids) (
    repeats-Distinct (before ++ (id ∷ [])) ids (ground (arith, h))
      (Distinct-snoc id before (ground (arith, h)) d))

abbrev pub cpu_ids : List CpuDescriptor → List ℕ
cpu_ids cpus = map (λ (c : CpuDescriptor). c.logical_id) cpus

abbrev pub domain_ids : List DomainDescriptor → List ℕ
domain_ids domains = map (λ (d : DomainDescriptor). d.id) domains

is_cpu-contains : (id : ℕ) (cpus : List CpuDescriptor) → is_cpu id cpus ≡ contains id (cpu_ids cpus)
is_cpu-contains id [] = refl
is_cpu-contains id (c ∷ cpus) = ap (λ b. (c.logical_id == id) || b) (is_cpu-contains id cpus)

is_domain-contains :
    (id : ℕ) (domains : List DomainDescriptor)
    → is_domain id domains ≡ contains id (domain_ids domains)
is_domain-contains id [] = refl
is_domain-contains id (d ∷ domains) = ap (λ b. (d.id == id) || b) (is_domain-contains id domains)

cpu_ids-snoc :
    (cpus : List CpuDescriptor) (raw : RawCpu)
    → cpu_ids (cpus ++ (cpu_of raw ∷ [])) ≡ cpu_ids cpus ++ (raw.logical_id ∷ [])
unfolding cpu_of
cpu_ids-snoc [] raw = refl
cpu_ids-snoc (c ∷ cpus) raw = ap (λ (l : List ℕ). c.logical_id ∷ l) (cpu_ids-snoc cpus raw)

domain_ids-snoc :
    (domains : List DomainDescriptor) (raw : RawDomain)
    → domain_ids (domains ++ (domain_of raw ∷ [])) ≡ domain_ids domains ++ (raw.id ∷ [])
unfolding domain_of
domain_ids-snoc [] raw = refl
domain_ids-snoc (d ∷ domains) raw = ap (λ (l : List ℕ). d.id ∷ l) (domain_ids-snoc domains raw)

read_cpus-Distinct :
    (before : List CpuDescriptor) (raws : List RawCpu) (cpus : List CpuDescriptor)
    → read_cpus before raws ≡ ok cpus
    → Distinct (cpu_ids before)
    → (cpus ≡ before ++ map cpu_of raws) × Distinct (cpu_ids cpus)
unfolding read_cpus
read_cpus-Distinct before [] cpus h d =
    let e : before ≡ cpus = ok-injective h in
    (sym e ∙ sym (append-nil before), subst (λ l. Distinct (cpu_ids l)) e d)
read_cpus-Distinct before (raw ∷ raws) cpus h d =
    let (fresh, g) = guard_ok _ _ _ cpus h in
    let new_id = sym (is_cpu-contains raw.logical_id before) ∙ fresh in
    let d' =
      subst Distinct (sym (cpu_ids-snoc before raw))
        (Distinct-snoc raw.logical_id (cpu_ids before) new_id d) in
    let (same, rest) = read_cpus-Distinct (before ++ (cpu_of raw ∷ [])) raws cpus g d' in
    (same ∙ append_assoc before (cpu_of raw) (map cpu_of raws), rest)

parent_known :
    (domains : List DomainDescriptor) (d : DomainDescriptor)
    → is_orphan domains d ≡ false
    → IsParent domains d.parent
parent_known domains d h = elim (Option-cases d.parent) [
  | inl e ↦ subst (IsParent domains) (sym e) tt
  | inr (parent, e) ↦
      subst (IsParent domains) (sym e)
        (is_domain-IsDomain parent domains (ground (arith, orphan_at parent e)))
]
  where
    orphan_at : (parent : ℕ) → d.parent ≡ some parent → not (is_domain parent domains) ≡ false
    orphan_at parent e = ground (arith, h, e)

parents_known :
    (domains ds : List DomainDescriptor)
    → any (is_orphan domains) ds ≡ false
    → All (λ d. IsParent domains d.parent) ds
parents_known domains [] h = tt
parents_known domains (d ∷ ds) h =
    (parent_known domains d (ground (arith, h)), parents_known domains ds (ground (arith, h)))

-- A domain whose members are distinct and known.
pub record IsPeopled (limits : Limits) (cpus : List CpuDescriptor) (d : DomainDescriptor)
    : Type 0 where
  pub few : length d.members ≤ limits.maximum_cpus_per_domain
  pub distinct : Distinct d.members
  pub known : All (λ id. IsCpu id cpus) d.members

All-snoc :
    {A : Type 0} (P : A → Type 0) (xs : List A) (x : A) → All P xs → P x → All P (xs ++ (x ∷ []))
All-snoc P [] x h k = (k, tt)
All-snoc P (y ∷ xs) x (a, h) k = (a, All-snoc P xs x h k)

known-All :
    (cpus : List CpuDescriptor) (ids : List ℕ)
    → any (λ id. not (is_cpu id cpus)) ids ≡ false
    → All (λ id. IsCpu id cpus) ids
known-All cpus [] h = tt
known-All cpus (id ∷ ids) h =
    (is_cpu-IsCpu id cpus (ground (arith, h)), known-All cpus ids (ground (arith, h)))

accepted-IsPeopled :
    (limits : Limits) (cpus : List CpuDescriptor) (before : List DomainDescriptor) (raw : RawDomain)
    → refuses limits cpus before raw ≡ false
    → IsPeopled limits cpus (domain_of raw)
unfolding domain_of
accepted-IsPeopled limits cpus before raw h =
    let members : List ℕ = take raw.member_count raw.members in
    record {
      few = ground (arith, length-take raw.member_count raw.members, h);
      distinct = repeats-Distinct [] members (ground (arith, h)) tt;
      known = known-All cpus members (ground (arith, h));
    }

read_domains-IsPeopled :
    (limits : Limits) (cpus : List CpuDescriptor) (before : List DomainDescriptor)
    (raws : List RawDomain) (domains : List DomainDescriptor)
    → read_domains limits cpus before raws ≡ ok domains
    → Distinct (domain_ids before)
    → All (IsPeopled limits cpus) before
    → (domains ≡ before ++ map domain_of raws)
      × Distinct (domain_ids domains)
      × All (IsPeopled limits cpus) domains
      × Pairwise IsDomainOf raws (map domain_of raws)
unfolding read_domains
read_domains-IsPeopled limits cpus before [] domains h d p =
    let e : before ≡ domains = ok-injective h in
    (
      sym e ∙ sym (append-nil before),
      subst (λ l. Distinct (domain_ids l)) e d,
      subst (All (IsPeopled limits cpus)) e p,
      tt,
    )
read_domains-IsPeopled limits cpus before (raw ∷ raws) domains h d p =
    let (accepted, g) = guard_ok _ _ _ domains h in
    let of_kind : ltb 1 raw.kind ≡ false = ground (arith, accepted) in
    let new_id : contains raw.id (domain_ids before) ≡ false =
      ground (arith, is_domain-contains raw.id before, accepted) in
    let d' =
      subst Distinct (sym (domain_ids-snoc before raw))
        (Distinct-snoc raw.id (domain_ids before) new_id d) in
    let p' =
      All-snoc (IsPeopled limits cpus) before (domain_of raw) p
        (accepted-IsPeopled limits cpus before raw accepted) in
    let (same, ids, peopled, said) =
      read_domains-IsPeopled limits cpus (before ++ (domain_of raw ∷ [])) raws domains g d' p' in
    (
      same ∙ append_assoc before (domain_of raw) (map domain_of raws),
      ids,
      peopled,
      (domain_of-IsDomainOf raw of_kind, said),
    )

-- A topology that says what the reply says, and is closed: its references lead to its own entries.
pub record IsTopology (limits : Limits) (reply : RawTopologyReply) (s : TopologySnapshot)
    : Type 0 where
  pub cpus : Pairwise IsCpuOf (take reply.cpu_count reply.cpus) s.cpus
  pub domains : Pairwise IsDomainOf (take reply.domain_count reply.domains) s.domains
  pub traits : s.trait_flags ≡ reply.trait_flags
  pub sizes :
      (0 < reply.cpu_count)
      × (reply.cpu_count ≤ limits.maximum_cpus)
      × (0 < reply.domain_count)
      × (reply.domain_count ≤ limits.maximum_domains)
  pub ids : Distinct (cpu_ids s.cpus) × Distinct (domain_ids s.domains)
  pub peopled : All (IsPeopled limits s.cpus) s.domains
  pub parents : All (λ d. IsParent s.domains d.parent) s.domains

-- A topology that from_raw accepts holds the first CPUs and domains of the reply, as many as its
-- counts say, each with what its words say, and its trait flags; there is at least one CPU and
-- one domain and no more than the limits; no CPU number and no domain number stands twice; each
-- domain has at most as many members as the limit, all different and each the number of a CPU of
-- the topology; and each parent is the number of a domain of the topology.
pub snapshot_of-IsTopology :
    (limits : Limits) (reply : RawTopologyReply) (s : TopologySnapshot)
    → snapshot_of limits reply ≡ ok s
    → IsTopology limits reply s
unfolding snapshot_of
snapshot_of-IsTopology limits reply s h =
    let (counts, g) = guard_ok (miscounted limits reply) invalid_topology _ s h in
    let (cpus, e, k) = bind_ok (read_cpus [] (take reply.cpu_count reply.cpus)) _ s g in
    let (domains, f, l) =
      bind_ok (read_domains limits cpus [] (take reply.domain_count reply.domains)) _ s k in
    let (parents, m) = guard_ok _ _ _ s l in
    let (cpus_are, cpu_ids_are) =
      read_cpus-Distinct [] (take reply.cpu_count reply.cpus) cpus e tt in
    let (domains_are, domain_ids_are, peopled, said) =
      read_domains-IsPeopled limits cpus [] (take reply.domain_count reply.domains) domains f tt
        tt in
    subst (IsTopology limits reply) (ok-injective m) (record {
      cpus =
          subst (Pairwise IsCpuOf (take reply.cpu_count reply.cpus)) (sym cpus_are)
            (cpu_of-Pairwise (take reply.cpu_count reply.cpus));
      domains =
          subst (Pairwise IsDomainOf (take reply.domain_count reply.domains)) (sym domains_are)
            said;
      traits = refl;
      sizes = (
        ground (arith, counts),
        ground (arith, counts),
        ground (arith, counts),
        ground (arith, counts),
      );
      ids = (cpu_ids_are, domain_ids_are);
      peopled = peopled;
      parents = parents_known domains domains parents;
    })
