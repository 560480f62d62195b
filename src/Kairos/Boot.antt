-- ===== src/Kairos/Boot.antt =====
-- Runs of the kernel's side of src/kairos.rs: a reply, and a negotiation.
use slope.Base.{
  ◌≡◌, refl, true, false, none, some, Result, ok, err, ok-injective, subst, [], ◌∷◌, replicate,
}
use slope.Kairos.Topology.{TopologySnapshot, machine, numa, performance}
use slope.Kairos.Reply.{
  RawCpu, RawDomain, RawTopologyReply, Limits, KairosError, busy, invalid_topology, snapshot_of,
  query,
}
use slope.Kairos.Validated.{IsTopology, snapshot_of-IsTopology}
use slope.Kairos.Negotiation.{
  Word, no_bits, either, AbiConstants, AbiRequest, request_of, AbiReply, Kernel, native, KairosInit,
  run_with, negotiate, check_reply, require, want,
}
use slope.Kairos.Granted.{Within, IsNegotiator, IsReply, run_with-IsGranted}

abbrev limits : Limits
limits = record { maximum_cpus = 64; maximum_domains = 32; maximum_cpus_per_domain = 64 }

abbrev raw_cpu : RawCpu
raw_cpu = record {
  logical_id = 3;
  hardware_id = 7;
  package_id = 0;
  core = 0;
  thread = 0;
  numa_domain = 1;
  kind = 1;
  enabled = 1;
}

abbrev raw_domain : RawDomain
raw_domain = record {
  id = 1;
  kind = 1;
  parent_valid = 1;
  parent_id = 9;
  member_count = 1;
  members = 3 ∷ 0 ∷ [];
}

abbrev raw_root : RawDomain
raw_root = record {
  id = 9;
  kind = 0;
  parent_valid = 0;
  parent_id = 0;
  member_count = 1;
  members = 3 ∷ 0 ∷ [];
}

-- A domain whose parent is not among the domains.
abbrev dangling : RawDomain
dangling = record raw_domain { parent_id = 8 }

abbrev reply : RawTopologyReply
reply = record {
  cpu_count = 1;
  domain_count = 2;
  trait_flags = 2;
  cpus = raw_cpu ∷ raw_cpu ∷ [];
  domains = raw_domain ∷ raw_root ∷ raw_domain ∷ [];
}

abbrev small_machine : TopologySnapshot
small_machine = record {
  cpus =
      record {
        logical_id = 3;
        hardware_id = 7;
        package_id = 0;
        core = 0;
        thread = 0;
        numa_domain = 1;
        kind = performance;
        enabled = true;
      }
      ∷ [];
  domains =
      record { id = 1; kind = numa; parent = some 9; members = 3 ∷ [] }
      ∷ record { id = 9; kind = machine; parent = none; members = 3 ∷ [] }
      ∷ [];
  trait_flags = 2;
}

accepted : snapshot_of limits reply ≡ ok small_machine
unfolding snapshot_of
accepted = refl

refused :
    snapshot_of limits (record reply { domains = dangling ∷ raw_root ∷ [] }) ≡ err invalid_topology
unfolding snapshot_of
refused = refl

-- A query while another holds the slot.
held : query limits (ok reply) true ≡ (err busy, true)
unfolding query
held = refl

snapshot_of-IsTopology_example : IsTopology limits reply small_machine
snapshot_of-IsTopology_example = snapshot_of-IsTopology limits reply small_machine accepted

-- The features one and two.
abbrev first_bit : Word
first_bit = true ∷ replicate 63 false

abbrev second_bit : Word
second_bit = false ∷ true ∷ replicate 62 false

abbrev fixed_reply : AbiReply
fixed_reply = record {
  status = 0;
  features_lo_granted = either first_bit second_bit;
  features_hi_granted = no_bits;
  features_lo_unavailable = no_bits;
  features_hi_unavailable = no_bits;
}

abbrev constants : AbiConstants
constants = record { abi_magic = 0x41; abi_version = 1; request_size = 64; is_little_endian = true }

abbrev kernel : Kernel
kernel n = ok fixed_reply

kernel_words : (n : AbiRequest) (r : AbiReply) → kernel n ≡ ok r → IsReply r
kernel_words n r h =
    subst IsReply (ok-injective h) (record { granted_lo = refl; granted_hi = refl })

abbrev started : KairosInit
started = record {
  topology = small_machine;
  features = record {
    granted_lo = either first_bit second_bit;
    granted_hi = no_bits;
    unavailable_lo = no_bits;
    unavailable_hi = no_bits;
  };
}

starts :
    run_with constants kernel (ok small_machine) (native first_bit 1) second_bit no_bits
    ≡ ok started
unfolding run_with negotiate request_of check_reply require want native
starts = refl

native-IsNegotiator : IsNegotiator (native first_bit 1)
unfolding native
native-IsNegotiator = record {
  required_lo = refl;
  required_hi = refl;
  optional_lo = refl;
  optional_hi = refl;
}

run_with-IsGranted_example :
    (◌≡◌ {A = Result KairosError TopologySnapshot} (ok small_machine) (ok started.topology))
    × (Within (native first_bit 1).required_lo started.features.granted_lo
        × Within second_bit started.features.granted_lo)
    × Within (native first_bit 1).required_hi started.features.granted_hi
    × Within started.features.granted_lo (
        either
          (either (native first_bit 1).required_lo second_bit)
          (either (native first_bit 1).optional_lo no_bits))
    × Within started.features.granted_hi
        (either (native first_bit 1).required_hi (native first_bit 1).optional_hi)
run_with-IsGranted_example =
    run_with-IsGranted constants kernel (ok small_machine) (native first_bit 1) second_bit no_bits
      started native-IsNegotiator (refl, refl) kernel_words starts
