-- ===== src/Kairos/Tests.antt =====
-- Runs of src/kairos.rs, after its own tests.
use slope.Base.{ℕ, ◌≡◌, Bool, true, none, some, List, [], ◌∷◌, arith}
use slope.Kairos.Topology.{
  CpuDescriptor, CpuKind, performance, efficiency, numa, machine, TopologySnapshot,
}
use slope.Kairos.Partition.{WorkSlice, partition_work}
use slope.Kairos.Tiling.{Tiles, partition_work-Tiles}

abbrev cpu : ℕ → CpuKind → Bool → CpuDescriptor
cpu id kind enabled = record {
  logical_id = id;
  hardware_id = id;
  package_id = 0;
  core = 0;
  thread = 0;
  numa_domain = 1;
  kind = kind;
  enabled = enabled;
}

-- A machine with two NUMA domains of two CPUs and of one.
abbrev topology : TopologySnapshot
topology = record {
  cpus = cpu 0 performance true ∷ cpu 1 performance true ∷ cpu 2 efficiency true ∷ [];
  domains =
      record { id = 0; kind = machine; parent = none; members = 0 ∷ 1 ∷ 2 ∷ [] }
      ∷ record { id = 1; kind = numa; parent = some 0; members = 0 ∷ 1 ∷ [] }
      ∷ record { id = 2; kind = numa; parent = some 0; members = 2 ∷ [] }
      ∷ [];
  trait_flags = 1;
}

partition_work-Tiles_example :
    (slices : List WorkSlice) × (partition_work 8 10 topology ≡ some slices) × Tiles 0 10 slices
partition_work-Tiles_example = partition_work-Tiles 8 10 topology (omega arith)
