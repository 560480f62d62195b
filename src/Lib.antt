-- ===== src/Lib.antt =====
-- Slope, the userspace ABI and runtime library of ArachOS: models of its Rust code and their proofs.
--
-- The program's parts, and the files that model them:
--   * Service: src/service_calculus.rs, admission control. Curve is the service curve; Calibrator the
--     ring of residuals with its conformal guard; Certificate the sealed admission; Controller the
--     calls `advance`, `admit`, `rollback` and `observe_completion`, which return a result and the new
--     controller. The proofs are in Calibrator/Coverage and Controller/Window, Settings, Admission and
--     Rollback.
--   * Hermes: src/hermes_manifold.rs, the phase lattice of a driver. Phase, Feature, Evidence and
--     Manifold are the source's types and methods; Lattice and Online prove what histories of calls do.
--   * Crest: src/quantum_crest.rs, the page that the kernel and the desktop share. Part, Snapshot,
--     Command and Reply are its records with their keyed roots; Mailbox is the cell that the source
--     writes out three times, Interleaving the world of threads that use it, Exclusion its proof; Page
--     has the calls, and Channel their specification.
--   * Memory: src/memory/mod.rs, the slab heap. Mask has the words of 64 bits, Page the slots of a page,
--     Class the size classes and the arena, Heap the heap under its lock, Token the packed handle;
--     Slot, Return, Fresh and Counted have the proofs.
--   * Sync: src/sync/entanglement.rs, the lock that the heap is guarded by, with bounded retries.
--   * Ipc: src/ipc.rs, the ring of one producer and one consumer; Queue and Fifo refine it to a queue.
--   * Kairos: src/kairos.rs, the machine topology. Reply validates the kernel's answer, Topology and
--     Iterate ask questions of it, Partition plans on it, Negotiation agrees on the features of the ABI;
--     Decoded and Suited say what the entries of a topology and a suited domain are; Validated, Affinity,
--     Tiling and Granted have the proofs.
--   * Hypermedia: src/hypermedia.rs, bounded HTTPS leases. Origin, Request, Tls and Lease check hosts,
--     locations, certificates and envelopes, Endpoint is the session that admits the envelopes;
--     Canonical, Bound, Wire, Gate and Serving have the proofs.
--   * Executor: src/executor.rs, the arena of tasks and its loops; Counted, Pass, Due, Awake, Pending,
--     Ending and Starved prove what a pass polls and when the loop ends.
--   * Files: src/fs.rs, the loop that writes a whole buffer, and the directory cursor.
--   * Storage: src/storage.rs, the submission of blocks to a drive; Asked says what
--     the calls of the backend make of the completions; Loop and Submitted prove it.
--   * Bridge: src/bridge.rs, the ring shared with a network device; Held and Retained are about a held packet.
--   * Signal: src/signal.rs, the table of the handlers of notifications.
--   * Thermogenesis: src/thermogenesis.rs, the readings of the thermal page and what follows from them.
--   * Env: src/env.rs, the hash of keys and the bounded snapshot of the environment; Entry
--     and Bounded say what it holds.
--   * Capability: src/capability.rs, handles read from the environment; Digits and Numeral say which
--     texts it reads.
--   * Base: lists, results, machine words, conjunction of bits, and sorting, shared by all.
--
-- How the code is modelled. A struct is a record and an enum a data type with the source's names; an
-- array whose length the source fixes is a list with that length in the invariant, or the list of the
-- entries in use. A method that changes its receiver returns the new value beside its result. Numbers
-- are natural numbers: wrapping, checked and saturating operations write the modulus out, and `usize`
-- is 64 bits wide. `Result` and `?` are Base/Results. A function that is too long for one definition is
-- cut where the source has a block, and the parts carry names of their own (Controller's `settle`,
-- `quote`, `reserve`, `admit_now`, `drain`).
--
-- Loops are structural recursion over lists. The search for a free slot runs over the number of words
-- that the source's loop runs over; `chunk_words` has the number of bytes as fuel, and takes a byte at
-- least at each step; a bounded retry counts its attempts down, and what other holders of the lock do
-- is an argument, one answer for each attempt. `run_forever` has its passes as fuel and `write_all` its
-- system calls: Ending and Written show how much is enough. A `for` loop over an iterator (Kairos/Iterate)
-- has its rounds as fuel, one more than there are CPUs.
--
-- Concurrency. Each atomic access of a mailbox is one step, and threads interleave in any order; memory
-- orderings are not modelled. The rings of Ipc and Bridge are modelled a call at a time.
--
-- Parameters. The system calls, the backend of a drive, the poll of a task and the yield between two
-- passes are arguments that take the state of the world and return a new one; the theorems that need
-- their documented behaviour have it as a hypothesis. The constants of the kairos crate, which is not in
-- the repository, are arguments too, and its records have the fields that the code reads or fills.
--
-- Not modelled: the modules that wrap system calls (src/net.rs, process.rs, time.rs, runtime.rs, and the
-- wrappers in fs.rs), the records of foreign crates (nexus.rs, resonance_plane.rs, fabric.rs), the
-- floating-point scorer (policy.rs, native/), addresses behind raw pointers and the bytes at them, the
-- use of a waker after the poll that made it, and, so far, wayland.rs,
-- tuning.rs, scheduler.rs, display.rs, input.rs, aegis.rs and memory/relativistic.rs.
pub mod Base
pub mod Hermes
pub mod Service
pub mod Sync
pub mod Memory
pub mod Crest
pub mod Ipc
pub mod Kairos
pub mod Env
pub mod Capability
pub mod Hypermedia
pub mod Executor
pub mod Files
pub mod Storage
pub mod Signal
pub mod Thermogenesis
pub mod Bridge
