-- ===== src/Crest/Snapshot.antt =====
-- src/quantum_crest.rs, `QuantumSystemSnapshot`: what the kernel publishes, and its seal.
use slope.Base.{
  ℕ, ◌/◌, ◌≤◌, ◌≡◌, ◌≢◌, ◌↔◌, refl, true, Bool, ◌&&◌, leb, ◌==◌, ◌!=◌, [], ◌∷◌, bit_xor,
  rotate_left, arith,
}
use slope.Crest.Root.{absorb_all, avalanche, domain}
use slope.Crest.Part.{
  QuantumGpuState, QuantumBlackLabState, QuantumDisplayState, no_gpu, no_blacklab, no_display,
  absorb_gpu, absorb_blacklab, absorb_display,
}

abbrev pub quantum_crest_abi_major : ℕ
quantum_crest_abi_major = 1

abbrev pub quantum_crest_abi_version : ℕ
quantum_crest_abi_version = 65_536

-- `size_of` under `repr(C)`.
abbrev pub snapshot_bytes : ℕ
snapshot_bytes = 256

pub record QuantumSystemSnapshot : Type 0 where
  pub abi_version : ℕ
  pub struct_size : ℕ
  pub sequence : ℕ
  pub epoch : ℕ
  pub logical_tick : ℕ
  pub topology_epoch : ℕ
  pub capability_epoch : ℕ
  pub flags : ℕ
  pub gpu : QuantumGpuState
  pub blacklab : QuantumBlackLabState
  pub display : QuantumDisplayState
  pub desktop_rights : ℕ
  pub desktop_session : ℕ
  pub desktop_generation : ℕ
  pub reserved0 : ℕ
  pub root : ℕ

abbrev pub empty : QuantumSystemSnapshot
empty = record {
  abi_version = quantum_crest_abi_version;
  struct_size = snapshot_bytes;
  sequence = 0;
  epoch = 0;
  logical_tick = 0;
  topology_epoch = 0;
  capability_epoch = 0;
  flags = 0;
  gpu = no_gpu;
  blacklab = no_blacklab;
  display = no_display;
  desktop_rights = 0;
  desktop_session = 0;
  desktop_generation = 0;
  reserved0 = 0;
  root = 0;
}

unfoldable pub snapshot_root : ℕ → QuantumSystemSnapshot → ℕ
unfolding absorb_all absorb_gpu absorb_blacklab absorb_display avalanche domain rotate_left
snapshot_root secret s =
    let header : ℕ = absorb_all (domain secret 0x534e_4150_5348_4f54) (
      s.abi_version ∷ s.sequence ∷ s.epoch ∷ s.logical_tick ∷ s.topology_epoch ∷ s.capability_epoch
      ∷ s.flags ∷ []) in
    let parts : ℕ =
      absorb_display (absorb_blacklab (absorb_gpu header s.gpu) s.blacklab) s.display in
    let whole : ℕ =
      absorb_all parts (s.desktop_rights ∷ s.desktop_session ∷ s.desktop_generation ∷ []) in
    avalanche (bit_xor whole (rotate_left secret 17))

unfoldable pub seal : ℕ → QuantumSystemSnapshot → QuantumSystemSnapshot
seal secret s =
    let cleared : QuantumSystemSnapshot = record s { root = 0 } in
    record cleared { root = snapshot_root secret cleared }

unfoldable pub verify : ℕ → QuantumSystemSnapshot → Bool
verify secret s =
    (s.abi_version / 65_536 == quantum_crest_abi_major)
    && leb snapshot_bytes s.struct_size
    && (s.sequence != 0)
    && (s.epoch != 0)
    && (s.desktop_session != 0)
    && (s.desktop_generation != 0)
    && (s.root == snapshot_root secret s)

-- What a reader asks of the fields.
pub record IsAddressed (s : QuantumSystemSnapshot) : Type 0 where
  pub abi : s.abi_version / 65_536 ≡ quantum_crest_abi_major
  pub size : snapshot_bytes ≤ s.struct_size
  pub sequence : s.sequence ≢ 0
  pub epoch : s.epoch ≢ 0
  pub desktop_session : s.desktop_session ≢ 0
  pub desktop_generation : s.desktop_generation ≢ 0

sealed-root :
    (secret : ℕ) (s : QuantumSystemSnapshot)
    → (seal secret s).root ≡ snapshot_root secret (seal secret s)
unfolding seal snapshot_root
sealed-root secret s = refl

verify_fields :
    (secret : ℕ) (s : QuantumSystemSnapshot)
    → verify secret s ≡ true
    → IsAddressed s × (s.root ≡ snapshot_root secret s)
unfolding verify
verify_fields secret s h = (
  record {
    abi = ground arith;
    size = ground arith;
    sequence = ground arith;
    epoch = ground arith;
    desktop_session = ground arith;
    desktop_generation = ground arith;
  },
  ground arith,
)

fields_verify :
    (secret : ℕ) (s : QuantumSystemSnapshot)
    → IsAddressed s
    → s.root ≡ snapshot_root secret s
    → verify secret s ≡ true
unfolding verify
fields_verify secret s a e =
    ground (arith, a.abi, a.size, a.sequence, a.epoch, a.desktop_session, a.desktop_generation)

readdressed : (secret : ℕ) (s : QuantumSystemSnapshot) → IsAddressed s → IsAddressed (seal secret s)
unfolding seal
readdressed secret s a = record {
  abi = a.abi;
  size = a.size;
  sequence = a.sequence;
  epoch = a.epoch;
  desktop_session = a.desktop_session;
  desktop_generation = a.desktop_generation;
}

IsAddressed-before :
    (secret : ℕ) (s : QuantumSystemSnapshot) → IsAddressed (seal secret s) → IsAddressed s
unfolding seal
IsAddressed-before secret s a = record {
  abi = a.abi;
  size = a.size;
  sequence = a.sequence;
  epoch = a.epoch;
  desktop_session = a.desktop_session;
  desktop_generation = a.desktop_generation;
}

-- A snapshot that has been sealed verifies under the same secret exactly if its major ABI version is
-- 1, its size at least that of a snapshot, and its sequence, epoch, session and generation are what
-- a reader asks.
pub verify-seal_snapshot :
    (secret : ℕ) (s : QuantumSystemSnapshot)
    → (verify secret (seal secret s) ≡ true) ↔ IsAddressed s
verify-seal_snapshot secret s = (
  (λ h. IsAddressed-before secret s (verify_fields secret (seal secret s) h).0),
  λ a. fields_verify secret (seal secret s) (readdressed secret s a) (sealed-root secret s),
)
