-- ===== src/Crest/Command.antt =====
-- src/quantum_crest.rs, `QuantumDesktopCommand`: what the desktop asks for, and its seal.
use slope.Base.{
  ℕ, zero, suc, ◌/◌, ◌≤◌, ◌≡◌, ◌≢◌, ◌↔◌, refl, Bool, true, ◌&&◌, leb, ◌==◌, ◌!=◌, List, [], ◌∷◌,
  replicate, take, drop, length, bit_xor, arith,
}
use slope.Crest.Root.{absorb_all, avalanche, domain, bytes_word, rotate_right}
use slope.Crest.Snapshot.{quantum_crest_abi_major, quantum_crest_abi_version}

-- `QUANTUM_CREST_PAYLOAD_BYTES`, `QUANTUM_CREST_ARGUMENTS`, and `size_of` under `repr(C)`.
abbrev pub payload_bytes : ℕ
payload_bytes = 128

abbrev pub argument_count : ℕ
argument_count = 8

abbrev pub command_bytes : ℕ
command_bytes = 272

pub record QuantumDesktopCommand : Type 0 where
  pub abi_version : ℕ
  pub struct_size : ℕ
  pub sequence : ℕ
  pub epoch : ℕ
  pub session : ℕ
  pub generation : ℕ
  pub opcode : ℕ
  pub flags : ℕ
  pub object : ℕ
  pub deadline_tick : ℕ
  pub arguments : List ℕ
  pub payload_length : ℕ
  pub reserved : List ℕ
  pub payload : List ℕ
  pub root : ℕ

abbrev pub empty : QuantumDesktopCommand
empty = record {
  abi_version = quantum_crest_abi_version;
  struct_size = command_bytes;
  sequence = 0;
  epoch = 0;
  session = 0;
  generation = 0;
  opcode = 0;
  flags = 0;
  object = 0;
  deadline_tick = 0;
  arguments = replicate argument_count 0;
  payload_length = 0;
  reserved = replicate 6 0;
  payload = replicate payload_bytes 0;
  root = 0;
}

-- The words of `chunks(8)`: one for each eight bytes, and one for what is left. The fuel is the
-- number of bytes, of which each word takes one at least.
unfoldable pub chunk_words : ℕ → List ℕ → List ℕ
unfolding bytes_word
chunk_words fuel [] = []
chunk_words zero (byte ∷ bytes) = []
chunk_words (suc fuel) (byte ∷ bytes) =
    bytes_word (take 8 (byte ∷ bytes)) ∷ chunk_words fuel (drop 8 (byte ∷ bytes))

unfoldable pub command_root : ℕ → QuantumDesktopCommand → ℕ
unfolding absorb_all chunk_words avalanche domain rotate_right
command_root secret c =
    let header : ℕ = absorb_all (domain secret 0x434f_4d4d_414e_4421) (
      c.abi_version ∷ c.sequence ∷ c.epoch ∷ c.session ∷ c.generation ∷ c.opcode ∷ c.flags
      ∷ c.object ∷ c.deadline_tick ∷ []) in
    let asked : ℕ = absorb_all (absorb_all header c.arguments) (c.payload_length ∷ []) in
    let whole : ℕ = absorb_all asked (chunk_words (length c.payload) c.payload) in
    avalanche (bit_xor whole (rotate_right secret 9))

unfoldable pub seal : ℕ → QuantumDesktopCommand → QuantumDesktopCommand
seal secret c =
    let cleared : QuantumDesktopCommand = record c { root = 0 } in
    record cleared { root = command_root secret cleared }

unfoldable pub verify : ℕ → QuantumDesktopCommand → Bool
verify secret c =
    (c.abi_version / 65_536 == quantum_crest_abi_major)
    && leb command_bytes c.struct_size
    && (c.sequence != 0)
    && (c.epoch != 0)
    && (c.session != 0)
    && (c.generation != 0)
    && (c.opcode != 0)
    && leb c.payload_length payload_bytes
    && (c.root == command_root secret c)

-- What the kernel asks of the fields.
pub record IsAddressed (c : QuantumDesktopCommand) : Type 0 where
  pub abi : c.abi_version / 65_536 ≡ quantum_crest_abi_major
  pub size : command_bytes ≤ c.struct_size
  pub sequence : c.sequence ≢ 0
  pub epoch : c.epoch ≢ 0
  pub session : c.session ≢ 0
  pub generation : c.generation ≢ 0
  pub opcode : c.opcode ≢ 0
  pub payload : c.payload_length ≤ payload_bytes

sealed-root :
    (secret : ℕ) (s : QuantumDesktopCommand)
    → (seal secret s).root ≡ command_root secret (seal secret s)
unfolding seal command_root
sealed-root secret s = refl

verify_fields :
    (secret : ℕ) (s : QuantumDesktopCommand)
    → verify secret s ≡ true
    → IsAddressed s × (s.root ≡ command_root secret s)
unfolding verify
verify_fields secret s h = (
  record {
    abi = ground arith;
    size = ground arith;
    sequence = ground arith;
    epoch = ground arith;
    session = ground arith;
    generation = ground arith;
    opcode = ground arith;
    payload = ground arith;
  },
  ground arith,
)

fields_verify :
    (secret : ℕ) (s : QuantumDesktopCommand)
    → IsAddressed s
    → s.root ≡ command_root secret s
    → verify secret s ≡ true
unfolding verify
fields_verify secret s a e =
    ground (arith, a.abi, a.size, a.sequence, a.epoch, a.session, a.generation, a.opcode, a.payload)

readdressed : (secret : ℕ) (s : QuantumDesktopCommand) → IsAddressed s → IsAddressed (seal secret s)
unfolding seal
readdressed secret s a = record {
  abi = a.abi;
  size = a.size;
  sequence = a.sequence;
  epoch = a.epoch;
  session = a.session;
  generation = a.generation;
  opcode = a.opcode;
  payload = a.payload;
}

IsAddressed-before :
    (secret : ℕ) (s : QuantumDesktopCommand) → IsAddressed (seal secret s) → IsAddressed s
unfolding seal
IsAddressed-before secret s a = record {
  abi = a.abi;
  size = a.size;
  sequence = a.sequence;
  epoch = a.epoch;
  session = a.session;
  generation = a.generation;
  opcode = a.opcode;
  payload = a.payload;
}

-- A command that has been sealed verifies under the same secret exactly if its major ABI version is
-- 1, its size at least that of a command, and its numbers, opcode and payload length are what the
-- kernel asks.
pub verify-seal_command :
    (secret : ℕ) (s : QuantumDesktopCommand)
    → (verify secret (seal secret s) ≡ true) ↔ IsAddressed s
verify-seal_command secret s = (
  (λ h. IsAddressed-before secret s (verify_fields secret (seal secret s) h).0),
  λ a. fields_verify secret (seal secret s) (readdressed secret s a) (sealed-root secret s),
)
