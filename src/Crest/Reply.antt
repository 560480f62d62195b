-- ===== src/Crest/Reply.antt =====
-- src/quantum_crest.rs, `QuantumDesktopReply`: what the kernel answers, and its seal.
use slope.Base.{
  ℕ, ◌/◌, ◌≤◌, ◌≡◌, ◌≢◌, ◌↔◌, refl, Bool, true, ◌&&◌, leb, ◌==◌, ◌!=◌, List, [], ◌∷◌, replicate,
  bit_xor, rotate_left, arith,
}
use slope.Crest.Root.{I32, negsuc, as_u32, absorb_all, avalanche, domain}
use slope.Crest.Part.{QuantumFrameCertificate, no_frame, absorb_frame}
use slope.Crest.Snapshot.{quantum_crest_abi_major, quantum_crest_abi_version}
use slope.Crest.Command.{argument_count}

-- `STATUS_INVALID`, and `size_of` under `repr(C)`.
abbrev pub status_invalid : I32
status_invalid = negsuc 0

abbrev pub reply_bytes : ℕ
reply_bytes = 176

pub record QuantumDesktopReply : Type 0 where
  pub abi_version : ℕ
  pub struct_size : ℕ
  pub command_sequence : ℕ
  pub snapshot_sequence : ℕ
  pub status : I32
  pub flags : ℕ
  pub outputs : List ℕ
  pub frame : QuantumFrameCertificate
  pub root : ℕ

abbrev pub empty : QuantumDesktopReply
empty = record {
  abi_version = quantum_crest_abi_version;
  struct_size = reply_bytes;
  command_sequence = 0;
  snapshot_sequence = 0;
  status = status_invalid;
  flags = 0;
  outputs = replicate argument_count 0;
  frame = no_frame;
  root = 0;
}

unfoldable pub reply_root : ℕ → QuantumDesktopReply → ℕ
unfolding absorb_all absorb_frame avalanche domain rotate_left
reply_root secret r =
    let header : ℕ =
      absorb_all (domain secret 0x5245_504c_5921_2121) (
        r.abi_version
        ∷ r.command_sequence
        ∷ r.snapshot_sequence
        ∷ as_u32 r.status
        ∷ r.flags
        ∷ []) in
    let whole : ℕ = absorb_frame (absorb_all header r.outputs) r.frame in
    avalanche (bit_xor whole (rotate_left secret 31))

unfoldable pub seal : ℕ → QuantumDesktopReply → QuantumDesktopReply
seal secret r =
    let cleared : QuantumDesktopReply = record r { root = 0 } in
    record cleared { root = reply_root secret cleared }

unfoldable pub verify : ℕ → QuantumDesktopReply → Bool
verify secret r =
    (r.abi_version / 65_536 == quantum_crest_abi_major)
    && leb reply_bytes r.struct_size
    && (r.command_sequence != 0)
    && (r.root == reply_root secret r)

-- What the desktop asks of the fields.
pub record IsAddressed (r : QuantumDesktopReply) : Type 0 where
  pub abi : r.abi_version / 65_536 ≡ quantum_crest_abi_major
  pub size : reply_bytes ≤ r.struct_size
  pub command_sequence : r.command_sequence ≢ 0

sealed-root :
    (secret : ℕ) (s : QuantumDesktopReply)
    → (seal secret s).root ≡ reply_root secret (seal secret s)
unfolding seal reply_root
sealed-root secret s = refl

verify_fields :
    (secret : ℕ) (s : QuantumDesktopReply)
    → verify secret s ≡ true
    → IsAddressed s × (s.root ≡ reply_root secret s)
unfolding verify
verify_fields secret s h = (
  record { abi = ground arith; size = ground arith; command_sequence = ground arith },
  ground arith,
)

fields_verify :
    (secret : ℕ) (s : QuantumDesktopReply)
    → IsAddressed s
    → s.root ≡ reply_root secret s
    → verify secret s ≡ true
unfolding verify
fields_verify secret s a e = ground (arith, a.abi, a.size, a.command_sequence)

readdressed : (secret : ℕ) (s : QuantumDesktopReply) → IsAddressed s → IsAddressed (seal secret s)
unfolding seal
readdressed secret s a = record {
  abi = a.abi;
  size = a.size;
  command_sequence = a.command_sequence;
}

IsAddressed-before :
    (secret : ℕ) (s : QuantumDesktopReply) → IsAddressed (seal secret s) → IsAddressed s
unfolding seal
IsAddressed-before secret s a = record {
  abi = a.abi;
  size = a.size;
  command_sequence = a.command_sequence;
}

-- A reply that has been sealed verifies under the same secret exactly if its major ABI version is 1,
-- its size at least that of a reply, and its command sequence is not 0.
pub verify-seal_reply :
    (secret : ℕ) (s : QuantumDesktopReply) → (verify secret (seal secret s) ≡ true) ↔ IsAddressed s
verify-seal_reply secret s = (
  (λ h. IsAddressed-before secret s (verify_fields secret (seal secret s) h).0),
  λ a. fields_verify secret (seal secret s) (readdressed secret s a) (sealed-root secret s),
)
