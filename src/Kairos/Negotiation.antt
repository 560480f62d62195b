-- ===== src/Kairos/Negotiation.antt =====
-- src/kairos.rs: the negotiation of ABI features, and the start of a program. A `u64` of features is
-- the list of its 64 bits, the lowest first. The constants and the kinds of the kairos crate, and the
-- kernel's answers, are arguments.
use slope.Base.{
  ℕ, ◌%◌, u16_mod, Bool, false, not, ◌&&◌, ◌||◌, ◌!=◌, Result, ok, err, map_err, ◌>>=◌, List, [],
  ◌∷◌, any, replicate, if◌then◌else◌,
}
use slope.Kairos.Topology.{TopologySnapshot}
use slope.Kairos.Reply.{KairosError}

abbrev pub Word : Type 0
Word = List Bool

abbrev pub no_bits : Word
no_bits = replicate 64 false

-- `&`, `|`, `!` and the test against zero.
abbrev pub both : Word → Word → Word
both [] bs = []
both (a ∷ xs) [] = []
both (a ∷ xs) (b ∷ ys) = (a && b) ∷ both xs ys

abbrev pub either : Word → Word → Word
either [] ys = []
either (a ∷ xs) [] = []
either (a ∷ xs) (b ∷ ys) = (a || b) ∷ either xs ys

abbrev pub inverse : Word → Word
inverse [] = []
inverse (a ∷ xs) = not a ∷ inverse xs

abbrev pub some_bit : Word → Bool
some_bit = any (λ b. b)

pub record NegotiatedFeatures : Type 0 where
  pub granted_lo : Word
  pub granted_hi : Word
  pub unavailable_lo : Word
  pub unavailable_hi : Word

unfoldable pub has : Word → NegotiatedFeatures → Bool
has feature f = some_bit (both f.granted_lo feature)

unfoldable pub missing : Word → NegotiatedFeatures → Bool
missing feature f = some_bit (both f.unavailable_lo feature)

pub data AbiError : Type 0 where
  syscall_failed : ℕ → AbiError
  invalid_reply : AbiError
  required_feature_missing : Word → Word → AbiError

pub record AbiNegotiator : Type 0 where
  pub required_lo : Word
  pub required_hi : Word
  pub optional_lo : Word
  pub optional_hi : Word
  pub abi_kind : ℕ

unfoldable pub native : Word → ℕ → AbiNegotiator
native syscall_basic kind_native = record {
  required_lo = syscall_basic;
  required_hi = no_bits;
  optional_lo = no_bits;
  optional_hi = no_bits;
  abi_kind = kind_native;
}

unfoldable pub driver : Word → Word → ℕ → AbiNegotiator
driver syscall_basic syscall_driver kind_driver = record {
  required_lo = either syscall_basic syscall_driver;
  required_hi = no_bits;
  optional_lo = no_bits;
  optional_hi = no_bits;
  abi_kind = kind_driver;
}

unfoldable pub require : Word → AbiNegotiator → AbiNegotiator
require feature n = record n { required_lo = either n.required_lo feature }

unfoldable pub want : Word → AbiNegotiator → AbiNegotiator
want feature n = record n { optional_lo = either n.optional_lo feature }

-- The fields of the kernel's reply.
pub record AbiReply : Type 0 where
  pub status : ℕ
  pub features_lo_granted : Word
  pub features_hi_granted : Word
  pub features_lo_unavailable : Word
  pub features_hi_unavailable : Word

-- The check of a reply, after the system call.
unfoldable pub check_reply : AbiNegotiator → AbiReply → Result AbiError NegotiatedFeatures
check_reply n reply =
    if (reply.status != 0)
      || some_bit (both reply.features_lo_granted (inverse (either n.required_lo n.optional_lo)))
      || some_bit (both reply.features_hi_granted (inverse (either n.required_hi n.optional_hi)))
    then err invalid_reply
    else (let missing_lo = both n.required_lo (inverse reply.features_lo_granted) in
        let missing_hi = both n.required_hi (inverse reply.features_hi_granted) in
        if some_bit missing_lo || some_bit missing_hi
        then err (required_feature_missing missing_lo missing_hi)
        else ok (record {
          granted_lo = reply.features_lo_granted;
          granted_hi = reply.features_hi_granted;
          unavailable_lo = reply.features_lo_unavailable;
          unavailable_hi = reply.features_hi_unavailable;
        }))

-- Constants of the kairos crate, the size of its request, and the target's byte order.
pub record AbiConstants : Type 0 where
  pub abi_magic : ℕ
  pub abi_version : ℕ
  pub request_size : ℕ
  pub is_little_endian : Bool

pub record AbiRequest : Type 0 where
  pub magic : ℕ
  pub version : ℕ
  pub structure_size : ℕ
  pub endian : ℕ
  pub word_bits : ℕ
  pub pointer_bits : ℕ
  pub abi_kind : ℕ
  pub page_size : ℕ
  pub syscall_style : ℕ
  pub object_bits : ℕ
  pub features_lo_req : Word
  pub features_hi_req : Word
  pub features_lo_opt : Word
  pub features_hi_opt : Word

unfoldable pub request_of : AbiConstants → AbiNegotiator → AbiRequest
request_of k n = record {
  magic = k.abi_magic;
  version = k.abi_version;
  structure_size = k.request_size % u16_mod;
  endian = if k.is_little_endian then 1 else 2;
  word_bits = 64;
  pointer_bits = 64;
  abi_kind = n.abi_kind;
  page_size = 4096;
  syscall_style = 1;
  object_bits = 64;
  features_lo_req = n.required_lo;
  features_hi_req = n.required_hi;
  features_lo_opt = n.optional_lo;
  features_hi_opt = n.optional_hi;
}

-- What the kernel answers to a request.
abbrev pub Kernel : Type 0
Kernel = AbiRequest → Result ℕ AbiReply

unfoldable pub negotiate :
    AbiConstants → Kernel → AbiNegotiator → Result AbiError NegotiatedFeatures
unfolding check_reply request_of
negotiate k kernel n = map_err syscall_failed (kernel (request_of k n)) >>= check_reply n

pub data KairosBootError : Type 0 where
  abi : AbiError → KairosBootError
  topology_failed : KairosError → KairosBootError

pub record KairosInit : Type 0 where
  pub topology : TopologySnapshot
  pub features : NegotiatedFeatures

unfoldable pub run_with :
    AbiConstants
    → Kernel
    → Result KairosError TopologySnapshot
    → AbiNegotiator
    → Word
    → Word
    → Result KairosBootError KairosInit
unfolding negotiate require want
run_with k kernel queried negotiator required_features optional_features =
    map_err abi (negotiate k kernel (want optional_features (require required_features negotiator)))
    >>= λ features. map_err topology_failed queried >>= λ topology.
        ok (record { topology = topology; features = features })
