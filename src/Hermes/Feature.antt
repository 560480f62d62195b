-- ===== src/Hermes/Feature.antt =====
-- src/hermes_manifold.rs, module `feature`: the feature bits and their well-formedness.
use slope.Base.{
  ℕ, Bool, true, false, ◌==◌, ◌!=◌, ◌&&◌, ◌||◌, if◌then◌else◌, ◌≡◌, ◌≢◌, ◌⊎◌, ◌↔◌, bit_and, bit_or,
  arith,
}
use slope.Base.Bits.{bit_and-six}

abbrev pub boot_rpc : ℕ
boot_rpc = 1

abbrev pub command_ring : ℕ
command_ring = 2

abbrev pub event_ring : ℕ
event_ring = 4

abbrev pub recovery : ℕ
recovery = 8

abbrev pub display : ℕ
display = 16

abbrev pub compute : ℕ
compute = 32

abbrev pub copy_engine : ℕ
copy_engine = 64

abbrev pub telemetry : ℕ
telemetry = 128

abbrev pub power : ℕ
power = 256

abbrev pub memory_management : ℕ
memory_management = 512

unfoldable pub well_formed : ℕ → Bool
well_formed bits =
    if bits == 0
    then true
    else (if bit_and bits boot_rpc == 0
        then false
        else (if bit_and bits (bit_or command_ring event_ring) != 0
              && (bit_and bits command_ring == 0 || bit_and bits event_ring == 0)
            then false
            else (if bit_and bits display != 0 && bit_and bits command_ring == 0
                then false
                else (if bit_and bits compute != 0 && bit_and bits memory_management == 0
                    then false
                    else (if bit_and bits power != 0 && bit_and bits telemetry == 0
                        then false
                        else true)))))

-- What the lattice asks of a non-empty feature set, flag by flag.
pub record IsClosed (bits : ℕ) : Type 0 where
  pub boots : bit_and bits boot_rpc ≢ 0
  pub rings : (bit_and bits command_ring ≡ 0) ↔ (bit_and bits event_ring ≡ 0)
  pub displays : (bit_and bits display ≡ 0) ⊎ (bit_and bits command_ring ≢ 0)
  pub computes : (bit_and bits compute ≡ 0) ⊎ (bit_and bits memory_management ≢ 0)
  pub powers : (bit_and bits power ≡ 0) ⊎ (bit_and bits telemetry ≢ 0)

-- The feature test accepts exactly the empty set and the sets that carry boot RPC, both rings or
-- neither, and the feature that display, compute and power each need.
pub well_formed-IsClosed : (bits : ℕ) → (well_formed bits ≡ true) ↔ ((bits ≡ 0) ⊎ IsClosed bits)
unfolding well_formed
well_formed-IsClosed bits = ground (arith, bit_and-six bits)
