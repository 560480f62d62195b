-- ===== src/Crest/Root.antt =====
-- src/quantum_crest.rs: the keyed mixing that every root is made of.
use slope.Base.{
  ℕ, ◌%◌, ◌+◌, ◌*◌, ◌-◌, List, [], ◌∷◌, bit_xor, wrapping_mul, rotate_left, shr, u32_mod,
}

-- A 32-bit two's complement number, and its bits as an unsigned word.
pub data I32 : Type 0 where
  pos negsuc : ℕ → I32

unfoldable pub as_u32 : I32 → ℕ
as_u32 (pos n) = n % u32_mod
as_u32 (negsuc n) = u32_mod - 1 - n % u32_mod

unfoldable pub avalanche : ℕ → ℕ
unfolding wrapping_mul shr
avalanche value =
    let a : ℕ = wrapping_mul (bit_xor value (shr value 30)) 0xbf58_476d_1ce4_e5b9 in
    let b : ℕ = wrapping_mul (bit_xor a (shr a 27)) 0x94d0_49bb_1331_11eb in bit_xor b (shr b 31)

unfoldable pub absorb : ℕ → ℕ → ℕ
unfolding avalanche wrapping_mul
absorb state word = avalanche (bit_xor state (wrapping_mul word 0x9e37_79b9_7f4a_7c15))

unfoldable pub domain : ℕ → ℕ → ℕ
unfolding avalanche rotate_left
domain secret tag = avalanche (bit_xor secret (rotate_left tag 23))

-- The words in turn.
unfoldable pub absorb_all : ℕ → List ℕ → ℕ
unfolding absorb
absorb_all state [] = state
absorb_all state (word ∷ words) = absorb_all (absorb state word) words

-- Up to eight bytes, the first the lowest.
unfoldable pub bytes_word : List ℕ → ℕ
bytes_word [] = 0
bytes_word (byte ∷ bytes) = byte + 256 * bytes_word bytes

unfoldable pub rotate_right : ℕ → ℕ → ℕ
unfolding rotate_left
rotate_right x k = rotate_left x (64 - k)
