-- ===== src/Env.antt =====
-- src/env.rs: the hash of keys and the snapshot of the environment. A C string is the list of its
-- bytes, and the block of pointers the list of its strings.
mod Entry
pub mod Bounded
mod Tests
use slope.Base.{
  ℕ, zero, suc, ◌+◌, ◌%◌, Bool, ltb, ◌==◌, Option, none, some, List, [], ◌∷◌, ◌++◌, length, take,
  drop, find, bit_xor, wrapping_mul, u16_max, if◌then◌else◌,
}

abbrev pub max_env_vars : ℕ
max_env_vars = 128

abbrev pub fnv_offset : ℕ
fnv_offset = 0xcbf2_9ce4_8422_2325

abbrev pub fnv_prime : ℕ
fnv_prime = 0x0000_0100_0000_01b3

-- The loop of `fnv1a_const`, from a hash on.
unfoldable pub fnv1a_from : ℕ → List ℕ → ℕ
unfolding wrapping_mul
fnv1a_from hash [] = hash
fnv1a_from hash (byte ∷ bytes) = fnv1a_from (wrapping_mul (bit_xor hash byte) fnv_prime) bytes

unfoldable pub fnv1a_const : List ℕ → ℕ
unfolding fnv1a_from
fnv1a_const bytes = fnv1a_from fnv_offset bytes

pub record EnvEntry : Type 0 where
  pub key_hash : ℕ
  pub value : List ℕ

-- The entries in use.
abbrev pub EnvSnapshot : Type 0
EnvSnapshot = List EnvEntry

-- `position(|&b| b == b'=')`.
unfoldable pub separator : List ℕ → Option ℕ
separator [] = none
separator (byte ∷ bytes) =
    let rest = separator bytes in
    if byte == 61 then some 0 else elim rest [ none ↦ none | some i ↦ some (suc i) ]

-- The loop of `collapse`, from the entries made so far on.
unfoldable pub collapse_onto : EnvSnapshot → List (List ℕ) → EnvSnapshot
unfolding separator fnv1a_const
collapse_onto snap [] = snap
collapse_onto snap (entry ∷ entries) = elim (separator entry) [
  | none ↦ collapse_onto snap entries
  | some sep ↦
      if ltb (length snap) max_env_vars
      then collapse_onto
          (snap
            ++ record {
              key_hash = fnv1a_const (take sep entry);
              value = take u16_max (drop (suc sep) entry);
            }
              ∷ [])
          entries
      else collapse_onto snap entries
]

unfoldable pub collapse : List (List ℕ) → EnvSnapshot
unfolding collapse_onto
collapse entries = collapse_onto [] entries

unfoldable pub get : ℕ → EnvSnapshot → Option (List ℕ)
get key snap = elim (find (λ e. e.key_hash == key) snap) [ none ↦ none | some e ↦ some e.value ]
