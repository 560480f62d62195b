-- ===== src/Capability.antt =====
-- src/capability.rs: handles that come in the environment. A right is its two keys.
mod Digits
pub mod Numeral
mod Tests
use slope.Base.{
  ℕ, ◌+◌, ◌-◌, ◌*◌, Bool, true, false, ◌&&◌, ◌||◌, ltb, leb, ◌==◌, Option, none, some, Result, ok,
  err, ok_or, ◌>>=◌, List, [], ◌∷◌, checked_mul, checked_add, if◌then◌else◌,
}
use slope.Env.{EnvSnapshot, get}

pub data CapabilityError : Type 0 where
  missing malformed null_handle overflow : CapabilityError

-- `ENV_KEY` and `LEGACY_ENV_KEY`.
pub record Right : Type 0 where
  pub env_key : ℕ
  pub legacy_env_key : Option ℕ

abbrev pub between : ℕ → ℕ → ℕ → Bool
between low high byte = leb low byte && leb byte high

-- The digit that a byte stands for.
unfoldable pub digit_of : ℕ → ℕ → Option ℕ
digit_of radix byte =
    if between 48 57 byte
    then some (byte - 48)
    else (if between 97 102 byte && (radix == 16)
        then some (byte - 97 + 10)
        else (if between 65 70 byte && (radix == 16) then some (byte - 65 + 10) else none))

-- One turn of the loop, for a byte that is not an underscore.
unfoldable pub push_digit : ℕ → ℕ → ℕ → Result CapabilityError ℕ
unfolding digit_of
push_digit radix value byte = elim (digit_of radix byte) [
  | none ↦ err malformed
  | some digit ↦ if leb radix digit then err malformed else (elim (checked_mul value radix) [
    | none ↦ err overflow
    | some scaled ↦ ok_or (checked_add scaled digit) overflow
  ])
]

-- The loop, with the value and the number of digits so far.
unfoldable pub parse_digits : ℕ → List ℕ → ℕ → ℕ → Result CapabilityError (ℕ × ℕ)
unfolding push_digit
parse_digits radix [] value consumed = ok (value, consumed)
parse_digits radix (byte ∷ bytes) value consumed =
    let rest = parse_digits radix bytes value consumed in
    if byte == 95 then rest else (elim (push_digit radix value byte) [
      | err fault ↦ err fault
      | ok value' ↦ parse_digits radix bytes value' (consumed + 1)
    ])

-- `b"0x"` or `b"0X"` in front means hexadecimal.
unfoldable pub split_radix : List ℕ → ℕ × List ℕ
split_radix [] = (10, [])
split_radix (a ∷ []) = (10, a ∷ [])
split_radix (a ∷ b ∷ rest) =
    if (a == 48) && ((b == 120) || (b == 88)) then (16, rest) else (10, a ∷ b ∷ rest)

-- `parse_handle` once the radix is known.
unfoldable pub parse_body : ℕ → List ℕ → Result CapabilityError ℕ
unfolding parse_digits
parse_body radix [] = err malformed
parse_body radix (first ∷ others) = elim (parse_digits radix (first ∷ others) 0 0) [
  | err fault ↦ err fault
  | ok (value, consumed) ↦ if consumed == 0 then err malformed else ok value
]

unfoldable pub parse_handle : List ℕ → Result CapabilityError ℕ
unfolding split_radix parse_body
parse_handle bytes = let (radix, digits) = split_radix bytes in parse_body radix digits

unfoldable pub recv : Right → EnvSnapshot → Result CapabilityError ℕ
unfolding parse_handle get
recv right environment =
    let legacy : Option (List ℕ) = elim right.legacy_env_key [
      | none ↦ none
      | some key ↦ get key environment
    ] in
    let bytes : Option (List ℕ) = elim (get right.env_key environment) [
      | none ↦ legacy
      | some found ↦ some found
    ] in
    elim bytes [
      | none ↦ err missing
      | some found ↦ elim (parse_handle found) [
        | err fault ↦ err fault
        | ok raw ↦ if raw == 0 then err null_handle else ok raw
      ]
    ]
