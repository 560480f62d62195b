-- ===== src/Capability/Numeral.antt =====
-- src/capability.rs, `parse_handle`: exactly the numerals below 2^64 are read, at their value.
use slope.Base.{
  ℕ, ◌+◌, ◌≤◌, ◌<◌, ◌≡◌, ◌≢◌, ◌↔◌, ◌⊎◌, refl, inl, inr, false, Bool-cases, ◌&&◌, some, ok, List, [],
  ◌∷◌, length, leb, ◌==◌, arith, u64_mod,
}
use slope.Capability.{between, digit_of, split_radix, parse_handle}
use slope.Capability.Digits.{digits, digits_cons, positional, parse_body-IsBody, IsBody-parse_body}

-- `0` to `9` have the codes from 48 on, `a` to `f` those from 97 = 87 + 10 on, and `A` to `F` those
-- from 65 = 55 + 10 on.
abbrev pub IsDigit : ℕ → ℕ → ℕ → Type 0
IsDigit radix byte d =
    ((d < 10) × (byte ≡ 48 + d))
    ⊎ ((radix ≡ 16) × (10 ≤ d) × (d < 16) × ((byte ≡ 87 + d) ⊎ (byte ≡ 55 + d)))

-- A text of digits and underscores, of the code 95, and the digits it has.
abbrev pub IsDigits : ℕ → List ℕ → List ℕ → Type 0
IsDigits radix [] ds = ds ≡ []
IsDigits radix (byte ∷ bytes) ds =
    ((byte ≡ 95) × IsDigits radix bytes ds)
    ⊎ ((d : ℕ) × (later : List ℕ) × IsDigit radix byte d
        × IsDigits radix bytes later
        × (ds ≡ d ∷ later))

-- No `0x` and no `0X` in front.
abbrev pub NotPrefixed : List ℕ → Type 0
NotPrefixed [] = Unit {0}
NotPrefixed (a ∷ []) = Unit {0}
NotPrefixed (a ∷ b ∷ bytes) = (a ≢ 48) ⊎ ((b ≢ 120) × (b ≢ 88))

-- The radix of a text, and the text without its prefix.
abbrev pub IsSplit : List ℕ → ℕ → List ℕ → Type 0
IsSplit bytes radix body =
    ((radix ≡ 16) × ((bytes ≡ 48 ∷ 120 ∷ body) ⊎ (bytes ≡ 48 ∷ 88 ∷ body)))
    ⊎ ((radix ≡ 10) × (bytes ≡ body) × NotPrefixed bytes)

-- A numeral below 2^64 of this value, with at least one digit.
abbrev pub IsNumeral : List ℕ → ℕ → Type 0
IsNumeral bytes value =
    (radix : ℕ) × (body : List ℕ) × (ds : List ℕ) × IsSplit bytes radix body
    × IsDigits radix body ds
    × (0 < length ds)
    × (positional radix 0 ds ≡ value)
    × (value < u64_mod)

digit_of-IsDigit : (radix byte d : ℕ) → digit_of radix byte ≡ some d → IsDigit radix byte d
unfolding digit_of
digit_of-IsDigit radix byte d h = elim (Bool-cases (between 48 57 byte)) [
  | inl a ↦ inl (ground (arith, a, h), ground (arith, a, h))
  | inr a ↦ elim (Bool-cases (between 97 102 byte && (radix == 16))) [
    | inl b ↦ inr (
      ground (arith, b),
      ground (arith, a, b, h),
      ground (arith, a, b, h),
      inl (ground (arith, a, b, h)),
    )
    | inr b ↦ elim (Bool-cases (between 65 70 byte && (radix == 16))) [
      | inl c ↦ inr (
        ground (arith, c),
        ground (arith, a, b, c, h),
        ground (arith, a, b, c, h),
        inr (ground (arith, a, b, c, h)),
      )
      | inr c ↦ absurd (ground (arith, a, b, c, h))
    ]
  ]
]

IsDigit-digit_of :
    (radix byte d : ℕ)
    → 10 ≤ radix
    → IsDigit radix byte d
    → (digit_of radix byte ≡ some d) × (leb radix d ≡ false) × ((byte == 95) ≡ false)
unfolding digit_of
IsDigit-digit_of radix byte d ten (inl (low, is)) =
    (ground (arith, low, is), ground (arith, low, ten), ground (arith, low, is))
IsDigit-digit_of radix byte d ten (inr (hex, from, to, inl is)) =
    (ground (arith, hex, from, to, is), ground (arith, hex, to), ground (arith, to, is))
IsDigit-digit_of radix byte d ten (inr (hex, from, to, inr is)) =
    (ground (arith, hex, from, to, is), ground (arith, hex, to), ground (arith, to, is))

digits-IsDigits :
    (radix : ℕ) (bytes ds : List ℕ) → digits radix bytes ≡ some ds → IsDigits radix bytes ds
unfolding digits
digits-IsDigits radix [] ds h = ground (arith, h)
digits-IsDigits radix (byte ∷ bytes) ds h = elim (Bool-cases (byte == 95)) [
  | inl e ↦ inl (ground arith, digits-IsDigits radix bytes ds (ground (arith, h, e)))
  | inr e ↦
      let (d, later, at, _, rest, same) = digits_cons radix byte bytes ds e h in
      inr (d, later, digit_of-IsDigit radix byte d at, digits-IsDigits radix bytes later rest, same)
]

IsDigits-digits :
    (radix : ℕ) (bytes ds : List ℕ)
    → 10 ≤ radix
    → IsDigits radix bytes ds
    → digits radix bytes ≡ some ds
unfolding digits
IsDigits-digits radix [] ds ten h = ground (arith, h)
IsDigits-digits radix (byte ∷ bytes) ds ten (inl (e, h)) =
    ground (arith, e, IsDigits-digits radix bytes ds ten h)
IsDigits-digits radix (byte ∷ bytes) ds ten (inr (d, later, at, h, same)) =
    let (is, low, other) = IsDigit-digit_of radix byte d ten at in
    let rest = IsDigits-digits radix bytes later ten h in ground (arith, is, low, other, rest, same)

split_radix-IsSplit : (bytes : List ℕ) → IsSplit bytes (split_radix bytes).0 (split_radix bytes).1
unfolding split_radix
split_radix-IsSplit [] = inr (refl, refl, tt)
split_radix-IsSplit (a ∷ []) = inr (refl, refl, tt)
split_radix-IsSplit (a ∷ b ∷ bytes) = elim (Bool-cases (a == 48)) [
  | inr e ↦ rw (e, split_radix) (inr (refl, refl, inl (λ h. ground (arith, e, h))))
  | inl e ↦ elim (Bool-cases (b == 120)) [
    | inl f ↦ rw (e, f, split_radix) (inl (refl, inl (ground (arith, e, f))))
    | inr f ↦ elim (Bool-cases (b == 88)) [
      | inl g ↦ rw (e, f, g, split_radix) (inl (refl, inr (ground (arith, e, g))))
      | inr g ↦
          rw (e, f, g, split_radix)
            (inr (refl, refl, inr ((λ h. ground (arith, f, h)), λ h. ground (arith, g, h))))
    ]
  ]
]

not_prefixed : (bytes : List ℕ) → NotPrefixed bytes → split_radix bytes ≡ (10, bytes)
unfolding split_radix
not_prefixed [] n = refl
not_prefixed (a ∷ []) n = refl
not_prefixed (a ∷ b ∷ bytes) (inl n) = ground (arith, n)
not_prefixed (a ∷ b ∷ bytes) (inr (n, m)) = ground (arith, n, m)

IsSplit-split_radix :
    (bytes : List ℕ) (radix : ℕ) (body : List ℕ)
    → IsSplit bytes radix body
    → split_radix bytes ≡ (radix, body)
unfolding split_radix
IsSplit-split_radix bytes radix body (inl (r, inl e)) = rw (r, e, split_radix) refl
IsSplit-split_radix bytes radix body (inl (r, inr e)) = rw (r, e, split_radix) refl
IsSplit-split_radix bytes radix body (inr (r, e, n)) = rw (r, ← e) (not_prefixed bytes n)

ten_at_least : (bytes : List ℕ) (radix : ℕ) (body : List ℕ) → IsSplit bytes radix body → 10 ≤ radix
ten_at_least bytes radix body (inl (r, _)) = omega (arith, r)
ten_at_least bytes radix body (inr (r, _, _)) = omega (arith, r)

-- A handle is read as a value exactly if its text, after an optional prefix `0x` or `0X`, which
-- makes the radix 16 instead of 10, and without its underscores, is at least one digit of the
-- radix, the positional value of the digits is that value, and it is below 2^64. The letters that
-- are digits may be of either case.
pub parse_handle-IsNumeral :
    (bytes : List ℕ) (value : ℕ) → (parse_handle bytes ≡ ok value) ↔ IsNumeral bytes value
unfolding parse_handle
parse_handle-IsNumeral bytes value = (there, back)
  where
    there : parse_handle bytes ≡ ok value → IsNumeral bytes value
    there h =
        let (ds, same, some_digit, reached, bound) =
          parse_body-IsBody (split_radix bytes).0 (split_radix bytes).1 value h in
        (
          (split_radix bytes).0,
          (split_radix bytes).1,
          ds,
          split_radix-IsSplit bytes,
          digits-IsDigits _ _ ds same,
          some_digit,
          reached,
          bound,
        )

    back : IsNumeral bytes value → parse_handle bytes ≡ ok value
    back (radix, body, ds, split, is, some_digit, reached, bound) =
        let ten = ten_at_least bytes radix body split in
        let read =
          IsBody-parse_body radix body value (omega (arith, ten))
            (ds, IsDigits-digits radix body ds ten is, some_digit, reached, bound) in
        rw (IsSplit-split_radix bytes radix body split) read
