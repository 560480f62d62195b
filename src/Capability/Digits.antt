-- ===== src/Capability/Digits.antt =====
-- src/capability.rs, `parse_handle`: what its loop reads.
use slope.Base.{
  ℕ, ◌+◌, ◌*◌, ◌≤◌, ◌<◌, ◌≡◌, refl, sym, ap, ap₂, subst, ◌∙◌, inl, inr, false, Bool-cases, Option,
  none, some, Option-cases, ok, Result-cases, List, [], ◌∷◌, length, leb, ◌==◌, if◌then◌else◌,
  arith, u64_mod,
}
use slope.Capability.{digit_of, push_digit, parse_digits, parse_body}
use native.Mathlib.Nat.{le-mul_of_pos_right}

-- The digits that a text stands for, without its underscores; none if a byte is no digit.
unfoldable pub digits : ℕ → List ℕ → Option (List ℕ)
digits radix [] = some []
digits radix (byte ∷ bytes) =
    let rest = digits radix bytes in
    if byte == 95 then rest else (elim (digit_of radix byte) [
      | none ↦ none
      | some d ↦ if leb radix d then none else (elim rest [ none ↦ none | some ds ↦ some (d ∷ ds) ])
    ])

-- The value of digits after a value.
unfoldable pub positional : ℕ → ℕ → List ℕ → ℕ
positional radix value [] = value
positional radix value (d ∷ ds) = positional radix (value * radix + d) ds

push_digit-ok :
    (radix v byte w : ℕ)
    → push_digit radix v byte ≡ ok w
    → (d : ℕ) × (digit_of radix byte ≡ some d)
      × (leb radix d ≡ false)
      × (w ≡ v * radix + d)
      × (w < u64_mod)
unfolding push_digit
push_digit-ok radix v byte w e = elim (Option-cases (digit_of radix byte)) [
  | inl h ↦ absurd (ground arith)
  | inr (d, h) ↦ (d, h, ground arith, ground arith, ground arith)
]

digit-push_digit :
    (radix v byte d : ℕ)
    → digit_of radix byte ≡ some d
    → leb radix d ≡ false
    → v * radix + d < u64_mod
    → push_digit radix v byte ≡ ok (v * radix + d)
unfolding push_digit
digit-push_digit radix v byte d h low fits = ground arith

-- What the loop reads.
abbrev Reads : ℕ → List ℕ → ℕ → ℕ → ℕ → ℕ → Type 0
Reads radix bytes v c w n =
    (ds : List ℕ) × (digits radix bytes ≡ some ds)
    × (positional radix v ds ≡ w)
    × (n ≡ c + length ds)
    × (v < u64_mod → w < u64_mod)

parse_digits-Reads :
    (radix : ℕ) (bytes : List ℕ) (v c w n : ℕ)
    → parse_digits radix bytes v c ≡ ok (w, n)
    → Reads radix bytes v c w n
unfolding parse_digits digits positional
parse_digits-Reads radix [] v c w n e = ([], refl, ground arith, ground arith, λ h. ground arith)
parse_digits-Reads radix (byte ∷ bytes) v c w n e = elim (Bool-cases (byte == 95)) [
  | inl skip ↦
      let (ds, same, value, count, bound) = parse_digits-Reads radix bytes v c w n (ground arith) in
      (ds, ground arith, value, count, bound)
  | inr d ↦ elim (Result-cases (push_digit radix v byte)) [
    | inl (v', h) ↦
        let (digit, at, low, step, bound) = push_digit-ok radix v byte v' h in
        let (ds, same, value, count, kept) =
          parse_digits-Reads radix bytes v' (c + 1) w n (ground arith) in
        (
          digit ∷ ds,
          ground (arith, at, low, same),
          ap (λ x. positional radix x ds) (sym step) ∙ value,
          omega (arith, count),
          λ _. kept bound,
        )
    | inr (f, h) ↦ absurd (ground arith)
  ]
]

positional_ge : (radix v : ℕ) (ds : List ℕ) → 0 < radix → v ≤ positional radix v ds
unfolding positional
positional_ge radix v [] pos = omega arith
positional_ge radix v (d ∷ ds) pos =
    omega (arith, positional_ge radix (v * radix + d) ds pos, scaled)
  where
    scaled : v ≤ v * radix
    scaled = le-mul_of_pos_right v pos

pub digits_cons :
    (radix byte : ℕ) (bytes ds : List ℕ)
    → (byte == 95) ≡ false
    → digits radix (byte ∷ bytes) ≡ some ds
    → (d : ℕ) × (later : List ℕ) × (digit_of radix byte ≡ some d)
      × (leb radix d ≡ false)
      × (digits radix bytes ≡ some later)
      × (ds ≡ d ∷ later)
unfolding digits
digits_cons radix byte bytes ds other e = elim (Option-cases (digit_of radix byte)) [
  | inl h ↦ absurd (ground arith)
  | inr (d, h) ↦ elim (Option-cases (digits radix bytes)) [
    | inl g ↦ absurd (ground arith)
    | inr (later, g) ↦ (d, later, h, ground arith, g, ground arith)
  ]
]

parse_digits_cons :
    (radix byte d : ℕ) (bytes : List ℕ) (v c : ℕ)
    → (byte == 95) ≡ false
    → digit_of radix byte ≡ some d
    → leb radix d ≡ false
    → v * radix + d < u64_mod
    → parse_digits radix (byte ∷ bytes) v c ≡ parse_digits radix bytes (v * radix + d) (c + 1)
unfolding parse_digits
parse_digits_cons radix byte d bytes v c other at low fits =
    rw (other, parse_digits, digit-push_digit radix v byte d at low fits) refl

digits-parse_digits :
    (radix : ℕ) (bytes : List ℕ) (v c : ℕ) (ds : List ℕ)
    → 0 < radix
    → digits radix bytes ≡ some ds
    → positional radix v ds < u64_mod
    → parse_digits radix bytes v c ≡ ok (positional radix v ds, c + length ds)
unfolding parse_digits digits positional
digits-parse_digits radix [] v c ds pos e fits = ground arith
digits-parse_digits radix (byte ∷ bytes) v c ds pos e fits = elim (Bool-cases (byte == 95)) [
  | inl skip ↦
      let rest = digits-parse_digits radix bytes v c ds pos (ground arith) fits in ground arith
  | inr other ↦
      let (d, later, at, low, same, whole) = digits_cons radix byte bytes ds other e in
      let fits' : positional radix (v * radix + d) later < u64_mod =
        subst (λ xs. positional radix v xs < u64_mod) whole fits in
      let small : v * radix + d < u64_mod =
        omega (arith, positional_ge radix (v * radix + d) later pos) in
      let count : c + 1 + length later ≡ c + length ds =
        omega (arith, ap (λ (xs : List ℕ). length xs) whole) in
      parse_digits_cons radix byte d bytes v c other at low small
      ∙ digits-parse_digits radix bytes (v * radix + d) (c + 1) later pos same fits'
      ∙ ap₂ (λ x y. ok (x, y)) (ap (positional radix v) (sym whole)) count
]

abbrev pub IsBody : ℕ → List ℕ → ℕ → Type 0
IsBody radix body value =
    (ds : List ℕ) × (digits radix body ≡ some ds)
    × (0 < length ds)
    × (positional radix 0 ds ≡ value)
    × (value < u64_mod)

pub parse_body-IsBody :
    (radix : ℕ) (body : List ℕ) (value : ℕ)
    → parse_body radix body ≡ ok value
    → IsBody radix body value
unfolding parse_body
parse_body-IsBody radix [] value e = absurd (ground arith)
parse_body-IsBody radix (byte ∷ bytes) value e =
    elim (Result-cases (parse_digits radix (byte ∷ bytes) 0 0)) [
      | inl ((w, n), h) ↦
          let (ds, same, reached, count, bound) =
            parse_digits-Reads radix (byte ∷ bytes) 0 0 w n h in
          let value_is : w ≡ value = ground arith in
          let some_digit : 0 < n = ground arith in
          (
            ds,
            same,
            omega (arith, count),
            reached ∙ value_is,
            omega (arith, bound (omega arith), value_is),
          )
      | inr (f, h) ↦ absurd (ground arith)
    ]

pub IsBody-parse_body :
    (radix : ℕ) (body : List ℕ) (value : ℕ)
    → 0 < radix
    → IsBody radix body value
    → parse_body radix body ≡ ok value
unfolding parse_body digits
IsBody-parse_body radix [] value pos (ds, same, some_digit, reached, bound) = absurd (ground arith)
IsBody-parse_body radix (byte ∷ bytes) value pos (ds, same, some_digit, reached, bound) =
    let read = digits-parse_digits radix (byte ∷ bytes) 0 0 ds pos same (omega (arith, reached)) in
    rw (parse_body, read) (ground (arith, reached))
