-- ===== src/Env/Entry.antt =====
-- src/env.rs: what the entry of a string is, and how its hash and its separator are found.
use slope.Base.{
  ℕ, suc, ◌*◌, ◌%◌, ◌^◌, ◌≡◌, ◌≢◌, ◌==◌, subst, bit_xor, wrapping_mul, refl, sym, ap, inl, inr,
  Bool-cases, none, some, Option-cases, List, [], ◌∷◌, ◌++◌, take, drop, arith,
}
use slope.Env.{EnvEntry, fnv_prime, fnv1a_from, separator}

-- The text has no `=`, the byte 61.
abbrev pub NoEquals : List ℕ → Type 0
NoEquals [] = Unit {0}
NoEquals (byte ∷ bytes) = (byte ≢ 61) × NoEquals bytes

-- The FNV-1a hash of 64 bits, byte by byte from the left.
pub data IsHash : List ℕ → ℕ → Type 0 where
  of_nothing : IsHash [] 14_695_981_039_346_656_037
  of_byte :
      {text : List ℕ} {hash : ℕ}
      → IsHash text hash
      → (byte : ℕ) → IsHash (text ++ byte ∷ []) ((bit_xor hash byte * 1_099_511_628_211) % 2 ^ 64)

-- The entry of a text: the hash of what stands before its first `=`, and the first 65535 bytes of
-- what stands after it.
abbrev pub IsEntry : List ℕ → EnvEntry → Type 0
IsEntry text e =
    (key : List ℕ) × (rest : List ℕ) × (text ≡ key ++ 61 ∷ rest)
    × NoEquals key
    × IsHash key e.key_hash
    × (e.value ≡ take 65_535 rest)

append_assoc_byte : (xs : List ℕ) (x : ℕ) (ys : List ℕ) → (xs ++ x ∷ []) ++ ys ≡ xs ++ x ∷ ys
append_assoc_byte [] x ys = refl
append_assoc_byte (w ∷ xs) x ys = ap (λ (zs : List ℕ). w ∷ zs) (append_assoc_byte xs x ys)

append-nil : (xs : List ℕ) → xs ++ [] ≡ xs
append-nil [] = refl
append-nil (x ∷ xs) = ap (λ (zs : List ℕ). x ∷ zs) (append-nil xs)

pub fnv1a_from-IsHash :
    (before : List ℕ) (hash : ℕ) (bytes : List ℕ)
    → IsHash before hash
    → IsHash (before ++ bytes) (fnv1a_from hash bytes)
unfolding fnv1a_from
fnv1a_from-IsHash before hash [] h = subst (λ l. IsHash l hash) (sym (append-nil before)) h
fnv1a_from-IsHash before hash (byte ∷ bytes) h =
    let next : ℕ = wrapping_mul (bit_xor hash byte) fnv_prime in
    subst (λ l. IsHash l (fnv1a_from next bytes)) (append_assoc_byte before byte bytes)
      (fnv1a_from-IsHash (before ++ byte ∷ []) next bytes (of_byte h byte))

pub separator-none : (text : List ℕ) → separator text ≡ none → NoEquals text
unfolding separator
separator-none [] h = tt
separator-none (byte ∷ bytes) h = elim (Option-cases (separator bytes)) [
  | inl e ↦ ((λ same. ground (arith, h, same)), separator-none bytes e)
  | inr (i, e) ↦ absurd (ground (arith, h, e))
]

pub separator-some :
    (text : List ℕ) (sep : ℕ)
    → separator text ≡ some sep
    → (text ≡ take sep text ++ 61 ∷ drop (suc sep) text) × NoEquals (take sep text)
unfolding separator
separator-some [] sep h = absurd (ground (arith, h))
separator-some (byte ∷ bytes) sep h = elim (Bool-cases (byte == 61)) [
  | inl e ↦
      let at : 0 ≡ sep = ground (arith, h, e) in
      let is : byte ≡ 61 = ground arith in
      subst
        (λ n.
          (byte ∷ bytes ≡ take n (byte ∷ bytes) ++ 61 ∷ drop (suc n) (byte ∷ bytes))
          × NoEquals (take n (byte ∷ bytes)))
        at (ap (λ (b : ℕ). b ∷ bytes) is, tt)
  | inr e ↦ elim (Option-cases (separator bytes)) [
    | inl f ↦ absurd (ground (arith, h, e, f))
    | inr (i, f) ↦
        let at : suc i ≡ sep = ground (arith, h, e, f) in
        let (same, none_before) = separator-some bytes i f in
        subst
          (λ n.
            (byte ∷ bytes ≡ take n (byte ∷ bytes) ++ 61 ∷ drop (suc n) (byte ∷ bytes))
            × NoEquals (take n (byte ∷ bytes)))
          at (ap (λ (l : List ℕ). byte ∷ l) same, ((λ k. ground (arith, e, k)), none_before))
  ]
]
