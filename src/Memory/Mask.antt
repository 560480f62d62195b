-- ===== src/Memory/Mask.antt =====
-- src/memory/mod.rs: the free mask of a page. A `u64` of the mask is the list of its 64 bits, the
-- lowest first, so `word & (1 << b) != 0` reads the bit at `b`, `|=` and `&= !` write it, and
-- `trailing_zeros` of a word that is not zero is the place of its first set bit.
use slope.Base.{
  ℕ, zero, suc, ◌+◌, ◌≤◌, ◌<◌, ◌≡◌, ◌≢◌, refl, ap, subst, Bool, true, false, Option, none, some,
  List, [], ◌∷◌, length, get_or, set, All, arith, inl, inr, ◌⊎◌, ◌∙◌, length-set, get_or-set_self,
  get_or-set_ne, set-set, set-get_or, ℕ_discrete,
}

abbrev pub Word : Type 0
Word = List Bool

unfoldable pub first_set : Word → Option ℕ
first_set [] = none
first_set (true ∷ w) = some 0
first_set (false ∷ w) = elim (first_set w) [ none ↦ none | some b ↦ some (suc b) ]

abbrev pub word_at : List Word → ℕ → Word
word_at ws wi = get_or ws wi []

abbrev pub bit_at : List Word → ℕ → ℕ → Bool
bit_at ws wi b = get_or (get_or ws wi []) b false

abbrev pub write_bit : List Word → ℕ → ℕ → Bool → List Word
write_bit ws wi b v = set ws wi (set (get_or ws wi []) b v)

-- How many bits are set.
abbrev pub ones : Word → ℕ
ones [] = 0
ones (true ∷ w) = suc (ones w)
ones (false ∷ w) = ones w

abbrev pub all_ones : List Word → ℕ
all_ones [] = 0
all_ones (w ∷ ws) = ones w + all_ones ws

pub first_set-some :
    (w : Word) (b : ℕ) → first_set w ≡ some b → (get_or w b false ≡ true) × (b < length w)
unfolding first_set
first_set-some [] b e = ground arith
first_set-some (true ∷ w) zero e = (refl, omega arith)
first_set-some (true ∷ w) (suc b) e = ground arith
first_set-some (false ∷ w) zero e = ground arith
first_set-some (false ∷ w) (suc b) e = ground (arith, first_set-some w b)

-- No set bit lies below the first, and there is a first if there is any.
pub first_set_least :
    (w : Word) (b : ℕ) → get_or w b false ≡ true → (a : ℕ) × (first_set w ≡ some a) × (a ≤ b)
unfolding first_set
first_set_least [] b e = ground arith
first_set_least (true ∷ w) b e = (0, refl, omega arith)
first_set_least (false ∷ w) zero e = ground arith
first_set_least (false ∷ w) (suc b) e =
    let (a, found, least) = first_set_least w b e in (suc a, rw found, omega arith)

ones-set-false : (w : Word) (b : ℕ) → get_or w b false ≡ true → ones w ≡ suc (ones (set w b false))
ones-set-false [] b e = ground arith
ones-set-false (v ∷ w) zero e = ground arith
ones-set-false (v ∷ w) (suc b) e = ground (arith, ones-set-false w b e)

ones-set-true :
    (w : Word) (b : ℕ)
    → b < length w
    → get_or w b false ≡ false
    → ones (set w b true) ≡ suc (ones w)
ones-set-true [] b h e = elim h [ ]
ones-set-true (v ∷ w) zero h e = ground arith
ones-set-true (v ∷ w) (suc b) h e = ground (arith, ones-set-true w b (omega arith) e)

pub all_ones-clear :
    (ws : List Word) (wi b : ℕ)
    → bit_at ws wi b ≡ true
    → all_ones ws ≡ suc (all_ones (write_bit ws wi b false))
all_ones-clear [] wi b e = ground arith
all_ones-clear (w ∷ ws) zero b e = omega (arith, ones-set-false w b e)
all_ones-clear (w ∷ ws) (suc wi) b e = omega (arith, all_ones-clear ws wi b e)

pub all_ones-fill :
    (ws : List Word) (wi b : ℕ)
    → wi < length ws
    → b < length (word_at ws wi)
    → bit_at ws wi b ≡ false
    → all_ones (write_bit ws wi b true) ≡ suc (all_ones ws)
all_ones-fill [] wi b h k e = elim h [ ]
all_ones-fill (w ∷ ws) zero b h k e = omega (arith, ones-set-true w b k e)
all_ones-fill (w ∷ ws) (suc wi) b h k e = omega (arith, all_ones-fill ws wi b (omega arith) k e)

-- Every word has 64 bits.
abbrev pub IsShaped : List Word → Type 0
IsShaped = All (λ w. length w ≡ 64)

pub length-word_at :
    (ws : List Word) (wi : ℕ) → IsShaped ws → wi < length ws → length (word_at ws wi) ≡ 64
length-word_at [] wi s h = elim h [ ]
length-word_at (w ∷ ws) zero s h = s.0
length-word_at (w ∷ ws) (suc wi) s h = length-word_at ws wi s.1 (omega arith)

pub bit_in_range :
    (ws : List Word) (wi b : ℕ) → IsShaped ws → bit_at ws wi b ≡ true → (wi < length ws) × (b < 64)
bit_in_range [] wi b s e = ground arith
bit_in_range (w ∷ ws) zero b s e = (omega arith, omega (arith, s.0, in_word w b e))
  where
    in_word : (w : Word) (b : ℕ) → get_or w b false ≡ true → b < length w
    in_word [] b e = ground arith
    in_word (x ∷ w) zero e = omega arith
    in_word (x ∷ w) (suc b) e = omega (arith, in_word w b e)
bit_in_range (w ∷ ws) (suc wi) b s e =
    let rest = bit_in_range ws wi b s.1 e in (omega (arith, rest.0), rest.1)

pub write_bit-IsShaped :
    (ws : List Word) (wi b : ℕ) (v : Bool) → IsShaped ws → IsShaped (write_bit ws wi b v)
write_bit-IsShaped [] wi b v s = tt
write_bit-IsShaped (w ∷ ws) zero b v s = (length-set w b v ∙ s.0, s.1)
write_bit-IsShaped (w ∷ ws) (suc wi) b v s = (s.0, write_bit-IsShaped ws wi b v s.1)

same_word :
    (ws : List Word) (wi b a : ℕ) (v : Bool)
    → b ≢ a
    → bit_at (write_bit ws wi b v) wi a ≡ bit_at ws wi a
same_word [] wi b a v h = refl
same_word (w ∷ ws) zero b a v h = get_or-set_ne w b a v false h
same_word (w ∷ ws) (suc wi) b a v h = same_word ws wi b a v h

module _ (ws : List Word) (wi b : ℕ) (v : Bool) where
  pub bit_at-write_self :
      wi < length ws → b < length (word_at ws wi) → bit_at (write_bit ws wi b v) wi b ≡ v
  bit_at-write_self h k =
      rw (get_or-set_self ws wi (set (word_at ws wi) b v) [] h)
        (get_or-set_self (word_at ws wi) b v false k)

  -- Another bit of the mask keeps its value.
  pub bit_at-write_ne :
      (wj a : ℕ) → (wi ≢ wj) ⊎ (b ≢ a) → bit_at (write_bit ws wi b v) wj a ≡ bit_at ws wj a
  bit_at-write_ne wj a (inl h) = ap (λ (w : Word). get_or w a false) (get_or-set_ne ws wi wj _ [] h)
  bit_at-write_ne wj a (inr h) = elim (ℕ_discrete wi wj) [
    | yes e ↦
        subst (λ k. bit_at (write_bit ws wi b v) k a ≡ bit_at ws k a) e (same_word ws wi b a v h)
    | no h ↦ ap (λ (w : Word). get_or w a false) (get_or-set_ne ws wi wj _ [] h)
  ]

  -- Writing the old value back undoes a write.
  pub write_bit-undo :
      (u : Bool) → bit_at ws wi b ≡ u → wi < length ws → write_bit (write_bit ws wi b v) wi b u ≡ ws
  write_bit-undo u e h =
      rw
        (
          get_or-set_self ws wi (set (word_at ws wi) b v) [] h,
          set-set ws wi,
          set-set (word_at ws wi) b,
        )
        (rw (← e, set-get_or (word_at ws wi) b false) (set-get_or ws wi []))
