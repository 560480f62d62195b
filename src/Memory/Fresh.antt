-- ===== src/Memory/Fresh.antt =====
-- src/memory/mod.rs: the class of a request, and a fresh page of each class.
use slope.Base.{
  ℕ, zero, suc, ◌+◌, ◌-◌, ◌*◌, ◌/◌, ◌≤◌, ◌<◌, ◌≡◌, refl, ◌⊎◌, Bool, true, false, ◌&&◌, Option, none,
  some, List, [], ◌∷◌, get_or, ltb, arith, not, ◌||◌, length, min,
}
use slope.Memory.Mask.{Word, bit_at, IsShaped, all_ones}
use slope.Memory.Page.{new, fresh_mask, page_size}
use slope.Memory.Class.{size_classes, class_for, position_from}
use slope.Memory.Slot.{IsValid}

abbrev pub class_size : ℕ → ℕ
class_size c = get_or size_classes c 0

-- The class of a request is the smallest that holds it, and there is one up to a page.
abbrev pub IsClassOf : ℕ → Option ℕ → Type 0
IsClassOf size none = page_size < size
IsClassOf size (some c) = (c < 10) × (size ≤ class_size c) × ((c ≡ 0) ⊎ (class_size (c - 1) < size))

-- The class of a request is the smallest class that holds it, and there is none exactly when the
-- request is larger than a page.
pub class_for-IsClassOf : (size : ℕ) → IsClassOf size (class_for size)
unfolding class_for position_from
class_for-IsClassOf size = ground arith

-- All set bits of the words from `wi` on stand for slots below the limit.
word_below : ℕ → ℕ → Word → Bool
word_below slot slots [] = true
word_below slot slots (v ∷ w) = (not v || ltb slot slots) && word_below (suc slot) slots w

mask_below : ℕ → ℕ → List Word → Bool
mask_below wi slots [] = true
mask_below wi slots (w ∷ ws) = word_below (wi * 64) slots w && mask_below (suc wi) slots ws

word_below_sound :
    (slot slots : ℕ) (w : Word) (b : ℕ)
    → word_below slot slots w ≡ true
    → get_or w b false ≡ true
    → slot + b < slots
unfolding word_below
word_below_sound slot slots [] b h e = absurd (ground arith)
word_below_sound slot slots (v ∷ w) zero h e = ground arith
word_below_sound slot slots (v ∷ w) (suc b) h e =
    omega (arith, word_below_sound (suc slot) slots w b (ground arith) e)

mask_below_sound :
    (wi slots : ℕ) (ws : List Word) (i b : ℕ)
    → mask_below wi slots ws ≡ true
    → bit_at ws i b ≡ true
    → (wi + i) * 64 + b < slots
unfolding mask_below
mask_below_sound wi slots [] i b h e = absurd (ground arith)
mask_below_sound wi slots (w ∷ ws) zero b h e =
    omega (arith, word_below_sound (wi * 64) slots w b (ground arith) e)
mask_below_sound wi slots (w ∷ ws) (suc i) b h e =
    omega (arith, mask_below_sound (suc wi) slots ws i b (ground arith) e)

fresh_bounded :
    (slots : ℕ)
    → mask_below 0 slots (fresh_mask slots) ≡ true
    → (wi b : ℕ) → bit_at (fresh_mask slots) wi b ≡ true
    → wi * 64 + b < slots
fresh_bounded slots h wi b e = omega (arith, mask_below_sound 0 slots (fresh_mask slots) wi b h e)

fresh_page-IsValid :
    (base size : ℕ)
    → 0 < size
    → (page_size / size * size ≤ page_size) × (page_size / size ≤ 512)
    → (length (fresh_mask (page_size / size)) ≡ 8) × IsShaped (fresh_mask (page_size / size))
    → min (page_size / size) 65_535 ≡ all_ones (fresh_mask (page_size / size))
    → mask_below 0 (page_size / size) (fresh_mask (page_size / size)) ≡ true
    → IsValid (new base size)
unfolding new
fresh_page-IsValid base size sized fits words counted below = record {
  words = words.0;
  shaped = words.1;
  sized = sized;
  fits = fits.0;
  slots = fits.1;
  counted = counted;
  bounded = fresh_bounded (page_size / size) below;
}

-- A fresh page of each of the ten size classes is valid, at any base address.
pub new-IsValid_page : (base c : ℕ) → c < 10 → IsValid (new base (class_size c))
unfolding fresh_mask mask_below word_below
new-IsValid_page base zero h =
    fresh_page-IsValid base 8 (omega arith) (omega arith) (refl, omega arith) refl refl
new-IsValid_page base (suc zero) h =
    fresh_page-IsValid base 16 (omega arith) (omega arith) (refl, omega arith) refl refl
new-IsValid_page base (suc (suc zero)) h =
    fresh_page-IsValid base 32 (omega arith) (omega arith) (refl, omega arith) refl refl
new-IsValid_page base (suc (suc (suc zero))) h =
    fresh_page-IsValid base 64 (omega arith) (omega arith) (refl, omega arith) refl refl
new-IsValid_page base (suc (suc (suc (suc zero)))) h =
    fresh_page-IsValid base 128 (omega arith) (omega arith) (refl, omega arith) refl refl
new-IsValid_page base (suc (suc (suc (suc (suc zero))))) h =
    fresh_page-IsValid base 256 (omega arith) (omega arith) (refl, omega arith) refl refl
new-IsValid_page base (suc (suc (suc (suc (suc (suc zero)))))) h =
    fresh_page-IsValid base 512 (omega arith) (omega arith) (refl, omega arith) refl refl
new-IsValid_page base (suc (suc (suc (suc (suc (suc (suc zero))))))) h =
    fresh_page-IsValid base 1024 (omega arith) (omega arith) (refl, omega arith) refl refl
new-IsValid_page base (suc (suc (suc (suc (suc (suc (suc (suc zero)))))))) h =
    fresh_page-IsValid base 2048 (omega arith) (omega arith) (refl, omega arith) refl refl
new-IsValid_page base (suc (suc (suc (suc (suc (suc (suc (suc (suc zero))))))))) h =
    fresh_page-IsValid base 4096 (omega arith) (omega arith) (refl, omega arith) refl refl
new-IsValid_page base (suc (suc (suc (suc (suc (suc (suc (suc (suc (suc c)))))))))) h =
    absurd (omega arith)
