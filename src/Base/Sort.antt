-- ===== src/Base/Sort.antt =====
-- Rust's `sort_unstable` on unsigned words. Equal words are not told apart, so any sorting
-- function gives the same list; this one inserts.
use Prim.Native.Nat.{ℕ, zero, suc, ◌≤◌, ◌<◌}
use mathlib.Core.Path.{◌≡◌, refl}
use mathlib.Core.List.{List, [], ◌∷◌}
use native.Mathlib.Omega.{arith}
use slope.Base.Tests.{leb, if◌then◌else◌}
use slope.Base.Lists.{length, get_or, take, set, replicate, All}

abbrev pub insert : ℕ → List ℕ → List ℕ
insert v [] = v ∷ []
insert v (x ∷ xs) = if leb v x then v ∷ x ∷ xs else x ∷ insert v xs

abbrev pub sort : List ℕ → List ℕ
sort [] = []
sort (x ∷ xs) = insert x (sort xs)

pub length-insert : (v : ℕ) (xs : List ℕ) → length (insert v xs) ≡ suc (length xs)
length-insert v [] = refl
length-insert v (x ∷ xs) = ground (arith, length-insert v xs)

pub length-sort : (xs : List ℕ) → length (sort xs) ≡ length xs
length-sort [] = refl
length-sort (x ∷ xs) = omega (arith, length-insert x (sort xs), length-sort xs)

-- Every element is at least `low`, and the list rises.
abbrev pub Rises : ℕ → List ℕ → Type 0
Rises low [] = Unit {0}
Rises low (x ∷ xs) = (low ≤ x) × Rises x xs

insert-Rises : (low v : ℕ) (xs : List ℕ) → low ≤ v → Rises low xs → Rises low (insert v xs)
insert-Rises low v [] h r = (h, tt)
insert-Rises low v (x ∷ xs) h r = ground (arith, insert-Rises x v xs)

pub sort-Rises : (xs : List ℕ) → Rises 0 (sort xs)
sort-Rises [] = tt
sort-Rises (x ∷ xs) = insert-Rises 0 x (sort xs) (omega arith) (sort-Rises xs)

-- How many words are at most `v`.
abbrev pub count_le : ℕ → List ℕ → ℕ
count_le v [] = 0
count_le v (x ∷ xs) = if leb x v then suc (count_le v xs) else count_le v xs

count_le-insert : (v y : ℕ) (xs : List ℕ) → count_le v (insert y xs) ≡ count_le v (y ∷ xs)
count_le-insert v y [] = refl
count_le-insert v y (x ∷ xs) = ground (arith, count_le-insert v y xs)

pub count_le-sort : (v : ℕ) (xs : List ℕ) → count_le v (sort xs) ≡ count_le v xs
count_le-sort v [] = refl
count_le-sort v (x ∷ xs) = ground (arith, count_le-insert v x (sort xs), count_le-sort v xs)

-- In a rising list the element at `i` has at least `i + 1` elements at most as large.
Rises-get_or : (low : ℕ) (xs : List ℕ) (i : ℕ) → Rises low xs → i < length xs → low ≤ get_or xs i 0
Rises-get_or low [] i r h = elim h [ ]
Rises-get_or low (x ∷ xs) zero r h = r.0
Rises-get_or low (x ∷ xs) (suc i) r h = omega (arith, Rises-get_or x xs i r.1 (omega arith))

pub order_statistic :
    (low : ℕ) (xs : List ℕ) (i : ℕ)
    → Rises low xs
    → i < length xs
    → suc i ≤ count_le (get_or xs i 0) xs
order_statistic low [] i r h = elim h [ ]
order_statistic low (x ∷ xs) zero r h = ground arith
order_statistic low (x ∷ xs) (suc i) r h =
    ground (arith, order_statistic x xs i r.1 (omega arith), Rises-get_or x xs i r.1 (omega arith))

pub count_le_mono : (v w : ℕ) (xs : List ℕ) → v ≤ w → count_le v xs ≤ count_le w xs
count_le_mono v w [] h = omega arith
count_le_mono v w (x ∷ xs) h = ground (arith, count_le_mono v w xs)

insert-All-le :
    (m v : ℕ) (xs : List ℕ) → v ≤ m → All (λ x. x ≤ m) xs → All (λ x. x ≤ m) (insert v xs)
insert-All-le m v [] h a = (h, tt)
insert-All-le m v (x ∷ xs) h a = ground (arith, insert-All-le m v xs h a.1)

pub sort-All-le : (m : ℕ) (xs : List ℕ) → All (λ x. x ≤ m) xs → All (λ x. x ≤ m) (sort xs)
sort-All-le m [] a = tt
sort-All-le m (x ∷ xs) a = insert-All-le m x (sort xs) a.0 (sort-All-le m xs a.1)

pub get_or-All-le : (m : ℕ) (xs : List ℕ) (i : ℕ) → All (λ x. x ≤ m) xs → get_or xs i 0 ≤ m
get_or-All-le m [] i a = omega arith
get_or-All-le m (x ∷ xs) zero a = a.0
get_or-All-le m (x ∷ xs) (suc i) a = get_or-All-le m xs i a.1

pub take-All-le : (m n : ℕ) (xs : List ℕ) → All (λ x. x ≤ m) xs → All (λ x. x ≤ m) (take n xs)
take-All-le m zero xs a = tt
take-All-le m (suc n) [] a = tt
take-All-le m (suc n) (x ∷ xs) a = (a.0, take-All-le m n xs a.1)

pub set-All-le :
    (m i v : ℕ) (xs : List ℕ) → v ≤ m → All (λ x. x ≤ m) xs → All (λ x. x ≤ m) (set xs i v)
set-All-le m i v [] h a = tt
set-All-le m zero v (x ∷ xs) h a = (h, a.1)
set-All-le m (suc i) v (x ∷ xs) h a = (a.0, set-All-le m i v xs h a.1)

pub replicate-All-le : (m n : ℕ) → All (λ x. x ≤ m) (replicate n 0)
replicate-All-le m zero = tt
replicate-All-le m (suc n) = (omega arith, replicate-All-le m n)
