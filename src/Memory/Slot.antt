-- ===== src/Memory/Slot.antt =====
-- src/memory/mod.rs, `SlabPage`: a slot is handed out once, and taken back once.
use slope.Base.{
  ℕ, zero, suc, ◌+◌, ◌-◌, ◌*◌, ◌/◌, ◌%◌, ◌≤◌, ◌<◌, min, ◌≡◌, ◌≢◌, refl, sym, ap₂, subst, ◌⊎◌, ◌↔◌,
  inl, inr, Bool, true, false, Option, none, some, List, [], ◌∷◌, length, leb, arith, Bool-cases,
  Option-cases, length-set, ℕ_discrete, ◌∙◌, get_or,
}
use slope.Memory.Mask.{
  Word, first_set, bit_at, write_bit, ones, all_ones, first_set-some, first_set_least,
  all_ones-clear, IsShaped, length-word_at, bit_in_range, write_bit-IsShaped, bit_at-write_self,
  bit_at-write_ne,
}
use slope.Memory.Page.{SlabPage, page_size, word_count, bitmask_words, search, alloc_slot}

-- The bit of a slot: set while the slot is free.
abbrev pub is_free : SlabPage → ℕ → Bool
is_free p slot = bit_at p.free_mask (slot / 64) (slot % 64)

abbrev pub slot_address : SlabPage → ℕ → ℕ
slot_address p slot = p.base + slot * p.object_size

pub record IsValid (p : SlabPage) : Type 0 where
  pub words : length p.free_mask ≡ 8
  pub shaped : IsShaped p.free_mask
  pub sized : 0 < p.object_size
  pub fits : p.slot_count * p.object_size ≤ page_size
  pub slots : p.slot_count ≤ 512
  pub counted : p.free_count ≡ all_ones p.free_mask
  pub bounded : (wi b : ℕ) → bit_at p.free_mask wi b ≡ true → wi * 64 + b < p.slot_count

-- What a search finds: a set bit, below the limit.
abbrev IsFound : ℕ → ℕ → ℕ → List Word → ℕ → ℕ → Type 0
IsFound k wi slots ws wf b =
    (i : ℕ) × (wf ≡ wi + i) × (i < k) × (bit_at ws i b ≡ true) × (wf * 64 + b < slots)

IsFound-later :
    (k wi slots : ℕ) (w : Word) (ws : List Word) (wf b : ℕ)
    → IsFound k (suc wi) slots ws wf b
    → IsFound (suc k) wi slots (w ∷ ws) wf b
IsFound-later k wi slots w ws wf b (i, e, h, free, below) =
    (suc i, omega arith, omega arith, free, below)

search-IsFound :
    (k wi slots : ℕ) (ws : List Word) (wf b : ℕ)
    → search k wi slots ws ≡ some (wf, b)
    → IsFound k wi slots ws wf b
unfolding search
search-IsFound zero wi slots ws wf b e = absurd (ground arith)
search-IsFound (suc k) wi slots [] wf b e = absurd (ground arith)
search-IsFound (suc k) wi slots (w ∷ ws) wf b e = elim (Option-cases (first_set w)) [
  | inl h ↦
      IsFound-later k wi slots w ws wf b (search-IsFound k (suc wi) slots ws wf b (ground arith))
  | inr (a, h) ↦ elim (Bool-cases (leb slots (wi * 64 + a))) [
    | inl full ↦
        IsFound-later k wi slots w ws wf b (search-IsFound k (suc wi) slots ws wf b (ground arith))
    | inr room ↦ (0, ground arith, omega arith, ground (arith, first_set-some w a h), ground arith)
  ]
]

-- A search that finds nothing has passed every set bit below the limit.
search_missed :
    (k wi slots : ℕ) (ws : List Word) (i b : ℕ)
    → search k wi slots ws ≡ none
    → i < k
    → bit_at ws i b ≡ true
    → slots ≤ (wi + i) * 64 + b
unfolding search
search_missed zero wi slots ws i b e h free = elim h [ ]
search_missed (suc k) wi slots [] i b e h free = ground arith
search_missed (suc k) wi slots (w ∷ ws) zero b e h free =
    let (a, found, least) = first_set_least w b free in ground arith
search_missed (suc k) wi slots (w ∷ ws) (suc i) b e h free =
    omega
      (arith, search_missed k (suc wi) slots ws i b (rest (first_set w) refl) (omega arith) free)
  where
    rest : (o : Option ℕ) → first_set w ≡ o → search k (suc wi) slots ws ≡ none
    rest none p = ground arith
    rest (some a) p = ground arith

-- What a slot that is handed out was, and what is left.
pub record Alloc (p p' : SlabPage) (ptr slot : ℕ) : Type 0 where
  pub address : ptr ≡ slot_address p slot
  pub below : slot < p.slot_count
  pub was_free : is_free p slot ≡ true
  pub now_taken : is_free p' slot ≡ false
  pub others : (other : ℕ) → other ≢ slot → is_free p' other ≡ is_free p other
  pub counted : p.free_count ≡ suc p'.free_count
  pub mask : p'.free_mask ≡ write_bit p.free_mask (slot / 64) (slot % 64) false
  pub same : (p'.base ≡ p.base) × (p'.object_size ≡ p.object_size) × (p'.slot_count ≡ p.slot_count)

-- Two slots lie in different words or at different bits.
pub apart : (wi b other : ℕ) → b < 64 → other ≢ wi * 64 + b → (wi ≢ other / 64) ⊎ (b ≢ other % 64)
apart wi b other h k = elim (ℕ_discrete wi (other / 64)) [
  | yes e ↦ inr (λ d. k (omega arith))
  | no d ↦ inl d
]

slot_word : (wi b : ℕ) → b < 64 → (wi * 64 + b) / 64 ≡ wi
slot_word wi b h = omega arith

slot_bit : (wi b : ℕ) → b < 64 → (wi * 64 + b) % 64 ≡ b
slot_bit wi b h = omega arith

is_free_at : (p : SlabPage) (wi b : ℕ) → b < 64 → is_free p (wi * 64 + b) ≡ bit_at p.free_mask wi b
is_free_at p wi b h = rw (slot_word wi b h, slot_bit wi b h)

cleared :
    (ws : List Word) (wi b wj a : ℕ)
    → IsShaped ws
    → bit_at ws wi b ≡ true
    → bit_at (write_bit ws wi b false) wj a ≡ true
    → bit_at ws wj a ≡ true
cleared ws wi b wj a s free e =
    let (inside, low) = bit_in_range ws wi b s free in
    elim (ℕ_discrete wi wj) [
      | yes at_word ↦ elim (ℕ_discrete b a) [
        | yes at_bit ↦ absurd (
            false-ne-true (
              sym (
                bit_at-write_self ws wi b false inside
                  (omega (arith, length-word_at ws wi s inside)))
              ∙ ap₂ (bit_at (write_bit ws wi b false)) at_word at_bit
              ∙ e))
        | no d ↦ sym (bit_at-write_ne ws wi b false wj a (inr d)) ∙ e
      ]
      | no d ↦ sym (bit_at-write_ne ws wi b false wj a (inl d)) ∙ e
    ]
  where
    false-ne-true : false ≡ true → ⊥
    false-ne-true h = cc

-- The page when the slot at bit `b` of word `wi` has been handed out.
abbrev take_slot : SlabPage → ℕ → ℕ → SlabPage
take_slot p wi b = record p {
  free_mask = write_bit p.free_mask wi b false;
  free_count = p.free_count - 1;
}

take_slot-IsValid :
    (p : SlabPage) (wi b : ℕ)
    → IsValid p
    → bit_at p.free_mask wi b ≡ true
    → IsValid (take_slot p wi b)
take_slot-IsValid p wi b v free = record {
  words = length-set p.free_mask wi _ ∙ v.words;
  shaped = write_bit-IsShaped p.free_mask wi b false v.shaped;
  sized = v.sized;
  fits = v.fits;
  slots = v.slots;
  counted = omega (arith, all_ones-clear p.free_mask wi b free, v.counted);
  bounded = λ wj a e. v.bounded wj a (cleared p.free_mask wi b wj a v.shaped free e);
}

take_slot-Alloc :
    (p : SlabPage) (wi b : ℕ)
    → IsValid p
    → bit_at p.free_mask wi b ≡ true
    → wi * 64 + b < p.slot_count
    → Alloc p (take_slot p wi b) (slot_address p (wi * 64 + b)) (wi * 64 + b)
take_slot-Alloc p wi b v free below =
    let (inside, low) = bit_in_range p.free_mask wi b v.shaped free in
    record {
      address = refl;
      below = below;
      was_free = is_free_at p wi b low ∙ free;
      now_taken =
          is_free_at (take_slot p wi b) wi b low
          ∙ bit_at-write_self p.free_mask wi b false inside
              (omega (arith, length-word_at p.free_mask wi v.shaped inside));
      others = λ other d.
          bit_at-write_ne p.free_mask wi b false (other / 64) (other % 64) (apart wi b other low d);
      counted = omega (arith, all_ones-clear p.free_mask wi b free, v.counted);
      mask = rw (slot_word wi b low, slot_bit wi b low);
      same = (refl, refl, refl);
    }

-- When a valid page hands out an address, it is that of a slot below the slot count that was
-- free: that slot is taken afterwards, the bit of every other slot is unchanged, the count of
-- free slots falls by one, and the page stays valid.
pub alloc_slot-Alloc :
    (p : SlabPage) (ptr : ℕ)
    → IsValid p
    → (alloc_slot p).0 ≡ some ptr
    → (slot : ℕ) × Alloc p (alloc_slot p).1 ptr slot × IsValid (alloc_slot p).1
unfolding alloc_slot
alloc_slot-Alloc p ptr v e =
    elim (Option-cases
      (search (min (word_count p.slot_count) bitmask_words) 0 p.slot_count p.free_mask)) [
        | inl h ↦ absurd (ground arith)
        | inr ((wi, b), h) ↦
            let (i, at, _, free, below) = search-IsFound _ 0 p.slot_count p.free_mask wi b h in
            let at_word : wi ≡ i = omega arith in
            let here : bit_at p.free_mask wi b ≡ true = rw at_word free in
            let address : slot_address p (wi * 64 + b) ≡ ptr = ground arith in
            (
              wi * 64 + b,
              rw (h, alloc_slot)
                  (subst (λ q. Alloc p (take_slot p wi b) q (wi * 64 + b)) address
                    (take_slot-Alloc p wi b v here below)),
              rw (h, alloc_slot) (take_slot-IsValid p wi b v here),
            )
      ]

all_clear-no_ones :
    (ws : List Word) → ((i b : ℕ) → i < length ws → bit_at ws i b ≢ true) → all_ones ws ≡ 0
all_clear-no_ones [] h = refl
all_clear-no_ones (w ∷ ws) h = omega (
  arith,
  clear-no_ones w (λ b. h 0 b (omega arith)),
  all_clear-no_ones ws (λ i b k. h (suc i) b (omega arith)),
)
  where
    clear-no_ones : (w : Word) → ((b : ℕ) → get_or w b false ≢ true) → ones w ≡ 0
    clear-no_ones [] h = refl
    clear-no_ones (true ∷ w) h = absurd (h 0 refl)
    clear-no_ones (false ∷ w) h = clear-no_ones w (λ b. h (suc b))

missed-no_ones :
    (p : SlabPage)
    → IsValid p
    → search (min (word_count p.slot_count) bitmask_words) 0 p.slot_count p.free_mask ≡ none
    → p.free_count ≡ 0
missed-no_ones p v h =
    v.counted
    ∙ all_clear-no_ones p.free_mask λ i b inside free.
      let below = v.bounded i b free in
      let missed =
        search_missed _ 0 p.slot_count p.free_mask i b h (omega (arith, v.words, inside)) free in
      omega (arith, missed, below)

-- A valid page hands out no slot exactly when its count of free slots is zero.
pub alloc_slot-none : (p : SlabPage) → IsValid p → ((alloc_slot p).0 ≡ none) ↔ (p.free_count ≡ 0)
unfolding alloc_slot
alloc_slot-none p v =
    elim (Option-cases
      (search (min (word_count p.slot_count) bitmask_words) 0 p.slot_count p.free_mask)) [
        | inl h ↦ ((λ _. missed-no_ones p v h), λ _. rw (h, alloc_slot))
        | inr ((wi, b), h) ↦
            let (slot, taken, _) =
              alloc_slot-Alloc p (slot_address p (wi * 64 + b)) v (rw (h, alloc_slot)) in
            ((λ e. absurd (ground arith)), λ e. absurd (omega (arith, taken.counted)))
      ]
