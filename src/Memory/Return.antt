-- ===== src/Memory/Return.antt =====
-- src/memory/mod.rs, `dealloc_slot`: what comes back, and that `alloc_slot` is undone.
use slope.Base.{
  ℕ, ◌+◌, ◌-◌, ◌*◌, ◌/◌, ◌%◌, ◌<◌, ◌≡◌, sym, ap, ap₂, subst, inl, inr, Bool, true, false, some,
  length, if◌then◌else◌, arith, Bool-cases, length-set, ℕ_discrete, ◌∙◌,
}
use slope.Memory.Mask.{
  word_at, bit_at, write_bit, all_ones-fill, length-word_at, write_bit-IsShaped, bit_at-write_self,
  bit_at-write_ne, write_bit-undo,
}
use slope.Memory.Page.{SlabPage, alloc_slot, dealloc_slot}
use slope.Memory.Slot.{IsValid, is_free, slot_address, Alloc, alloc_slot-Alloc}
use native.Mathlib.Nat.{mul-mod_left, mul-div_left, div-add-mod'}

-- The page when a taken slot has come back.
abbrev give_slot : SlabPage → ℕ → SlabPage
give_slot p slot = record p {
  free_mask = write_bit p.free_mask (slot / 64) (slot % 64) true;
  free_count = p.free_count + 1;
}

-- An address of a slot is taken back if the slot is taken, and refused if it is free.
pub dealloc_slot-address :
    (p : SlabPage) (slot : ℕ)
    → 0 < p.object_size
    → slot < p.slot_count
    → dealloc_slot (slot_address p slot) p
      ≡ (if is_free p slot then (false, p) else (true, give_slot p slot))
unfolding dealloc_slot
dealloc_slot-address p slot sized below =
    ground (arith, offset, mul-mod_left slot p.object_size, mul-div_left slot sized)
  where
    offset : p.base + slot * p.object_size - p.base ≡ slot * p.object_size
    offset = omega arith

-- A refusal leaves the page as it was.
pub dealloc_slot-false :
    (ptr : ℕ) (p : SlabPage) → (dealloc_slot ptr p).0 ≡ false → (dealloc_slot ptr p).1 ≡ p
unfolding dealloc_slot
dealloc_slot-false ptr p e = ground arith

-- Nothing else is taken back.
pub dealloc_slot-true :
    (ptr : ℕ) (p : SlabPage)
    → (dealloc_slot ptr p).0 ≡ true
    → (slot : ℕ) × (ptr ≡ slot_address p slot) × (slot < p.slot_count) × (is_free p slot ≡ false)
unfolding dealloc_slot
dealloc_slot-true ptr p e = (
  (ptr - p.base) / p.object_size,
  ground (arith, div-add-mod' (ptr - p.base) p.object_size),
  ground arith,
  ground arith,
)

inside :
    (p : SlabPage) (slot : ℕ) → IsValid p → slot < p.slot_count → slot / 64 < length p.free_mask
inside p slot v h = omega (arith, v.words, v.slots)

bit_inside :
    (p : SlabPage) (slot : ℕ)
    → IsValid p
    → slot < p.slot_count
    → slot % 64 < length (word_at p.free_mask (slot / 64))
bit_inside p slot v h =
    omega (arith, length-word_at p.free_mask (slot / 64) v.shaped (inside p slot v h))

restored :
    (p p' : SlabPage) (slot ptr : ℕ) → IsValid p → Alloc p p' ptr slot → give_slot p' slot ≡ p
restored p p' slot ptr v taken = λ i. record {
  base = taken.same.0 i;
  free_mask = mask i;
  object_size = taken.same.1 i;
  slot_count = taken.same.2 i;
  free_count = count i;
}
  where
    mask : write_bit p'.free_mask (slot / 64) (slot % 64) true ≡ p.free_mask
    mask =
        ap (λ ws. write_bit ws (slot / 64) (slot % 64) true) taken.mask
        ∙ write_bit-undo p.free_mask (slot / 64) (slot % 64) false true taken.was_free
            (inside p slot v taken.below)

    count : p'.free_count + 1 ≡ p.free_count
    count = omega (arith, taken.counted)

-- A slot that a valid page hands out and gets back at once leaves the page exactly as it was.
pub alloc_slot-dealloc_slot :
    (p : SlabPage) (ptr : ℕ)
    → IsValid p
    → (alloc_slot p).0 ≡ some ptr
    → dealloc_slot ptr (alloc_slot p).1 ≡ (true, p)
alloc_slot-dealloc_slot p ptr v e =
    let (slot, taken, v') = alloc_slot-Alloc p ptr v e in
    let (base, size, count) = taken.same in
    let address : ptr ≡ slot_address (alloc_slot p).1 slot =
      taken.address ∙ sym (ap₂ (λ (x y : ℕ). x + slot * y) base size) in
    let back =
      dealloc_slot-address (alloc_slot p).1 slot v'.sized (omega (arith, taken.below, count)) in
    ap (λ q. dealloc_slot q (alloc_slot p).1) address
    ∙ back
    ∙ ap (λ b. if b then (false, (alloc_slot p).1) else (true, give_slot (alloc_slot p).1 slot))
        taken.now_taken
    ∙ ap (λ (q : SlabPage). (true, q)) (restored p (alloc_slot p).1 slot ptr v taken)

given-is_free :
    (p : SlabPage) (slot : ℕ)
    → IsValid p
    → slot < p.slot_count
    → is_free (give_slot p slot) slot ≡ true
given-is_free p slot v h =
    bit_at-write_self p.free_mask (slot / 64) (slot % 64) true (inside p slot v h)
      (bit_inside p slot v h)

given :
    (ptr : ℕ) (p : SlabPage)
    → IsValid p
    → (dealloc_slot ptr p).0 ≡ true
    → (slot : ℕ) × (slot < p.slot_count)
      × (is_free p slot ≡ false)
      × (ptr ≡ slot_address p slot)
      × (dealloc_slot ptr p ≡ (true, give_slot p slot))
given ptr p v e =
    let (slot, address, below, taken) = dealloc_slot-true ptr p e in
    (
      slot,
      below,
      taken,
      address,
      ap (λ q. dealloc_slot q p) address
          ∙ dealloc_slot-address p slot v.sized below
          ∙ ap (λ b. if b then (false, p) else (true, give_slot p slot)) taken,
    )

-- An address that a valid page has taken back is refused the second time, and the page stays as
-- it is.
pub dealloc_slot_twice :
    (ptr : ℕ) (p : SlabPage)
    → IsValid p
    → (dealloc_slot ptr p).0 ≡ true
    → dealloc_slot ptr (dealloc_slot ptr p).1 ≡ (false, (dealloc_slot ptr p).1)
dealloc_slot_twice ptr p v e =
    let (slot, below, taken, address, first) = given ptr p v e in
    let p' = give_slot p slot in
    let second : dealloc_slot ptr p' ≡ (false, p') =
      ap (λ q. dealloc_slot q p') address
      ∙ dealloc_slot-address p' slot v.sized below
      ∙ ap (λ b. if b then (false, p') else (true, give_slot p' slot))
          (given-is_free p slot v below) in
    subst (λ (r : Bool × SlabPage). dealloc_slot ptr r.1 ≡ (false, r.1)) (sym first) second

give_slot-bounded :
    (p : SlabPage) (slot wi b : ℕ)
    → IsValid p
    → slot < p.slot_count
    → bit_at (give_slot p slot).free_mask wi b ≡ true
    → wi * 64 + b < p.slot_count
give_slot-bounded p slot wi b v h e = elim (ℕ_discrete (slot / 64) wi) [
  | yes at_word ↦ elim (ℕ_discrete (slot % 64) b) [
    | yes at_bit ↦ omega arith
    | no d ↦
        v.bounded wi b
          (sym (bit_at-write_ne p.free_mask (slot / 64) (slot % 64) true wi b (inr d)) ∙ e)
  ]
  | no d ↦
      v.bounded wi b
        (sym (bit_at-write_ne p.free_mask (slot / 64) (slot % 64) true wi b (inl d)) ∙ e)
]

give_slot-IsValid :
    (p : SlabPage) (slot : ℕ)
    → IsValid p
    → slot < p.slot_count
    → is_free p slot ≡ false
    → IsValid (give_slot p slot)
give_slot-IsValid p slot v h e = record {
  words = length-set p.free_mask (slot / 64) _ ∙ v.words;
  shaped = write_bit-IsShaped p.free_mask (slot / 64) (slot % 64) true v.shaped;
  sized = v.sized;
  fits = v.fits;
  slots = v.slots;
  counted = omega (
    arith,
    all_ones-fill p.free_mask (slot / 64) (slot % 64) (inside p slot v h) (bit_inside p slot v h) e,
    v.counted,
  );
  bounded = λ wi b. give_slot-bounded p slot wi b v h;
}

-- A valid page stays valid whatever address it is asked to take back.
pub dealloc_slot-IsValid : (ptr : ℕ) (p : SlabPage) → IsValid p → IsValid (dealloc_slot ptr p).1
dealloc_slot-IsValid ptr p v = elim (Bool-cases (dealloc_slot ptr p).0) [
  | inl e ↦
      let (slot, below, taken, address, first) = given ptr p v e in
      subst (λ (r : Bool × SlabPage). IsValid r.1) (sym first)
        (give_slot-IsValid p slot v below taken)
  | inr e ↦ subst IsValid (sym (dealloc_slot-false ptr p e)) v
]
