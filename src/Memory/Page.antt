-- ===== src/Memory/Page.antt =====
-- src/memory/mod.rs, `SlabPage`. An address is a number; nothing is read or written through it.
use slope.Base.{
  ℕ, zero, suc, ◌+◌, ◌-◌, ◌*◌, ◌/◌, ◌%◌, min, Bool, true, false, Option, none, some, List, [], ◌∷◌,
  ◌++◌, replicate, set, ltb, leb, ◌!=◌, if◌then◌else◌,
}
use slope.Memory.Mask.{Word, first_set, bit_at, write_bit}

abbrev pub page_size : ℕ
page_size = 4096

-- `MAX_SLOTS_PER_PAGE` and `BITMASK_WORDS`.
abbrev pub max_slots_per_page : ℕ
max_slots_per_page = 512

abbrev pub bitmask_words : ℕ
bitmask_words = 8

pub record SlabPage : Type 0 where
  pub base : ℕ
  pub free_mask : List Word
  pub object_size : ℕ
  pub slot_count : ℕ
  pub free_count : ℕ

-- `slot_count.div_ceil(64)`.
abbrev pub word_count : ℕ → ℕ
word_count slots = (slots + 63) / 64

-- The words of a fresh mask: `u64::MAX` below the last word of the slots, and zero above it; the
-- last word has only the bits of its slots, if they do not fill it.
abbrev pub full_words : ℕ → List Word
full_words n = replicate n (replicate 64 true) ++ replicate (bitmask_words - n) (replicate 64 false)

abbrev pub low_ones : ℕ → Word
low_ones n = replicate n true ++ replicate (64 - n) false

unfoldable pub fresh_mask : ℕ → List Word
fresh_mask slots =
    let mask : List Word = full_words (min (word_count slots) bitmask_words) in
    if slots % 64 != 0
    then (let last : ℕ = word_count slots - 1 in
        if ltb last bitmask_words then set mask last (low_ones (slots % 64)) else mask)
    else mask

unfoldable pub new : ℕ → ℕ → SlabPage
unfolding fresh_mask
new base object_size =
    let slots : ℕ = page_size / object_size in
    record {
      base = base;
      free_mask = fresh_mask slots;
      object_size = object_size;
      slot_count = slots;
      free_count = min slots 65_535;
    }

-- The loop of `alloc_slot`, with the words from `wi` on: the word and the bit of the first free slot.
unfoldable pub search : ℕ → ℕ → ℕ → List Word → Option (ℕ × ℕ)
search zero wi slots ws = none
search (suc k) wi slots [] = none
search (suc k) wi slots (w ∷ ws) =
    let rest = search k (suc wi) slots ws in
    elim (first_set w) [
      | none ↦ rest
      | some bit ↦ if leb slots (wi * 64 + bit) then rest else some (wi, bit)
    ]

unfoldable pub alloc_slot : SlabPage → Option ℕ × SlabPage
unfolding search
alloc_slot p =
    elim (search (min (word_count p.slot_count) bitmask_words) 0 p.slot_count p.free_mask) [
      | none ↦ (none, p)
      | some (wi, bit) ↦ (
        some (p.base + (wi * 64 + bit) * p.object_size),
        record p { free_mask = write_bit p.free_mask wi bit false; free_count = p.free_count - 1 },
      )
    ]

unfoldable pub dealloc_slot : ℕ → SlabPage → Bool × SlabPage
dealloc_slot ptr p =
    if ltb ptr p.base
    then (false, p)
    else (let offset : ℕ = ptr - p.base in
        if offset % p.object_size != 0
        then (false, p)
        else (let slot : ℕ = offset / p.object_size in
            if leb p.slot_count slot
            then (false, p)
            else (let wi : ℕ = slot / 64 in
                let bit : ℕ = slot % 64 in
                if bit_at p.free_mask wi bit then (false, p) else (
                  true,
                  record p {
                    free_mask = write_bit p.free_mask wi bit true;
                    free_count = p.free_count + 1;
                  },
                ))))
