-- ===== src/Memory/Tests.antt =====
-- Runs of src/memory/mod.rs, after its own tests.
use slope.Base.{ℕ, ◌≡◌, refl, true, false, some, none, arith, ◌↔◌}
use slope.Memory.Mask.{first_set}
use slope.Memory.Page.{SlabPage, new, fresh_mask, search, alloc_slot, dealloc_slot}
use slope.Memory.Class.{class_for, position_from}
use slope.Memory.Slot.{IsValid, Alloc, alloc_slot-Alloc, alloc_slot-none}
use slope.Memory.Return.{alloc_slot-dealloc_slot, dealloc_slot_twice, dealloc_slot-IsValid}
use slope.Memory.Fresh.{new-IsValid_page}
use slope.Memory.Heap
use slope.Memory.Counted.{IsServed, alloc-IsServed}

-- A page of 64 slots of 64 bytes, and the page when its first slot is taken.
abbrev sample : SlabPage
sample = new 0x8000 64

abbrev used : SlabPage
used = (alloc_slot sample).1

rounds_up : class_for 9 ≡ some 1
unfolding class_for position_from
rounds_up = refl

first_slot : (alloc_slot sample).0 ≡ some 0x8000
unfolding alloc_slot search new fresh_mask first_set
first_slot = refl

sample-IsValid : IsValid sample
sample-IsValid = new-IsValid_page 0x8000 3 (omega arith)

given_back : (dealloc_slot 0x8000 used).0 ≡ true
unfolding alloc_slot search new fresh_mask first_set dealloc_slot
given_back = refl

alloc_slot-Alloc_example : (slot : ℕ) × Alloc sample used 0x8000 slot × IsValid used
alloc_slot-Alloc_example = alloc_slot-Alloc sample 0x8000 sample-IsValid first_slot

used-IsValid : IsValid used
used-IsValid = let (_, _, v) = alloc_slot-Alloc_example in v

alloc_slot-none_example : ((alloc_slot used).0 ≡ none) ↔ (used.free_count ≡ 0)
alloc_slot-none_example = alloc_slot-none used used-IsValid

alloc_slot-dealloc_slot_example : dealloc_slot 0x8000 used ≡ (true, sample)
alloc_slot-dealloc_slot_example = alloc_slot-dealloc_slot sample 0x8000 sample-IsValid first_slot

dealloc_slot_twice_example :
    dealloc_slot 0x8000 (dealloc_slot 0x8000 used).1 ≡ (false, (dealloc_slot 0x8000 used).1)
dealloc_slot_twice_example = dealloc_slot_twice 0x8000 used used-IsValid given_back

dealloc_slot-IsValid_example : IsValid (dealloc_slot 0x8000 used).1
dealloc_slot-IsValid_example = dealloc_slot-IsValid 0x8000 used used-IsValid

-- A heap that is ready.
abbrev heap : Heap.GlobalSlabHeap
heap = Heap.init (Heap.new 0x10000)

alloc-IsServed_example : IsServed (λ k. false) 16 heap (Heap.alloc (λ k. false) 16 8 heap)
alloc-IsServed_example = alloc-IsServed (λ k. false) 16 8 heap
