-- ===== src/Memory/Heap.antt =====
-- src/memory/mod.rs: `GlobalSlabHeap`, over the lock of src/sync/entanglement.rs. The null pointer
-- is 0; `taken` says which attempts find the lock held. A counter of 64 bits wraps to
-- 0, as in a build without overflow checks.
use slope.Base.{
  ℕ, ◌+◌, ◌%◌, u64_mod, Bool, true, false, none, some, List, [], ok, err, max, get_or, set, map,
  not, ◌==◌, if◌then◌else◌,
}
use slope.Sync.{mutate_bounded, try_observe}
use slope.Memory.Class
use slope.Memory.Class.{SlabClass, FixedHeapArena, size_classes, class_for}

pub record HeapState : Type 0 where
  pub classes : List SlabClass
  pub alloc_count : ℕ
  pub dealloc_count : ℕ
  pub oom_count : ℕ

pub record GlobalSlabHeap : Type 0 where
  pub cell : HeapState
  pub arena : FixedHeapArena
  pub ready : Bool

abbrev pub uninit : ℕ → SlabClass
uninit size = record { pages = []; object_size = size }

unfoldable pub new : ℕ → GlobalSlabHeap
new backing = record {
  cell = record {
    classes = map uninit size_classes;
    alloc_count = 0;
    dealloc_count = 0;
    oom_count = 0;
  };
  arena = record { backing = backing; next_page = 0 };
  ready = false;
}

unfoldable pub init : GlobalSlabHeap → GlobalSlabHeap
init h = record h { ready = true }

pub record HeapStats : Type 0 where
  pub alloc_count : ℕ
  pub dealloc_count : ℕ
  pub oom_count : ℕ

unfoldable pub stats : Bool → GlobalSlabHeap → HeapStats
stats locked h =
    let observe : HeapState → HeapStats = λ s. record {
      alloc_count = s.alloc_count;
      dealloc_count = s.dealloc_count;
      oom_count = s.oom_count;
    } in
    elim (try_observe locked observe h.cell) [
      | ok s ↦ s
      | err _ ↦ record { alloc_count = 0; dealloc_count = 0; oom_count = 0 }
    ]

-- The class at an index; `class_for` gives none out of range.
abbrev pub class_at : HeapState → ℕ → SlabClass
class_at s ci = get_or s.classes ci (uninit 0)

-- The closure of `alloc`, on what the lock guards.
unfoldable pub alloc_locked : ℕ → HeapState × FixedHeapArena → ℕ × (HeapState × FixedHeapArena)
alloc_locked ci (s, arena) =
    let (found, c, arena') = Class.alloc (class_at s ci) arena in
    let s₁ : HeapState = record s { classes = set s.classes ci c } in
    elim found [
      | none ↦ (0, (record s₁ { oom_count = (s₁.oom_count + 1) % u64_mod }, arena'))
      | some ptr ↦
          if ptr == 0
          then (0, (record s₁ { oom_count = (s₁.oom_count + 1) % u64_mod }, arena'))
          else (ptr, (record s₁ { alloc_count = (s₁.alloc_count + 1) % u64_mod }, arena'))
    ]

unfoldable pub alloc : (ℕ → Bool) → ℕ → ℕ → GlobalSlabHeap → ℕ × GlobalSlabHeap
alloc taken size align h = if not h.ready then (0, h) else (elim (class_for (max size align)) [
  | none ↦ (0, h)
  | some ci ↦
      let (r, guarded) = mutate_bounded 64 taken (alloc_locked ci) (h.cell, h.arena) in
      let h' : GlobalSlabHeap = record h { cell = guarded.0; arena = guarded.1 } in
      elim r [ ok ptr ↦ (ptr, h') | err _ ↦ (0, h') ]
])

unfoldable pub dealloc_locked : ℕ → ℕ → HeapState → Unit {0} × HeapState
dealloc_locked ci ptr s =
    let (done, c) = Class.dealloc ptr (class_at s ci) in
    let s₁ : HeapState = record s { classes = set s.classes ci c } in
    if done then (tt, record s₁ { dealloc_count = (s₁.dealloc_count + 1) % u64_mod }) else (tt, s₁)

unfoldable pub dealloc : (ℕ → Bool) → ℕ → ℕ → ℕ → GlobalSlabHeap → GlobalSlabHeap
dealloc taken ptr size align h = if ptr == 0 then h else (elim (class_for (max size align)) [
  | none ↦ h
  | some ci ↦
      let (_, cell) = mutate_bounded 64 taken (dealloc_locked ci ptr) h.cell in
      record h { cell = cell }
])
