-- ===== src/Memory/Counted.antt =====
-- src/memory/mod.rs, `GlobalSlabHeap::alloc`: every request is counted once, or refused untouched.
use slope.Base.{
  ℕ, ◌+◌, ◌%◌, u64_mod, ◌<◌, ◌≡◌, ◌≢◌, refl, ◌⊎◌, inl, inr, Bool, true, false, Bool-cases, none,
  Option-cases, Result, max, ◌==◌, arith, subst, sym, ap, ◌∙◌,
}
use slope.Sync.{EntanglementError}
use slope.Sync.Bounded.{mutate_bounded-Once}
use slope.Memory.Class
use slope.Memory.Class.{FixedHeapArena, class_for}
use slope.Memory.Fresh.{IsClassOf, class_for-IsClassOf}
use slope.Memory.Heap
use slope.Memory.Heap.{HeapState, GlobalSlabHeap, class_at, alloc_locked}

-- The counters after a request that gave `ptr`.
abbrev IsCounted : ℕ → HeapState → HeapState → Type 0
IsCounted ptr s s' =
    (s'.dealloc_count ≡ s.dealloc_count)
    × (((ptr ≢ 0) × (s'.alloc_count ≡ (s.alloc_count + 1) % u64_mod) × (s'.oom_count ≡ s.oom_count))
        ⊎ ((ptr ≡ 0)
            × (s'.alloc_count ≡ s.alloc_count)
            × (s'.oom_count ≡ (s.oom_count + 1) % u64_mod)))

locked-IsCounted :
    (ci : ℕ) (s : HeapState) (a : FixedHeapArena)
    → IsCounted (alloc_locked ci (s, a)).0 s (alloc_locked ci (s, a)).1.0
unfolding alloc_locked
locked-IsCounted ci s a = elim (Option-cases (Class.alloc (class_at s ci) a).0) [
  | inl e ↦ rw (e, alloc_locked) (refl, inr (refl, refl, refl))
  | inr (ptr, e) ↦ elim (Bool-cases (ptr == 0)) [
    | inl z ↦ rw (e, z, alloc_locked) (refl, inr (refl, refl, refl))
    | inr z ↦ rw (e, z, alloc_locked) (refl, inl ((λ h. ground arith), refl, refl))
  ]
]

-- Why a heap refuses a request without a look at its classes.
abbrev pub IsRefused : (ℕ → Bool) → ℕ → GlobalSlabHeap → Type 0
IsRefused taken size h = (h.ready ≡ false) ⊎ ((4096 < size) ⊎ ((k : ℕ) → k < 64 → taken k ≡ true))

-- What a request does to a heap.
abbrev pub IsServed : (ℕ → Bool) → ℕ → GlobalSlabHeap → ℕ × GlobalSlabHeap → Type 0
IsServed taken size h (ptr, h') =
    ((ptr ≡ 0) × (h' ≡ h) × IsRefused taken size h) ⊎ IsCounted ptr h.cell h'.cell

-- A request for memory either gives null and leaves the heap as it was, because the heap is not
-- ready, the larger of its size and alignment is over 4096, or all 64 attempts found the lock
-- taken; or exactly one counter takes a step of one modulo 2^64, so that its largest value is
-- followed by 0: that of allocations if the address is not null, that of exhaustion if it is.
pub alloc-IsServed :
    (taken : ℕ → Bool) (size align : ℕ) (h : GlobalSlabHeap)
    → IsServed taken (max size align) h (Heap.alloc taken size align h)
unfolding Heap.alloc
alloc-IsServed taken size align h = elim (Bool-cases h.ready) [
  | inr e ↦ rw (e, Heap.alloc) (inl (refl, refl, inl refl))
  | inl e ↦
      let same_heap : h ≡ record h { ready = true } = ap (λ b. record h { ready = b }) e in
      elim (Option-cases (class_for (max size align))) [
        | inl f ↦ rw (e, f, Heap.alloc) (inl (refl, same_heap, inr (inl (too_large f))))
        | inr (ci, f) ↦ elim (mutate_bounded-Once 64 taken (alloc_locked ci) (h.cell, h.arena)) [
          | inl (k, _, _, same) ↦
              rw (e, f, Heap.alloc, same)
                (inr (
                  subst
                    (λ (g : HeapState × FixedHeapArena).
                      IsCounted (alloc_locked ci (h.cell, h.arena)).0 h.cell g.0)
                    (sym (left_with same)) (locked-IsCounted ci h.cell h.arena)))
          | inr (all_taken, same) ↦
              rw (e, f, Heap.alloc, same)
                (inl (
                  refl,
                  ap (λ (g : HeapState × FixedHeapArena). record h { cell = g.0; arena = g.1 })
                        (left_with same)
                      ∙ same_heap,
                  inr (inr all_taken),
                ))
        ]
      ]
]
  where
    too_large : class_for (max size align) ≡ none → 4096 < max size align
    too_large f = subst (IsClassOf (max size align)) f (class_for-IsClassOf (max size align))

    left_with :
        {r s : Result EntanglementError ℕ × (HeapState × FixedHeapArena)} → r ≡ s → r.1 ≡ s.1
    left_with p = ap (λ (o : Result EntanglementError ℕ × (HeapState × FixedHeapArena)). o.1) p
