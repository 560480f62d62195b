-- ===== src/Memory/Class.antt =====
-- src/memory/mod.rs: size classes, `SlabClass` and the arena of pages. The array of pages is the
-- list of the `page_count` pages in use, each of which is `Some`. The arena's cursor moves under
-- the heap's lock, so the retry of its compare-and-exchange does not show.
use slope.Base.{
  ℕ, suc, ◌+◌, ◌*◌, Bool, true, false, Option, none, some, List, [], ◌∷◌, ◌++◌, length, leb,
  if◌then◌else◌,
}
use slope.Memory.Page.{SlabPage, page_size, new, alloc_slot, dealloc_slot}

abbrev pub max_slab_pages : ℕ
max_slab_pages = 64

abbrev pub user_heap_pages : ℕ
user_heap_pages = 64

abbrev pub size_classes : List ℕ
size_classes = 8 ∷ 16 ∷ 32 ∷ 64 ∷ 128 ∷ 256 ∷ 512 ∷ 1024 ∷ 2048 ∷ 4096 ∷ []

-- `iter().position(|&s| s >= size)`.
unfoldable pub position_from : ℕ → ℕ → List ℕ → Option ℕ
position_from i size [] = none
position_from i size (s ∷ ss) = if leb size s then some i else position_from (suc i) size ss

unfoldable pub class_for : ℕ → Option ℕ
unfolding position_from
class_for size = position_from 0 size size_classes

pub record FixedHeapArena : Type 0 where
  pub backing : ℕ
  pub next_page : ℕ

unfoldable pub allocate_page : FixedHeapArena → Option ℕ × FixedHeapArena
allocate_page a =
    if leb user_heap_pages a.next_page
    then (none, a)
    else (some (a.backing + a.next_page * page_size), record a { next_page = a.next_page + 1 })

pub record SlabClass : Type 0 where
  pub pages : List SlabPage
  pub object_size : ℕ

-- The pages in turn, until one hands out a slot.
unfoldable pub alloc_pages : List SlabPage → Option ℕ × List SlabPage
alloc_pages [] = (none, [])
alloc_pages (p ∷ ps) =
    let rest = alloc_pages ps in
    let (found, p') = alloc_slot p in
    elim found [ none ↦ (rest.0, p' ∷ rest.1) | some ptr ↦ (some ptr, p' ∷ ps) ]

-- One page more, if the class and the arena have room.
unfoldable pub grow : SlabClass → FixedHeapArena → Option (SlabPage) × FixedHeapArena
unfolding allocate_page
grow c a =
    if leb max_slab_pages (length c.pages)
    then (none, a)
    else (let (page, a') = allocate_page a in
        elim page [ none ↦ (none, a') | some base ↦ (some (new base c.object_size), a') ])

unfoldable pub alloc : SlabClass → FixedHeapArena → Option ℕ × SlabClass × FixedHeapArena
unfolding alloc_pages grow
alloc c a =
    let (found, pages) = alloc_pages c.pages in
    elim found [
      | some ptr ↦ (some ptr, record c { pages = pages }, a)
      | none ↦
          let (page, a') = grow c a in
          elim page [
            | none ↦ (none, record c { pages = pages }, a')
            | some fresh ↦
                let (ptr, fresh') = alloc_slot fresh in
                (ptr, record c { pages = pages ++ fresh' ∷ [] }, a')
          ]
    ]

unfoldable pub dealloc_pages : ℕ → List SlabPage → Bool × List SlabPage
dealloc_pages ptr [] = (false, [])
dealloc_pages ptr (p ∷ ps) =
    let rest = dealloc_pages ptr ps in
    let (done, p') = dealloc_slot ptr p in if done then (true, p' ∷ ps) else (rest.0, p' ∷ rest.1)

unfoldable pub dealloc : ℕ → SlabClass → Bool × SlabClass
unfolding dealloc_pages
dealloc ptr c = let (done, pages) = dealloc_pages ptr c.pages in (done, record c { pages = pages })
