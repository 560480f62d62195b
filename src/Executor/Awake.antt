-- ===== src/Executor/Awake.antt =====
-- src/executor.rs: the bits of the tasks that have not ended.
use slope.Base.{
  ℕ, zero, suc, ◌≡◌, refl, sym, subst, ◌∙◌, true, false, inl, inr, Option-cases, get_or,
  get_or-set_self, get_or-set_ne, set, replicate, arith, ℕ_discrete,
}
use slope.Executor.{
  TaskSlot, empty, OuroborosExecutor, max_tasks, is_pollable, find_vacant, spawn_raw, new,
}
use slope.Executor.Counted.{
  slot_at, IsValid, spawned, spawn_full, spawn_vacant, after_spawn, find_vacant-some,
}

-- Every task that has not ended has its bit set.
abbrev pub IsAwake : OuroborosExecutor → Type 0
IsAwake e = (i : ℕ) → is_pollable (slot_at e i).state ≡ true → get_or e.ready_mask i false ≡ true

empty_slot : (n i : ℕ) → get_or (replicate n empty) i empty ≡ empty
empty_slot zero i = refl
empty_slot (suc n) zero = refl
empty_slot (suc n) (suc i) = empty_slot n i

pub new-IsAwake : IsAwake new
unfolding new
new-IsAwake i k =
    let k' = subst (λ (s : TaskSlot). is_pollable s.state ≡ true) (empty_slot max_tasks i) k in
    absurd (ground (arith, k'))

-- A spawn leaves an executor that is awake awake.
pub spawn_raw-IsAwake :
    (storage : ℕ) (e : OuroborosExecutor) → IsValid e → IsAwake e → IsAwake (spawn_raw storage e).1
unfolding after_spawn
spawn_raw-IsAwake storage e v a = elim (Option-cases (find_vacant e.slots)) [
  | inl n ↦ subst (λ x. IsAwake x.1) (sym (spawn_full storage e n)) a
  | inr (slot, n) ↦
      let (range, vacant) = find_vacant-some e.slots slot n in
      subst (λ x. IsAwake x.1) (sym (spawn_vacant storage e slot n))
        (λ i k. elim (ℕ_discrete slot i) [
          | yes q ↦
              subst (λ j. get_or (set e.ready_mask slot true) j false ≡ true) q
                (get_or-set_self e.ready_mask slot true false
                  (omega (arith, v.masked, v.shaped, range)))
          | no q ↦
              get_or-set_ne e.ready_mask slot i true false q
              ∙ a i (
                  subst (λ (s : TaskSlot). is_pollable s.state ≡ true)
                    (get_or-set_ne e.slots slot i (spawned storage) empty q) k)
        ])
]
