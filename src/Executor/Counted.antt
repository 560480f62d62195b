-- ===== src/Executor/Counted.antt =====
-- src/executor.rs: the count of tasks, and where a task is put.
use slope.Base.{
  ℕ, zero, suc, ◌+◌, ◌<◌, ◌≡◌, ◌≢◌, refl, sym, subst, ◌∙◌, inl, inr, true, false, ◌||◌, none, some,
  Option-cases, Result, ok, err, List, [], ◌∷◌, length, length-set, get_or, get_or-set_self,
  get_or-set_ne, set, replicate, if◌then◌else◌, arith,
}
use slope.Executor.{
  TaskSlot, ready, empty, OuroborosExecutor, max_tasks, is_vacant, is_pollable, find_vacant,
  find_free_slot, ExecutorError, arena_full, spawn_raw, new,
}

-- The task in a slot.
abbrev pub slot_at : OuroborosExecutor → ℕ → TaskSlot
slot_at e i = get_or e.slots i empty

abbrev pub weight : TaskSlot → ℕ
weight s = if is_vacant s.state then 0 else 1

-- How many slots hold a task that has not ended.
abbrev pub tasks_in : List TaskSlot → ℕ
tasks_in [] = 0
tasks_in (s ∷ slots) = (if is_vacant s.state then 0 else 1) + tasks_in slots

-- No task runs between two calls.
abbrev pub IsRested : TaskSlot → Type 0
IsRested s = (is_vacant s.state || is_pollable s.state) ≡ true

pub record IsValid (e : OuroborosExecutor) : Type 0 where
  pub shaped : length e.slots ≡ max_tasks
  pub masked : length e.ready_mask ≡ max_tasks
  pub counted : e.count ≡ tasks_in e.slots
  pub rested : (i : ℕ) → IsRested (slot_at e i)

pub tasks_in-set :
    (slots : List TaskSlot) (i : ℕ) (s : TaskSlot)
    → i < length slots
    → tasks_in (set slots i s) + weight (get_or slots i empty) ≡ tasks_in slots + weight s
tasks_in-set [] i s h = elim h [ ]
tasks_in-set (x ∷ slots) zero s h = omega arith
tasks_in-set (x ∷ slots) (suc i) s h = omega (arith, tasks_in-set slots i s (omega arith))

pub IsRested-set :
    (slots : List TaskSlot) (i : ℕ) (s : TaskSlot)
    → ((j : ℕ) → IsRested (get_or slots j empty))
    → IsRested s
    → (j : ℕ) → IsRested (get_or (set slots i s) j empty)
IsRested-set [] i s h k j = h j
IsRested-set (x ∷ slots) zero s h k zero = k
IsRested-set (x ∷ slots) zero s h k (suc j) = h (suc j)
IsRested-set (x ∷ slots) (suc i) s h k zero = h zero
IsRested-set (x ∷ slots) (suc i) s h k (suc j) = IsRested-set slots i s (λ n. h (suc n)) k j

IsRested-replicate : (n j : ℕ) → IsRested (get_or (replicate n empty) j empty)
IsRested-replicate zero j = refl
IsRested-replicate (suc n) zero = refl
IsRested-replicate (suc n) (suc j) = IsRested-replicate n j

tasks_in-empty : (n : ℕ) → tasks_in (replicate n empty) ≡ 0
tasks_in-empty zero = refl
tasks_in-empty (suc n) = omega (arith, tasks_in-empty n)

-- A new executor is valid.
pub new-IsValid : IsValid new
unfolding new
new-IsValid = record {
  shaped = refl;
  masked = refl;
  counted = refl;
  rested = IsRested-replicate max_tasks;
}

pub find_vacant-some :
    (slots : List TaskSlot) (i : ℕ)
    → find_vacant slots ≡ some i
    → (i < length slots) × (is_vacant (get_or slots i empty).state ≡ true)
unfolding find_vacant
find_vacant-some [] i h = absurd (ground arith)
find_vacant-some (s ∷ slots) zero h = (omega arith, ground arith)
find_vacant-some (s ∷ slots) (suc i) h = ground (arith, find_vacant-some slots i)

find_vacant-none :
    (slots : List TaskSlot) → find_vacant slots ≡ none → tasks_in slots ≡ length slots
unfolding find_vacant
find_vacant-none [] h = refl
find_vacant-none (s ∷ slots) h = ground (arith, find_vacant-none slots)

-- A new task.
abbrev pub spawned : ℕ → TaskSlot
spawned storage = record { address = storage; state = ready }

-- What a spawn does: it fails exactly with a full arena, and takes a vacant slot alone.
pub record IsSpawned (storage : ℕ) (e : OuroborosExecutor) (slot : ℕ) (after : OuroborosExecutor)
    : Type 0 where
  pub was_vacant : is_vacant (slot_at e slot).state ≡ true
  pub in_range : slot < max_tasks
  pub holds : slot_at after slot ≡ spawned storage
  pub bit : get_or after.ready_mask slot false ≡ true
  pub others : (i : ℕ) → slot ≢ i → slot_at after i ≡ slot_at e i
  pub one_more : tasks_in after.slots ≡ suc (tasks_in e.slots)
  pub valid : IsValid after

abbrev pub SpawnOutcome :
    ℕ → OuroborosExecutor → Result ExecutorError ℕ × OuroborosExecutor → Type 0
SpawnOutcome storage e (ok slot, after) = IsSpawned storage e slot after
SpawnOutcome storage e (err x, after) = (after ≡ e) × (tasks_in e.slots ≡ max_tasks)

pub spawn_full :
    (storage : ℕ) (e : OuroborosExecutor)
    → find_vacant e.slots ≡ none
    → spawn_raw storage e ≡ (err arena_full, e)
unfolding spawn_raw find_free_slot
spawn_full storage e n = ground arith

unfoldable pub after_spawn : ℕ → OuroborosExecutor → ℕ → OuroborosExecutor
after_spawn storage e slot = record {
  slots = set e.slots slot (spawned storage);
  ready_mask = set e.ready_mask slot true;
  count = e.count + 1;
}

pub spawn_vacant :
    (storage : ℕ) (e : OuroborosExecutor) (slot : ℕ)
    → find_vacant e.slots ≡ some slot
    → spawn_raw storage e ≡ (ok slot, after_spawn storage e slot)
unfolding spawn_raw find_free_slot after_spawn
spawn_vacant storage e slot n = ground arith

-- On a valid executor spawn_raw either takes a slot below 64 that was vacant, puts the task there
-- as ready with its bit set, leaves every other slot as it was, counts one task more and keeps
-- the executor valid; or it fails, changes nothing, and all 64 slots hold unfinished tasks.
pub spawn_raw-IsSpawned :
    (storage : ℕ) (e : OuroborosExecutor) → IsValid e → SpawnOutcome storage e (spawn_raw storage e)
unfolding after_spawn
spawn_raw-IsSpawned storage e v = elim (Option-cases (find_vacant e.slots)) [
  | inl n ↦
      subst (SpawnOutcome storage e) (sym (spawn_full storage e n))
        (refl, find_vacant-none e.slots n ∙ v.shaped)
  | inr (slot, n) ↦
      let (range, vacant) = find_vacant-some e.slots slot n in
      let moved = tasks_in-set e.slots slot (spawned storage) range in
      subst (SpawnOutcome storage e) (sym (spawn_vacant storage e slot n)) (record {
        was_vacant = vacant;
        in_range = omega (arith, v.shaped, range);
        holds = get_or-set_self e.slots slot (spawned storage) empty range;
        bit =
            get_or-set_self e.ready_mask slot true false (omega (arith, v.masked, v.shaped, range));
        others = λ i d. get_or-set_ne e.slots slot i (spawned storage) empty d;
        one_more = ground (arith, moved, vacant);
        valid = record {
          shaped = length-set e.slots slot (spawned storage) ∙ v.shaped;
          masked = length-set e.ready_mask slot true ∙ v.masked;
          counted = ground (arith, moved, vacant, v.counted);
          rested = IsRested-set e.slots slot (spawned storage) v.rested refl;
        };
      })
]
