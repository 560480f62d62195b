-- ===== src/Executor/Due.antt =====
-- src/executor.rs, `run_until_stall`: which tasks a pass polls.
use slope.Base.{
  ℕ, suc, ◌<◌, ◌≡◌, refl, sym, ap, ◌∙◌, inl, inr, Bool, true, false, ◌&&◌, Bool-cases, List, [],
  ◌∷◌, ◌++◌, get_or, get_or-set_ne, set, replicate, if◌then◌else◌, arith,
}
use slope.Executor.{
  TaskSlot, parked, done, empty, OuroborosExecutor, max_tasks, is_pollable, Polled, visit,
  run_until_stall,
}
use slope.Executor.Counted.{slot_at}
use slope.Executor.Pass.{poll_skip, poll_once, settled}

-- The tasks, by address, that stand in a slot whose bit is set.
abbrev pub due : List Bool → List TaskSlot → List ℕ
due [] slots = []
due (b ∷ mask) [] = []
due (b ∷ mask) (s ∷ slots) =
    if b && is_pollable s.state then s.address ∷ due mask slots else due mask slots

-- The same from a slot on.
unfoldable pub due_from : List Bool → ℕ → List TaskSlot → List ℕ
due_from [] bit slots = []
due_from (b ∷ mask) bit slots =
    let rest = due_from mask (suc bit) slots in
    if b && is_pollable (get_or slots bit empty).state
    then (get_or slots bit empty).address ∷ rest
    else rest

-- A slot below plays no part.
pub due_from-set :
    (mask : List Bool) (bit i : ℕ) (slots : List TaskSlot) (s : TaskSlot)
    → i < bit
    → due_from mask bit (set slots i s) ≡ due_from mask bit slots
unfolding due_from
due_from-set [] bit i slots s h = refl
due_from-set (b ∷ mask) bit i slots s h =
    rw
      (
        get_or-set_ne slots i bit s empty (omega arith),
        due_from-set mask (suc bit) i slots s (omega arith),
      )
      refl

due_from-suc :
    (mask : List Bool) (bit : ℕ) (s : TaskSlot) (slots : List TaskSlot)
    → due_from mask (suc bit) (s ∷ slots) ≡ due_from mask bit slots
unfolding due_from
due_from-suc [] bit s slots = refl
due_from-suc (b ∷ mask) bit s slots = rw (due_from-suc mask (suc bit) s slots) refl

due_from-nil : (mask : List Bool) (bit : ℕ) → due_from mask bit [] ≡ []
unfolding due_from
due_from-nil [] bit = refl
due_from-nil (b ∷ mask) bit = ground (arith, due_from-nil mask (suc bit))

pub due_from-zero :
    (mask : List Bool) (slots : List TaskSlot) → due_from mask 0 slots ≡ due mask slots
unfolding due_from
due_from-zero [] slots = refl
due_from-zero (b ∷ mask) [] = ground (arith, due_from-nil mask 1)
due_from-zero (b ∷ mask) (s ∷ slots) =
    rw (due_from-suc mask 0 s slots, due_from-zero mask slots) refl

-- A poll that also notes which task it polled.
abbrev pub noting :
    {World : Type 0} → (ℕ → World → Polled World) → ℕ → World × List ℕ → Polled (World × List ℕ)
noting poll address (w, log) =
    let outcome = poll address w in
    record {
      is_done = outcome.is_done;
      woken = outcome.woken;
      world = (outcome.world, log ++ (address ∷ []));
    }

append-one : (xs : List ℕ) (x : ℕ) (ys : List ℕ) → (xs ++ (x ∷ [])) ++ ys ≡ xs ++ (x ∷ ys)
append-one [] x ys = refl
append-one (y ∷ xs) x ys = ap (λ (zs : List ℕ). y ∷ zs) (append-one xs x ys)

append-nil : (xs : List ℕ) → xs ++ [] ≡ xs
append-nil [] = refl
append-nil (x ∷ xs) = ap (λ (zs : List ℕ). x ∷ zs) (append-nil xs)

module _ {World : Type 0} (poll : ℕ → World → Polled World) where
  visit-due_from :
      (mask : List Bool) (bit : ℕ) (e : OuroborosExecutor) (w : World) (log : List ℕ)
      → (visit (noting poll) mask bit (e, (w, log))).1.1 ≡ log ++ due_from mask bit e.slots
  unfolding visit due_from
  visit-due_from [] bit e w log = sym (append-nil log)
  visit-due_from (false ∷ mask) bit e w log = visit-due_from mask (suc bit) e w log
  visit-due_from (true ∷ mask) bit e w log = elim (Bool-cases (is_pollable (slot_at e bit).state)) [
    | inr h ↦
        ap (λ x. (visit (noting poll) mask (suc bit) x).1.1)
          (poll_skip (noting poll) bit e (w, log) h)
        ∙ visit-due_from mask (suc bit) e w log
        ∙ rw h refl
    | inl h ↦
        let a : ℕ = (slot_at e bit).address in
        let o = poll a w in
        let slot : TaskSlot = record { address = a; state = if o.is_done then done else parked } in
        ap (λ x. (visit (noting poll) mask (suc bit) x).1.1)
          (poll_once (noting poll) bit e (w, log) h)
        ∙ visit-due_from mask (suc bit) (settled (noting poll) bit e (noting poll a (w, log)))
            o.world (log ++ (a ∷ []))
        ∙ ap (λ (d : List ℕ). (log ++ (a ∷ [])) ++ d)
            (due_from-set mask (suc bit) bit e.slots slot (omega arith))
        ∙ append-one log a (due_from mask (suc bit) e.slots)
        ∙ rw h refl
  ]

  -- A pass polls exactly the tasks that stand in a slot whose bit was set at its start and that are
  -- ready or parked, each once and in the order of their slots.
  pub run_until_stall-due :
      (e : OuroborosExecutor) (w : World)
      → (run_until_stall (noting poll) (e, (w, []))).1.1 ≡ due e.ready_mask e.slots
  unfolding run_until_stall
  run_until_stall-due e w =
      visit-due_from e.ready_mask 0 (record e { ready_mask = replicate max_tasks false }) w []
      ∙ due_from-zero e.ready_mask e.slots
