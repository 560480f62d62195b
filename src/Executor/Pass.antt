-- ===== src/Executor/Pass.antt =====
-- src/executor.rs, `run_until_stall`: one pass over the tasks that are ready.
use slope.Base.{
  ℕ, zero, suc, ◌-◌, ◌<◌, ◌≡◌, refl, ◌∙◌, inl, inr, Bool, true, false, Bool-cases, List, [], ◌∷◌,
  length, length-set, get_or, set, set-set, replicate, if◌then◌else◌, arith,
}
use slope.Executor.{
  TaskSlot, SlotState, parked, done, empty, OuroborosExecutor, max_tasks, is_vacant, is_pollable,
  Polled, poll_slot, visit, run_until_stall,
}
use slope.Executor.Counted.{slot_at, IsValid, tasks_in-set, IsRested-set}

pub in_range :
    (slots : List TaskSlot) (i : ℕ)
    → is_pollable (get_or slots i empty).state ≡ true
    → i < length slots
in_range [] i h = absurd (ground arith)
in_range (s ∷ slots) zero h = omega arith
in_range (s ∷ slots) (suc i) h = omega (arith, in_range slots i h)

pub pollable_vacant : (s : SlotState) → is_pollable s ≡ true → is_vacant s ≡ false
pollable_vacant s h = ground arith

module _ {World : Type 0} (poll : ℕ → World → Polled World) where
  -- The executor after a poll in a slot.
  abbrev pub settled : ℕ → OuroborosExecutor → Polled World → OuroborosExecutor
  settled bit e outcome = record {
    slots = set e.slots bit (record {
      address = (slot_at e bit).address;
      state = if outcome.is_done then done else parked;
    });
    ready_mask = if outcome.woken then set e.ready_mask bit true else e.ready_mask;
    count = if outcome.is_done then e.count - 1 else e.count;
  }

  pub poll_skip :
      (bit : ℕ) (e : OuroborosExecutor) (w : World)
      → is_pollable (slot_at e bit).state ≡ false
      → poll_slot poll bit (e, w) ≡ (e, w)
  unfolding poll_slot
  poll_skip bit e w h = rw h refl

  pub poll_once :
      (bit : ℕ) (e : OuroborosExecutor) (w : World)
      → is_pollable (slot_at e bit).state ≡ true
      → poll_slot poll bit (e, w)
        ≡ (settled bit e (poll (slot_at e bit).address w), (poll (slot_at e bit).address w).world)
  unfolding poll_slot
  poll_once bit e w h = rw (h, set-set e.slots bit) refl

  pub settled-IsValid :
      (bit : ℕ) (e : OuroborosExecutor) (o : Polled World)
      → is_pollable (slot_at e bit).state ≡ true
      → IsValid e
      → IsValid (settled bit e o)
  settled-IsValid bit e o h v =
      let slot : TaskSlot = record {
        address = (slot_at e bit).address;
        state = if o.is_done then done else parked;
      } in
      let moved = tasks_in-set e.slots bit slot (in_range e.slots bit h) in
      let live = pollable_vacant (slot_at e bit).state h in
      record {
        shaped = length-set e.slots bit slot ∙ v.shaped;
        masked = ground (arith, length-set e.ready_mask bit true, v.masked);
        counted = ground (arith, moved, live, v.counted);
        rested = IsRested-set e.slots bit slot v.rested (ground arith);
      }

  pub poll_slot-IsValid :
      (bit : ℕ) (e : OuroborosExecutor) (w : World)
      → IsValid e
      → IsValid (poll_slot poll bit (e, w)).0
  poll_slot-IsValid bit e w v = elim (Bool-cases (is_pollable (slot_at e bit).state)) [
    | inl h ↦ rw (poll_once bit e w h) (settled-IsValid bit e (poll (slot_at e bit).address w) h v)
    | inr h ↦ rw (poll_skip bit e w h) v
  ]

  pub visit-IsValid :
      (mask : List Bool) (bit : ℕ) (e : OuroborosExecutor) (w : World)
      → IsValid e
      → IsValid (visit poll mask bit (e, w)).0
  unfolding visit
  visit-IsValid [] bit e w v = v
  visit-IsValid (false ∷ mask) bit e w v = visit-IsValid mask (suc bit) e w v
  visit-IsValid (true ∷ mask) bit e w v =
      let x : OuroborosExecutor × World = poll_slot poll bit (e, w) in
      visit-IsValid mask (suc bit) x.0 x.1 (poll_slot-IsValid bit e w v)

  -- A pass over a valid executor leaves it valid: 64 slots and 64 bits, the count equal to the
  -- number of unfinished tasks, and no slot running, whatever the polls do.
  pub run_until_stall-IsValid :
      (e : OuroborosExecutor) (w : World) → IsValid e → IsValid (run_until_stall poll (e, w)).0
  unfolding run_until_stall
  run_until_stall-IsValid e w v =
      visit-IsValid e.ready_mask 0 (record e { ready_mask = replicate max_tasks false }) w
        (record { shaped = v.shaped; masked = refl; counted = v.counted; rested = v.rested })
