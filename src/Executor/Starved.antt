-- ===== src/Executor/Starved.antt =====
-- src/executor.rs: a parked task whose bit is not set is not polled again. A waker that outlives its
-- poll points to a local of `run_until_stall`, so no waker that may be used can set the bit later.
use slope.Base.{
  ℕ, zero, suc, ◌-◌, ◌≤◌, ◌<◌, ◌≡◌, ◌≢◌, refl, sym, ap, subst, ◌∙◌, Bool, true, false, ◌==◌,
  Bool-cases, inl, inr, none, List, [], ◌∷◌, get_or, get_or-set_ne, replicate, if◌then◌else◌, arith,
}
use slope.Executor.{
  TaskSlot, parked, done, empty, OuroborosExecutor, max_tasks, is_pollable, Polled, visit,
  run_until_stall, run_forever,
}
use slope.Executor.Counted.{slot_at, IsValid, tasks_in}
use slope.Executor.Pass.{poll_skip, poll_once, settled, run_until_stall-IsValid}

-- The slot holds a task that has not ended, and its bit is not set.
pub record IsStarved (i : ℕ) (e : OuroborosExecutor) : Type 0 where
  pub lives : is_pollable (slot_at e i).state ≡ true
  pub unset : get_or e.ready_mask i false ≡ false

get_or-replicate : (n i : ℕ) → get_or (replicate n false) i false ≡ false
get_or-replicate zero i = refl
get_or-replicate (suc n) zero = refl
get_or-replicate (suc n) (suc i) = get_or-replicate n i

live_task :
    (slots : List TaskSlot) (i : ℕ)
    → is_pollable (get_or slots i empty).state ≡ true
    → 0 < tasks_in slots
live_task [] i h = absurd (ground arith)
live_task (s ∷ slots) zero h = ground arith
live_task (s ∷ slots) (suc i) h = ground (arith, live_task slots i h)

next_unset :
    (b : Bool) (mask : List Bool) (bit i : ℕ)
    → (bit ≤ i → get_or (b ∷ mask) (i - bit) false ≡ false)
    → suc bit ≤ i
    → get_or mask (i - suc bit) false ≡ false
next_unset b mask bit i h le =
    let e : i - bit ≡ suc (i - suc bit) = omega arith in
    sym (ap (λ n. get_or (b ∷ mask) n false) e) ∙ h (omega arith)

other_bit :
    (mask : List Bool) (bit i : ℕ)
    → (bit ≤ i → get_or (true ∷ mask) (i - bit) false ≡ false)
    → bit ≢ i
other_bit mask bit i h q =
    let e : i - bit ≡ 0 = omega arith in
    let clear = sym (ap (λ n. get_or (true ∷ mask) n false) e) ∙ h (omega arith) in cc

module _ {World : Type 0} (poll : ℕ → World → Polled World) (yields : ℕ → World → World)
    (i : ℕ) where
  settled-IsStarved :
      (bit : ℕ) (e : OuroborosExecutor) (o : Polled World)
      → bit ≢ i
      → IsStarved i e
      → IsStarved i (settled poll bit e o)
  settled-IsStarved bit e o d s =
      let slot : TaskSlot = record {
        address = (slot_at e bit).address;
        state = if o.is_done then done else parked;
      } in
      let slot_same = get_or-set_ne e.slots bit i slot empty d in
      let bit_same = get_or-set_ne e.ready_mask bit i true false d in
      record {
        lives = subst (λ (x : TaskSlot). is_pollable x.state ≡ true) (sym slot_same) s.lives;
        unset = ground (arith, bit_same, s.unset);
      }

  visit-IsStarved :
      (mask : List Bool) (bit : ℕ) (e : OuroborosExecutor) (w : World)
      → (bit ≤ i → get_or mask (i - bit) false ≡ false)
      → IsStarved i e
      → IsStarved i (visit poll mask bit (e, w)).0
  unfolding visit
  visit-IsStarved [] bit e w h s = s
  visit-IsStarved (false ∷ mask) bit e w h s =
      visit-IsStarved mask (suc bit) e w (next_unset false mask bit i h) s
  visit-IsStarved (true ∷ mask) bit e w h s =
      elim (Bool-cases (is_pollable (slot_at e bit).state)) [
        | inr k ↦
            subst (λ x. IsStarved i (visit poll mask (suc bit) x).0)
              (sym (poll_skip poll bit e w k))
              (visit-IsStarved mask (suc bit) e w (next_unset true mask bit i h) s)
        | inl k ↦
            let o = poll (slot_at e bit).address w in
            subst (λ x. IsStarved i (visit poll mask (suc bit) x).0)
              (sym (poll_once poll bit e w k))
              (visit-IsStarved mask (suc bit) (settled poll bit e o) o.world
                (next_unset true mask bit i h)
                (settled-IsStarved bit e o (other_bit mask bit i h) s))
      ]

  pass-IsStarved :
      (e : OuroborosExecutor) (w : World)
      → IsStarved i e
      → IsStarved i (run_until_stall poll (e, w)).0
  unfolding run_until_stall
  pass-IsStarved e w s =
      visit-IsStarved e.ready_mask 0 (record e { ready_mask = replicate max_tasks false }) w
        (λ h.
          let z : i ≡ i - 0 = omega arith in
          subst (λ j. get_or e.ready_mask j false ≡ false) z s.unset)
        (record { lives = s.lives; unset = get_or-replicate max_tasks i })

  -- On a valid executor with a slot that holds an unfinished task and whose bit is not set,
  -- run_forever does not return, however many passes it makes and whatever the tasks do.
  pub run_forever_stuck :
      (fuel : ℕ) (e : OuroborosExecutor) (w : World)
      → IsValid e
      → IsStarved i e
      → run_forever poll yields fuel (e, w) ≡ none
  unfolding run_forever
  run_forever_stuck zero e w v s = refl
  run_forever_stuck (suc fuel) e w v s =
      let x : OuroborosExecutor × World = run_until_stall poll (e, w) in
      let s' = pass-IsStarved e w s in
      let v' = run_until_stall-IsValid poll e w v in
      let live = live_task x.0.slots i s'.lives in
      let busy : (x.0.count == 0) ≡ false = ground (arith, live, v'.counted) in
      rw busy (run_forever_stuck fuel x.0 (yields x.0.count x.1) v' s')
