-- ===== src/Executor/Ending.antt =====
-- src/executor.rs, `run_forever`: it ends.
use slope.Base.{
  ℕ, zero, suc, ◌+◌, ◌-◌, ◌≤◌, ◌<◌, ◌≡◌, ◌≢◌, refl, sym, ap, subst, inl, inr, Bool, true, false,
  ◌==◌, Bool-cases, some, List, [], ◌∷◌, length, get_or, replicate, if◌then◌else◌, arith,
}
use slope.Executor.{
  TaskSlot, parked, done, empty, OuroborosExecutor, max_tasks, is_vacant, is_pollable, Polled,
  visit, run_until_stall, run_forever,
}
use slope.Executor.Counted.{slot_at, IsValid, tasks_in, tasks_in-set}
use slope.Executor.Awake.{IsAwake}
use slope.Executor.Pass.{
  poll_skip, poll_once, settled, in_range, pollable_vacant, settled-IsValid,
  run_until_stall-IsValid,
}
use slope.Executor.Due.{due, due_from-zero, due_from, due_from-set}
use slope.Executor.Pending.{IsPending, visit-IsPending}

some_task :
    (slots : List TaskSlot)
    → tasks_in slots ≢ 0
    → (i : ℕ) × (is_vacant (get_or slots i empty).state ≡ false)
some_task [] h = absurd (h refl)
some_task (s ∷ slots) h = elim (Bool-cases (is_vacant s.state)) [
  | inr v ↦ (0, v)
  | inl v ↦ let (i, e) = some_task slots (λ q. h (ground (arith, v, q))) in (suc i, e)
]

due_some :
    (mask : List Bool) (slots : List TaskSlot) (i : ℕ)
    → get_or mask i false ≡ true
    → is_pollable (get_or slots i empty).state ≡ true
    → 0 < length (due mask slots)
due_some [] slots i h k = absurd (ground arith)
due_some (b ∷ mask) [] i h k = absurd (ground arith)
due_some (b ∷ mask) (s ∷ slots) zero h k = ground arith
due_some (b ∷ mask) (s ∷ slots) (suc i) h k = ground (arith, due_some mask slots i)

module _ {World : Type 0} (poll : ℕ → World → Polled World) (yields : ℕ → World → World)
    (left : World → ℕ)
    (works : (a : ℕ) (w : World)
      → (poll a w).is_done ≡ false
      → ((poll a w).woken ≡ true) × (left (poll a w).world < left w))
    (ends : (a : ℕ) (w : World) → left (poll a w).world ≤ left w)
    (rests : (n : ℕ) (w : World) → left (yields n w) ≤ left w) where
  -- The work and the tasks that are left.
  abbrev measure : OuroborosExecutor × World → ℕ
  measure (e, w) = left w + e.count

  settled-less :
      (bit : ℕ) (e : OuroborosExecutor) (w : World)
      → IsValid e
      → is_pollable (slot_at e bit).state ≡ true
      → measure (
        settled poll bit e (poll (slot_at e bit).address w),
        (poll (slot_at e bit).address w).world,
      )
        < measure (e, w)
  settled-less bit e w v h =
      let a : ℕ = (slot_at e bit).address in
      let slot : TaskSlot = record {
        address = a;
        state = if (poll a w).is_done then done else parked;
      } in
      let moved = tasks_in-set e.slots bit slot (in_range e.slots bit h) in
      let live = pollable_vacant (slot_at e bit).state h in
      let least = ends a w in
      elim (Bool-cases (poll a w).is_done) [
        | inl d ↦ ground (arith, moved, live, d, least, v.counted)
        | inr d ↦ let less = works a w d in ground (arith, d, less)
      ]

  visit-less :
      (mask : List Bool) (bit : ℕ) (e : OuroborosExecutor) (w : World)
      → IsValid e
      → measure (visit poll mask bit (e, w)) + length (due_from mask bit e.slots) ≤ measure (e, w)
  unfolding visit due_from
  visit-less [] bit e w v = omega arith
  visit-less (false ∷ mask) bit e w v = visit-less mask (suc bit) e w v
  visit-less (true ∷ mask) bit e w v = elim (Bool-cases (is_pollable (slot_at e bit).state)) [
    | inr h ↦
        subst
          (λ x.
            measure (visit poll mask (suc bit) x) + length (due_from (true ∷ mask) bit e.slots)
            ≤ measure (e, w))
          (sym (poll_skip poll bit e w h)) (rw h (visit-less mask (suc bit) e w v))
    | inl h ↦
        let a : ℕ = (slot_at e bit).address in
        let o = poll a w in
        let slot : TaskSlot = record { address = a; state = if o.is_done then done else parked } in
        let later =
          visit-less mask (suc bit) (settled poll bit e o) o.world
            (settled-IsValid poll bit e o h v) in
        let same =
          ap (λ (d : List ℕ). length d)
            (due_from-set mask (suc bit) bit e.slots slot (omega arith)) in
        let less = settled-less bit e w v h in
        subst
          (λ x.
            measure (visit poll mask (suc bit) x) + length (due_from (true ∷ mask) bit e.slots)
            ≤ measure (e, w))
          (sym (poll_once poll bit e w h)) (rw h (omega (arith, later, same, less)))
  ]

  visit-count :
      (mask : List Bool) (bit : ℕ) (e : OuroborosExecutor) (w : World)
      → (visit poll mask bit (e, w)).0.count ≤ e.count
  unfolding visit
  visit-count [] bit e w = omega arith
  visit-count (false ∷ mask) bit e w = visit-count mask (suc bit) e w
  visit-count (true ∷ mask) bit e w = elim (Bool-cases (is_pollable (slot_at e bit).state)) [
    | inr h ↦
        subst (λ x. (visit poll mask (suc bit) x).0.count ≤ e.count)
          (sym (poll_skip poll bit e w h)) (visit-count mask (suc bit) e w)
    | inl h ↦
        let o = poll (slot_at e bit).address w in
        let later = visit-count mask (suc bit) (settled poll bit e o) o.world in
        subst (λ x. (visit poll mask (suc bit) x).0.count ≤ e.count)
          (sym (poll_once poll bit e w h)) (ground (arith, later))
  ]

  abbrev asleep : OuroborosExecutor → OuroborosExecutor
  asleep e = record e { ready_mask = replicate max_tasks false }

  asleep-IsValid : (e : OuroborosExecutor) → IsValid e → IsValid (asleep e)
  asleep-IsValid e v = record {
    shaped = v.shaped;
    masked = refl;
    counted = v.counted;
    rested = v.rested;
  }

  -- A pass over an executor that is awake leaves it awake, and less to do.
  pass-IsAwake :
      (e : OuroborosExecutor) (w : World)
      → IsValid e
      → IsAwake e
      → IsAwake (run_until_stall poll (e, w)).0
  unfolding run_until_stall IsPending
  pass-IsAwake e w v a =
      visit-IsPending poll (λ p q d. (works p q d).0) e.ready_mask 0 (asleep e) w
        (asleep-IsValid e v)
        (λ i k. inr (
          omega arith,
          let z : i ≡ i - 0 = omega arith in
              subst (λ j. get_or e.ready_mask j false ≡ true) z (a i k),
        ))

  pass-less :
      (e : OuroborosExecutor) (w : World)
      → IsValid e
      → IsAwake e
      → (run_until_stall poll (e, w)).0.count ≢ 0
      → measure (run_until_stall poll (e, w)) < measure (e, w)
  unfolding run_until_stall
  pass-less e w v a h =
      let fewer = visit-count e.ready_mask 0 (asleep e) w in
      let (i, live) = some_task e.slots (λ q. h (omega (arith, fewer, q, v.counted))) in
      let pollable : is_pollable (slot_at e i).state ≡ true = ground (arith, v.rested i, live) in
      let some_due = due_some e.ready_mask e.slots i (a i pollable) pollable in
      let same = ap (λ (d : List ℕ). length d) (due_from-zero e.ready_mask e.slots) in
      omega (arith, visit-less e.ready_mask 0 (asleep e) w (asleep-IsValid e v), some_due, same)

  -- If no poll and no yield adds to the work left in the world, and a poll that is pending has
  -- called its waker and made the work less, then run_forever on a valid executor whose unfinished
  -- tasks all have their bits set returns, within one pass more than the work and the tasks that
  -- are left, with a valid executor that holds no unfinished task.
  pub run_forever-ends :
      (fuel : ℕ) (e : OuroborosExecutor) (w : World)
      → IsValid e
      → IsAwake e
      → left w + e.count < fuel
      → (x : OuroborosExecutor × World) × (run_forever poll yields fuel (e, w) ≡ some x)
        × IsValid x.0
        × (tasks_in x.0.slots ≡ 0)
  unfolding run_forever
  run_forever-ends zero e w v a h = absurd (omega arith)
  run_forever-ends (suc fuel) e w v a h =
      let x : OuroborosExecutor × World = run_until_stall poll (e, w) in
      let v' : IsValid x.0 = run_until_stall-IsValid poll e w v in
      elim (Bool-cases (x.0.count == 0)) [
        | inl z ↦ (x, rw z refl, v', ground (arith, v'.counted, z))
        | inr z ↦
            let less = pass-less e w v a (ground arith) in
            let (y, r, rest, none_left) =
              run_forever-ends fuel x.0 (yields x.0.count x.1) v' (pass-IsAwake e w v a)
                (omega (arith, less, rests x.0.count x.1)) in
            (y, rw z r, rest, none_left)
      ]
