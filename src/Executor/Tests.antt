-- ===== src/Executor/Tests.antt =====
-- Runs of src/executor.rs, after its own test: a task that counts its polls down.
use slope.Base.{ℕ, ◌+◌, ◌-◌, ◌<◌, ◌≡◌, refl, arith, true, false, leb, none, some, [], ◌∷◌}
use slope.Executor.{
  OuroborosExecutor, Polled, new, spawn_raw, find_free_slot, run_until_stall, run_forever, visit,
  poll_slot,
}
use slope.Executor.Counted.{IsValid, new-IsValid, SpawnOutcome, spawn_raw-IsSpawned, tasks_in}
use slope.Executor.Pass.{run_until_stall-IsValid}
use slope.Executor.Due.{noting, due, run_until_stall-due}
use slope.Executor.Awake.{IsAwake, new-IsAwake, spawn_raw-IsAwake}
use slope.Executor.Ending.{run_forever-ends}
use slope.Executor.Starved.{IsStarved, run_forever_stuck}

-- The world is the number of polls that the task still wants.
abbrev counting : ℕ → ℕ → Polled ℕ
counting address w = record { is_done = leb w 1; woken = true; world = w - 1 }

-- A task that parks without a wake.
abbrev silent : ℕ → ℕ → Polled ℕ
silent address w = record { is_done = false; woken = false; world = w }

abbrev quiet : ℕ → ℕ → ℕ
quiet alive w = w

abbrev one_task : OuroborosExecutor
one_task = (spawn_raw 0x1000 new).1

one_task-IsValid : IsValid one_task
unfolding spawn_raw find_free_slot new
one_task-IsValid = (spawn_raw-IsSpawned 0x1000 new new-IsValid).valid

one_task-IsAwake : IsAwake one_task
one_task-IsAwake = spawn_raw-IsAwake 0x1000 new new-IsValid new-IsAwake

three_polls : (run_until_stall (noting counting) (one_task, (3, []))).1 ≡ (2, 0x1000 ∷ [])
unfolding run_until_stall visit poll_slot spawn_raw find_free_slot new
three_polls = refl

spawn_raw-IsSpawned_example : SpawnOutcome 0x1000 new (spawn_raw 0x1000 new)
spawn_raw-IsSpawned_example = spawn_raw-IsSpawned 0x1000 new new-IsValid

run_until_stall-due_example :
    (run_until_stall (noting counting) (one_task, (3, []))).1.1
    ≡ due one_task.ready_mask one_task.slots
run_until_stall-due_example = run_until_stall-due counting one_task 3

counting_works :
    (a w : ℕ)
    → (counting a w).is_done ≡ false
    → ((counting a w).woken ≡ true) × ((counting a w).world < w)
counting_works a w h = (refl, ground arith)

one_task_room : 3 + one_task.count < 5
unfolding spawn_raw find_free_slot new
one_task_room = omega arith

run_forever-ends_example :
    (x : OuroborosExecutor × ℕ) × (run_forever counting quiet 5 (one_task, 3) ≡ some x)
    × IsValid x.0
    × (tasks_in x.0.slots ≡ 0)
run_forever-ends_example =
    run_forever-ends counting quiet (λ w. w) counting_works (λ a w. omega arith)
      (λ n w. omega arith) 5 one_task 3 one_task-IsValid one_task-IsAwake one_task_room

-- After a pass in which the task parked silently.
abbrev starved : OuroborosExecutor
starved = (run_until_stall silent (one_task, 0)).0

starved-IsStarved : IsStarved 0 starved
unfolding run_until_stall visit poll_slot spawn_raw find_free_slot new
starved-IsStarved = record { lives = refl; unset = refl }

run_forever_stuck_example : run_forever silent quiet 100 (starved, 0) ≡ none
run_forever_stuck_example =
    run_forever_stuck silent quiet 0 100 starved 0
      (run_until_stall-IsValid silent one_task 0 one_task-IsValid) starved-IsStarved
