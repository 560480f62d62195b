-- ===== src/Executor.antt =====
-- src/executor.rs: the arena of task slots and its loops. The mask of 64 bits is the list of its
-- bits, the lowest first. A task is the address of its storage; what its poll does is a parameter.
use slope.Base.{
  ℕ, zero, suc, ◌+◌, ◌-◌, Bool, true, false, not, ◌&&◌, ◌||◌, ◌==◌, Option, none, some, Result, ok,
  err, List, [], ◌∷◌, map, get_or, set, replicate, if◌then◌else◌,
}
pub mod Counted
pub mod Pass
pub mod Due
pub mod Awake
mod Pending
pub mod Ending
pub mod Starved
mod Tests

abbrev pub max_tasks : ℕ
max_tasks = 64

pub data ExecutorError : Type 0 where
  arena_full : ExecutorError

pub data SlotState : Type 0 where
  free parked ready running done : SlotState

pub record TaskSlot : Type 0 where
  pub address : ℕ
  pub state : SlotState

abbrev pub empty : TaskSlot
empty = record { address = 0; state = free }

pub record OuroborosExecutor : Type 0 where
  pub slots : List TaskSlot
  pub ready_mask : List Bool
  pub count : ℕ

unfoldable pub new : OuroborosExecutor
new = record {
  slots = replicate max_tasks empty;
  ready_mask = replicate max_tasks false;
  count = 0;
}

abbrev pub is_vacant : SlotState → Bool
is_vacant free = true
is_vacant done = true
is_vacant _ = false

abbrev pub is_pollable : SlotState → Bool
is_pollable ready = true
is_pollable parked = true
is_pollable _ = false

-- `position`.
unfoldable pub find_vacant : List TaskSlot → Option ℕ
find_vacant [] = none
find_vacant (s ∷ slots) =
    let rest = find_vacant slots in
    if is_vacant s.state then some 0 else (elim rest [ none ↦ none | some i ↦ some (suc i) ])

unfoldable pub find_free_slot : OuroborosExecutor → Option ℕ
unfolding find_vacant
find_free_slot e = find_vacant e.slots

unfoldable pub spawn_raw : ℕ → OuroborosExecutor → Result ExecutorError ℕ × OuroborosExecutor
unfolding find_free_slot
spawn_raw storage e = elim (find_free_slot e) [
  | none ↦ (err arena_full, e)
  | some slot ↦ (
    ok slot,
    record {
      slots = set e.slots slot (record { address = storage; state = ready });
      ready_mask = set e.ready_mask slot true;
      count = e.count + 1;
    },
  )
]

-- What a poll did: whether its future is ready, and whether it called its waker.
pub record Polled (World : Type 0) : Type 0 where
  pub is_done : Bool
  pub woken : Bool
  pub world : World

module _ {World : Type 0} (poll : ℕ → World → Polled World) where
  -- The body of the loop, for one bit of the mask.
  unfoldable pub poll_slot : ℕ → OuroborosExecutor × World → OuroborosExecutor × World
  poll_slot bit (e, w) =
      let slot : TaskSlot = get_or e.slots bit empty in
      if not (is_pollable slot.state)
      then (e, w)
      else (let outcome = poll slot.address w in
          let mask : List Bool =
            if outcome.woken then set e.ready_mask bit true else e.ready_mask in
          let after : SlotState = if outcome.is_done then done else parked in
          (
            record {
              slots =
                  set (set e.slots bit (record slot { state = running })) bit
                    (record slot { state = after });
              ready_mask = mask;
              count = if outcome.is_done then e.count - 1 else e.count;
            },
            outcome.world,
          ))

  -- The loop takes the lowest bit of the mask that is set and clears it: it goes up through the bits.
  unfoldable pub visit : List Bool → ℕ → OuroborosExecutor × World → OuroborosExecutor × World
  unfolding poll_slot
  visit [] bit x = x
  visit (b ∷ mask) bit x = visit mask (suc bit) (if b then poll_slot bit x else x)

  unfoldable pub run_until_stall : OuroborosExecutor × World → OuroborosExecutor × World
  unfolding visit
  run_until_stall (e, w) =
      visit e.ready_mask 0 (record e { ready_mask = replicate max_tasks false }, w)

  -- What the system call between two passes does to the world.
  module _ (yield_retrocausally : ℕ → World → World) where
    -- None when the fuel runs out.
    unfoldable pub run_forever : ℕ → OuroborosExecutor × World → Option (OuroborosExecutor × World)
    unfolding run_until_stall
    run_forever zero x = none
    run_forever (suc fuel) x =
        let (e, w) = run_until_stall x in
        let rest = run_forever fuel (e, yield_retrocausally e.count w) in
        if e.count == 0 then some (e, w) else rest
