-- ===== src/Sync.antt =====
-- src/sync/entanglement.rs: `SpookyCell` and the lock protocol of `EntangledPair`. What other
-- holders of the lock do is an argument: `busy i` says whether the attempt numbered `i` finds the
-- lock taken. The operation itself runs with the lock held, so it is a function of the value.
pub mod Bounded
mod Tests
use slope.Base.{ℕ, zero, suc, ◌+◌, Bool, true, false, Result, ok, err, if◌then◌else◌}

pub data EntanglementError : Type 0 where
  busy : EntanglementError

unfoldable pub try_mutate : {T R : Type 0} → Bool → (T → R × T) → T → Result EntanglementError R × T
try_mutate locked operation value =
    if locked then (err busy, value) else (let (r, value') = operation value in (ok r, value'))

unfoldable pub try_observe : {T R : Type 0} → Bool → (T → R) → T → Result EntanglementError R
try_observe locked operation value = if locked then err busy else ok (operation value)

-- The loop of `mutate_bounded`: it stops at the first attempt that finds the lock free.
unfoldable pub mutate_bounded :
    {T R : Type 0} → ℕ → (ℕ → Bool) → (T → R × T) → T → Result EntanglementError R × T
unfolding try_mutate
mutate_bounded zero taken operation value = (err busy, value)
mutate_bounded (suc attempts) taken operation value = elim (taken 0) [
  | true ↦ mutate_bounded attempts (λ i. taken (suc i)) operation value
  | false ↦ try_mutate false operation value
]
