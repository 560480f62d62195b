-- ===== src/Sync/Tests.antt =====
-- Runs of src/sync/entanglement.rs.
use slope.Base.{ℕ, ◌+◌, Bool, true, false, suc, zero}
use slope.Sync.{mutate_bounded}
use slope.Sync.Bounded.{Once, mutate_bounded-Once}

-- The lock is taken at the first attempt alone.
abbrev first_taken : ℕ → Bool
first_taken zero = true
first_taken (suc k) = false

abbrev bump : ℕ → ℕ × ℕ
bump v = (v, v + 1)

mutate_bounded-Once_example : Once 64 first_taken bump 5 (mutate_bounded 64 first_taken bump 5)
mutate_bounded-Once_example = mutate_bounded-Once 64 first_taken bump 5
