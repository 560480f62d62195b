-- ===== src/Sync/Bounded.antt =====
-- src/sync/entanglement.rs: the bounded retry runs its operation once or not at all.
use slope.Base.{
  ℕ, zero, suc, ◌<◌, ◌≡◌, refl, Bool, true, false, Result, ok, err, Bool-cases, inl, inr, ◌⊎◌,
  arith,
}
use slope.Sync.{EntanglementError, busy, try_mutate, mutate_bounded}

-- Either some attempt finds the lock free, and the operation ran once on the value, or every
-- attempt finds it taken, and the value is untouched.
abbrev pub Once :
    {T R : Type 0} → ℕ → (ℕ → Bool) → (T → R × T) → T → Result EntanglementError R × T → Type 0
Once attempts taken operation value outcome =
    ((k : ℕ) × (k < attempts)
      × (taken k ≡ false)
      × (outcome ≡ (ok (operation value).0, (operation value).1)))
    ⊎ (((k : ℕ) → k < attempts → taken k ≡ true) × (outcome ≡ (err busy, value)))

first_or_later :
    (attempts : ℕ) (taken : ℕ → Bool)
    → taken 0 ≡ true
    → ((k : ℕ) → k < attempts → taken (suc k) ≡ true)
    → (k : ℕ) → k < suc attempts
    → taken k ≡ true
first_or_later attempts taken e all zero h = e
first_or_later attempts taken e all (suc k) h = all k (omega arith)

-- A bounded retry returns: if one of its attempts finds the lock free the operation runs on the
-- value exactly once, otherwise it reports Busy and leaves the value as it was.
pub mutate_bounded-Once :
    {T R : Type 0} (attempts : ℕ) (taken : ℕ → Bool) (operation : T → R × T) (value : T)
    → Once attempts taken operation value (mutate_bounded attempts taken operation value)
unfolding mutate_bounded try_mutate
mutate_bounded-Once zero taken operation value = inr ((λ k h. elim h [ ]), refl)
mutate_bounded-Once (suc attempts) taken operation value = elim (Bool-cases (taken 0)) [
  | inl e ↦ elim (mutate_bounded-Once attempts (λ i. taken (suc i)) operation value) [
    | inl (k, h, free, same) ↦ inl (suc k, omega arith, free, rw (e, mutate_bounded) same)
    | inr (all, same) ↦ inr (first_or_later attempts taken e all, rw (e, mutate_bounded) same)
  ]
  | inr e ↦ inl (0, omega arith, e, rw (e, mutate_bounded) refl)
]
