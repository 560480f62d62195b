-- ===== src/Executor/Pending.antt =====
-- src/executor.rs, `run_until_stall`: a task that wakes itself is not lost.
use slope.Base.{
  ℕ, suc, ◌-◌, ◌≤◌, ◌≡◌, ◌≢◌, sym, ap, subst, ◌∙◌, ◌⊎◌, inl, inr, Bool, true, false, Bool-cases,
  List, [], ◌∷◌, get_or, get_or-set_self, get_or-set_ne, set, if◌then◌else◌, arith, ℕ_discrete,
}
use slope.Executor.{TaskSlot, parked, done, empty, OuroborosExecutor, is_pollable, Polled, visit}
use slope.Executor.Counted.{slot_at, IsValid}
use slope.Executor.Awake.{IsAwake}
use slope.Executor.Pass.{poll_skip, poll_once, settled, in_range, settled-IsValid}

-- Its bit is set, or waits in the rest of the mask from slot `bit` on.
unfoldable pub IsPending : List Bool → ℕ → OuroborosExecutor → Type 0
IsPending mask bit e =
    (i : ℕ)
    → is_pollable (slot_at e i).state ≡ true
    → (get_or e.ready_mask i false ≡ true) ⊎ ((bit ≤ i) × (get_or mask (i - bit) false ≡ true))

-- The rest of a mask, seen from the next slot.
tail_at :
    (b : Bool) (mask : List Bool) (bit i : ℕ)
    → suc bit ≤ i
    → get_or (b ∷ mask) (i - bit) false ≡ get_or mask (i - suc bit) false
tail_at b mask bit i h =
    let e : i - bit ≡ suc (i - suc bit) = omega arith in ap (λ n. get_or (b ∷ mask) n false) e

head_at :
    (b : Bool) (mask : List Bool) (bit i : ℕ) → bit ≡ i → get_or (b ∷ mask) (i - bit) false ≡ b
head_at b mask bit i h = let e : i - bit ≡ 0 = omega arith in ap (λ n. get_or (b ∷ mask) n false) e

pending_tail :
    {A : Type 0} (b : Bool) (mask : List Bool) (bit i : ℕ)
    → bit ≢ i
    → A ⊎ ((bit ≤ i) × (get_or (b ∷ mask) (i - bit) false ≡ true))
    → A ⊎ ((suc bit ≤ i) × (get_or mask (i - suc bit) false ≡ true))
pending_tail b mask bit i h (inl a) = inl a
pending_tail b mask bit i h (inr (le, g)) =
    let less : suc bit ≤ i = omega arith in inr (less, sym (tail_at b mask bit i less) ∙ g)

IsPending-false :
    (mask : List Bool) (bit : ℕ) (e : OuroborosExecutor)
    → IsPending (false ∷ mask) bit e
    → IsPending mask (suc bit) e
unfolding IsPending
IsPending-false mask bit e p i k = elim (ℕ_discrete bit i) [
  | no q ↦ pending_tail false mask bit i q (p i k)
  | yes q ↦ elim (p i k) [
    | inl m ↦ inl m
    | inr (le, g) ↦ absurd (ground (arith, head_at false mask bit i q, g))
  ]
]

IsPending-skip :
    (mask : List Bool) (bit : ℕ) (e : OuroborosExecutor)
    → is_pollable (slot_at e bit).state ≡ false
    → IsPending (true ∷ mask) bit e
    → IsPending mask (suc bit) e
unfolding IsPending
IsPending-skip mask bit e h p i k = elim (ℕ_discrete bit i) [
  | no q ↦ pending_tail true mask bit i q (p i k)
  | yes q ↦
      let same = ap (λ j. is_pollable (slot_at e j).state) q in absurd (ground (arith, same, h, k))
]

module _ {World : Type 0} (poll : ℕ → World → Polled World)
    (wakes : (a : ℕ) (w : World) → (poll a w).is_done ≡ false → (poll a w).woken ≡ true) where
  IsPending-next :
      (mask : List Bool) (bit : ℕ) (e : OuroborosExecutor) (w : World)
      → IsValid e
      → IsPending (true ∷ mask) bit e
      → is_pollable (slot_at e bit).state ≡ true
      → IsPending mask (suc bit) (settled poll bit e (poll (slot_at e bit).address w))
  unfolding IsPending
  IsPending-next mask bit e w v p h i k =
      let a : ℕ = (slot_at e bit).address in
      let o = poll a w in
      let slot : TaskSlot = record { address = a; state = if o.is_done then done else parked } in
      let range = in_range e.slots bit h in
      elim (ℕ_discrete bit i) [
        | no q ↦
            let slot_same = get_or-set_ne e.slots bit i slot empty q in
            let bit_same = get_or-set_ne e.ready_mask bit i true false q in
            elim (pending_tail true mask bit i q
              (p i (subst (λ (s : TaskSlot). is_pollable s.state ≡ true) slot_same k))) [
                | inl m ↦ inl (ground (arith, bit_same, m))
                | inr r ↦ inr r
              ]
        | yes q ↦ elim (Bool-cases o.is_done) [
          | inl d ↦
              let here = get_or-set_self e.slots bit slot empty range in
              let k' =
                subst (λ j. is_pollable (get_or (set e.slots bit slot) j empty).state ≡ true)
                  (sym q) k in
              let k'' = subst (λ (s : TaskSlot). is_pollable s.state ≡ true) here k' in
              absurd (ground (arith, k'', d))
          | inr d ↦
              let woke = wakes a w d in
              let set_here =
                get_or-set_self e.ready_mask bit true false
                  (omega (arith, v.masked, v.shaped, range)) in
              inl (
                subst
                  (λ j.
                    get_or (if o.woken then set e.ready_mask bit true else e.ready_mask) j false
                    ≡ true)
                  q (rw woke set_here))
        ]
      ]

  pub visit-IsPending :
      (mask : List Bool) (bit : ℕ) (e : OuroborosExecutor) (w : World)
      → IsValid e
      → IsPending mask bit e
      → IsAwake (visit poll mask bit (e, w)).0
  unfolding visit IsPending
  visit-IsPending [] bit e w v p =
      λ i k. elim (p i k) [ inl m ↦ m | inr (le, g) ↦ absurd (ground arith) ]
  visit-IsPending (false ∷ mask) bit e w v p =
      visit-IsPending mask (suc bit) e w v (IsPending-false mask bit e p)
  visit-IsPending (true ∷ mask) bit e w v p =
      elim (Bool-cases (is_pollable (slot_at e bit).state)) [
        | inr h ↦
            subst (λ x. IsAwake (visit poll mask (suc bit) x).0) (sym (poll_skip poll bit e w h))
              (visit-IsPending mask (suc bit) e w v (IsPending-skip mask bit e h p))
        | inl h ↦
            let o = poll (slot_at e bit).address w in
            subst (λ x. IsAwake (visit poll mask (suc bit) x).0) (sym (poll_once poll bit e w h))
              (visit-IsPending mask (suc bit) (settled poll bit e o) o.world
                (settled-IsValid poll bit e o h v) (IsPending-next mask bit e w v p h))
      ]
