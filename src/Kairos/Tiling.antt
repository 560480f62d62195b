-- ===== src/Kairos/Tiling.antt =====
-- src/kairos.rs, `partition_work`: the slices cover the work without gap or overlap.
use slope.Base.{
  ℕ, zero, suc, ◌+◌, ◌-◌, ◌*◌, ◌/◌, ◌%◌, ◌≤◌, ◌<◌, ◌≡◌, refl, ap, subst, Bool-cases, inl, inr, some,
  List, [], ◌∷◌, length, ◌==◌, arith, dec_lt,
}
use slope.Kairos.Topology.{DomainDescriptor, TopologySnapshot}
use slope.Kairos.Partition.{
  WorkSlice, Weighted, weigh, total_weight, chunks, sum, bump, lay_out, partition_weighted,
  partition_work,
}
use native.Mathlib.Nat.{add-mul, mul-add, mul_comm, div-mul-le_self, lt-div-mul-add, div-add-mod}

-- The slices run from the cursor to the total, each from where the one before ends.
pub Tiles : ℕ → ℕ → List WorkSlice → Type 0
Tiles cursor total [] = cursor ≡ total
Tiles cursor total (w ∷ ws) = (w.start ≡ cursor) × (w.start ≤ w.end) × Tiles w.end total ws

lay_out-Tiles :
    (cursor : ℕ) (ws : List Weighted) (cs : List ℕ)
    → length ws ≡ length cs
    → Tiles cursor (cursor + sum cs) (lay_out cursor ws cs)
unfolding Tiles lay_out sum
lay_out-Tiles cursor [] [] h = omega arith
lay_out-Tiles cursor [] (chunk ∷ cs) h = absurd (omega arith)
lay_out-Tiles cursor (w ∷ ws) [] h = absurd (omega arith)
lay_out-Tiles cursor (w ∷ ws) (chunk ∷ cs) h =
    let reached : cursor + chunk + sum cs ≡ cursor + (chunk + sum cs) = omega arith in
    (
      refl,
      omega arith,
      subst (λ t. Tiles (cursor + chunk) t (lay_out (cursor + chunk) ws cs)) reached
          (lay_out-Tiles (cursor + chunk) ws cs (omega arith)),
    )

sum-bump : (left : ℕ) (cs : List ℕ) → left ≤ length cs → sum (bump left cs) ≡ sum cs + left
unfolding sum bump
sum-bump zero cs h = omega arith
sum-bump (suc left) [] h = absurd (omega arith)
sum-bump (suc left) (chunk ∷ cs) h = omega (arith, sum-bump left cs (omega arith))

length-bump : (left : ℕ) (cs : List ℕ) → length (bump left cs) ≡ length cs
unfolding bump
length-bump zero cs = refl
length-bump (suc left) [] = refl
length-bump (suc left) (chunk ∷ cs) = ap suc (length-bump left cs)

length-chunks : (total e : ℕ) (ws : List Weighted) → length (chunks total e ws) ≡ length ws
unfolding chunks
length-chunks total e [] = refl
length-chunks total e (w ∷ ws) = ap suc (length-chunks total e ws)

-- The whole parts of the shares of the residual.
fractions : ℕ → ℕ → List Weighted → ℕ
fractions r e [] = 0
fractions r e (w ∷ ws) = r * w.weight / e + fractions r e ws

sum-chunks :
    (total e : ℕ) (ws : List Weighted)
    → sum (chunks total e ws) ≡ total / e * total_weight ws + fractions (total % e) e ws
unfolding sum chunks total_weight fractions
sum-chunks total e [] = omega arith
sum-chunks total e (w ∷ ws) =
    omega (arith, sum-chunks total e ws, mul-add (total / e) w.weight (total_weight ws))

fractions_le : (r e : ℕ) (ws : List Weighted) → fractions r e ws * e ≤ r * total_weight ws
unfolding total_weight fractions
fractions_le r e [] = omega arith
fractions_le r e (w ∷ ws) = omega (
  arith,
  fractions_le r e ws,
  add-mul (r * w.weight / e) (fractions r e ws) e,
  mul-add r w.weight (total_weight ws),
  div-mul-le_self (r * w.weight) e,
)

fractions_ge :
    (r e : ℕ) (ws : List Weighted)
    → 0 < e
    → r * total_weight ws ≤ fractions r e ws * e + length ws * e
unfolding total_weight fractions
fractions_ge r e [] pos = omega arith
fractions_ge r e (w ∷ ws) pos = omega (
  arith,
  fractions_ge r e ws pos,
  add-mul (r * w.weight / e) (fractions r e ws) e,
  mul-add r w.weight (total_weight ws),
  add-mul 1 (length ws) e,
  lt-div-mul-add {a = r * w.weight} pos,
)

le_of_mul : (a b e : ℕ) → 0 < e → a * e ≤ b * e → a ≤ b
le_of_mul a b e pos h = elim (dec_lt b a) [
  | yes more ↦
      let gap : a ≡ b + (1 + (a - b - 1)) = omega arith in
      absurd
        (omega (arith, ap (λ x. x * e) gap, add-mul b (1 + (a - b - 1)) e, add-mul 1 (a - b - 1) e))
  | no d ↦ omega arith
]

-- What is left over is at most one for each domain.
left_over :
    (total : ℕ) (ws : List Weighted)
    → 0 < total_weight ws
    → (sum (chunks total (total_weight ws) ws) ≤ total)
      × (total - sum (chunks total (total_weight ws) ws) ≤ length ws)
left_over total ws pos = (omega (arith, below, whole, parts), omega (arith, above, whole, parts))
  where
    e : ℕ
    e = total_weight ws

    whole : total / e * e + total % e ≡ total
    whole = omega (arith, div-add-mod total e, mul_comm (total / e) e)

    parts : sum (chunks total e ws) ≡ total / e * e + fractions (total % e) e ws
    parts = sum-chunks total e ws

    below : fractions (total % e) e ws ≤ total % e
    below = le_of_mul (fractions (total % e) e ws) (total % e) e pos (fractions_le (total % e) e ws)

    above : total % e ≤ fractions (total % e) e ws + length ws
    above = le_of_mul (total % e) (fractions (total % e) e ws + length ws) e pos (
        omega (
          arith,
          fractions_ge (total % e) e ws pos,
          add-mul (fractions (total % e) e ws) (length ws) e,
        ))

length-weigh : (s : TopologySnapshot) (ds : List DomainDescriptor) → length (weigh s ds) ≤ length ds
unfolding weigh
length-weigh s [] = omega arith
length-weigh s (d ∷ ds) = ground (arith, length-weigh s ds)

weighted-Tiles :
    (maximum_domains total : ℕ) (ws : List Weighted)
    → length ws ≤ maximum_domains
    → (slices : List WorkSlice) × (partition_weighted maximum_domains total ws ≡ some slices)
      × Tiles 0 total slices
unfolding partition_weighted Tiles
weighted-Tiles maximum_domains total ws fits = elim (Bool-cases (total_weight ws == 0)) [
  | inl h ↦ (
    record { domain_id = 0; start = 0; end = total } ∷ [],
    ground arith,
    (refl, omega arith, refl),
  )
  | inr h ↦
      let pos : 0 < total_weight ws = ground arith in
      let (below, left) = left_over total ws pos in
      let cs = chunks total (total_weight ws) ws in
      let n : length cs ≡ length ws = length-chunks total (total_weight ws) ws in
      let rest = total - sum cs in
      let covered : 0 + sum (bump rest cs) ≡ total =
        omega (arith, sum-bump rest cs (omega (arith, n, left)), below) in
      (
        lay_out 0 ws (bump rest cs),
        ground (arith, h, below, left, fits),
        subst (λ t. Tiles 0 t (lay_out 0 ws (bump rest cs))) covered
            (lay_out-Tiles 0 ws (bump rest cs) (omega (arith, length-bump rest cs, n))),
      )
]

-- A partition of any amount of work is computed without a panic, if the topology has no more
-- domains than the arrays have room for, and its slices run from 0 to the total, each from where
-- the one before ends.
pub partition_work-Tiles :
    (maximum_domains total : ℕ) (s : TopologySnapshot)
    → length s.domains ≤ maximum_domains
    → (slices : List WorkSlice) × (partition_work maximum_domains total s ≡ some slices)
      × Tiles 0 total slices
unfolding partition_work
partition_work-Tiles maximum_domains total s fits =
    weighted-Tiles maximum_domains total (weigh s s.domains)
      (omega (arith, length-weigh s s.domains, fits))
