-- ===== src/Hermes/Lattice.antt =====
-- src/hermes_manifold.rs: a call moves a manifold along the phase lattice or not at all.
use slope.Base.{ℕ, ◌+◌, ◌≤◌, ◌≡◌, ap, Result, ok, err, Result-cases, List, [], ◌∷◌, length, arith}
use slope.Hermes.Phase.{
  HermesPhase, offline, probed, firmwared, queued, negotiated, online, recovering, quarantined,
  as_u8,
}
use slope.Hermes.Evidence.{ManifoldFault, seal}
use slope.Hermes.Manifold.{
  HermesManifold, Call, observes_probe, observes_firmware, arms_queues, negotiates, ignites,
  detects_fault, restores, contains, releases, dark, observe_probe, observe_firmware, arm_queues,
  negotiate, ignite, detect_fault, restore, contain, release, apply, run,
}

-- The edges of the lattice.
pub data Edge : HermesPhase → HermesPhase → Type 0 where
  probe : Edge offline probed
  measure : Edge probed firmwared
  arm : Edge firmwared queued
  agree : Edge queued negotiated
  light : Edge negotiated online
  fault : Edge online recovering
  mend : Edge recovering online
  isolate : Edge recovering quarantined
  reset : Edge quarantined offline

-- A success takes an edge, a failure stays.
abbrev pub Moves : Result ManifoldFault (Unit {0}) → HermesPhase → HermesPhase → Type 0
Moves (ok _) p q = Edge p q
Moves (err _) p q = q ≡ p

-- Every call on a manifold takes one of the nine edges of the phase lattice if it succeeds, and
-- keeps the phase if it fails.
pub apply-Moves : (c : Call) (m : HermesManifold) → Moves (apply c m).0 m.phase (apply c m).1.phase
unfolding apply observe_probe observe_firmware arm_queues negotiate ignite detect_fault restore
    contain release as_u8
apply-Moves (observes_probe b) m = ground (arith, probe)
apply-Moves (observes_firmware b) m = ground (arith, measure)
apply-Moves (arms_queues b n) m = ground (arith, arm)
apply-Moves (negotiates n) m = ground (arith, agree)
apply-Moves (ignites a b c) m = ground (
  arith,
  light,
  Result-cases (
      seal m.generation
        (record m.evidence { wpr_locked = a; boot_mailbox_ok = b; ready_queue_observed = c })),
)
apply-Moves (detects_fault b) m = ground (arith, fault)
apply-Moves restores m = ground (arith, mend)
apply-Moves contains m = ground (arith, isolate)
apply-Moves releases m = ground (arith, reset)

-- How many calls a phase is from the dark manifold, at the least.
height : HermesPhase → ℕ
height offline = 0
height probed = 1
height firmwared = 2
height queued = 3
height negotiated = 4
height online = 5
height recovering = 5
height quarantined = 5

Edge-height : {p q : HermesPhase} → Edge p q → height q ≤ height p + 1
unfolding height
Edge-height probe = omega arith
Edge-height measure = omega arith
Edge-height arm = omega arith
Edge-height agree = omega arith
Edge-height light = omega arith
Edge-height fault = omega arith
Edge-height mend = omega arith
Edge-height isolate = omega arith
Edge-height reset = omega arith

Moves-height :
    (r : Result ManifoldFault (Unit {0})) (p q : HermesPhase)
    → Moves r p q
    → height q ≤ height p + 1
Moves-height (ok _) p q e = Edge-height e
Moves-height (err _) p q e = omega (arith, ap height e)

run-height :
    (cs : List Call) (m : HermesManifold) → height (run cs m).phase ≤ height m.phase + length cs
unfolding run
run-height [] m = omega arith
run-height (c ∷ cs) m = omega (
  arith,
  run-height cs (apply c m).1,
  Moves-height (apply c m).0 m.phase (apply c m).1.phase (apply-Moves c m),
)

-- A manifold that starts dark and is online has been through at least five calls.
pub online_after_five :
    (generation : ℕ) (cs : List Call) → (run cs (dark generation)).phase ≡ online → 5 ≤ length cs
unfolding height dark
online_after_five generation cs e = omega (arith, run-height cs (dark generation), ap height e)
