-- ===== src/Thermogenesis/Transitions.antt =====
-- src/thermogenesis.rs, `ThermalPolicy`: the calls of its handler.
use slope.Base.{
  ℕ, ◌≡◌, refl, ap, ◌∙◌, true, false, not, ◌||◌, sym, ◌==◌, Bool-cases, inl, inr, Option, none,
  some, List, [], ◌∷◌, ◌++◌, if◌then◌else◌, arith,
}
use slope.Thermogenesis.{
  ThermalPage, ThermalZone, zone, zone_number, ThermalPolicy, new_policy, check_transition,
}

-- The epoch and the zone that a check reads.
abbrev pub Reading : Type 0
Reading = ℕ × ThermalZone

abbrev calls_of : Option (ThermalZone × ThermalZone) → List (ThermalZone × ThermalZone)
calls_of none = []
calls_of (some c) = c ∷ []

-- The calls of the handler in a sequence of checks.
pub log : List Reading → ThermalPolicy → List (ThermalZone × ThermalZone)
log [] policy = []
log ((epoch, z) ∷ readings) policy =
    calls_of (check_transition epoch z policy).0 ++ log readings (check_transition epoch z policy).1

-- The changes between a zone and the zones that are read after it.
abbrev pub changes : ThermalZone → List Reading → List (ThermalZone × ThermalZone)
changes z [] = []
changes z ((epoch, z') ∷ readings) =
    if zone_number z' == zone_number z then changes z' readings else (z, z') ∷ changes z' readings

-- A reading with the epoch of the one before has its zone too.
abbrev pub IsStamped : ℕ → ThermalZone → List Reading → Type 0
IsStamped epoch z [] = Unit {0}
IsStamped epoch z ((epoch', z') ∷ readings) =
    ((not (epoch' == epoch) || (zone_number z' == zone_number z)) ≡ true)
    × IsStamped epoch' z' readings

zone_is : (y z : ThermalZone) → (zone_number y == zone_number z) ≡ true → y ≡ z
unfolding zone_number
zone_is y z h = ground arith

abbrev policy_at : ℕ → ThermalZone → ThermalPolicy
policy_at epoch z = record { last_zone = z; last_epoch = epoch }

quiet :
    (epoch epoch' : ℕ) (z : ThermalZone)
    → (epoch' == epoch) ≡ false
    → check_transition epoch' z (policy_at epoch z) ≡ (none, policy_at epoch' z)
unfolding check_transition
quiet epoch epoch' z h = ground arith

same_epoch :
    (epoch epoch' : ℕ) (z z' : ThermalZone)
    → (epoch' == epoch) ≡ true
    → check_transition epoch' z' (policy_at epoch z) ≡ (none, policy_at epoch z)
unfolding check_transition
same_epoch epoch epoch' z z' h = ground arith

fires :
    (epoch epoch' : ℕ) (z z' : ThermalZone)
    → (epoch' == epoch) ≡ false
    → (zone_number z' == zone_number z) ≡ false
    → check_transition epoch' z' (policy_at epoch z) ≡ (some (z, z'), policy_at epoch' z')
unfolding check_transition
fires epoch epoch' z z' h k = ground arith

log_of :
    (epoch : ℕ) (z : ThermalZone) (readings : List Reading)
    → IsStamped epoch z readings
    → log readings (policy_at epoch z) ≡ changes z readings
unfolding log
log_of epoch z [] h = refl
log_of epoch z ((epoch', z') ∷ readings) (h, rest) =
    elim (Bool-cases (zone_number z' == zone_number z)) [
      | inl same ↦
          let z-is : z' ≡ z = zone_is z' z same in
          rw same (elim (Bool-cases (epoch' == epoch)) [
            | inl e ↦
                let epoch-is : epoch' ≡ epoch = ground arith in
                ap (λ x. calls_of x.0 ++ log readings x.1) (same_epoch epoch epoch' z z' e)
                ∙ ap (λ n. log readings (policy_at n z)) (sym epoch-is)
                ∙ ap (λ y. log readings (policy_at epoch' y)) (sym z-is)
                ∙ log_of epoch' z' readings rest
            | inr e ↦
                ap
                  (λ y.
                    calls_of (check_transition epoch' y (policy_at epoch z)).0
                    ++ log readings (check_transition epoch' y (policy_at epoch z)).1)
                  z-is
                ∙ ap (λ x. calls_of x.0 ++ log readings x.1) (quiet epoch epoch' z e)
                ∙ ap (λ y. log readings (policy_at epoch' y)) (sym z-is)
                ∙ log_of epoch' z' readings rest
          ])
      | inr other ↦
          let e : (epoch' == epoch) ≡ false = ground arith in
          rw other (
            ap (λ x. calls_of x.0 ++ log readings x.1) (fires epoch epoch' z z' e other)
            ∙ ap (λ l. (z, z') ∷ l) (log_of epoch' z' readings rest))
    ]

-- If a reading whose epoch is that of the reading before has its zone too, the calls of the
-- handler of a new policy in any sequence of checks are exactly the changes between the zone of
-- the page at its start and the zones that are read after it, each once and in order.
pub log-changes :
    (p : ThermalPage) (readings : List Reading)
    → IsStamped p.kernel_epoch (zone p) readings
    → log readings (new_policy p) ≡ changes (zone p) readings
unfolding new_policy
log-changes p readings h = log_of p.kernel_epoch (zone p) readings h
