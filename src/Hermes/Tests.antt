-- ===== src/Hermes/Tests.antt =====
-- Runs of src/hermes_manifold.rs, after its own tests.
use slope.Base.{ℕ, ◌≡◌, refl, true, List, [], ◌∷◌}
use slope.Hermes.Phase.{as_u8, online}
use slope.Hermes.Feature.{well_formed}
use slope.Hermes.Evidence.{OnlineCertificate, online_ready, seal, seal_root}
use slope.Hermes.Manifold.{
  Call, observes_probe, observes_firmware, arms_queues, negotiates, ignites, restores, dark,
  observe_probe, observe_firmware, arm_queues, negotiate, ignite, certify, apply, run,
}
use slope.Hermes.Lattice.{Moves, apply-Moves}
use slope.Hermes.Online.{HasAuthority, run-HasAuthority}

-- The features of the source's first test.
abbrev features : ℕ
features = 951

abbrev gates : List Call
gates =
    observes_probe true
    ∷ observes_firmware true
    ∷ arms_queues true 3
    ∷ negotiates features
    ∷ ignites true true true
    ∷ []

gates_lead_online : (run gates (dark 7)).phase ≡ online
unfolding run dark apply observe_probe observe_firmware arm_queues negotiate ignite certify seal
    online_ready well_formed as_u8 seal_root
gates_lead_online = refl

run-HasAuthority_example : (c : OnlineCertificate) × HasAuthority (run gates (dark 7)) c
run-HasAuthority_example = run-HasAuthority 7 gates gates_lead_online

apply-Moves_example :
    Moves
      (apply restores (run gates (dark 7))).0
      (run gates (dark 7)).phase
      (apply restores (run gates (dark 7))).1.phase
apply-Moves_example = apply-Moves restores (run gates (dark 7))
