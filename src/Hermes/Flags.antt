-- ===== src/Hermes/Flags.antt =====
-- src/hermes_manifold.rs, `snapshot_flags`.
use slope.Base.{◌!=◌, ◌≡◌, bit_and, arith}
use slope.Hermes.Phase.{recovering, quarantined, phase_eq, as_u8}
use slope.Hermes.Manifold.{
  HermesManifold, snapshot_flags, is_online, flag_hermes_online, flag_recovery_pending,
  flag_quarantine_active, flag_dma_revoked,
}

-- Each of the four bits of the snapshot flags is set exactly when the manifold is online,
-- recovering, or quarantined (two bits).
pub snapshot_flags_lem :
    (m : HermesManifold)
    → ((bit_and (snapshot_flags m) flag_hermes_online != 0) ≡ is_online m)
      × ((bit_and (snapshot_flags m) flag_recovery_pending != 0) ≡ phase_eq m.phase recovering)
      × ((bit_and (snapshot_flags m) flag_quarantine_active != 0) ≡ phase_eq m.phase quarantined)
      × ((bit_and (snapshot_flags m) flag_dma_revoked != 0) ≡ phase_eq m.phase quarantined)
unfolding snapshot_flags as_u8
snapshot_flags_lem m = ground arith
