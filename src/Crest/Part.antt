-- ===== src/Crest/Part.antt =====
-- src/quantum_crest.rs: the parts of a snapshot, and the frame certificate of a reply.
use slope.Base.{ℕ, List, [], ◌∷◌, replicate}
use slope.Crest.Root.{I32, pos, as_u32, absorb_all, avalanche, domain}

pub record QuantumGpuState : Type 0 where
  pub vendor_id : ℕ
  pub device_id : ℕ
  pub revision : ℕ
  pub gsp_wire_major : ℕ
  pub gsp_wire_minor : ℕ
  pub gsp_epoch : ℕ
  pub negotiated_features : ℕ
  pub firmware_version : ℕ
  pub temperature_q16 : I32
  pub pressure_q16 : I32
  pub corrected_faults : ℕ
  pub fatal_faults : ℕ

abbrev pub no_gpu : QuantumGpuState
no_gpu = record {
  vendor_id = 0;
  device_id = 0;
  revision = 0;
  gsp_wire_major = 0;
  gsp_wire_minor = 0;
  gsp_epoch = 0;
  negotiated_features = 0;
  firmware_version = 0;
  temperature_q16 = pos 0;
  pressure_q16 = pos 0;
  corrected_faults = 0;
  fatal_faults = 0;
}

unfoldable pub absorb_gpu : ℕ → QuantumGpuState → ℕ
unfolding absorb_all
absorb_gpu state gpu = absorb_all state (
    gpu.vendor_id
    ∷ gpu.device_id
    ∷ gpu.revision
    ∷ gpu.gsp_wire_major
    ∷ gpu.gsp_wire_minor
    ∷ gpu.gsp_epoch
    ∷ gpu.negotiated_features
    ∷ gpu.firmware_version
    ∷ as_u32 gpu.temperature_q16
    ∷ as_u32 gpu.pressure_q16
    ∷ gpu.corrected_faults
    ∷ gpu.fatal_faults
    ∷ [])

pub record QuantumBlackLabState : Type 0 where
  pub policy_epoch : ℕ
  pub risk : ℕ
  pub severity : ℕ
  pub action : ℕ
  pub temporal_violations : ℕ
  pub evidence_votes : ℕ
  pub plan_steps : ℕ
  pub required_quorum : ℕ
  pub reserved0 : ℕ
  pub ledger_epoch : ℕ
  pub ledger_root : ℕ
  pub evidence_root : ℕ
  pub plan_root : ℕ
  pub forecast_tick : ℕ

abbrev pub no_blacklab : QuantumBlackLabState
no_blacklab = record {
  policy_epoch = 0;
  risk = 0;
  severity = 0;
  action = 0;
  temporal_violations = 0;
  evidence_votes = 0;
  plan_steps = 0;
  required_quorum = 0;
  reserved0 = 0;
  ledger_epoch = 0;
  ledger_root = 0;
  evidence_root = 0;
  plan_root = 0;
  forecast_tick = 0;
}

unfoldable pub absorb_blacklab : ℕ → QuantumBlackLabState → ℕ
unfolding absorb_all
absorb_blacklab state blacklab = absorb_all state (
    blacklab.policy_epoch ∷ blacklab.risk ∷ blacklab.severity ∷ blacklab.action
    ∷ blacklab.temporal_violations ∷ blacklab.evidence_votes ∷ blacklab.plan_steps
    ∷ blacklab.required_quorum ∷ blacklab.ledger_epoch ∷ blacklab.ledger_root
    ∷ blacklab.evidence_root ∷ blacklab.plan_root ∷ blacklab.forecast_tick ∷ [])

pub record QuantumDisplayState : Type 0 where
  pub width : ℕ
  pub height : ℕ
  pub pitch : ℕ
  pub format : ℕ
  pub refresh_millihertz : ℕ
  pub beam_position : ℕ
  pub present_sequence : ℕ
  pub frame_budget_ticks : ℕ
  pub predicted_render_ticks : ℕ
  pub damage_tiles : ℕ
  pub total_tiles : ℕ

abbrev pub no_display : QuantumDisplayState
no_display = record {
  width = 0;
  height = 0;
  pitch = 0;
  format = 0;
  refresh_millihertz = 0;
  beam_position = 0;
  present_sequence = 0;
  frame_budget_ticks = 0;
  predicted_render_ticks = 0;
  damage_tiles = 0;
  total_tiles = 0;
}

unfoldable pub absorb_display : ℕ → QuantumDisplayState → ℕ
unfolding absorb_all
absorb_display state display = absorb_all state (
    display.width ∷ display.height ∷ display.pitch ∷ display.format ∷ display.refresh_millihertz
    ∷ display.beam_position ∷ display.present_sequence ∷ display.frame_budget_ticks
    ∷ display.predicted_render_ticks ∷ display.damage_tiles ∷ display.total_tiles ∷ [])

pub record QuantumFrameCertificate : Type 0 where
  pub frame_sequence : ℕ
  pub snapshot_sequence : ℕ
  pub scene_epoch : ℕ
  pub damage_root : ℕ
  pub scene_root : ℕ
  pub present_tick : ℕ
  pub rendered_tiles : ℕ
  pub skipped_tiles : ℕ
  pub lane_votes : ℕ
  pub reserved : List ℕ
  pub root : ℕ

abbrev pub no_frame : QuantumFrameCertificate
no_frame = record {
  frame_sequence = 0;
  snapshot_sequence = 0;
  scene_epoch = 0;
  damage_root = 0;
  scene_root = 0;
  present_tick = 0;
  rendered_tiles = 0;
  skipped_tiles = 0;
  lane_votes = 0;
  reserved = replicate 7 0;
  root = 0;
}

unfoldable pub absorb_frame : ℕ → QuantumFrameCertificate → ℕ
unfolding absorb_all
absorb_frame state frame = absorb_all state (
    frame.frame_sequence ∷ frame.snapshot_sequence ∷ frame.scene_epoch ∷ frame.damage_root
    ∷ frame.scene_root ∷ frame.present_tick ∷ frame.rendered_tiles ∷ frame.skipped_tiles
    ∷ frame.lane_votes ∷ [])

unfoldable pub frame_root : ℕ → QuantumFrameCertificate → ℕ
unfolding absorb_frame
frame_root secret frame = avalanche (absorb_frame (domain secret 0x4652_414d_4521_2121) frame)
