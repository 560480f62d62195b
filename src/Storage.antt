-- ===== src/Storage.antt =====
-- src/storage.rs: leases and the drive, over a backend that is a parameter.
use slope.Base.{
  ℕ, zero, suc, ◌+◌, Bool, true, false, ◌||◌, ltb, ◌==◌, Option, none, some, Result, ok, err, List,
  [], ◌∷◌, length, set, checked_add, if◌then◌else◌,
}
pub mod Asked
mod Loop
pub mod Submitted
mod Tests

abbrev pub maximum_record_blocks : ℕ
maximum_record_blocks = 64

pub data StorageError : Type 0 where
  invalid_record output_too_small codec_failure capability_revoked queue_full backend_unavailable :
      StorageError

pub record StorageCapability : Type 0 where
  pub raw : ℕ

unfoldable pub capability_from_kernel : ℕ → Option StorageCapability
capability_from_kernel raw = if raw == 0 then none else some (record { raw = raw })

pub record DmaBlockLease : Type 0 where
  pub raw : ℕ
  pub generation : ℕ

unfoldable pub lease_from_kernel : ℕ → ℕ → Option DmaBlockLease
lease_from_kernel raw generation =
    if (raw == 0) || (generation == 0)
    then none
    else some (record { raw = raw; generation = generation })

pub record StorageCompletion : Type 0 where
  pub token : ℕ

-- `submit_write` and `submit_read` of a backend.
abbrev pub Submit : Type 0 → Type 0
Submit World =
    StorageCapability → DmaBlockLease → ℕ → World → Result StorageError StorageCompletion × World

-- A drive is its capability and the state of its backend.
pub record AkashicDrive (World : Type 0) : Type 0 where
  pub capability : StorageCapability
  pub backend : World

abbrev pub Answer : Type 0 → Type 0
Answer World = Result StorageError ℕ × List StorageCompletion × AkashicDrive World

module _ {World : Type 0} (submit : Submit World) (first_logical_block : ℕ) where
  -- The loop over the blocks, from an index on.
  unfoldable pub submit_all :
      ℕ → List DmaBlockLease → List StorageCompletion → AkashicDrive World → Answer World
  submit_all index [] completions d = (ok index, completions, d)
  submit_all index (block ∷ blocks) completions d = elim (checked_add first_logical_block index) [
    | none ↦ (err invalid_record, completions, d)
    | some lba ↦
        let (r, w) = submit d.capability block lba d.backend in
        let d' : AkashicDrive World = record d { backend = w } in
        elim r [
          | err e ↦ (err e, completions, d')
          | ok completion ↦ submit_all (suc index) blocks (set completions index completion) d'
        ]
  ]

  -- The body that `inscribe_hologram` and `recall_hologram` share.
  unfoldable pub transfer :
      List DmaBlockLease → List StorageCompletion → AkashicDrive World → Answer World
  unfolding submit_all
  transfer blocks completions d =
      if (length blocks == 0)
        || ltb maximum_record_blocks (length blocks)
        || ltb (length completions) (length blocks)
      then (err invalid_record, completions, d)
      else submit_all 0 blocks completions d

module _ {World : Type 0} (submit_write submit_read : Submit World) where
  unfoldable pub inscribe_hologram :
      ℕ → List DmaBlockLease → List StorageCompletion → AkashicDrive World → Answer World
  unfolding transfer
  inscribe_hologram first_logical_block = transfer submit_write first_logical_block

  unfoldable pub recall_hologram :
      ℕ → List DmaBlockLease → List StorageCompletion → AkashicDrive World → Answer World
  unfolding transfer
  recall_hologram first_logical_block = transfer submit_read first_logical_block
