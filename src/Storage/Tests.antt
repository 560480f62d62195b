-- ===== src/Storage/Tests.antt =====
-- Runs of src/storage.rs on a backend that counts its submissions and answers two of them.
use slope.Base.{ℕ, ◌+◌, ◌≡◌, refl, ltb, ok, err, List, [], ◌∷◌, if◌then◌else◌}
use slope.Storage.{
  StorageCapability, DmaBlockLease, StorageCompletion, Submit, queue_full, submit_all, transfer,
  inscribe_hologram, recall_hologram,
}
use slope.Storage.Asked.{submit_write, submit_read, noting}
use slope.Storage.Submitted.{IsRecorded, drive, hologram-IsRecorded}

abbrev two_at_most : Submit ℕ
two_at_most capability block lba w =
    (if ltb w 2 then ok (record { token = lba }) else err queue_full, w + 1)

abbrev block : DmaBlockLease
block = record { raw = 5; generation = 1 }

abbrev three_blocks : List DmaBlockLease
three_blocks = block ∷ block ∷ block ∷ []

abbrev blank : StorageCompletion
blank = record { token = 0 }

abbrev three_blank : List StorageCompletion
three_blank = blank ∷ blank ∷ blank ∷ []

abbrev storage : StorageCapability
storage = record { raw = 9 }

-- The write of three blocks, whose third submission fails.
full_queue :
    (inscribe_hologram two_at_most two_at_most 40 three_blocks three_blank
      (record { capability = storage; backend = 0 })).0
    ≡ err queue_full
unfolding inscribe_hologram transfer submit_all
full_queue = refl

hologram-IsRecorded_example :
    IsRecorded 40 three_blocks three_blank storage 0 submit_write (
      inscribe_hologram
        (noting submit_write two_at_most)
        (noting submit_read two_at_most)
        40
        three_blocks
        three_blank
        (drive 40 three_blocks three_blank storage 0))
    × IsRecorded 40 three_blocks three_blank storage 0 submit_read (
        recall_hologram
          (noting submit_write two_at_most)
          (noting submit_read two_at_most)
          40
          three_blocks
          three_blank
          (drive 40 three_blocks three_blank storage 0))
hologram-IsRecorded_example =
    hologram-IsRecorded 40 three_blocks three_blank storage 0 two_at_most two_at_most
