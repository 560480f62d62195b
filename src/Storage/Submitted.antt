-- ===== src/Storage/Submitted.antt =====
-- src/storage.rs, `AkashicDrive`: what the two calls ask of the backend, and what they return.
use slope.Base.{
  ℕ, ◌+◌, ◌≤◌, ◌<◌, ◌≡◌, ◌⊎◌, sym, subst, true, false, ◌||◌, ltb, ◌==◌, Bool-cases, inl, inr, err,
  List, [], length, arith,
}
use slope.Storage.{
  invalid_record, StorageCapability, DmaBlockLease, StorageCompletion, Submit, AkashicDrive, Answer,
  submit_all, transfer, inscribe_hologram, recall_hologram, maximum_record_blocks,
}
use slope.Storage.Asked.{Call, submit_write, submit_read, Event, noting, Made}
use slope.Storage.Loop.{submit_all-Made}

-- A record is refused if it has no block or more than 64, or more than there are completions.
abbrev pub IsRefused : List DmaBlockLease → List StorageCompletion → Type 0
IsRefused blocks cs = (length blocks ≡ 0) ⊎ ((64 < length blocks) ⊎ (length cs < length blocks))

module _ {World : Type 0} (first : ℕ) (blocks : List DmaBlockLease) (cs : List StorageCompletion)
    (c : StorageCapability) (w : World) where
  -- The drive, on a backend that has not been asked yet.
  abbrev pub drive : AkashicDrive (World × List Event)
  drive = record { capability = c; backend = (w, []) }

  -- What a call leaves and returns.
  abbrev pub IsRecorded : Call → Answer (World × List Event) → Type 0
  IsRecorded call a =
      (IsRefused blocks cs × (a ≡ (err invalid_record, cs, drive)))
      ⊎ ((0 < length blocks)
          × (length blocks ≤ 64)
          × (length blocks ≤ length cs)
          × Made call c first blocks (length blocks) [] cs [] a)

  transfer_on :
      (submit : Submit (World × List Event))
      → ((length blocks == 0)
          || ltb maximum_record_blocks (length blocks)
          || ltb (length cs) (length blocks))
        ≡ false
      → transfer submit first blocks cs drive ≡ submit_all submit first 0 blocks cs drive
  unfolding transfer
  transfer_on submit g = ground (arith, g)

  transfer_off :
      (submit : Submit (World × List Event))
      → ((length blocks == 0)
          || ltb maximum_record_blocks (length blocks)
          || ltb (length cs) (length blocks))
        ≡ true
      → transfer submit first blocks cs drive ≡ (err invalid_record, cs, drive)
  unfolding transfer
  transfer_off submit g = ground (arith, g)

  refused :
      ((length blocks == 0)
          || ltb maximum_record_blocks (length blocks)
          || ltb (length cs) (length blocks))
        ≡ true
      → IsRefused blocks cs
  refused g = elim (Bool-cases (length blocks == 0)) [
    | inl e ↦ inl (ground arith)
    | inr e ↦ elim (Bool-cases (ltb maximum_record_blocks (length blocks))) [
      | inl f ↦ inr (inl (ground arith))
      | inr f ↦ inr (inr (ground (arith, g, e, f)))
    ]
  ]

  transfer-IsRecorded :
      (call : Call) (submit : Submit World)
      → IsRecorded call (transfer (noting call submit) first blocks cs drive)
  transfer-IsRecorded call submit =
      elim (Bool-cases (
        (length blocks == 0)
        || ltb maximum_record_blocks (length blocks)
        || ltb (length cs) (length blocks))) [
          | inl g ↦ inl (refused g, transfer_off (noting call submit) g)
          | inr g ↦
              let fits : length blocks ≤ length cs = ground (arith, g) in
              let here : first + 0 ≡ first = omega arith in
              let whole : 0 + length blocks ≡ length blocks = omega arith in
              let made = submit_all-Made call submit first blocks [] cs c w [] fits in
              inr (
                ground (arith, g),
                ground (arith, g),
                fits,
                subst (Made call c first blocks (length blocks) [] cs [])
                    (sym (transfer_on (noting call submit) g))
                    (subst
                      (λ a.
                        Made call c a blocks (length blocks) [] cs []
                          (submit_all (noting call submit) first 0 blocks cs drive))
                      here
                      (subst
                        (λ n.
                          Made call c (first + 0) blocks n [] cs []
                            (submit_all (noting call submit) first 0 blocks cs drive))
                        whole made)),
              )
        ]

  -- Whatever the backend answers, a record of no block, of more than 64, or of more than there are
  -- completions is refused, with no call of the backend. Else inscribe_hologram calls submit_write,
  -- and recall_hologram submit_read, for the blocks in their order, at consecutive addresses from
  -- the first and with the drive's capability, up to the end or to the first fault: an address of
  -- 2^64, or an error of the backend, which is what they return. The completions that the backend
  -- answered replace the first of the slice in this order, and the others stay; without a fault the
  -- number of the blocks is returned.
  pub hologram-IsRecorded :
      (write read : Submit World)
      → IsRecorded submit_write (
          inscribe_hologram
            (noting submit_write write)
            (noting submit_read read)
            first
            blocks
            cs
            drive)
        × IsRecorded submit_read (
            recall_hologram
              (noting submit_write write)
              (noting submit_read read)
              first
              blocks
              cs
              drive)
  unfolding inscribe_hologram recall_hologram
  hologram-IsRecorded write read =
      (transfer-IsRecorded submit_write write, transfer-IsRecorded submit_read read)
