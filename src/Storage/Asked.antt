-- ===== src/Storage/Asked.antt =====
-- src/storage.rs: what a backend is asked for a record of blocks, and what its answers make of the
-- slice of completions.
use slope.Base.{
  ℕ, suc, ◌≤◌, ◌<◌, ◌≡◌, ◌⊎◌, Option, none, some, Result, ok, err, List, [], ◌∷◌, ◌++◌, length,
  drop, u64_mod,
}
use slope.Storage.{
  StorageError, invalid_record, StorageCapability, DmaBlockLease, StorageCompletion, Submit, Answer,
}

pub data Call : Type 0 where
  submit_write submit_read : Call

-- One call of the backend, and its answer.
pub record Event : Type 0 where
  pub call : Call
  pub capability : StorageCapability
  pub block : DmaBlockLease
  pub logical_block : ℕ
  pub answer : Result StorageError StorageCompletion

abbrev pub asked :
    Call → StorageCapability → DmaBlockLease → ℕ → Result StorageError StorageCompletion → Event
asked call capability block lba r = record {
  call = call;
  capability = capability;
  block = block;
  logical_block = lba;
  answer = r;
}

-- A backend that also notes what it is asked.
abbrev pub noting : {World : Type 0} → Call → Submit World → Submit (World × List Event)
noting call submit capability block lba (w, log) =
    let (r, w') = submit capability block lba w in
    (r, (w', log ++ (asked call capability block lba r ∷ [])))

-- The blocks are asked for one by one at consecutive addresses from `lba`, with the capability; this
-- goes on up to the end, or up to the first fault, which is an address of 2^64 or an answer that is
-- an error. `done` has the completions of the answers before that.
abbrev pub Ran :
    Call
    → StorageCapability
    → ℕ
    → List DmaBlockLease
    → List Event
    → List StorageCompletion
    → Option StorageError
    → Type 0
Ran call capability lba [] log done fault = (log ≡ []) × (done ≡ []) × (fault ≡ none)
Ran call capability lba (block ∷ blocks) log done fault =
    ((u64_mod ≤ lba) × (log ≡ []) × (done ≡ []) × (fault ≡ some invalid_record))
    ⊎ (((e : StorageError) × (lba < u64_mod)
          × (log ≡ asked call capability block lba (err e) ∷ [])
          × (done ≡ [])
          × (fault ≡ some e))
        ⊎ ((c : StorageCompletion) × (later : List Event) × (rest : List StorageCompletion) × (lba
              < u64_mod)
            × (log ≡ asked call capability block lba (ok c) ∷ later)
            × (done ≡ c ∷ rest)
            × Ran call capability (suc lba) blocks later rest fault))

-- What a call reports for `n` blocks.
abbrev pub reported : ℕ → Option StorageError → Result StorageError ℕ
reported n none = ok n
reported n (some e) = err e

-- What the loop makes of the completions `before ++ rest`, with the first of `rest` to be written.
abbrev pub Made :
    {World : Type 0}
    → Call
    → StorageCapability
    → ℕ
    → List DmaBlockLease
    → ℕ
    → List StorageCompletion
    → List StorageCompletion
    → List Event
    → Answer (World × List Event)
    → Type 0
Made call capability lba blocks n before rest log (r, cs, d) =
    (new : List Event) × (done : List StorageCompletion) × (fault : Option StorageError) × Ran call
      capability lba blocks new done fault
    × (r ≡ reported n fault)
    × (cs ≡ before ++ (done ++ drop (length done) rest))
    × (d.capability ≡ capability)
    × (d.backend.1 ≡ log ++ new)
