-- ===== src/Storage/Loop.antt =====
-- src/storage.rs, the loop of the two calls: it asks for the blocks in turn.
use slope.Base.{
  ℕ, suc, ◌+◌, ◌≤◌, ◌<◌, ◌≡◌, refl, sym, ap, ap₂, subst, ◌∙◌, inl, inr, none, some, Option-cases,
  ok, err, Result-cases, List, [], ◌∷◌, ◌++◌, length, length-append, drop, set, checked_add,
  u64_mod, arith,
}
use slope.Storage.{
  StorageError, invalid_record, StorageCapability, DmaBlockLease, StorageCompletion, Submit,
  AkashicDrive, Answer, submit_all,
}
use slope.Storage.Asked.{Call, Event, asked, noting, Ran, reported, Made}

append_assoc_one :
    {A : Type 0} (xs : List A) (x : A) (ys : List A) → (xs ++ (x ∷ [])) ++ ys ≡ xs ++ (x ∷ ys)
append_assoc_one [] x ys = refl
append_assoc_one {A} (y ∷ xs) x ys = ap (λ (zs : List A). y ∷ zs) (append_assoc_one xs x ys)

append-nil : {A : Type 0} (xs : List A) → xs ++ [] ≡ xs
append-nil [] = refl
append-nil {A} (x ∷ xs) = ap (λ (zs : List A). x ∷ zs) (append-nil xs)

set-append :
    (before : List StorageCompletion) (x : StorageCompletion) (rest : List StorageCompletion)
    (v : StorageCompletion)
    → set (before ++ (x ∷ rest)) (length before) v ≡ (before ++ (v ∷ [])) ++ rest
set-append [] x rest v = refl
set-append (b ∷ before) x rest v =
    ap (λ (l : List StorageCompletion). b ∷ l) (set-append before x rest v)

module _ {World : Type 0} (submit : Submit World) (first : ℕ) where
  submit_all_next :
      (index lba : ℕ) (block : DmaBlockLease) (blocks : List DmaBlockLease)
      (cs : List StorageCompletion) (d : AkashicDrive World) (c : StorageCompletion)
      → checked_add first index ≡ some lba
      → (submit d.capability block lba d.backend).0 ≡ ok c
      → submit_all submit first index (block ∷ blocks) cs d
        ≡ submit_all submit first
            (suc index)
            blocks
            (set cs index c)
            (record d { backend = (submit d.capability block lba d.backend).1 })
  unfolding submit_all
  submit_all_next index lba block blocks cs d c e q = ground (arith, e, q)

  submit_all_fault :
      (index lba : ℕ) (block : DmaBlockLease) (blocks : List DmaBlockLease)
      (cs : List StorageCompletion) (d : AkashicDrive World) (x : StorageError)
      → checked_add first index ≡ some lba
      → (submit d.capability block lba d.backend).0 ≡ err x
      → submit_all submit first index (block ∷ blocks) cs d
        ≡ (err x, cs, record d { backend = (submit d.capability block lba d.backend).1 })
  unfolding submit_all
  submit_all_fault index lba block blocks cs d x e q = ground (arith, e, q)

  submit_all_full :
      (index : ℕ) (block : DmaBlockLease) (blocks : List DmaBlockLease)
      (cs : List StorageCompletion) (d : AkashicDrive World)
      → checked_add first index ≡ none
      → submit_all submit first index (block ∷ blocks) cs d ≡ (err invalid_record, cs, d)
  unfolding submit_all
  submit_all_full index block blocks cs d e = ground (arith, e)

lba_is : (first index lba : ℕ) → checked_add first index ≡ some lba → lba ≡ first + index
lba_is first index lba h = ground arith

Made-next :
    {World : Type 0} (call : Call) (capability : StorageCapability) (lba lba' : ℕ)
    (block : DmaBlockLease) (blocks : List DmaBlockLease) (m n : ℕ)
    (before : List StorageCompletion) (x c : StorageCompletion) (rest : List StorageCompletion)
    (log : List Event) (a : Answer (World × List Event))
    → lba < u64_mod
    → lba' ≡ suc lba
    → m ≡ n
    → Made call capability lba' blocks m
        (before ++ (c ∷ []))
        rest
        (log ++ (asked call capability block lba (ok c) ∷ []))
        a
    → Made call capability lba (block ∷ blocks) n before (x ∷ rest) log a
Made-next {World} call capability lba lba' block blocks m n before x c rest log (r, cs, d) low next
      same (new, done, fault, ran, report, slice, kept, noted) =
    (
      asked call capability block lba (ok c) ∷ new,
      c ∷ done,
      fault,
      inr (
          inr (
            c,
            new,
            done,
            low,
            refl,
            refl,
            subst (λ a. Ran call capability a blocks new done fault) next ran,
          )),
      report ∙ ap (λ k. reported k fault) same,
      slice ∙ append_assoc_one before c (done ++ drop (length done) rest),
      kept,
      noted ∙ append_assoc_one log (asked call capability block lba (ok c)) new,
    )

module _ {World : Type 0} (call : Call) (submit : Submit World) (first : ℕ) where
  -- The loop, with the completions of the blocks before `index` in `before`.
  pub submit_all-Made :
      (blocks : List DmaBlockLease) (before rest : List StorageCompletion) (c : StorageCapability)
      (w : World) (log : List Event)
      → length blocks ≤ length rest
      → Made call c (first + length before) blocks (length before + length blocks) before rest log (
          submit_all
            (noting call submit)
            first
            (length before)
            blocks
            (before ++ rest)
            (record { capability = c; backend = (w, log) }))
  unfolding submit_all
  submit_all-Made [] before rest c w log h =
      ([], [], none, (refl, refl, refl), ap ok (omega arith), refl, refl, sym (append-nil log))
  submit_all-Made (block ∷ blocks) before [] c w log h = absurd (omega (arith, h))
  submit_all-Made (block ∷ blocks) before (x ∷ rest) c w log h =
      elim (Option-cases (checked_add first index)) [
        | inl n ↦
            subst Goal (sym (submit_all_full (noting call submit) first index block blocks cs d n))
              (
                [],
                [],
                some invalid_record,
                inl (ground (arith, n), refl, refl, refl),
                refl,
                refl,
                refl,
                sym (append-nil log),
              )
        | inr (lba, e) ↦
            let here : lba ≡ first + index = lba_is first index lba e in
            elim (Result-cases (submit c block lba w).0) [
              | inr (fault, q) ↦
                  subst Goal
                    (sym (
                      submit_all_fault (noting call submit) first index lba block blocks cs d fault
                        e q))
                    (
                      asked call c block (first + index) (err fault) ∷ [],
                      [],
                      some fault,
                      inr (inl (fault, ground (arith, e), refl, refl, refl)),
                      refl,
                      refl,
                      refl,
                      ap₂ (λ a r. log ++ (asked call c block a r ∷ [])) here q,
                    )
              | inl (done, q) ↦
                  let before' : List StorageCompletion = before ++ (done ∷ []) in
                  let w' : World = (submit c block lba w).1 in
                  let log' : List Event =
                    log ++ (asked call c block (first + index) (ok done) ∷ []) in
                  let longer : length before' ≡ suc index =
                    omega (arith, length-append before (done ∷ [])) in
                  let d' : AkashicDrive (World × List Event) = record {
                    capability = c;
                    backend = (w', log');
                  } in
                  let noted : (noting call submit c block lba (w, log)).1 ≡ (w', log') =
                    ap₂ (λ a r. (w', log ++ (asked call c block a r ∷ []))) here q in
                  let step =
                    submit_all_next (noting call submit) first index lba block blocks cs d done e q
                    ∙ ap
                        (λ b.
                          submit_all (noting call submit) first (suc index) blocks
                            (set cs index done) (record { capability = c; backend = b }))
                        noted
                    ∙ ap₂ (λ i l. submit_all (noting call submit) first i blocks l d') (sym longer)
                        (set-append before x rest done) in
                  let left : Answer (World × List Event) =
                    submit_all (noting call submit) first (length before') blocks (before' ++ rest)
                      d' in
                  subst Goal (sym step) (
                    Made-next {World = World} call c (first + index) (first + length before') block
                      blocks (length before' + length blocks) (index + suc (length blocks)) before x
                      done rest log left (ground (arith, e)) (omega (arith, longer))
                      (omega (arith, longer))
                      (submit_all-Made blocks before' rest c w' log' (omega (arith, h))))
            ]
      ]
    where
      index : ℕ
      index = length before

      cs : List StorageCompletion
      cs = before ++ (x ∷ rest)

      d : AkashicDrive (World × List Event)
      d = record { capability = c; backend = (w, log) }

      Goal : Answer (World × List Event) → Type 0
      Goal =
          Made call c (first + index) (block ∷ blocks) (index + suc (length blocks)) before
            (x ∷ rest) log
