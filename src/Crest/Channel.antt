-- ===== src/Crest/Channel.antt =====
-- src/quantum_crest.rs, `QuantumCrestPage`: between calls the page is three places, each empty or
-- with one value, and the two epochs.
use slope.Base.{
  ℕ, ◌≡◌, refl, ap, ap₂, ◌∙◌, ◌⊎◌, inl, inr, Bool-cases, ◌||◌, ◌==◌, Option, none, some, Result, ok,
  err, List, [], ◌∷◌, if◌then◌else◌, arith,
}
use slope.Crest.Snapshot.{QuantumSystemSnapshot}
use slope.Crest.Command.{QuantumDesktopCommand}
use slope.Crest.Reply.{QuantumDesktopReply}
use slope.Crest.Mailbox.{
  Mailbox, free, writing, ready, reading, QuantumPortalError, busy, invalid, publish, take, claim,
  enter, write, store,
}
use slope.Crest.Page.{
  QuantumCrestPage, kernel_publish_snapshot, user_read_snapshot, user_submit_command,
  kernel_take_command, kernel_publish_reply, user_take_reply,
}

-- A cell that no call is inside of, and the value that waits in it.
abbrev pub IsSettled : {T : Type 0} → Mailbox T → Type 0
IsSettled m = (m.state ≡ free) ⊎ (m.state ≡ ready)

unfoldable pub pending : {T : Type 0} → Mailbox T → Option T
pending m = elim m.state [ free ↦ none | writing ↦ none | ready ↦ some m.value | reading ↦ none ]

-- A place for one value.
unfoldable pub offer : {T : Type 0} → T → Option T → Result QuantumPortalError (Unit {0}) × Option T
offer v none = (ok tt, some v)
offer v (some w) = (err busy, some w)

unfoldable pub withdraw : {T : Type 0} → Option T → Result QuantumPortalError (Option T) × Option T
withdraw o = (ok o, none)

publish-offer :
    {T : Type 0} (v : T) (m : Mailbox T)
    → IsSettled m
    → (((publish v m).0, pending (publish v m).1) ≡ offer v (pending m)) × IsSettled (publish v m).1
unfolding publish claim write store offer pending
publish-offer v m (inl e) = (ground arith, ground arith)
publish-offer v m (inr e) = (ground arith, ground arith)

take-withdraw :
    {T : Type 0} (m : Mailbox T)
    → IsSettled m
    → (((take m).0, pending (take m).1) ≡ withdraw (pending m)) × IsSettled (take m).1
unfolding take enter store withdraw pending
take-withdraw m (inl e) = (ground arith, ground arith)
take-withdraw m (inr e) = (ground arith, ground arith)

-- The six calls of the page, and what they return.
pub data Call : Type 0 where
  publish_snapshot : QuantumSystemSnapshot → Call
  read_snapshot : Call
  submit_command : QuantumDesktopCommand → Call
  take_command : Call
  publish_reply : QuantumDesktopReply → Call
  take_reply : Call

pub data Answer : Type 0 where
  sent : Result QuantumPortalError (Unit {0}) → Answer
  snapshot_read : Result QuantumPortalError (Option QuantumSystemSnapshot) → Answer
  command_taken : Result QuantumPortalError (Option QuantumDesktopCommand) → Answer
  reply_taken : Result QuantumPortalError (Option QuantumDesktopReply) → Answer

unfoldable pub call : Call → QuantumCrestPage → Answer × QuantumCrestPage
unfolding kernel_publish_snapshot user_read_snapshot user_submit_command kernel_take_command
    kernel_publish_reply user_take_reply
call (publish_snapshot v) p = let (r, p') = kernel_publish_snapshot v p in (sent r, p')
call read_snapshot p = let (r, p') = user_read_snapshot p in (snapshot_read r, p')
call (submit_command v) p = let (r, p') = user_submit_command v p in (sent r, p')
call take_command p = let (r, p') = kernel_take_command p in (command_taken r, p')
call (publish_reply v) p = let (r, p') = kernel_publish_reply v p in (sent r, p')
call take_reply p = let (r, p') = user_take_reply p in (reply_taken r, p')

-- What a user of the page sees: three places and two epochs.
pub record Desk : Type 0 where
  pub snapshot : Option QuantumSystemSnapshot
  pub command : Option QuantumDesktopCommand
  pub reply : Option QuantumDesktopReply
  pub kernel_epoch : ℕ
  pub user_epoch : ℕ

unfoldable pub promised : Call → Desk → Answer × Desk
unfolding offer withdraw
promised (publish_snapshot v) d =
    if (v.epoch == 0) || (v.sequence == 0)
    then (sent (err invalid), d)
    else (let (r, place) = offer v d.snapshot in
        (sent r, record d { snapshot = place; kernel_epoch = v.epoch }))
promised read_snapshot d =
    let (r, place) = withdraw d.snapshot in (snapshot_read r, record d { snapshot = place })
promised (submit_command v) d =
    if (v.epoch == 0) || (v.sequence == 0)
    then (sent (err invalid), d)
    else (let (r, place) = offer v d.command in
        (sent r, record d { command = place; user_epoch = v.epoch }))
promised take_command d =
    let (r, place) = withdraw d.command in (command_taken r, record d { command = place })
promised (publish_reply v) d =
    if v.command_sequence == 0
    then (sent (err invalid), d)
    else (let (r, place) = offer v d.reply in (sent r, record d { reply = place }))
promised take_reply d =
    let (r, place) = withdraw d.reply in (reply_taken r, record d { reply = place })

pub record IsAtRest (p : QuantumCrestPage) : Type 0 where
  pub snapshot : IsSettled p.snapshot
  pub command : IsSettled p.command
  pub reply : IsSettled p.reply

abbrev pub desk : QuantumCrestPage → Desk
desk p = record {
  snapshot = pending p.snapshot;
  command = pending p.command;
  reply = pending p.reply;
  kernel_epoch = p.kernel_epoch;
  user_epoch = p.user_epoch;
}

abbrev AsPromised : Call → QuantumCrestPage → Type 0
AsPromised c p = (((call c p).0, desk (call c p).1) ≡ promised c (desk p)) × IsAtRest (call c p).1

published_snapshot :
    (v : QuantumSystemSnapshot) (p : QuantumCrestPage)
    → IsAtRest p
    → AsPromised (publish_snapshot v) p
unfolding call promised kernel_publish_snapshot
published_snapshot v p q = elim (Bool-cases ((v.epoch == 0) || (v.sequence == 0))) [
  | inl e ↦ rw (e, call, kernel_publish_snapshot, promised) (refl, q)
  | inr e ↦
      let (same, settled) = publish-offer v p.snapshot q.snapshot in
      rw (e, call, kernel_publish_snapshot, promised)
        (
          ap
              (λ (o : Result QuantumPortalError (Unit {0}) × Option QuantumSystemSnapshot).
                (sent o.0, record (desk p) { snapshot = o.1; kernel_epoch = v.epoch }))
              same,
          record { snapshot = settled; command = q.command; reply = q.reply },
        )
]

submitted_command :
    (v : QuantumDesktopCommand) (p : QuantumCrestPage)
    → IsAtRest p
    → AsPromised (submit_command v) p
unfolding call promised user_submit_command
submitted_command v p q = elim (Bool-cases ((v.epoch == 0) || (v.sequence == 0))) [
  | inl e ↦ rw (e, call, user_submit_command, promised) (refl, q)
  | inr e ↦
      let (same, settled) = publish-offer v p.command q.command in
      rw (e, call, user_submit_command, promised)
        (
          ap
              (λ (o : Result QuantumPortalError (Unit {0}) × Option QuantumDesktopCommand).
                (sent o.0, record (desk p) { command = o.1; user_epoch = v.epoch }))
              same,
          record { snapshot = q.snapshot; command = settled; reply = q.reply },
        )
]

published_reply :
    (v : QuantumDesktopReply) (p : QuantumCrestPage) → IsAtRest p → AsPromised (publish_reply v) p
unfolding call promised kernel_publish_reply
published_reply v p q = elim (Bool-cases (v.command_sequence == 0)) [
  | inl e ↦ rw (e, call, kernel_publish_reply, promised) (refl, q)
  | inr e ↦
      let (same, settled) = publish-offer v p.reply q.reply in
      rw (e, call, kernel_publish_reply, promised)
        (
          ap
              (λ (o : Result QuantumPortalError (Unit {0}) × Option QuantumDesktopReply).
                (sent o.0, record (desk p) { reply = o.1 }))
              same,
          record { snapshot = q.snapshot; command = q.command; reply = settled },
        )
]

call-AsPromised : (c : Call) (p : QuantumCrestPage) → IsAtRest p → AsPromised c p
unfolding call promised user_read_snapshot kernel_take_command user_take_reply
call-AsPromised (publish_snapshot v) p q = published_snapshot v p q
call-AsPromised (submit_command v) p q = submitted_command v p q
call-AsPromised (publish_reply v) p q = published_reply v p q
call-AsPromised read_snapshot p q =
    let (same, settled) = take-withdraw p.snapshot q.snapshot in
    (
      ap
          (λ (o : Result QuantumPortalError (Option QuantumSystemSnapshot)
              × Option QuantumSystemSnapshot).
            (snapshot_read o.0, record (desk p) { snapshot = o.1 }))
          same,
      record { snapshot = settled; command = q.command; reply = q.reply },
    )
call-AsPromised take_command p q =
    let (same, settled) = take-withdraw p.command q.command in
    (
      ap
          (λ (o : Result QuantumPortalError (Option QuantumDesktopCommand)
              × Option QuantumDesktopCommand).
            (command_taken o.0, record (desk p) { command = o.1 }))
          same,
      record { snapshot = q.snapshot; command = settled; reply = q.reply },
    )
call-AsPromised take_reply p q =
    let (same, settled) = take-withdraw p.reply q.reply in
    (
      ap
          (λ (o : Result QuantumPortalError (Option QuantumDesktopReply)
              × Option QuantumDesktopReply).
            (reply_taken o.0, record (desk p) { reply = o.1 }))
          same,
      record { snapshot = q.snapshot; command = q.command; reply = settled },
    )

-- Calls in turn, and their answers.
unfoldable pub answers : List Call → QuantumCrestPage → List Answer
answers [] p = []
answers (c ∷ cs) p = (call c p).0 ∷ answers cs (call c p).1

unfoldable pub promises : List Call → Desk → List Answer
promises [] d = []
promises (c ∷ cs) d = (promised c d).0 ∷ promises cs (promised c d).1

-- Whatever calls are made in turn on a page at rest, their answers are those of three places for
-- one value each: an accepted value waits until it is taken once, a full place refuses with Busy,
-- an empty one answers nothing, and a value without the epoch and sequence it needs is refused
-- with Invalid.
pub answers-promises :
    (cs : List Call) (p : QuantumCrestPage) → IsAtRest p → answers cs p ≡ promises cs (desk p)
unfolding answers promises
answers-promises [] p q = refl
answers-promises (c ∷ cs) p q =
    let (same, rest) = call-AsPromised c p q in
    ap₂ (λ (a : Answer) (later : List Answer). a ∷ later) (ap (λ (o : Answer × Desk). o.0) same)
      (answers-promises cs (call c p).1 rest ∙ ap (λ (o : Answer × Desk). promises cs o.1) same)
