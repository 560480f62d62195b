-- ===== src/Crest/Page.antt =====
-- src/quantum_crest.rs, `QuantumCrestPage`: three mailboxes and two epochs.
use slope.Base.{ℕ, ◌||◌, ◌==◌, Option, Result, err, if◌then◌else◌}
use slope.Crest.Snapshot
use slope.Crest.Snapshot.{QuantumSystemSnapshot}
use slope.Crest.Command
use slope.Crest.Command.{QuantumDesktopCommand}
use slope.Crest.Reply
use slope.Crest.Reply.{QuantumDesktopReply}
use slope.Crest.Mailbox
use slope.Crest.Mailbox.{Mailbox, free, QuantumPortalError, invalid}

abbrev pub SnapshotCell : Type 0
SnapshotCell = Mailbox QuantumSystemSnapshot

abbrev pub CommandMailbox : Type 0
CommandMailbox = Mailbox QuantumDesktopCommand

abbrev pub ReplyMailbox : Type 0
ReplyMailbox = Mailbox QuantumDesktopReply

pub record QuantumCrestPage : Type 0 where
  pub snapshot : SnapshotCell
  pub command : CommandMailbox
  pub reply : ReplyMailbox
  pub kernel_epoch : ℕ
  pub user_epoch : ℕ

-- A free cell around the empty value of its type.
abbrev pub new_cell : {T : Type 0} → T → Mailbox T
new_cell v = record { state = free; value = v }

unfoldable pub new : QuantumCrestPage
new = record {
  snapshot = new_cell Snapshot.empty;
  command = new_cell Command.empty;
  reply = new_cell Reply.empty;
  kernel_epoch = 0;
  user_epoch = 0;
}

-- What a call that publishes returns, and one that takes.
abbrev pub Sent : Type 0
Sent = Result QuantumPortalError (Unit {0}) × QuantumCrestPage

abbrev pub Taken : Type 0 → Type 0
Taken T = Result QuantumPortalError (Option T) × QuantumCrestPage

unfoldable pub kernel_publish_snapshot : QuantumSystemSnapshot → QuantumCrestPage → Sent
kernel_publish_snapshot v p =
    if (v.epoch == 0) || (v.sequence == 0)
    then (err invalid, p)
    else (let p₁ : QuantumCrestPage = record p { kernel_epoch = v.epoch } in
        let (r, cell) = Mailbox.publish v p₁.snapshot in (r, record p₁ { snapshot = cell }))

unfoldable pub user_read_snapshot : QuantumCrestPage → Taken QuantumSystemSnapshot
user_read_snapshot p = let (r, cell) = Mailbox.take p.snapshot in (r, record p { snapshot = cell })

unfoldable pub user_submit_command : QuantumDesktopCommand → QuantumCrestPage → Sent
user_submit_command v p =
    if (v.epoch == 0) || (v.sequence == 0)
    then (err invalid, p)
    else (let p₁ : QuantumCrestPage = record p { user_epoch = v.epoch } in
        let (r, cell) = Mailbox.publish v p₁.command in (r, record p₁ { command = cell }))

unfoldable pub kernel_take_command : QuantumCrestPage → Taken QuantumDesktopCommand
kernel_take_command p = let (r, cell) = Mailbox.take p.command in (r, record p { command = cell })

unfoldable pub kernel_publish_reply : QuantumDesktopReply → QuantumCrestPage → Sent
kernel_publish_reply v p =
    if v.command_sequence == 0
    then (err invalid, p)
    else (let (r, cell) = Mailbox.publish v p.reply in (r, record p { reply = cell }))

unfoldable pub user_take_reply : QuantumCrestPage → Taken QuantumDesktopReply
user_take_reply p = let (r, cell) = Mailbox.take p.reply in (r, record p { reply = cell })

unfoldable pub epochs : QuantumCrestPage → ℕ × ℕ
epochs p = (p.kernel_epoch, p.user_epoch)
