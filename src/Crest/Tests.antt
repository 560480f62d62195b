-- ===== src/Crest/Tests.antt =====
-- Runs of src/quantum_crest.rs, after its own tests.
use slope.Base.{ℕ, ◌≡◌, refl, inl, List, [], ◌∷◌}
use slope.Crest.Snapshot
use slope.Crest.Snapshot.{QuantumSystemSnapshot}
use slope.Crest.Command
use slope.Crest.Command.{QuantumDesktopCommand}
use slope.Crest.Reply
use slope.Crest.Reply.{QuantumDesktopReply}
use slope.Crest.Mailbox.{Mailbox, free, claim, writing, write}
use slope.Crest.Interleaving.{World, start, Steps, done, next, claims, writes, at, claimed, written}
use slope.Crest.Exclusion.{IsExclusive, Steps-IsExclusive}
use slope.Crest.Page
use slope.Crest.Channel.{
  IsAtRest, answers, promises, desk, answers-promises, publish_snapshot, read_snapshot,
  submit_command, take_command, publish_reply, take_reply, Call,
}

abbrev snapshot : QuantumSystemSnapshot
snapshot = record Snapshot.empty {
  sequence = 1;
  epoch = 7;
  desktop_session = 9;
  desktop_generation = 1;
}

abbrev command : QuantumDesktopCommand
command = record Command.empty { sequence = 1; epoch = 7; session = 9; generation = 1; opcode = 7 }

abbrev reply : QuantumDesktopReply
reply = record Reply.empty { command_sequence = 1; snapshot_sequence = 2 }

new-IsAtRest : IsAtRest Page.new
unfolding Page.new
new-IsAtRest = record { snapshot = inl refl; command = inl refl; reply = inl refl }

abbrev conversation : List Call
conversation =
    publish_snapshot snapshot
    ∷ publish_snapshot snapshot
    ∷ read_snapshot
    ∷ read_snapshot
    ∷ submit_command command
    ∷ take_command
    ∷ publish_reply reply
    ∷ take_reply
    ∷ []

answers-promises_example : answers conversation Page.new ≡ promises conversation (desk Page.new)
answers-promises_example = answers-promises conversation Page.new new-IsAtRest

abbrev box : Mailbox ℕ
box = record { state = free; value = 0 }

-- Thread 3 has claimed the cell for the value 5 and written it.
abbrev claimed_box : World ℕ
claimed_box = record (start box) {
  cell = record box { state = writing };
  threads = at 3 (claimed 5) (start box).threads;
}

abbrev written_box : World ℕ
written_box = record claimed_box {
  cell = write 5 claimed_box.cell;
  threads = at 3 (written 5) claimed_box.threads;
}

two-Steps : Steps (start box) written_box
unfolding claim at
two-Steps =
    next
      (next (done (start box)) (claims (start box) 3 5 (record box { state = writing }) refl refl))
      (writes claimed_box 3 5 refl)

Steps-IsExclusive_example : IsExclusive written_box
Steps-IsExclusive_example = Steps-IsExclusive box written_box refl two-Steps
