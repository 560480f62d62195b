-- ===== src/Crest/Mailbox.antt =====
-- src/quantum_crest.rs: the one-place mailbox that `SnapshotCell`, `CommandMailbox` and
-- `ReplyMailbox` repeat for three types of value. The atomic accesses are functions of the cell,
-- one each, so that `publish` and `take` and every interleaving of them are made of the same steps.
use slope.Base.{Option, none, some, Result, ok, err}

pub data MailboxState : Type 0 where
  free writing ready reading : MailboxState

pub data QuantumPortalError : Type 0 where
  busy empty corrupt invalid : QuantumPortalError

pub record Mailbox (T : Type 0) : Type 0 where
  pub state : MailboxState
  pub value : T

-- `compare_exchange` from free to writing, and from ready to reading; none if the exchange fails.
unfoldable pub claim : {T : Type 0} → Mailbox T → Option (Mailbox T)
claim m = elim m.state [
  | free ↦ some (record m { state = writing })
  | writing ↦ none
  | ready ↦ none
  | reading ↦ none
]

unfoldable pub enter : {T : Type 0} → Mailbox T → Option (Mailbox T)
enter m = elim m.state [
  | free ↦ none
  | writing ↦ none
  | ready ↦ some (record m { state = reading })
  | reading ↦ none
]

-- The plain write of the value, and the two atomic stores.
unfoldable pub write : {T : Type 0} → T → Mailbox T → Mailbox T
write v m = record m { value = v }

unfoldable pub store : {T : Type 0} → MailboxState → Mailbox T → Mailbox T
store s m = record m { state = s }

unfoldable pub publish :
    {T : Type 0} → T → Mailbox T → Result QuantumPortalError (Unit {0}) × Mailbox T
unfolding claim write store
publish v m = elim (claim m) [ none ↦ (err busy, m) | some m' ↦ (ok tt, store ready (write v m')) ]

unfoldable pub take : {T : Type 0} → Mailbox T → Result QuantumPortalError (Option T) × Mailbox T
unfolding enter store
take m = elim (enter m) [ none ↦ (ok none, m) | some m' ↦ (ok (some m'.value), store free m') ]
