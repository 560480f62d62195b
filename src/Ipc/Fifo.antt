-- ===== src/Ipc/Fifo.antt =====
-- src/ipc.rs, `SpscRing`: what its calls answer.
use slope.Base.{
  ℕ, ◌+◌, ◌%◌, ◌≤◌, ◌<◌, ◌≡◌, refl, ap, ap₂, ◌∙◌, Bool, true, false, Bool-cases, inl, inr, Option,
  none, some, Result, ok, err, List, [], ◌∷◌, ◌++◌, length, get_or, not, ltb, if◌then◌else◌, arith,
}
use slope.Ipc.{
  ChannelMessage, RingSlot, fresh_slot, slot_empty, slot_ready, SpscRing, ChannelError, full,
  channel_depth, new, is_empty_state, is_ready_state, send, recv, is_empty,
}
use slope.Ipc.Queue.{Holds, slot_after, ready_with, filled-Holds, drained-Holds, new-Holds}

slot_at :
    (r : SpscRing) (j i : ℕ)
    → j % channel_depth ≡ (r.consumer + i) % channel_depth
    → get_or r.slots (j % channel_depth) fresh_slot ≡ slot_after r i
slot_at r j i e = ap (λ k. get_or r.slots k fresh_slot) e

-- The slot that a call looks at.
at_producer :
    (r : SpscRing) (q : List ChannelMessage)
    → Holds r q
    → length q < channel_depth
    → (get_or r.slots (r.producer % channel_depth) fresh_slot).state ≡ slot_empty
at_producer r q h space =
    ap (λ (s : RingSlot). s.state) (slot_at r r.producer (length q) (omega (arith, h.producer)))
    ∙ h.vacant (length q) (omega arith) space

at_producer_full :
    (r : SpscRing) (m : ChannelMessage) (q : List ChannelMessage)
    → Holds r (m ∷ q)
    → channel_depth ≤ length (m ∷ q)
    → (get_or r.slots (r.producer % channel_depth) fresh_slot).state ≡ slot_ready
at_producer_full r m q h no_space =
    ap (λ (s : RingSlot). s.state)
      (slot_at r r.producer 0 (omega (arith, h.producer, h.room, no_space))
        ∙ h.stored 0 (omega arith))

at_consumer :
    (r : SpscRing) (m : ChannelMessage) (q : List ChannelMessage)
    → Holds r (m ∷ q)
    → get_or r.slots (r.consumer % channel_depth) fresh_slot ≡ ready_with m
at_consumer r m q h = slot_at r r.consumer 0 (omega arith) ∙ h.stored 0 (omega arith)

at_consumer_empty :
    (r : SpscRing)
    → Holds r []
    → (get_or r.slots (r.consumer % channel_depth) fresh_slot).state ≡ slot_empty
at_consumer_empty r h =
    ap (λ (s : RingSlot). s.state) (slot_at r r.consumer 0 (omega arith))
    ∙ h.vacant 0 (omega arith) (omega arith)

pub data Call : Type 0 where
  sends : ChannelMessage → Call
  receives asks : Call

pub data Answer : Type 0 where
  sent : Result ChannelError (Unit {0}) → Answer
  received : Option ChannelMessage → Answer
  told : Bool → Answer

unfoldable pub call : Call → SpscRing → Answer × SpscRing
call (sends m) r = let (o, r') = send m r in (sent o, r')
call receives r = let (o, r') = recv r in (received o, r')
call asks r = (told (is_empty r), r)

-- A queue of at most 128 messages.
unfoldable pub promised : Call → List ChannelMessage → Answer × List ChannelMessage
promised (sends m) q =
    if ltb (length q) channel_depth then (sent (ok tt), q ++ m ∷ []) else (sent (err full), q)
promised receives [] = (received none, [])
promised receives (m ∷ q) = (received (some m), q)
promised asks [] = (told true, [])
promised asks (m ∷ q) = (told false, m ∷ q)

abbrev AsPromised : Call → SpscRing → List ChannelMessage → Type 0
AsPromised c r q = ((call c r).0 ≡ (promised c q).0) × Holds (call c r).1 (promised c q).1

full_queue :
    (r : SpscRing) (q : List ChannelMessage)
    → Holds r q
    → channel_depth ≤ length q
    → (get_or r.slots (r.producer % channel_depth) fresh_slot).state ≡ slot_ready
full_queue r [] h no_space = absurd (omega arith)
full_queue r (m ∷ q) h no_space = at_producer_full r m q h no_space

sent-AsPromised :
    (m : ChannelMessage) (r : SpscRing) (q : List ChannelMessage)
    → Holds r q
    → AsPromised (sends m) r q
unfolding call promised send is_empty_state
sent-AsPromised m r q h = elim (Bool-cases (ltb (length q) channel_depth)) [
  | inl e ↦
      let space : length q < channel_depth = ground arith in
      rw (e, call, promised, send, at_producer r q h space, is_empty_state)
        (refl, filled-Holds r q m h space)
  | inr e ↦
      let no_space : channel_depth ≤ length q = ground arith in
      rw (e, call, promised, send, full_queue r q h no_space, is_empty_state) (refl, h)
]

received-AsPromised : (r : SpscRing) (q : List ChannelMessage) → Holds r q → AsPromised receives r q
unfolding call promised recv is_ready_state
received-AsPromised r [] h =
    rw (call, promised, recv, at_consumer_empty r h, is_ready_state) (refl, h)
received-AsPromised r (m ∷ q) h =
    let ready : (get_or r.slots (r.consumer % channel_depth) fresh_slot).state ≡ slot_ready =
      ap (λ (s : RingSlot). s.state) (at_consumer r m q h) in
    rw (call, promised, recv, ready, is_ready_state)
      (
        ap (λ (s : RingSlot). received (some s.message)) (at_consumer r m q h),
        drained-Holds r m q h,
      )

asked-AsPromised : (r : SpscRing) (q : List ChannelMessage) → Holds r q → AsPromised asks r q
unfolding call promised is_empty is_ready_state
asked-AsPromised r [] h = (ap (λ s. told (not (is_ready_state s))) (at_consumer_empty r h), h)
asked-AsPromised r (m ∷ q) h =
    (ap (λ (s : RingSlot). told (not (is_ready_state s.state))) (at_consumer r m q h), h)

call-AsPromised : (c : Call) (r : SpscRing) (q : List ChannelMessage) → Holds r q → AsPromised c r q
call-AsPromised (sends m) r q h = sent-AsPromised m r q h
call-AsPromised receives r q h = received-AsPromised r q h
call-AsPromised asks r q h = asked-AsPromised r q h

-- Calls in turn, and their answers.
unfoldable pub answers : List Call → SpscRing → List Answer
answers [] r = []
answers (c ∷ cs) r = (call c r).0 ∷ answers cs (call c r).1

unfoldable pub promises : List Call → List ChannelMessage → List Answer
promises [] q = []
promises (c ∷ cs) q = (promised c q).0 ∷ promises cs (promised c q).1

held-promises :
    (cs : List Call) (r : SpscRing) (q : List ChannelMessage)
    → Holds r q
    → answers cs r ≡ promises cs q
unfolding answers promises
held-promises [] r q h = refl
held-promises (c ∷ cs) r q h =
    let (same, rest) = call-AsPromised c r q h in
    ap₂ (λ (a : Answer) (later : List Answer). a ∷ later) same
      (held-promises cs (call c r).1 (promised c q).1 rest)

-- Whatever calls are made in turn on a new ring, their answers are those of a queue that starts
-- empty: messages come out in the order in which they went in, each once, send is refused exactly
-- when 128 messages wait, and recv and is_empty say that there is none exactly when none waits.
pub new-answers : (cs : List Call) → answers cs new ≡ promises cs []
new-answers cs = held-promises cs new [] new-Holds
