-- ===== src/Ipc/Queue.antt =====
-- src/ipc.rs, `SpscRing`: a first-in first-out queue of at most 128 messages.
use slope.Base.{
  ℕ, zero, suc, ◌+◌, ◌%◌, ◌≤◌, ◌<◌, ◌≡◌, refl, sym, ap, ◌∙◌, ℕ_discrete, List, [], ◌∷◌, ◌++◌,
  length, length-append, length-set, replicate, get_or, set, get_or-set_self, get_or-set_ne, arith,
}
use slope.Ipc.{
  ChannelMessage, empty_message, RingSlot, fresh_slot, slot_empty, slot_ready, SpscRing,
  channel_depth, new,
}

-- The slot that is `i` places after the consumer's.
abbrev pub slot_after : SpscRing → ℕ → RingSlot
slot_after r i = get_or r.slots ((r.consumer + i) % channel_depth) fresh_slot

-- A ring holds the messages of a queue, the oldest at the consumer's place.
pub record Holds (r : SpscRing) (q : List ChannelMessage) : Type 0 where
  pub depth : length r.slots ≡ channel_depth
  pub room : length q ≤ channel_depth
  pub consumer : r.consumer < channel_depth
  pub producer : r.producer ≡ (r.consumer + length q) % channel_depth
  pub stored :
      (i : ℕ)
      → i < length q
      → slot_after r i ≡ record { state = slot_ready; message = get_or q i empty_message }
  pub vacant : (i : ℕ) → length q ≤ i → i < channel_depth → (slot_after r i).state ≡ slot_empty

get_or-append :
    (q : List ChannelMessage) (m : ChannelMessage) (i : ℕ)
    → i < length q
    → get_or (q ++ m ∷ []) i empty_message ≡ get_or q i empty_message
get_or-append [] m i h = absurd (omega arith)
get_or-append (x ∷ q) m zero h = refl
get_or-append (x ∷ q) m (suc i) h = get_or-append q m i (omega arith)

get_or-append_last :
    (q : List ChannelMessage) (m : ChannelMessage)
    → get_or (q ++ m ∷ []) (length q) empty_message ≡ m
get_or-append_last [] m = refl
get_or-append_last (x ∷ q) m = get_or-append_last q m

get_or-replicate : (n i : ℕ) → get_or (replicate n fresh_slot) i fresh_slot ≡ fresh_slot
get_or-replicate zero i = refl
get_or-replicate (suc n) zero = refl
get_or-replicate (suc n) (suc i) = get_or-replicate n i

pub new-Holds : Holds new []
unfolding new
new-Holds = record {
  depth = refl;
  room = omega arith;
  consumer = omega arith;
  producer = refl;
  stored = λ i h. absurd (omega arith);
  vacant = λ i h k.
      ap (λ (s : RingSlot). s.state) (get_or-replicate channel_depth ((0 + i) % channel_depth));
}

-- The ring when a message has been stored at the producer's place.
abbrev pub filled : SpscRing → ChannelMessage → SpscRing
filled r m = record r {
  producer = (r.producer + 1) % channel_depth;
  slots = set r.slots (r.producer % channel_depth) (record { state = slot_ready; message = m });
}

grown : (q : List ChannelMessage) (m : ChannelMessage) → length (q ++ m ∷ []) ≡ length q + 1
grown q m = length-append q (m ∷ [])

abbrev pub ready_with : ChannelMessage → RingSlot
ready_with m = record { state = slot_ready; message = m }

filled-stored :
    (r : SpscRing) (q : List ChannelMessage) (m : ChannelMessage)
    → Holds r q
    → length q < channel_depth
    → (i : ℕ) → i < length (q ++ m ∷ [])
    → slot_after (filled r m) i ≡ ready_with (get_or (q ++ m ∷ []) i empty_message)
filled-stored r q m h space i k = elim (ℕ_discrete i (length q)) [
  | yes last ↦
      let here : (r.consumer + i) % channel_depth ≡ r.producer % channel_depth =
        omega (arith, h.producer, last) in
      ap (λ j. get_or (set r.slots (r.producer % channel_depth) (ready_with m)) j fresh_slot) here
      ∙ get_or-set_self r.slots (r.producer % channel_depth) (ready_with m) fresh_slot
          (omega (arith, h.depth))
      ∙ ap ready_with
          (sym (ap (λ j. get_or (q ++ m ∷ []) j empty_message) last ∙ get_or-append_last q m))
  | no d ↦
      let before : i < length q = omega (arith, grown q m, k, d) in
      get_or-set_ne r.slots (r.producer % channel_depth) ((r.consumer + i) % channel_depth)
        (ready_with m) fresh_slot (λ e. omega (arith, h.producer, before, space, h.consumer, e))
      ∙ h.stored i before
      ∙ ap ready_with (sym (get_or-append q m i before))
]

pub filled-Holds :
    (r : SpscRing) (q : List ChannelMessage) (m : ChannelMessage)
    → Holds r q
    → length q < channel_depth
    → Holds (filled r m) (q ++ m ∷ [])
filled-Holds r q m h space = record {
  depth = length-set r.slots _ _ ∙ h.depth;
  room = omega (arith, grown q m, space);
  consumer = h.consumer;
  producer = omega (arith, grown q m, h.producer);
  stored = filled-stored r q m h space;
  vacant = λ i k l.
      ap (λ (s : RingSlot). s.state)
        (get_or-set_ne r.slots (r.producer % channel_depth) ((r.consumer + i) % channel_depth)
          (ready_with m) fresh_slot
          (λ e. omega (arith, h.producer, grown q m, h.consumer, k, l, e)))
      ∙ h.vacant i (omega (arith, grown q m, k)) l;
}

-- The ring when the oldest message has been taken.
abbrev pub emptied : SpscRing → RingSlot
emptied r = record {
  state = slot_empty;
  message = (get_or r.slots (r.consumer % channel_depth) fresh_slot).message;
}

abbrev pub drained : SpscRing → SpscRing
drained r = record r {
  consumer = (r.consumer + 1) % channel_depth;
  slots = set r.slots (r.consumer % channel_depth) (emptied r);
}

next_place : (c i : ℕ) → ((c + 1) % channel_depth + i) % channel_depth ≡ (c + suc i) % channel_depth
next_place c i = omega arith

-- Any place but the last after the new consumer is a place after the old one.
drained_slot :
    (r : SpscRing) (i : ℕ)
    → r.consumer < channel_depth
    → i < 127
    → slot_after (drained r) i ≡ slot_after r (suc i)
drained_slot r i c k =
    get_or-set_ne r.slots (r.consumer % channel_depth)
      (((r.consumer + 1) % channel_depth + i) % channel_depth) (emptied r) fresh_slot
      (λ e. omega arith)
    ∙ ap (λ j. get_or r.slots j fresh_slot) (next_place r.consumer i)

drained-vacant :
    (r : SpscRing) (m : ChannelMessage) (q : List ChannelMessage)
    → Holds r (m ∷ q)
    → (i : ℕ) → length q ≤ i
    → i < channel_depth
    → (slot_after (drained r) i).state ≡ slot_empty
drained-vacant r m q h i k l = elim (ℕ_discrete i 127) [
  | yes last ↦
      let here : ((r.consumer + 1) % channel_depth + i) % channel_depth
          ≡ r.consumer % channel_depth =
        omega (arith, h.consumer, last) in
      ap (λ (s : RingSlot). s.state)
        (ap (λ j. get_or (set r.slots (r.consumer % channel_depth) (emptied r)) j fresh_slot) here
          ∙ get_or-set_self r.slots (r.consumer % channel_depth) (emptied r) fresh_slot
              (omega (arith, h.depth)))
  | no d ↦
      ap (λ (s : RingSlot). s.state) (drained_slot r i h.consumer (omega arith))
      ∙ h.vacant (suc i) (omega arith) (omega arith)
]

pub drained-Holds :
    (r : SpscRing) (m : ChannelMessage) (q : List ChannelMessage)
    → Holds r (m ∷ q)
    → Holds (drained r) q
drained-Holds r m q h = record {
  depth = length-set r.slots _ _ ∙ h.depth;
  room = omega (arith, h.room);
  consumer = omega arith;
  producer = omega (arith, h.producer);
  stored = λ i k.
      drained_slot r i h.consumer (omega (arith, h.room, k)) ∙ h.stored (suc i) (omega arith);
  vacant = drained-vacant r m q h;
}
