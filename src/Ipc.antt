-- ===== src/Ipc.antt =====
-- src/ipc.rs: messages and the ring of one producer and one consumer. Between two calls no slot is
-- in the writing or the reading state; within a call the producer's atomic accesses touch a slot
-- that is empty and the consumer's one that is ready, so a call is one step here.
pub mod Queue
pub mod Fifo
mod Tests
use slope.Base.{
  ℕ, ◌+◌, ◌-◌, ◌*◌, ◌%◌, min, Bool, true, false, not, Option, none, some, Result, ok, err, List, [],
  ◌∷◌, ◌++◌, take, drop, length, replicate, get_or, set, if◌then◌else◌,
}

abbrev pub channel_depth : ℕ
channel_depth = 128

abbrev pub payload_bytes : ℕ
payload_bytes = 48

pub record ChannelMessage : Type 0 where
  pub capability : ℕ
  pub tag : ℕ
  pub sequence : ℕ
  pub payload : List ℕ

abbrev pub with_tag : ℕ → ChannelMessage
with_tag tag = record {
  capability = 0;
  tag = tag;
  sequence = 0;
  payload = replicate payload_bytes 0;
}

abbrev pub empty_message : ChannelMessage
empty_message = with_tag 0

-- The data that fits is copied over the front of the payload.
unfoldable pub with_payload : ℕ → List ℕ → ChannelMessage
with_payload tag data_bytes =
    let copied : ℕ = min (length data_bytes) payload_bytes in
    record (with_tag tag) {
      payload = take copied data_bytes ++ drop copied (replicate payload_bytes 0);
    }

pub data SlotState : Type 0 where
  slot_empty slot_writing slot_ready slot_reading : SlotState

pub record RingSlot : Type 0 where
  pub state : SlotState
  pub message : ChannelMessage

abbrev pub fresh_slot : RingSlot
fresh_slot = record { state = slot_empty; message = empty_message }

pub record SpscRing : Type 0 where
  pub producer : ℕ
  pub consumer : ℕ
  pub slots : List RingSlot

pub data ChannelError : Type 0 where
  full : ChannelError

unfoldable pub new : SpscRing
new = record { producer = 0; consumer = 0; slots = replicate channel_depth fresh_slot }

-- `compare_exchange` of a slot's state.
unfoldable pub is_empty_state : SlotState → Bool
is_empty_state slot_empty = true
is_empty_state slot_writing = false
is_empty_state slot_ready = false
is_empty_state slot_reading = false

unfoldable pub is_ready_state : SlotState → Bool
is_ready_state slot_empty = false
is_ready_state slot_writing = false
is_ready_state slot_ready = true
is_ready_state slot_reading = false

unfoldable pub send : ChannelMessage → SpscRing → Result ChannelError (Unit {0}) × SpscRing
unfolding is_empty_state
send message r =
    let index : ℕ = r.producer % channel_depth in
    let slot : RingSlot = get_or r.slots index fresh_slot in
    if is_empty_state slot.state
    then (
      ok tt,
      record r {
        producer = (r.producer + 1) % channel_depth;
        slots = set r.slots index (record { state = slot_ready; message = message });
      },
    )
    else (err full, r)

unfoldable pub recv : SpscRing → Option ChannelMessage × SpscRing
unfolding is_ready_state
recv r =
    let index : ℕ = r.consumer % channel_depth in
    let slot : RingSlot = get_or r.slots index fresh_slot in
    if is_ready_state slot.state
    then (
      some slot.message,
      record r {
        consumer = (r.consumer + 1) % channel_depth;
        slots = set r.slots index (record { state = slot_empty; message = slot.message });
      },
    )
    else (none, r)

unfoldable pub is_empty : SpscRing → Bool
unfolding is_ready_state
is_empty r = not (is_ready_state (get_or r.slots (r.consumer % channel_depth) fresh_slot).state)
