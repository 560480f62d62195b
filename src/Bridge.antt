-- ===== src/Bridge.antt =====
-- src/bridge.rs: the ring that the program shares with a network device. Each descriptor belongs to one
-- side at a time, which its state says, so that a call of the program and a delivery of the device are
-- one step each.
use slope.Base.{
  ℕ, zero, suc, ◌+◌, ◌%◌, Bool, true, false, ◌||◌, ltb, ◌==◌, Option, none, some, Result, ok, err,
  List, [], ◌∷◌, ◌++◌, take, drop, length, get_or, set, replicate, if◌then◌else◌,
}
pub mod Held
pub mod Retained
mod Tests

abbrev pub ring_entries : ℕ
ring_entries = 256

abbrev pub maximum_frame_bytes : ℕ
maximum_frame_bytes = 2_048

pub data ReceiveState : Type 0 where
  device_owned ready user_held : ReceiveState

pub data TransmitState : Type 0 where
  transmit_free building transmit_owned : TransmitState

pub record DmaDescriptor (State : Type 0) : Type 0 where
  pub buffer : List ℕ
  pub bytes_used : ℕ
  pub state : State

unfoldable pub receive_descriptor : DmaDescriptor ReceiveState
receive_descriptor = record {
  buffer = replicate maximum_frame_bytes 0;
  bytes_used = 0;
  state = device_owned;
}

unfoldable pub transmit_descriptor : DmaDescriptor TransmitState
transmit_descriptor = record {
  buffer = replicate maximum_frame_bytes 0;
  bytes_used = 0;
  state = transmit_free;
}

pub record BifrostRing : Type 0 where
  pub receive_consumer : ℕ
  pub transmit_producer : ℕ
  pub receive : List (DmaDescriptor ReceiveState)
  pub transmit : List (DmaDescriptor TransmitState)

unfoldable pub new : BifrostRing
new = record {
  receive_consumer = 0;
  transmit_producer = 0;
  receive = replicate ring_entries receive_descriptor;
  transmit = replicate ring_entries transmit_descriptor;
}

pub data BridgeError : Type 0 where
  invalid_payload_length invalid_hardware_length transmit_queue_full invalid_capability :
      BridgeError

pub record ReceivedPacket : Type 0 where
  pub index : ℕ
  pub packet_length : ℕ

unfoldable pub next_index : ℕ → ℕ
next_index index = (index + 1) % ring_entries

abbrev pub receive_at : BifrostRing → ℕ → DmaDescriptor ReceiveState
receive_at r index = get_or r.receive index receive_descriptor

unfoldable pub is_ready : ReceiveState → Bool
is_ready ready = true
is_ready _ = false

unfoldable pub is_device_owned : ReceiveState → Bool
is_device_owned device_owned = true
is_device_owned _ = false

unfoldable pub is_free : TransmitState → Bool
is_free transmit_free = true
is_free _ = false

-- The descriptor goes back to the device and the consumer moves on.
unfoldable pub give_back : ℕ → DmaDescriptor ReceiveState → BifrostRing → BifrostRing
unfolding next_index
give_back index descriptor r = record r {
  receive = set r.receive index (record descriptor { bytes_used = 0; state = device_owned });
  receive_consumer = next_index index;
}

unfoldable pub try_receive : BifrostRing → Result BridgeError (Option ReceivedPacket) × BifrostRing
unfolding is_ready give_back
try_receive r =
    let index : ℕ = r.receive_consumer % ring_entries in
    let descriptor : DmaDescriptor ReceiveState = receive_at r index in
    if is_ready descriptor.state
    then (if ltb maximum_frame_bytes descriptor.bytes_used
        then (err invalid_hardware_length, give_back index descriptor r)
        else (
          ok (some (record { index = index; packet_length = descriptor.bytes_used })),
          record r { receive = set r.receive index (record descriptor { state = user_held }) },
        ))
    else (ok none, r)

-- `ReceivedPacket::bytes`, and its drop.
unfoldable pub bytes : ReceivedPacket → BifrostRing → List ℕ
bytes p r = take p.packet_length (receive_at r p.index).buffer

unfoldable pub drop_packet : ReceivedPacket → BifrostRing → BifrostRing
unfolding give_back
drop_packet p r = give_back p.index (receive_at r p.index) r

-- A payload over the front of a buffer.
abbrev pub written_over : List ℕ → List ℕ → List ℕ
written_over payload buffer = payload ++ drop (length payload) buffer

unfoldable pub transmit_frame : List ℕ → BifrostRing → Result BridgeError (Unit {0}) × BifrostRing
unfolding is_free next_index
transmit_frame payload r =
    let index : ℕ = r.transmit_producer % ring_entries in
    let descriptor : DmaDescriptor TransmitState = get_or r.transmit index transmit_descriptor in
    if (length payload == 0) || ltb maximum_frame_bytes (length payload)
    then (err invalid_payload_length, r)
    else (if is_free descriptor.state
        then (
          ok tt,
          record r {
            transmit = set r.transmit index (record {
              buffer = written_over payload descriptor.buffer;
              bytes_used = length payload;
              state = transmit_owned;
            });
            transmit_producer = next_index index;
          },
        )
        else (err transmit_queue_full, r))

-- `inject_receive`: what the device does to a descriptor that it owns; the length it reports is its own.
unfoldable pub inject_receive : ℕ → List ℕ → ℕ → BifrostRing → BifrostRing
unfolding is_device_owned
inject_receive index payload reported r =
    let descriptor : DmaDescriptor ReceiveState = receive_at r index in
    if is_device_owned descriptor.state
    then record r {
      receive = set r.receive index (record {
        buffer = written_over payload descriptor.buffer;
        bytes_used = reported;
        state = ready;
      });
    }
    else r
