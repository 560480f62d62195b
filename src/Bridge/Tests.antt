-- ===== src/Bridge/Tests.antt =====
-- Runs of src/bridge.rs, after its own test: a packet of three bytes is held while more come.
use slope.Base.{◌≤◌, ◌≡◌, refl, some, ok, List, [], ◌∷◌, take, length}
use slope.Bridge.{
  BifrostRing, ReceivedPacket, new, receive_descriptor, receive_at, try_receive, bytes,
  inject_receive, ring_entries, maximum_frame_bytes,
}
use slope.Bridge.Held.{Step, receives, transmits, delivers, after, AllTold}
use slope.Bridge.Retained.{try_receive-retains}

abbrev filled : BifrostRing
filled = inject_receive 0 (7 ∷ 8 ∷ 9 ∷ []) 3 new

abbrev packet_held : ReceivedPacket
packet_held = record { index = 0; packet_length = 3 }

filled-size : length filled.receive ≡ ring_entries
unfolding inject_receive new receive_descriptor
filled-size = refl

filled-comes : (try_receive filled).0 ≡ ok (some packet_held)
unfolding try_receive inject_receive new receive_descriptor
filled-comes = refl

abbrev meanwhile : List Step
meanwhile =
    receives ∷ delivers 1 (5 ∷ []) 1 ∷ delivers 0 (6 ∷ []) 1 ∷ transmits (4 ∷ []) ∷ receives ∷ []

try_receive-retains_example :
    (3 ≤ maximum_frame_bytes)
    × (bytes packet_held (after meanwhile (try_receive filled).1)
        ≡ take 3 (receive_at filled 0).buffer)
    × AllTold meanwhile (try_receive filled).1
try_receive-retains_example =
    try_receive-retains filled packet_held meanwhile filled-size filled-comes
