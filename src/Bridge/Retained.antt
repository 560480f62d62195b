-- ===== src/Bridge/Retained.antt =====
-- src/bridge.rs: a packet that is held keeps its bytes.
use slope.Base.{
  ◌%◌, ◌≤◌, ◌≡◌, refl, sym, ap, subst, ◌∙◌, ltb, true, false, Bool-cases, inl, inr, Option, none,
  some, Result, ok, err, ok-injective, List, length, take, get_or-set_self, set, arith,
}
use slope.Bridge.{
  ring_entries, maximum_frame_bytes, ReceiveState, user_held, DmaDescriptor, receive_descriptor,
  BifrostRing, BridgeError, invalid_hardware_length, ReceivedPacket, receive_at, is_ready,
  try_receive, bytes,
}
use slope.Bridge.Held.{Step, after, AllTold, IsHeld, IsHeld-after}

descriptor_at : BifrostRing → DmaDescriptor ReceiveState
descriptor_at r = receive_at r (r.receive_consumer % ring_entries)

not_ready :
    (r : BifrostRing) → is_ready (descriptor_at r).state ≡ false → try_receive r ≡ (ok none, r)
unfolding try_receive descriptor_at
not_ready r h = rw h refl

too_long :
    (r : BifrostRing)
    → is_ready (descriptor_at r).state ≡ true
    → ltb maximum_frame_bytes (descriptor_at r).bytes_used ≡ true
    → (try_receive r).0 ≡ err invalid_hardware_length
unfolding try_receive descriptor_at
too_long r h k = rw h (ground (arith, k))

taken : BifrostRing → BifrostRing
taken r = record r {
  receive =
      set r.receive (r.receive_consumer % ring_entries)
        (record (descriptor_at r) { state = user_held });
}

comes :
    (r : BifrostRing)
    → is_ready (descriptor_at r).state ≡ true
    → ltb maximum_frame_bytes (descriptor_at r).bytes_used ≡ false
    → try_receive r ≡ (
      ok (
          some (record {
            index = r.receive_consumer % ring_entries;
            packet_length = (descriptor_at r).bytes_used;
          })),
      taken r,
    )
unfolding try_receive descriptor_at taken
comes r h k = rw h (ground (arith, k))

taken-IsHeld :
    (r : BifrostRing)
    → length r.receive ≡ ring_entries
    → IsHeld
        (r.receive_consumer % ring_entries)
        (record (descriptor_at r) { state = user_held })
        (taken r)
unfolding taken
taken-IsHeld r h = record {
  here =
      get_or-set_self r.receive (r.receive_consumer % ring_entries)
        (record (descriptor_at r) { state = user_held }) receive_descriptor (omega (arith, h));
  held = refl;
  turn = refl;
}

some-injective : (a b : ReceivedPacket) → ◌≡◌ {A = Option ReceivedPacket} (some a) (some b) → a ≡ b
some-injective a b h = cc

-- A packet that try_receive returns on a ring of 256 receive descriptors is at most 2048 bytes
-- long, and until it is dropped, whatever frames the program sends and whatever the device
-- delivers into the descriptors that it owns, its bytes are those that the descriptor held when
-- it was received, and every further try_receive answers that nothing has come.
pub try_receive-retains :
    (r : BifrostRing) (p : ReceivedPacket) (steps : List Step)
    → length r.receive ≡ ring_entries
    → (try_receive r).0 ≡ ok (some p)
    → (p.packet_length ≤ maximum_frame_bytes)
      × (bytes p (after steps (try_receive r).1)
          ≡ take p.packet_length (receive_at r p.index).buffer)
      × AllTold steps (try_receive r).1
unfolding bytes descriptor_at
try_receive-retains r p steps h e = elim (Bool-cases (is_ready (descriptor_at r).state)) [
  | inr off ↦ absurd (ground (arith, ap (λ x. x.0) (not_ready r off), e))
  | inl on ↦ elim (Bool-cases (ltb maximum_frame_bytes (descriptor_at r).bytes_used)) [
    | inl long ↦ absurd (ground (arith, too_long r on long, e))
    | inr fits ↦
        let got = comes r on fits in
        let packet : ReceivedPacket = record {
          index = r.receive_consumer % ring_entries;
          packet_length = (descriptor_at r).bytes_used;
        } in
        let whole : ◌≡◌ {A = Result BridgeError (Option ReceivedPacket)} (ok (some packet))
            (ok (some p)) =
          sym (ap (λ x. x.0) got) ∙ e in
        let q : packet ≡ p = some-injective packet p (ok-injective whole) in
        let (kept, told) =
          IsHeld-after (r.receive_consumer % ring_entries)
            (record (descriptor_at r) { state = user_held }) steps (taken r) (taken-IsHeld r h) in
        subst
          (λ (x : ReceivedPacket).
            (x.packet_length ≤ maximum_frame_bytes)
            × (bytes x (after steps (try_receive r).1)
                ≡ take x.packet_length (receive_at r x.index).buffer)
            × AllTold steps (try_receive r).1)
          q
          (
            ground (arith, fits),
            ap (λ x. take packet.packet_length (receive_at (after steps x.1) packet.index).buffer)
                  got
                ∙ ap (λ (d : DmaDescriptor ReceiveState). take packet.packet_length d.buffer)
                    kept.here,
            subst (λ x. AllTold steps x.1) (sym got) told,
          )
  ]
]
