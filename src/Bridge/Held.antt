-- ===== src/Bridge/Held.antt =====
-- src/bridge.rs: what may happen to the ring while a packet is held.
use slope.Base.{
  ℕ, ◌%◌, ◌≡◌, ◌≢◌, refl, sym, ap, subst, ◌∙◌, true, false, Bool-cases, inl, inr, Option, none,
  Result, ok, List, [], ◌∷◌, get_or, get_or-set_ne, set, arith,
}
use slope.Bridge.{
  ring_entries, ReceiveState, ready, user_held, DmaDescriptor, receive_descriptor, BifrostRing,
  BridgeError, ReceivedPacket, receive_at, is_ready, is_device_owned, try_receive, transmit_frame,
  inject_receive, written_over,
}

-- What happens while a packet is held.
pub data Step : Type 0 where
  receives : Step
  transmits : List ℕ → Step
  delivers : ℕ → List ℕ → ℕ → Step

pub data Answer : Type 0 where
  received : Result BridgeError (Option ReceivedPacket) → Answer
  sent : Result BridgeError (Unit {0}) → Answer
  delivered : Answer

unfoldable pub step : Step → BifrostRing → Answer × BifrostRing
step receives r = (received (try_receive r).0, (try_receive r).1)
step (transmits payload) r = (sent (transmit_frame payload r).0, (transmit_frame payload r).1)
step (delivers index payload reported) r = (delivered, inject_receive index payload reported r)

unfoldable pub after : List Step → BifrostRing → BifrostRing
after [] r = r
after (s ∷ steps) r = after steps (step s r).1

pub record IsHeld (index : ℕ) (d : DmaDescriptor ReceiveState) (r : BifrostRing) : Type 0 where
  pub here : receive_at r index ≡ d
  pub held : d.state ≡ user_held
  pub turn : r.receive_consumer % ring_entries ≡ index

held_receive :
    (index : ℕ) (d : DmaDescriptor ReceiveState) (r : BifrostRing)
    → IsHeld index d r
    → try_receive r ≡ (ok none, r)
unfolding try_receive
held_receive index d r h =
    let state : (receive_at r (r.receive_consumer % ring_entries)).state ≡ user_held =
      ap (λ i. (receive_at r i).state) h.turn
      ∙ ap (λ (x : DmaDescriptor ReceiveState). x.state) h.here
      ∙ h.held in
    let off : is_ready (receive_at r (r.receive_consumer % ring_entries)).state ≡ false =
      ap is_ready state ∙ unfold is_ready in refl in
    rw off refl

transmit-receive :
    (payload : List ℕ) (r : BifrostRing)
    → ((transmit_frame payload r).1.receive ≡ r.receive)
      × ((transmit_frame payload r).1.receive_consumer ≡ r.receive_consumer)
unfolding transmit_frame
transmit-receive payload r = (ground arith, ground arith)

IsHeld-transmit :
    (index : ℕ) (d : DmaDescriptor ReceiveState) (payload : List ℕ) (r : BifrostRing)
    → IsHeld index d r
    → IsHeld index d (transmit_frame payload r).1
IsHeld-transmit index d payload r h =
    let (same, turn) = transmit-receive payload r in
    record {
      here = ap (λ l. get_or l index receive_descriptor) same ∙ h.here;
      held = h.held;
      turn = ap (λ n. n % ring_entries) turn ∙ h.turn;
    }

inject_off :
    (i : ℕ) (payload : List ℕ) (reported : ℕ) (r : BifrostRing)
    → is_device_owned (receive_at r i).state ≡ false
    → inject_receive i payload reported r ≡ r
unfolding inject_receive
inject_off i payload reported r h = rw h refl

injected : ℕ → List ℕ → ℕ → BifrostRing → DmaDescriptor ReceiveState
injected i payload reported r = record {
  buffer = written_over payload (receive_at r i).buffer;
  bytes_used = reported;
  state = ready;
}

inject_on :
    (i : ℕ) (payload : List ℕ) (reported : ℕ) (r : BifrostRing)
    → is_device_owned (receive_at r i).state ≡ true
    → inject_receive i payload reported r
      ≡ record r { receive = set r.receive i (injected i payload reported r) }
unfolding inject_receive injected
inject_on i payload reported r h = rw h refl

owned_twice :
    (index i : ℕ) (d : DmaDescriptor ReceiveState) (r : BifrostRing)
    → IsHeld index d r
    → i ≡ index
    → is_device_owned (receive_at r i).state ≡ true
    → ⊥
unfolding is_device_owned
owned_twice index i d r h e on =
    let state : (receive_at r i).state ≡ user_held =
      ap (λ j. (receive_at r j).state) e
      ∙ ap (λ (x : DmaDescriptor ReceiveState). x.state) h.here
      ∙ h.held in
    let owned : is_device_owned user_held ≡ true = sym (ap is_device_owned state) ∙ on in
    ground (arith, owned)

IsHeld-inject :
    (index i : ℕ) (d : DmaDescriptor ReceiveState) (payload : List ℕ) (reported : ℕ)
    (r : BifrostRing)
    → IsHeld index d r
    → IsHeld index d (inject_receive i payload reported r)
IsHeld-inject index i d payload reported r h =
    elim (Bool-cases (is_device_owned (receive_at r i).state)) [
      | inr off ↦ subst (IsHeld index d) (sym (inject_off i payload reported r off)) h
      | inl on ↦
          let other : i ≢ index = λ e. owned_twice index i d r h e on in
          subst (IsHeld index d) (sym (inject_on i payload reported r on)) (record {
            here =
                get_or-set_ne r.receive i index (injected i payload reported r) receive_descriptor
                  other
                ∙ h.here;
            held = h.held;
            turn = h.turn;
          })
    ]

-- While it is held, the program is told that nothing has come.
abbrev pub Told : Step → Answer → Type 0
Told receives a = a ≡ received (ok none)
Told (transmits payload) a = Unit {0}
Told (delivers index payload reported) a = Unit {0}

IsHeld-step :
    (index : ℕ) (d : DmaDescriptor ReceiveState) (s : Step) (r : BifrostRing)
    → IsHeld index d r
    → IsHeld index d (step s r).1 × Told s (step s r).0
unfolding step
IsHeld-step index d receives r h = (
  subst (IsHeld index d) (sym (ap (λ x. x.1) (held_receive index d r h))) h,
  ap (λ x. received x.0) (held_receive index d r h),
)
IsHeld-step index d (transmits payload) r h = (IsHeld-transmit index d payload r h, tt)
IsHeld-step index d (delivers i payload reported) r h =
    (IsHeld-inject index i d payload reported r h, tt)

-- So it is told in every step of a sequence.
abbrev pub AllTold : List Step → BifrostRing → Type 0
AllTold [] r = Unit {0}
AllTold (s ∷ steps) r = Told s (step s r).0 × AllTold steps (step s r).1

pub IsHeld-after :
    (index : ℕ) (d : DmaDescriptor ReceiveState) (steps : List Step) (r : BifrostRing)
    → IsHeld index d r
    → IsHeld index d (after steps r) × AllTold steps r
unfolding after
IsHeld-after index d [] r h = (h, tt)
IsHeld-after index d (s ∷ steps) r h =
    let (next, told) = IsHeld-step index d s r h in
    let (rest, all_told) = IsHeld-after index d steps (step s r).1 next in (rest, (told, all_told))
