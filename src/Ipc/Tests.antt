-- ===== src/Ipc/Tests.antt =====
-- Runs of src/ipc.rs, after its own tests.
use slope.Base.{◌≡◌, refl, List, [], ◌∷◌, replicate}
use slope.Ipc.{new, with_tag, with_payload}
use slope.Ipc.Fifo.{Call, sends, receives, asks, answers, promises, new-answers}

abbrev round_trip : List Call
round_trip = sends (with_tag 42) ∷ receives ∷ asks ∷ receives ∷ []

new-answers_example : answers round_trip new ≡ promises round_trip []
new-answers_example = new-answers round_trip

-- A payload that is one byte too long is cut.
cut_payload : (with_payload 7 (replicate 49 170)).payload ≡ replicate 48 170
unfolding with_payload
cut_payload = refl
