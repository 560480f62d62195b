-- ===== src/Signal/Tests.antt =====
-- Runs of src/signal.rs, after its own test; handlers are numbers, zero the one at the start.
use slope.Base.{ℕ, ◌≡◌, refl, arith, List, [], ◌∷◌}
use slope.Signal.{
  DischargeEvent, new, dispatch, thermal_throttle, user_defined, termination_request, to_raw,
}
use slope.Signal.Dispatched.{Call, sets, clears, after, chosen, dispatch-chosen}

abbrev throttle_event : DischargeEvent
throttle_event = record { class = 4; payload = []; sender_pid = 0 }

abbrev registrations : List (Call ℕ)
registrations = sets thermal_throttle 5 ∷ sets (user_defined 9) 6 ∷ clears termination_request ∷ []

dispatch-chosen_example :
    dispatch 0 throttle_event (after 0 registrations (new 0)) ≡ chosen 0 4 0 registrations
dispatch-chosen_example = dispatch-chosen 0 throttle_event registrations (omega arith)

-- A class of the program's own that is numbered below seven takes the place of one of the kernel's.
aliased : to_raw (user_defined 1) ≡ to_raw termination_request
unfolding to_raw
aliased = refl
