-- ===== src/Signal.antt =====
-- src/signal.rs: the classes of notifications and the table of their handlers. A handler is a value of
-- a type that is a parameter, and so is the one that the table starts with.
use slope.Base.{
  ℕ, zero, suc, ◌==◌, Bool, true, false, List, [], ◌∷◌, get_or, set, replicate, if◌then◌else◌,
}
pub mod Dispatched
mod Tests

abbrev pub max_discharge_classes : ℕ
max_discharge_classes = 256

pub data DischargeClass : Type 0 where
  reserved termination_request fault_notification resource_pressure thermal_throttle
        peer_disconnected capability_revoked :
      DischargeClass
  user_defined : ℕ → DischargeClass

unfoldable pub from_raw : ℕ → DischargeClass
from_raw n =
    if n == 0
    then reserved
    else (if n == 1
        then termination_request
        else (if n == 2
            then fault_notification
            else (if n == 3
                then resource_pressure
                else (if n == 4
                    then thermal_throttle
                    else (if n == 5
                        then peer_disconnected
                        else (if n == 6 then capability_revoked else user_defined n))))))

unfoldable pub to_raw : DischargeClass → ℕ
to_raw reserved = 0
to_raw termination_request = 1
to_raw fault_notification = 2
to_raw resource_pressure = 3
to_raw thermal_throttle = 4
to_raw peer_disconnected = 5
to_raw capability_revoked = 6
to_raw (user_defined n) = n

pub record DischargeEvent : Type 0 where
  pub class : ℕ
  pub payload : List ℕ
  pub sender_pid : ℕ

pub record CoronalMatrix (Handler : Type 0) : Type 0 where
  pub handlers : List Handler

module _ {Handler : Type 0} (default_handler : Handler) where
  unfoldable pub new : CoronalMatrix Handler
  new = record { handlers = replicate max_discharge_classes default_handler }

  unfoldable pub set_handler :
      DischargeClass → Handler → CoronalMatrix Handler → CoronalMatrix Handler
  unfolding to_raw
  set_handler class handler m = record m { handlers = set m.handlers (to_raw class) handler }

  unfoldable pub clear : DischargeClass → CoronalMatrix Handler → CoronalMatrix Handler
  unfolding to_raw
  clear class m = record m { handlers = set m.handlers (to_raw class) default_handler }

  -- The handler that `dispatch` calls on the event; a class is a byte, so the index is in bounds.
  unfoldable pub dispatch : DischargeEvent → CoronalMatrix Handler → Handler
  dispatch event m = get_or m.handlers event.class default_handler
