-- ===== src/Hermes/Phase.antt =====
-- src/hermes_manifold.rs, `HermesPhase`.
use slope.Base.{ℕ, Bool, true, false, Option, none, some, ◌==◌, if◌then◌else◌, ◌≡◌, arith}

pub data HermesPhase : Type 0 where
  offline probed firmwared queued negotiated online recovering quarantined : HermesPhase

unfoldable pub as_u8 : HermesPhase → ℕ
as_u8 offline = 0
as_u8 probed = 1
as_u8 firmwared = 2
as_u8 queued = 3
as_u8 negotiated = 4
as_u8 online = 5
as_u8 recovering = 6
as_u8 quarantined = 7

unfoldable pub from_u8 : ℕ → Option HermesPhase
from_u8 value =
    if value == 0
    then some offline
    else (if value == 1
        then some probed
        else (if value == 2
            then some firmwared
            else (if value == 3
                then some queued
                else (if value == 4
                    then some negotiated
                    else (if value == 5
                        then some online
                        else (if value == 6
                            then some recovering
                            else (if value == 7 then some quarantined else none)))))))

unfoldable pub is_live : HermesPhase → Bool
is_live online = true
is_live _ = false

unfoldable pub is_degraded : HermesPhase → Bool
is_degraded recovering = true
is_degraded quarantined = true
is_degraded _ = false

-- The derived `==` on phases.
abbrev pub phase_eq : HermesPhase → HermesPhase → Bool
unfolding as_u8
phase_eq p q = as_u8 p == as_u8 q

-- Encoding is inverted by decoding.
pub from_u8-as_u8 : (p : HermesPhase) → from_u8 (as_u8 p) ≡ some p
unfolding from_u8 as_u8
from_u8-as_u8 p = ground arith

pub as_u8_of_from_u8 : (value : ℕ) (p : HermesPhase) → from_u8 value ≡ some p → as_u8 p ≡ value
unfolding from_u8 as_u8
as_u8_of_from_u8 value p h = ground arith
