-- ===== src/Thermogenesis.antt =====
-- src/thermogenesis.rs: the thermal page, the guard and the policy. A page is what one load of each of
-- its fields reads; two loads that the kernel may write between are two arguments.
use slope.Base.{
  ℕ, ◌+◌, ◌-◌, ◌*◌, ◌/◌, max, Bool, true, false, ◌&&◌, ◌||◌, ltb, leb, ◌==◌, Option, none, some,
  u64_mod, if◌then◌else◌,
}
pub mod Transitions
pub mod Throttled
mod Tests

pub record ThermalPage : Type 0 where
  pub temperature_zone : ℕ
  pub throttle_hint : ℕ
  pub kernel_epoch : ℕ
  pub tsc_frequency_mhz : ℕ
  pub cpu_budget_ticks : ℕ
  pub cpu_used_ticks : ℕ
  pub thermal_ticks : ℕ

pub data ThermalZone : Type 0 where
  cold warm hot critical : ThermalZone

unfoldable pub zone_from_raw : ℕ → ThermalZone
zone_from_raw n =
    if n == 1 then warm else (if n == 2 then hot else (if n == 3 then critical else cold))

-- `as u8`, by which the derived equality compares.
unfoldable pub zone_number : ThermalZone → ℕ
zone_number cold = 0
zone_number warm = 1
zone_number hot = 2
zone_number critical = 3

unfoldable pub is_throttled : ThermalZone → Bool
unfolding zone_number
is_throttled z = leb 2 (zone_number z)

pub data ThrottleHint : Type 0 where
  full half quarter minimal : ThrottleHint

unfoldable pub hint_from_raw : ℕ → ThrottleHint
hint_from_raw n =
    if n == 1 then half else (if n == 2 then quarter else (if n == 3 then minimal else full))

unfoldable pub work_fraction_millipct : ThrottleHint → ℕ
work_fraction_millipct full = 1_000
work_fraction_millipct half = 500
work_fraction_millipct quarter = 250
work_fraction_millipct minimal = 100

unfoldable pub yield_pressure : ThrottleHint → ℕ
yield_pressure full = 0
yield_pressure half = 1_000
yield_pressure quarter = 5_000
yield_pressure minimal = 20_000

unfoldable pub zone : ThermalPage → ThermalZone
unfolding zone_from_raw
zone p = zone_from_raw p.temperature_zone

unfoldable pub hint : ThermalPage → ThrottleHint
unfolding hint_from_raw
hint p = hint_from_raw p.throttle_hint

-- `saturating_sub`.
unfoldable pub budget_remaining : ThermalPage → ℕ
budget_remaining p = p.cpu_budget_ticks - p.cpu_used_ticks

unfoldable pub is_thermally_stressed : ThermalPage → Bool
unfolding zone is_throttled
is_thermally_stressed p = is_throttled (zone p)

-- The product overflows `usize` where this is none.
unfoldable pub throttled_batch_size : ThermalPage → ℕ → Option ℕ
unfolding hint work_fraction_millipct
throttled_batch_size p base =
    let product : ℕ = base * work_fraction_millipct (hint p) in
    if ltb product u64_mod then some (max (product / 1_000) 1) else none

pub record ThermalGuard : Type 0 where
  pub hint_at_entry : ThrottleHint
  pub start : ℕ

unfoldable pub enter : ThermalPage → ℕ → ThermalGuard
unfolding hint
enter p now = record { hint_at_entry = hint p; start = now }

unfoldable pub budget_exhausted : ThermalPage → Bool
unfolding budget_remaining
budget_exhausted p = budget_remaining p == 0

-- `DEFAULT_EVENT_HORIZON_TICKS` of src/process/tachyon.rs.
abbrev pub default_event_horizon_ticks : ℕ
default_event_horizon_ticks = 50_000

-- What the guard yields with when it is dropped, if it yields.
unfoldable pub dropped : ℕ → ThermalGuard → Option ℕ
unfolding yield_pressure
dropped now g =
    let elapsed : ℕ = now - g.start in
    let pressure : ℕ = yield_pressure g.hint_at_entry in
    if ltb 0 pressure || ltb default_event_horizon_ticks elapsed
    then some (max elapsed pressure)
    else none

pub record ThermalPolicy : Type 0 where
  pub last_zone : ThermalZone
  pub last_epoch : ℕ

unfoldable pub new_policy : ThermalPage → ThermalPolicy
unfolding zone
new_policy p = record { last_zone = zone p; last_epoch = p.kernel_epoch }

-- What the handler is called with, if it is called, and the policy after it.
unfoldable pub check_transition :
    ℕ → ThermalZone → ThermalPolicy → Option (ThermalZone × ThermalZone) × ThermalPolicy
unfolding zone_number
check_transition epoch new_zone policy =
    if epoch == policy.last_epoch
    then (none, policy)
    else (if zone_number new_zone == zone_number policy.last_zone
        then (none, record policy { last_epoch = epoch })
        else (
          some (policy.last_zone, new_zone),
          record { last_zone = new_zone; last_epoch = epoch },
        ))
