-- ===== src/Thermogenesis/Tests.antt =====
-- Runs of src/thermogenesis.rs, after its own tests.
use slope.Base.{◌≡◌, refl, none, List, [], ◌∷◌}
use slope.Thermogenesis.{
  ThermalPage, hot, critical, zone, zone_number, new_policy, check_transition,
}
use slope.Thermogenesis.Transitions.{Reading, log, changes, IsStamped, log-changes}

abbrev cool_page : ThermalPage
cool_page = record {
  temperature_zone = 0;
  throttle_hint = 0;
  kernel_epoch = 0;
  tsc_frequency_mhz = 0;
  cpu_budget_ticks = 0;
  cpu_used_ticks = 0;
  thermal_ticks = 0;
}

-- The zone rises, is read again, and rises again.
abbrev readings : List Reading
readings = (1, hot) ∷ (1, hot) ∷ (2, critical) ∷ []

readings-IsStamped : IsStamped cool_page.kernel_epoch (zone cool_page) readings
unfolding zone zone_number
readings-IsStamped = (refl, (refl, (refl, tt)))

log-changes_example : log readings (new_policy cool_page) ≡ changes (zone cool_page) readings
log-changes_example = log-changes cool_page readings readings-IsStamped

-- A change after 256 epochs, whose byte is the one that was read before, is missed.
wrapped : (check_transition 0 critical (new_policy cool_page)).0 ≡ none
unfolding check_transition new_policy
wrapped = refl
