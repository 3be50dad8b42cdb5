-- ===== src/Tests/Zones.antt =====
-- Runs of the zone control, and the instances of its theorems.
use sprinkler_d.Prelude.{
  ℕ, ◌⊎◌, ◌*ℤ◌, ◌-ℤ◌, ℤ, pos, negsuc, ◌≡◌, refl, inl, inr, true, false, Option, none, some, List,
  [], ◌∷◌, map, arith,
}
use sprinkler_d.State.{
  Running, Run, done, fault, out_of_fuel, RunType, zc_none, zc_single, zc_all, zc_cron, zc_on,
  zc_off, Effect, zone_at,
}
use sprinkler_d.Zones.Pins.{zc_start, zc_stop, zc_master, pin_is_on, calc_timeleft}
use sprinkler_d.Zones.Cycle.{start_next_zone, zc_check, skips}
use sprinkler_d.Zones.Requests.{zc_zone, zc_rain_delay_enabled}
use sprinkler_d.Zones.Switches.{Shows}
use sprinkler_d.Zones.Progress.{IsNext}
use sprinkler_d.Zones.Advance.{Advanced, start_next_zone-Advanced}
use sprinkler_d.Zones.Safety.{Safe, RunsZone}
use sprinkler_d.Zones.Check.{zc_check-Safe, zc_check-IsNext}
use sprinkler_d.Zones.OnOff.{started}
use sprinkler_d.Zones.CycleAll.{Cycled}
use sprinkler_d.Zones.Zone.{zc_zone_starts, zc_zone_stops}
use sprinkler_d.Zones.Invariant.{
  zc_zone-Safe, zc_zone_all_on, zc_zone_all_off, NoCron, zc_rain_delay_enabled-Safe,
}
use sprinkler_d.Zones.Faults.{zc_zone_negative, start_next_zone_overrun, zc_zone_master_off}
use sprinkler_d.Tests.Plant.{plant, plant_driver, garden, zone_on_pin, idle}
use sprinkler_d.Tests.Garden.{watering, watering-Shows, idle-Safe, cron_Safe, all_Safe}

-- What a run leaves: its result, the levels of the four pins, and the current zone.
abbrev outcome : {A : Type 0} → Run A → Option (A × List ℤ × Running)
outcome (done a s) = some (a, map s.board (pos 4 ∷ pos 17 ∷ pos 27 ∷ pos 22 ∷ []), s.current_zone)
outcome fault = none
outcome out_of_fuel = none

-- Zone 1 for its default time: its pin and the master valve's go low.
starts_zone_1 :
    outcome (zc_zone zc_single (pos 1) zc_on (pos 0) idle)
    ≡ some (true, pos 0 ∷ pos 0 ∷ pos 1 ∷ pos 1 ∷ [], started zc_single 1 (pos 10) (pos 1000))
unfolding zc_zone zone_at pin_is_on zc_start zc_master ◌*ℤ◌ ◌-ℤ◌
starts_zone_1 = refl

-- Zone 2 has no run time, so a run of all zones goes on from zone 1 to zone 3.
skips_zone_2 :
    outcome (zc_check (watering zc_all))
    ≡ some (true, pos 0 ∷ pos 1 ∷ pos 1 ∷ pos 0 ∷ [], started zc_all 3 (pos 5) (pos 1000))
unfolding zc_check ◌*ℤ◌ ◌-ℤ◌ zc_stop start_next_zone skips zc_start zc_master
skips_zone_2 = refl

RunsZone-1 :
    (t : RunType) → (t ≡ zc_single) ⊎ ((t ≡ zc_all) ⊎ (t ≡ zc_cron)) → RunsZone (watering t) 1
RunsZone-1 t some_type = record {
  running = elim some_type [ inl e ↦ rw e | inr (inl e) ↦ rw e | inr (inr e) ↦ rw e ];
  at = refl;
  lo = omega arith;
  hi = omega arith;
  shows = watering-Shows t;
}

zc_zone-Safe_example :
    Effect
      (watering zc_cron)
      (λ _ c b. Safe (watering zc_cron) c b)
      (zc_zone zc_single (pos 3) zc_on (pos 2) (watering zc_cron))
zc_zone-Safe_example =
    zc_zone-Safe (watering zc_cron) zc_single (pos 3) zc_on (pos 2) cron_Safe
      (inr (refl, refl, (3, refl, omega arith, omega arith)))

zc_check-Safe_example :
    Effect (watering zc_all) (λ _ c b. Safe (watering zc_all) c b) (zc_check (watering zc_all))
zc_check-Safe_example = zc_check-Safe (watering zc_all) all_Safe

zc_zone_all_on_example :
    Effect idle
      (λ r c b. (r ≡ true) × ((o : Option ℕ) × IsNext garden 3 1 o × Cycled idle o c b))
      (zc_zone zc_all (pos 0) zc_on (pos 0) idle)
zc_zone_all_on_example = zc_zone_all_on idle (pos 0) idle-Safe refl

zc_zone_all_off_example :
    Effect
      (watering zc_all)
      (λ r c b.
        (r ≡ true)
        × (c ≡ record ((watering zc_all).current_zone) { type = zc_none })
        × Shows (watering zc_all) b none false)
      (zc_zone zc_all (pos 0) zc_off (pos 0) (watering zc_all))
zc_zone_all_off_example = zc_zone_all_off (watering zc_all) (pos 0) all_Safe refl

start_next_zone-Advanced_example :
    (o : Option ℕ) × IsNext garden 3 2 o × Effect idle (Advanced idle o) (start_next_zone 1 1 idle)
start_next_zone-Advanced_example = start_next_zone-Advanced idle 0 1 false idle-Safe.2 (omega arith)

zc_zone_starts_example :
    Effect
      (watering zc_cron)
      (λ r c b.
        (r ≡ true)
        × (c ≡ started zc_cron 3 (pos 5) (pos 1000))
        × Shows (watering zc_cron) b (some 3) true)
      (zc_zone zc_cron (pos 3) zc_on (pos 0) (watering zc_cron))
zc_zone_starts_example =
    zc_zone_starts (watering zc_cron) 3 cron_Safe (omega arith) (omega arith) refl zc_cron refl
      (pos 0) (zone_on_pin 3 22 5) refl refl refl

zc_zone_stops_example :
    Effect
      (watering zc_single)
      (λ r c b.
        (r ≡ true)
        × (c ≡ record ((watering zc_single).current_zone) { type = zc_none; zone = negsuc 0 })
        × Shows (watering zc_single) b none false)
      (zc_zone zc_single (pos 1) zc_off (pos 0) (watering zc_single))
zc_zone_stops_example =
    zc_zone_stops (watering zc_single) 1 (RunsZone-1 zc_single (inl refl)) zc_single refl (pos 0)
      refl

zc_check-IsNext_example :
    Effect
      (watering zc_all)
      (λ r c b.
        (r ≡ true)
        × ((o : Option ℕ) × IsNext garden 3 2 o × ((n : ℤ) × Advanced (watering zc_all) o n c b)))
      (zc_check (watering zc_all))
unfolding calc_timeleft ◌-ℤ◌ ◌*ℤ◌
zc_check-IsNext_example =
    zc_check-IsNext (watering zc_all) 1 (RunsZone-1 zc_all (inr (inl refl))) refl refl (omega arith)

zc_rain_delay_enabled-Safe_example :
    Effect
      (watering zc_cron)
      (λ _ c b. Safe (watering zc_cron) c b × NoCron c)
      (zc_rain_delay_enabled (watering zc_cron))
zc_rain_delay_enabled-Safe_example = zc_rain_delay_enabled-Safe (watering zc_cron) cron_Safe

zc_zone_master_off_example :
    Effect
      (watering zc_single)
      (λ r c b. (r ≡ true) × (c.type ≡ zc_none) × Shows (watering zc_single) b (some 1) false)
      (zc_zone zc_single (pos 0) zc_off (pos 0) (watering zc_single))
zc_zone_master_off_example =
    zc_zone_master_off (watering zc_single) 1 zc_single (pos 0) (RunsZone-1 zc_single (inl refl))
      refl refl refl

zc_zone_negative_example : zc_zone zc_single (negsuc 1) zc_on (pos 0) idle ≡ fault
zc_zone_negative_example = zc_zone_negative idle zc_single 1 zc_on refl refl

start_next_zone_overrun_example : start_next_zone 4 3 idle ≡ fault
start_next_zone_overrun_example = start_next_zone_overrun idle 3 refl
