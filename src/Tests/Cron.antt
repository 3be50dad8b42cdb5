-- ===== src/Tests/Cron.antt =====
-- The lines of an evening that reaches midnight, and the end of requests to the zone control.
use sprinkler_d.Prelude.{ℤ, pos, ◌≡◌, ◌≢◌, refl, some, [], ◌∷◌, List, ◌++◌, map, arith}
use sprinkler_d.Text.{bytes}
use sprinkler_d.State.{CalendarDay, RunBeforeCmd, RunType, ZoneState, out_of_fuel}
use sprinkler_d.Cron.Defs.{zone_line, command_line, day_lines}
use sprinkler_d.Cron.Plan.{plan, day_lines-plan}
use sprinkler_d.Zones.Cycle.{zc_check}
use sprinkler_d.Zones.Requests.{zc_zone, zc_rain_delay_enabled}
use sprinkler_d.Zones.Ending.{zc_zone_ends}
use sprinkler_d.Tests.Plant.{plant, idle}

abbrev evening : CalendarDay
evening = record {
  hour = pos 23;
  minute = pos 30;
  zruntimes = pos 20 ∷ pos 0 ∷ pos 15 ∷ pos 5 ∷ [];
}

abbrev notice : List RunBeforeCmd
notice = record { mins = pos 10; command = bytes "notice" } ∷ []

day_lines-plan_example :
    day_lines 4 notice 2 evening
    ≡ some (plan 2 0 evening.zruntimes 1410 ++ map (command_line 2 evening) notice)
day_lines-plan_example =
    day_lines-plan 4 notice 2 23 30 evening refl refl refl (omega arith) (omega arith)

-- The last zone is left out: the third ends behind midnight.
evening_plan :
    plan 2 0 evening.zruntimes 1410
    ≡ zone_line 2 0 (pos 20) (pos 30) (pos 23) ∷ zone_line 2 2 (pos 15) (pos 50) (pos 23) ∷ []
evening_plan = refl

zc_zone_ends_example :
    ((type : RunType) (zone : ℤ) (state : ZoneState) (length : ℤ)
      → zc_zone type zone state length idle ≢ out_of_fuel)
    × (zc_check idle ≢ out_of_fuel)
    × (zc_rain_delay_enabled idle ≢ out_of_fuel)
zc_zone_ends_example = zc_zone_ends idle refl
