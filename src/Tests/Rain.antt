-- ===== src/Tests/Rain.antt =====
-- The theorems of the rain delay at concrete states.
use sprinkler_d.Prelude.{ℤ, pos, ◌+ℤ◌, ◌≡◌, refl, true, arith}
use sprinkler_d.State.{State, zc_cron, Saves, Returns}
use sprinkler_d.Rain.Defs.{
  delay24h_sec, begin_delay, enable_delay24h, reset_delay24h_time, set_today_chance_of_rain,
}
use sprinkler_d.Rain.Delay.{Quiet, EndsAt, enable_delay24h_on, reset_delay24h_time_lem}
use sprinkler_d.Rain.Sensors.{Answers, IsSafe, set_today_chance_of_rain_valid}
use sprinkler_d.Tests.Plant.{plant, plant_driver, idle}
use sprinkler_d.Tests.Garden.{watering, cron_Safe}

-- The delay is on, and its time was a minute ago.
abbrev delayed : State
delayed = record idle { delay24h = true; delay24h_time = pos 940 }

enable_delay24h_on_example :
    Saves
      (begin_delay (pos 1000 +ℤ delay24h_sec) (watering zc_cron))
      (λ _ c b. Quiet (watering zc_cron) c b)
      (enable_delay24h true (watering zc_cron))
enable_delay24h_on_example = enable_delay24h_on (watering zc_cron) cron_Safe refl

reset_delay24h_time_lem_example :
    (until : ℤ) × EndsAt (pos 1000) (pos 5000) until
    × Saves
        (begin_delay until (watering zc_cron))
        (λ _ c b. Quiet (watering zc_cron) c b)
        (reset_delay24h_time (pos 5000) (watering zc_cron))
reset_delay24h_time_lem_example =
    reset_delay24h_time_lem (watering zc_cron) (pos 5000) cron_Safe (ground arith)

set_today_chance_of_rain_valid_example :
    Returns
      (λ r u.
        (r ≡ true)
        × Answers (watering zc_cron).precip_chance_delay (pos 80) (pos 1000 +ℤ pos 86400) u
        × IsSafe u
        × (u.today_rain_chance ≡ pos 80))
      (set_today_chance_of_rain (pos 80) (watering zc_cron))
set_today_chance_of_rain_valid_example =
    set_today_chance_of_rain_valid (watering zc_cron) (pos 80) cron_Safe (ground arith) refl
