-- ===== src/Tests/Launch.antt =====
-- The start of the daemon on a configuration of two zones and one input, and the cache file over a restart.
use sprinkler_d.Prelude.{
  ◌-ℤ◌, Bool, ◌&&◌, ℤ, pos, negsuc, ◌≡◌, refl, true, false, [], ◌∷◌, arith, List, if◌then◌else◌,
}
use sprinkler_d.Text.{bytes, same_text}
use sprinkler_d.State.{State, fault, done, Returns}
use sprinkler_d.Cache.{int_of_bool, read_cache, write_cache}
use sprinkler_d.Cache.RoundTrip.{AllKept, IsLegible, saved_lines, restored, read_cache-write_cache}
use sprinkler_d.Cache.Overrun.{read_cache_overrun}
use sprinkler_d.Sound.{Sound}
use sprinkler_d.Startup.Settings.{Ini}
use sprinkler_d.Startup.Inputs.{Input, input_mode}
use sprinkler_d.Startup.Triggers.{IsSpaced, run_triggers, run_triggers-IsSpaced}
use sprinkler_d.Startup.Main.{Launch}
use sprinkler_d.Tests.Plant.{plant, plant_driver, idle, zone_on_pin}
use sprinkler_d.Tests.Network.{host}
use sprinkler_d.Tests.Startup.{two_zones}
use sprinkler_d.Tests.Daemon.{reader}

switch-AllKept : (b : Bool) → AllKept (int_of_bool b ∷ [])
switch-AllKept true = (refl, refl, tt)
switch-AllKept false = (refl, refl, tt)

idle-IsLegible : IsLegible idle
idle-IsLegible = record {
  mark = refl;
  switch = switch-AllKept;
  time = refl;
  chance = (refl, refl, tt);
  day1 = refl;
  day2 = refl;
  runtimes = (refl, refl, (refl, refl, (refl, refl, tt)));
}

-- Restarted, with other run times and the calendar off.
abbrev restarted : State
restarted = record idle {
  calendar = false;
  zonecfg = zone_on_pin 0 4 1 ∷ zone_on_pin 1 17 1 ∷ zone_on_pin 2 27 1 ∷ zone_on_pin 3 22 1 ∷ [];
}

read_cache-write_cache_example :
    Returns
      (λ _ u.
        read_cache (record restarted { cache_file = u.cache_file })
        ≡ done tt (restored idle (record restarted { cache_file = u.cache_file })))
      (write_cache idle)
read_cache-write_cache_example = read_cache-write_cache idle restarted refl refl refl idle-IsLegible

-- The last zone has gone from the configuration.
abbrev fewer_zones : State
fewer_zones = record idle {
  zones = 2;
  zonecfg = zone_on_pin 0 4 1 ∷ zone_on_pin 1 17 1 ∷ zone_on_pin 2 27 1 ∷ [];
  cache_file = saved_lines idle;
}

read_cache_overrun_example : read_cache fewer_zones ≡ fault
read_cache_overrun_example =
    read_cache_overrun idle fewer_zones refl (omega arith) (omega arith) idle-IsLegible

-- A button on pin 5 that is pressed when low.
abbrev button : Input
button = record {
  pin = pos 5;
  input_output = input_mode;
  receive_mode = pos 3;
  set_pull_updown = negsuc 0;
  last_event_state = pos 1;
  on_state = pos 0;
  last_event_time = pos 100;
  name = bytes "button";
  dz_idx = negsuc 0;
  zone = pos 1;
  command_on = bytes "press";
  command_off = [];
}

abbrev presses : List (ℤ × (ℤ → ℤ))
presses =
    (pos 102, λ p. pos 0)
    ∷ (pos 102, λ p. pos 0)
    ∷ (pos 105, λ p. pos 1)
    ∷ (pos 107, λ p. pos 0)
    ∷ []

run_triggers-IsSpaced_example : IsSpaced (bytes "press") [] (pos 100) (run_triggers presses button)
run_triggers-IsSpaced_example = run_triggers-IsSpaced presses button refl

presses_run : run_triggers presses button ≡ (pos 102, bytes "press") ∷ (pos 107, bytes "press") ∷ []
unfolding run_triggers ◌-ℤ◌ bytes
presses_run = refl

-- The two zones, and the button as an input.
abbrev garden_file : Ini
garden_file = record two_zones {
  getl = λ name key default.
      if same_text key (bytes "GPIO_PIN") && same_text name (bytes "INPUT:1")
      then pos 5
      else two_zones.getl name key default;
}

abbrev launch : Launch
launch = record {
  arguments = bytes "-d" ∷ [];
  is_root = true;
  ini = λ file. garden_file;
  unset_input = button;
  cron = reader;
  gpio_ready = true;
  registers = λ i. true;
  host = host;
}

-- What is left behind an earlier run.
abbrev stopped : State
stopped = record idle { cache_file = saved_lines fewer_zones }
