-- ===== src/Startup/Begun.antt =====
-- The daemon starts in a sound state, and stays in sound states.
use sprinkler_d.Prelude.{ℕ, ◌≤◌, ◌≡◌, ◌⊎◌, true, Option, some, [], length}
use sprinkler_d.Platform.{Platform, Driver}
use sprinkler_d.State.{State}
use sprinkler_d.Zones.Pins.{is_none}
use sprinkler_d.Sound.{Sound}
use sprinkler_d.Cache.RoundTrip.{IsLegible, zone_entries, saved_lines}
use sprinkler_d.Cron.Read.{NamesZones}
use sprinkler_d.Mqtt.Defs.{Net}
use sprinkler_d.Mqtt.Lifecycle.{start_mqtt}
use sprinkler_d.Startup.Options.{Options}
use sprinkler_d.Startup.Settings.{Ini}
use sprinkler_d.Startup.Inputs.{AllRegistered, read_inputs}
use sprinkler_d.Startup.Planned.{IsWired, InputsApart, Planned}
use sprinkler_d.Startup.Main.{Launch}

module _ ⦃P : Platform⦄ where
  -- The cache file is empty, or was written for at most `n` zones.
  abbrev pub FitsCache : ℕ → State → Type 0
  FitsCache n s =
      (s.cache_file ≡ [])
      ⊎ ((o : State) × (s.cache_file ≡ saved_lines o)
          × (length (zone_entries o.zonecfg) ≤ n)
          × IsLegible o)

  -- What a start relies on: the configuration wires each zone to a pin of its own, apart from the inputs, at a level
  -- that turns it on; cron lines name zones; and nothing outside the program fails.
  pub record IsLaunched (l : Launch) (ini : Ini) : Type 0 where
    pub wired : IsWired ini
    pub apart : InputsApart ini (read_inputs ini l.unset_input)
    pub named : NamesZones l.cron
    pub gpio : l.gpio_ready ≡ true
    pub registered : AllRegistered l.registers (read_inputs ini l.unset_input)
    pub binds : l.host.binds ≡ true

module _ ⦃P : Platform⦄ ⦃D : Driver⦄ where
  -- Behind the start nothing runs and the connection is at its start.
  abbrev pub IsBegun : Launch → Net → Option Net → State → Type 0
  IsBegun l n o u =
      (o ≡ some (start_mqtt l.host n)) × Sound u × (is_none u.current_zone.type ≡ true)
