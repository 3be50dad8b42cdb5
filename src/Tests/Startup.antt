-- ===== src/Tests/Startup.antt =====
-- A configuration of two zones, and the theorems of the start and the end applied.
use sprinkler_d.Prelude.{suc, pos, ◌≡◌, some, arith, if◌then◌else◌}
use sprinkler_d.Text.{bytes, same_text}
use sprinkler_d.Format.{decimal}
use sprinkler_d.State.{zc_all, State, Returns}
use sprinkler_d.Mqtt.Defs.{Net}
use sprinkler_d.Startup.Settings.{Ini, read_cfg, count_zones, count_sections}
use sprinkler_d.Startup.Bounds.{Configured, read_cfg-Configured}
use sprinkler_d.Startup.Pins.{int_handler}
use sprinkler_d.Startup.Shutdown.{DarkBefore, int_handler-Dark}
use sprinkler_d.Tests.Plant.{plant, plant_driver, idle, zone_on_pin}
use sprinkler_d.Tests.Garden.{watering, watering_board, garden-Wiring, garden_ends_off}
use sprinkler_d.Tests.Network.{net}

-- `ZONE:1` and `ZONE:2` have pins; everything else has its default.
abbrev pub two_zones : Ini
two_zones = record {
  getl = λ name key default.
      if same_text key (bytes "GPIO_PIN")
      then (if same_text name (bytes "ZONE:1")
          then pos 17
          else if same_text name (bytes "ZONE:2")
          then pos 27
          else default)
      else default;
  gets = λ name key default size. default;
  unset_zone = zone_on_pin 0 0 0;
  unset_runtime = pos 0;
}

read_cfg-Configured_example :
    (t : State) × (m : Net) × (read_cfg two_zones idle net ≡ some (t, m)) × Configured t
unfolding count_zones count_sections same_text bytes decimal
read_cfg-Configured_example = read_cfg-Configured two_zones idle net (omega arith)

int_handler-Dark_example :
    Returns (λ _ u. DarkBefore u u.board (suc u.zones)) (int_handler (watering zc_all))
int_handler-Dark_example =
    int_handler-Dark (watering zc_all) (garden-Wiring watering_board)
      (λ i z wired at. garden_ends_off i z wired.0 at)
