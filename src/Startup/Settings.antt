-- ===== src/Startup/Settings.antt =====
-- config.c: `readCfg`. minIni's two functions are parameters, as what they read of the file.
use sprinkler_d.Prelude.{
  ℕ, zero, suc, ◌+◌, ℤ, pos, negsuc, eqb_ℤ, Bool, not, ◌&&◌, Option, none, some, List, [], ◌∷◌,
  ◌++◌, length, if◌then◌else◌, ltb, ◌==◌,
}
use sprinkler_d.Platform.{Platform, valid_gpio}
use sprinkler_d.Text.{Text, bytes}
use sprinkler_d.Format.{decimal}
use sprinkler_d.State.{GpioCfg, CalendarDay, RunBeforeCmd, DzCache, State}
use sprinkler_d.Zones.Pins.{lnot}
use sprinkler_d.Domoticz.Defs.{non_zone_dzids}
use sprinkler_d.Mqtt.Defs.{Net}

-- `ini_getl` of a section, a key and a default, and `ini_gets` of a section, a key, a default and the
-- size of the buffer; a default that is NULL is the empty text. `unset_zone` and `unset_runtime` are what `malloc` leaves in the arrays.
pub record Ini : Type 0 where
  pub getl : Text → Text → ℤ → ℤ
  pub gets : Text → Text → Text → ℕ → Text
  pub unset_zone : GpioCfg
  pub unset_runtime : ℤ

-- `sprintf(str, "ZONE:%d", i)`
abbrev pub section : Text → ℕ → Text
section name i = name ++ b':' ∷ decimal (pos i)

-- How many of the next `rounds` sections from `i` on follow each other with the key, behind `n`.
unfoldable pub count_sections : Ini → Text → Text → ℕ → ℕ → ℕ → ℕ
count_sections ini name key zero i n = n
count_sections ini name key (suc rounds) i n =
    let more = count_sections ini name key rounds (suc i) i in
    if eqb_ℤ (ini.getl (section name i) key (negsuc 0)) (negsuc 0) then n else more

-- `PIN_CFG_NAME`
abbrev pub pin_key : Text
pin_key = bytes "GPIO_PIN"

abbrev pub zone_pin : Ini → ℕ → ℤ
zone_pin ini i = ini.getl (section (bytes "ZONE") i) pin_key (negsuc 0)

unfoldable pub count_zones : Ini → ℕ
unfolding count_sections
count_zones ini = count_sections ini (bytes "ZONE") pin_key 24 1 0

-- The section of a zone that is there; a pin that is not valid is kept, under the name ERROR.
unfoldable pub read_zone : Ini → ℕ → GpioCfg
read_zone ini i =
    let name = section (bytes "ZONE") i in
    let on = ini.getl name (bytes "GPIO_ON_STATE") (pos 0) in
    record {
      pin = zone_pin ini i;
      input_output = pos 1;
      set_pull_updown = ini.getl name (bytes "GPIO_PULL_UPDN") (negsuc 0);
      on_state = on;
      name =
          if valid_gpio (zone_pin ini i) then ini.gets name (bytes "NAME") [] 40 else bytes "ERROR";
      startup_state = lnot on;
      shutdown_state = lnot on;
      dz_idx = ini.getl name (bytes "DOMOTICZ_IDX") (negsuc 0);
      zone = pos i;
      default_runtime = ini.getl name (bytes "DEFAULT_RUNTIME") (pos 10);
    }

abbrev pub repeat {ℓ} : {A : Type ℓ} → ℕ → A → List A
repeat zero a = []
repeat (suc n) a = a ∷ repeat n a

abbrev pub has_section : Ini → ℕ → Bool
has_section ini i = not (eqb_ℤ (zone_pin ini i) (negsuc 0))

-- The loop over the zones, `rounds` of them from `i` on. Zone 0 may be missing; behind another that is
-- missing the array stays as it was allocated.
unfoldable pub read_zones : Ini → ℕ → ℕ → List GpioCfg
unfolding read_zone
read_zones ini zero i = []
read_zones ini (suc rounds) i =
    let rest = read_zones ini rounds (suc i) in
    if has_section ini i
    then read_zone ini i ∷ rest
    else if i == 0
    then ini.unset_zone ∷ rest
    else ini.unset_zone ∷ repeat rounds ini.unset_zone

unfoldable pub read_command : Ini → ℕ → RunBeforeCmd
read_command ini i = record {
  mins = ini.getl (section (bytes "EXTERNAL") i) (bytes "RUNB4STARTTIME") (negsuc 0);
  command = ini.gets (section (bytes "EXTERNAL") i) (bytes "COMMAND") [] 256;
}

-- The loop over the commands that run before a start, `rounds` of them from `i` on.
unfoldable pub read_commands : Ini → ℕ → ℕ → List RunBeforeCmd
unfolding read_command
read_commands ini zero i = []
read_commands ini (suc rounds) i = read_command ini i ∷ read_commands ini rounds (suc i)

unfoldable pub count_commands : Ini → ℕ
unfolding count_sections
count_commands ini = count_sections ini (bytes "EXTERNAL") (bytes "RUNB4STARTTIME") 10 1 0

abbrev pub daemon_section : Text
daemon_section = bytes "SPRINKLERD"

-- `ini_gets(...) > 0`
abbrev pub is_given : Text → Bool
is_given t = ltb 0 (length t)

-- An entry of `calloc`.
abbrev pub free_dz : DzCache
free_dz = record { idx = pos 0; status = pos 0 }

-- A day whose run times are allocated.
abbrev pub unset_day : Ini → ℕ → CalendarDay
unset_day ini zones = record {
  hour = pos 0;
  minute = pos 0;
  zruntimes = repeat zones ini.unset_runtime;
}

module _ ⦃P : Platform⦄ where
  -- The part of MQTT.
  unfoldable pub read_mqtt : Ini → Net → Net
  read_mqtt ini n =
      let topic = ini.gets daemon_section (bytes "MQT_TOPIC") [] 50 in
      let pub_topic = ini.gets daemon_section (bytes "MQTT_DZ_PUB_TOPIC") [] 128 in
      let sub_topic = ini.gets daemon_section (bytes "MQTT_DZ_SUB_TOPIC") [] 128 in
      let ha_topic = ini.gets daemon_section (bytes "MQTT_HA_DIS_TOPIC") [] 128 in
      record n {
        mqtt_topic = topic;
        enable_mqtt_aq = is_given topic;
        mqtt_dz_pub_topic = pub_topic;
        mqtt_dz_sub_topic = if is_given pub_topic then sub_topic else n.mqtt_dz_sub_topic;
        enable_mqtt_dz = is_given pub_topic && is_given sub_topic;
        mqtt_ha_dis_topic = ha_topic;
        enable_mqtt_ha = is_given ha_topic;
      }

  abbrev pub read_index : Ini → Text → ℤ
  read_index ini key = ini.getl daemon_section key (pos 0)

  -- The zones, the calendar's arrays and the commands, for the number of zones that is there.
  abbrev pub read_tables : Ini → ℕ → State → State
  read_tables ini zones s = record s {
    name = ini.gets daemon_section (bytes "NAME") (bytes "None") 20;
    dzidx_calendar = read_index ini (bytes "DZIDX_CALENDAR");
    dzidx_24hdelay = read_index ini (bytes "DZIDX_24HDELAY");
    dzidx_allzones = read_index ini (bytes "DZIDX_ALL_ZONES");
    dzidx_status = read_index ini (bytes "DZIDX_STATUS");
    dzidx_rainsensor = read_index ini (bytes "DZIDX_RAINSENSOR");
    zones = zones;
    master_valve = has_section ini 0;
    dz_cache = repeat (zones + non_zone_dzids + 1) free_dz;
    zonecfg = read_zones ini (suc zones) 0;
    cron = repeat 7 (unset_day ini zones);
    run_before_cmd = read_commands ini (count_commands ini) 1;
  }

  -- The configuration of the daemon, in the state that the program starts with; none is the exit where there is no
  -- zone.
  unfoldable pub read_cfg : Ini → State → Net → Option (State × Net)
  unfolding count_zones read_zones count_commands read_commands read_mqtt
  read_cfg ini s n =
      let zones = count_zones ini in
      if zones == 0 then none else some (read_tables ini zones s, read_mqtt ini n)
