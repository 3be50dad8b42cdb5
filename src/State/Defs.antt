-- ===== src/State/Defs.antt =====
-- config.h and zone_ctrl.h: the parts of the daemon's state, and the lines of the cron file.
use sprinkler_d.Prelude.{ℕ, ℤ, pos, Bool, false, ◌||◌, List, Option}

abbrev pub sec2min : ℤ
sec2min = pos 60

pub data RunType : Type 0 where
  zc_none zc_single zc_all zc_cron : RunType

pub data ZoneState : Type 0 where
  zc_on zc_off : ZoneState

-- `struct szRunning`
pub record Running : Type 0 where
  pub type : RunType
  pub started_time : ℤ
  pub duration : ℤ
  pub timeleft : ℤ
  pub zone : ℤ

-- `struct GPIOcfg`, without the fields that only an input has.
pub record GpioCfg : Type 0 where
  pub pin : ℤ
  pub input_output : ℤ
  pub set_pull_updown : ℤ
  pub on_state : ℤ
  pub name : List ℕ
  pub startup_state : ℤ
  pub shutdown_state : ℤ
  pub dz_idx : ℤ
  pub zone : ℤ
  pub default_runtime : ℤ

-- `struct CALENDARday`; `zruntimes` has one entry for each zone, zone 1 first.
pub record CalendarDay : Type 0 where
  pub hour : ℤ
  pub minute : ℤ
  pub zruntimes : List ℤ

-- `struct RunB4CalStart`
pub record RunBeforeCmd : Type 0 where
  pub mins : ℤ
  pub command : List ℕ

-- `struct DZcache`
pub record DzCache : Type 0 where
  pub idx : ℤ
  pub status : ℤ

-- `updateEventMask`: one flag for each `UPDATE_` bit.
pub record EventMask : Type 0 where
  pub rain_total : Bool
  pub rain_probability : Bool
  pub zones : Bool
  pub status : Bool

-- `updateEventMask != 0`
unfoldable pub any_event : EventMask → Bool
any_event m = m.rain_total || m.rain_probability || m.zones || m.status

abbrev pub no_event : EventMask
no_event = record { rain_total = false; rain_probability = false; zones = false; status = false }

-- What a line of the cron file runs; the first three are requests to the daemon itself.
pub data CronJob : Type 0 where
  -- `?type=cron&zone=Z&runtime=R&state=on`
  run_zone : (zone runtime : ℤ) → CronJob
  -- `?type=sensor&sensor=...&value=0`
  clear_chance_of_rain clear_rain_total : CronJob
  run_command : List ℕ → CronJob

-- Minute, hour and day of the week, none for every day.
pub record CronLine : Type 0 where
  pub minute : ℤ
  pub hour : ℤ
  pub day : Option ℕ
  pub job : CronJob
