-- ===== src/State/Config.antt =====
-- config.h: `struct sprinklerdcfg`, with what the functions read and write of the world: the pins,
-- the clock and the two files that the daemon keeps. A function of the program is a command: it
-- takes the state and ends with a value and the new state, or at an access outside an array.
use sprinkler_d.Prelude.{ℕ, ℤ, pos, negsuc, Bool, true, none, some, List, get_elem?}
use sprinkler_d.Platform.{Platform}
use sprinkler_d.State.Defs.{
  Running, GpioCfg, CalendarDay, RunBeforeCmd, DzCache, EventMask, CronLine,
}

-- A line of the cache file: `%d` or `%li`, `%.1f`.
pub data CacheLine ⦃P : Platform⦄ : Type 0 where
  int_line : ℤ → CacheLine
  real_line : P.Real → CacheLine

module _ ⦃P : Platform⦄ where
  pub record State : Type 0 where
    pub name : List ℕ
    pub dzidx_calendar : ℤ
    pub dzidx_24hdelay : ℤ
    pub dzidx_allzones : ℤ
    pub dzidx_status : ℤ
    pub dzidx_rainsensor : ℤ
    pub zones : ℕ
    pub calendar : Bool
    pub delay24h : Bool
    pub delay24h_time : ℤ
    pub master_valve : Bool
    pub precip_chance_delay : ℤ
    pub precip_inch_delay1day : P.Real
    pub precip_inch_delay2day : P.Real
    pub dz_cache : List DzCache
    pub zonecfg : List GpioCfg
    pub cron : List CalendarDay
    pub cron_update : ℤ
    pub current_zone : Running
    pub run_before_cmd : List RunBeforeCmd
    pub update_event_mask : EventMask
    pub today_rain_chance : ℤ
    pub today_rain_total : P.Real
    -- The pins, and what `time` returns; the clock stands still while a function runs.
    pub board : P.Board
    pub clock : ℤ
    -- The files' lines, and whether `fopen` for writing succeeds.
    pub cache_file : List CacheLine
    pub cache_opens : Bool
    pub cron_file : List CronLine
    pub cron_opens : Bool

  pub data Run (A : Type 0) : Type 0 where
    done : A → State → Run A
    fault : Run A
    out_of_fuel : Run A

  abbrev pub Cmd : Type 0 → Type 0
  Cmd A = State → Run A

  abbrev pub pure : {A : Type 0} → A → Cmd A
  pure = done

  module _ {A B : Type 0} where
    abbrev pub and_then : Run A → (A → Cmd B) → Run B
    and_then (done a s) k = k a s
    and_then fault k = fault
    and_then out_of_fuel k = out_of_fuel

    infixl 5 ◌>>=◌ ◌>>◌
    abbrev pub ◌>>=◌ : Cmd A → (A → Cmd B) → Cmd B
    m >>= k = λ s. and_then (m s) k

    abbrev pub ◌>>◌ : Cmd A → Cmd B → Cmd B
    m >> n = m >>= λ _. n

  -- Reading and changing the state.
  abbrev pub gets : {A : Type 0} → (State → A) → Cmd A
  gets f s = done (f s) s

  abbrev pub modify : (State → State) → Cmd (Unit {0})
  modify f s = done tt (f s)

  -- `zonecfg[zone]`; any index outside the array is a fault.
  unfoldable pub zone_at : ℤ → Cmd GpioCfg
  zone_at (pos n) s = elim (get_elem? s.zonecfg n) [ none ↦ fault | some z ↦ done z s ]
  zone_at (negsuc n) s = fault

  -- The `setEvent` macros.
  abbrev pub set_event_zones : State → State
  set_event_zones s = record s { update_event_mask = record (s.update_event_mask) { zones = true } }

  abbrev pub set_event_status : State → State
  set_event_status s = record s {
    update_event_mask = record (s.update_event_mask) { status = true };
  }
