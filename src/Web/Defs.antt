-- ===== src/Web/Defs.antt =====
-- `serve_web_request`, a function for each type of request.
use sprinkler_d.Prelude.{
  ℕ, zero, suc, ◌-◌, ℤ, pos, negsuc, ltb_ℤ, leb_ℤ, ltb, Bool, true, false, ◌&&◌, ◌||◌, Option, none,
  some, [], ◌∷◌, get_elem?, set, length, if◌then◌else◌,
}
use sprinkler_d.Platform.{Platform}
use sprinkler_d.Text.{Text, bytes, same_upto, same_upto_case, atoi, str2int}
use sprinkler_d.State.{
  RunType, zc_all, ZoneState, zc_on, zc_off, CalendarDay, State, Cmd, fault, done, pure, gets,
  modify, ◌>>=◌, ◌>>◌, set_event_zones, set_event_status,
}
use sprinkler_d.Zones.Cycle.{array_index}
use sprinkler_d.Zones.Pins.{zc_state}
use sprinkler_d.Zones.Requests.{zc_zone}
use sprinkler_d.Rain.Defs.{
  enable_calendar, enable_delay24h, reset_delay24h_time, set_today_chance_of_rain,
  set_today_rain_total,
}

-- `is_value_ON`; none is its -1.
unfoldable pub is_value_on : Text → Option Bool
is_value_on buf =
    if same_upto_case 3 buf (bytes "on") || same_upto 1 buf (bytes "1")
    then some true
    else if same_upto_case 3 buf (bytes "off") || same_upto 1 buf (bytes "0")
    then some false
    else none

unfoldable pub is_value_flip : Text → Bool
is_value_flip buf = same_upto_case 4 buf (bytes "flip") || same_upto_case 6 buf (bytes "toggle")

-- -1 is true.
abbrev pub bool_of_value : Option Bool → Bool
bool_of_value none = true
bool_of_value (some b) = b

-- The variables of a query, empty where they are not given, and what the buffer holds from its third
-- byte on, where the time of a calendar request is shorter.
pub record Query : Type 0 where
  pub get_var : Text → Text
  pub stale : Text

-- The kinds of answers: the state as JSON, built behind the change or, `built`, before it ends, or an error.
pub data Reply : Type 0 where
  no_reply sprinkler_json calendar_json advanced_json homebridge_json : Reply
  unknown_request unknown_option : Reply
  unknown_zone : ℤ → Reply
  unknown_state : ℤ → Text → Reply
  bad_runtime : (zone runtime : ℤ) → Reply
  built : Text → Reply

abbrev pub state_of : Bool → ZoneState
state_of true = zc_on
state_of false = zc_off

-- `!state`
abbrev pub flipped : ZoneState → ZoneState
flipped zc_on = zc_off
flipped zc_off = zc_on

abbrev pub drop_bytes : ℕ → Text → Option Text
drop_bytes zero s = some s
drop_bytes (suc n) [] = none
drop_bytes (suc n) (c ∷ s) = drop_bytes n s

abbrev pub or_else : Text → Option Text → Text
or_else d none = d
or_else d (some s) = s

module _ ⦃P : Platform⦄ where
  -- `option=24hdelay`
  unfoldable pub set_delay : Option Bool → Text → ℤ → Cmd (Unit {0})
  set_delay (some b) state time = enable_delay24h b
  set_delay none state time =
      if same_upto_case 5 state (bytes "reset") then reset_delay24h_time time else pure tt

  -- `type=option`, before the event that ends it.
  unfoldable pub set_option : Query → Cmd Reply
  unfolding is_value_on set_delay
  set_option q =
      let option = q.get_var (bytes "option") in
      let state = q.get_var (bytes "state") in
      let value = is_value_on state in
      let time = q.get_var (bytes "time") in
      if same_upto_case 6 option (bytes "calendar")
      then (do modify (enable_calendar (bool_of_value value)); pure sprinkler_json)
      else if same_upto_case 8 option (bytes "24hdelay")
      then (do set_delay value state (atoi time); pure sprinkler_json)
      else if same_upto_case 4 option (bytes "allz")
      then (do zc_zone zc_all (pos 0) (state_of (bool_of_value value)) (pos 0); pure sprinkler_json)
      else pure unknown_option

  unfoldable pub serve_option : Query → Cmd Reply
  unfolding set_option
  serve_option q = do reply ← set_option q; modify set_event_status; pure reply

  abbrev pub set_chance_limit : ℤ → State → State
  set_chance_limit n s = record s { precip_chance_delay = n }

  abbrev pub set_day1_limit : P.Real → State → State
  set_day1_limit x s = record s { precip_inch_delay1day = x }

  abbrev pub set_day2_limit : P.Real → State → State
  set_day2_limit x s = record s { precip_inch_delay2day = x }

  -- `type=config`
  unfoldable pub set_config : Query → Cmd (Unit {0})
  set_config q =
      let option = q.get_var (bytes "option") in
      let value = q.get_var (bytes "value") in
      if same_upto_case 15 option (bytes "raindelaychance")
      then modify (set_chance_limit (atoi value))
      else if same_upto_case 15 option (bytes "raindelaytotal1")
      then modify (set_day1_limit (P.real_of_text value))
      else if same_upto_case 15 option (bytes "raindelaytotal2")
      then modify (set_day2_limit (P.real_of_text value))
      else pure tt

  -- `type=sensor`
  unfoldable pub serve_sensor : Query → Cmd Reply
  serve_sensor q =
      let sensor = q.get_var (bytes "sensor") in
      let value = q.get_var (bytes "value") in
      if same_upto_case 13 sensor (bytes "chanceofrain")
      then (do set_today_chance_of_rain (atoi value); pure sprinkler_json)
      else if same_upto_case 9 sensor (bytes "raintotal")
      then (do set_today_rain_total (P.real_of_text value); pure sprinkler_json)
      else pure sprinkler_json

  -- The request for a zone, by what the state's text says: on, off, flip or neither.
  unfoldable pub switch_zone : RunType → ℤ → ℤ → Option Bool → Bool → Cmd (Option Reply)
  switch_zone type zone runtime (some true) flip = do
    zc_zone type zone zc_on runtime
    pure (some sprinkler_json)
  switch_zone type zone runtime (some false) flip = do
    zc_zone type zone zc_off runtime
    pure (some sprinkler_json)
  switch_zone type zone runtime none true = do
    state ← zc_state zone
    zc_zone type zone (flipped state) runtime
    pure (some no_reply)
  switch_zone type zone runtime none false = pure none

  unfoldable pub zone_answer : ℤ → Text → Option Reply → Cmd Reply
  zone_answer zone state (some reply) = pure reply
  zone_answer zone state none = do modify set_event_zones; pure (unknown_state zone state)

  -- `type=zone` and `type=cron`
  unfoldable pub serve_zone : RunType → Query → Cmd Reply
  unfolding switch_zone zone_answer
  serve_zone type q =
      let zone = atoi (q.get_var (bytes "zone")) in
      let runtime = atoi (q.get_var (bytes "runtime")) in
      let state = q.get_var (bytes "state") in
      do
        n ← gets (λ s. s.zones)
        if leb_ℤ zone (pos n)
            then (do
              answer ← switch_zone type zone runtime (is_value_on state) (is_value_flip state)
              zone_answer zone state answer)
            else (do modify set_event_zones; pure (unknown_zone zone))

  -- `cron[day]`
  unfoldable pub day_at : ℕ → Cmd CalendarDay
  day_at day s = elim (get_elem? s.cron day) [ none ↦ fault | some d ↦ done d s ]

  abbrev pub set_day : ℕ → CalendarDay → State → State
  set_day day d s = record s { cron = set s.cron day d }

  -- `cron[day].zruntimes[zone-1] = runtime`
  unfoldable pub set_zone_runtime : ℕ → ℤ → ℤ → Cmd (Unit {0})
  unfolding day_at
  set_zone_runtime day zone runtime = do
    d ← day_at day
    k ← array_index zone
    if ltb (k - 1) (length d.zruntimes)
        then modify (set_day day (record d { zruntimes = set d.zruntimes (k - 1) runtime }))
        else λ s. fault

  -- `type=calcfg`; the test `time > 0` there is of the function `time` and always holds.
  unfoldable pub change_calendar : ℤ → ℤ → Text → Text → Cmd (Unit {0})
  unfolding set_zone_runtime
  change_calendar day zone time stale =
      if leb_ℤ (pos 0) day && leb_ℤ day (pos 6)
      then (do
        k ← array_index day
        n ← gets (λ s. s.zones)
        if ltb_ℤ (pos 0) zone
            then (if leb_ℤ zone (pos n) then set_zone_runtime k zone (atoi time) else pure tt)
            else (do
              d ← day_at k
              if ltb 0 (length time)
                  then modify (
                      set_day k (record d {
                        hour = str2int time 2;
                        minute = str2int (or_else stale (drop_bytes 3 time)) 2;
                      }))
                  else modify (set_day k (record d { hour = negsuc 0; minute = negsuc 0 }))))
      else pure tt

  unfoldable pub serve_calendar : Query → Cmd Reply
  unfolding change_calendar
  serve_calendar q = do
    change_calendar (atoi (q.get_var (bytes "day"))) (atoi (q.get_var (bytes "zone")))
        (q.get_var (bytes "time")) q.stale
    modify (λ s. record s { cron_update = s.clock })
    pure calendar_json
