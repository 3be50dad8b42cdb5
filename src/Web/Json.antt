-- ===== src/Web/Json.antt =====
-- json_messages.c: the JSON texts that answer the web requests, as bytes.
use sprinkler_d.Prelude.{
  ℕ, zero, suc, ◌-◌, ℤ, pos, negsuc, ◌*ℤ◌, ltb_ℤ, leb_ℤ, ltb, Bool, not, ◌&&◌, ◌||◌, Option, none,
  some, List, [], ◌∷◌, ◌++◌, get_elem?, length, if◌then◌else◌,
}
use sprinkler_d.Platform.{Platform}
use sprinkler_d.Text.{Text, bytes}
use sprinkler_d.Format.{decimal, two_digits, quot, rem}
use sprinkler_d.State.{GpioCfg, CalendarDay, State, Cmd, fault, pure, gets, ◌>>=◌, zone_at}
use sprinkler_d.Zones.Pins.{pin_is_on, is_all, is_none}
use sprinkler_d.Web.Defs.{day_at}
use sprinkler_d.Mqtt.Broadcast.{first_zone}

-- `length -= 1`
abbrev pub drop_last : Text → Text
drop_last [] = []
drop_last (c ∷ []) = []
drop_last (c ∷ d ∷ s) = c ∷ drop_last (d ∷ s)

abbrev pub on_off : Bool → Text
on_off b = if b then bytes "on" else bytes "off"

module _ ⦃P : Platform⦄ where
  abbrev pub today_status : State → Text
  today_status s =
      bytes "Today:- Chance of rain: "
      ++ decimal s.today_rain_chance
      ++ bytes "%,  Rain total: "
      ++ P.real_text 2 s.today_rain_total
      ++ bytes "\\\""

  -- The text in `status[50]`; a longer one is written behind the buffer.
  unfoldable pub status_text : State → Text
  status_text s =
      if not (is_none s.current_zone.type)
      then bytes "Active: Zone "
        ++ decimal s.current_zone.zone
        ++ bytes " : time left "
        ++ two_digits (quot s.current_zone.timeleft 60)
        ++ bytes ":"
        ++ two_digits (rem s.current_zone.timeleft 60)
      else if ltb_ℤ (pos 0) s.today_rain_chance
          || P.real_ltb (P.real_of_int (pos 0)) s.today_rain_total
      then today_status s
      else []

  unfoldable pub status_buffer : Cmd Text
  unfolding status_text
  status_buffer = do text ← gets status_text; if ltb (length text) 50 then pure text else λ s. fault

  -- The values that both long texts start with, before and behind the status.
  abbrev pub switch_values : State → Text
  switch_values s =
      bytes "{ \"title\" : \""
      ++ s.name
      ++ bytes "\",\"calendar\" : \""
      ++ on_off s.calendar
      ++ bytes "\", \"24hdelay\" : \""
      ++ on_off s.delay24h
      ++ bytes "\", \"allz\" : \""
      ++ on_off (is_all s.current_zone.type)
      ++ bytes "\", \"zones\" : \""
      ++ decimal (pos s.zones)
      ++ bytes "\", \"24hdelay-offtime\" : "
      ++ decimal s.delay24h_time

  abbrev pub rain_values : State → Text
  rain_values s =
      bytes ", \"raindelaychance\" : \""
      ++ decimal s.precip_chance_delay
      ++ bytes "\", \"raindelaytotal1\" : \""
      ++ P.real_text 1 s.precip_inch_delay1day
      ++ bytes "\", \"raindelaytotal2\" : \""
      ++ P.real_text 1 s.precip_inch_delay2day
      ++ bytes "\", \"todaychanceofrain\" : \""
      ++ decimal s.today_rain_chance
      ++ bytes "\", \"todayraintotal\" : \""
      ++ P.real_text 2 s.today_rain_total
      ++ bytes "\""

  -- The texts of `rounds` zones from `i` on.
  unfoldable pub zones_text : (State → GpioCfg → Text) → ℕ → ℕ → Cmd Text
  zones_text f zero i = pure []
  zones_text f (suc rounds) i = do
    z ← zone_at (pos i)
    s ← gets (λ s. s)
    rest ← zones_text f rounds (suc i)
    pure (f s z ++ rest)

  abbrev pub zone_state : State → GpioCfg → Text
  zone_state s z =
      bytes ", \"z"
      ++ decimal z.zone
      ++ bytes "\" : \""
      ++ on_off (pin_is_on z s.board)
      ++ bytes "\" "

  unfoldable pub build_sprinkler : Cmd Text
  unfolding status_buffer zones_text
  build_sprinkler = do
    status ← status_buffer
    s ← gets (λ s. s)
    zones ← zones_text zone_state s.zones 1
    pure (
        switch_values s
        ++ bytes ", \"status\" : \""
        ++ status
        ++ bytes "\""
        ++ rain_values s
        ++ zones
        ++ bytes "}")

  abbrev pub zone_runtime : State → GpioCfg → Text
  zone_runtime s z =
      bytes ", \"z"
      ++ decimal z.zone
      ++ bytes "-runtime\" : "
      ++ decimal z.default_runtime
      ++ bytes ", \"z"
      ++ decimal z.zone
      ++ bytes "-name\" : \""
      ++ z.name
      ++ bytes "\" "

  -- The text of a run time that is not negative, in front of the rest.
  abbrev pub runtime_text : (ℤ → Text) → Option ℤ → Cmd Text → Cmd Text
  runtime_text f none rest = λ s. fault
  runtime_text f (some r) rest = do
    text ← rest
    pure (if leb_ℤ (pos 0) r then f r ++ text else text)

  -- The run times of `rounds` zones of a day from index `i` on.
  unfoldable pub runtimes_text : (ℕ → ℤ → Text) → List ℤ → ℕ → ℕ → Cmd Text
  runtimes_text f runtimes zero i = pure []
  runtimes_text f runtimes (suc rounds) i =
      runtime_text (f i) (get_elem? runtimes i) (runtimes_text f runtimes rounds (suc i))

  -- `hour >= 0 && minute >= 0`
  abbrev pub has_start : CalendarDay → Bool
  has_start d = leb_ℤ (pos 0) d.hour && leb_ℤ (pos 0) d.minute

  abbrev start_time_of : CalendarDay → Text
  start_time_of d = two_digits d.hour ++ bytes ":" ++ two_digits d.minute

  -- The texts of `rounds` days from `day` on that have a start.
  unfoldable pub days_text : (ℕ → CalendarDay → Cmd Text) → ℕ → ℕ → Cmd Text
  unfolding day_at
  days_text f zero day = pure []
  days_text f (suc rounds) day = do
    d ← day_at day
    text ← if has_start d then f day d else pure []
    rest ← days_text f rounds (suc day)
    pure (text ++ rest)

  abbrev pub cal_runtime : ℕ → ℕ → ℤ → Text
  cal_runtime day zone r =
      bytes ", \"d"
      ++ decimal (pos day)
      ++ bytes "z"
      ++ decimal (pos (suc zone))
      ++ bytes "-runtime\" : "
      ++ decimal r

  unfoldable pub cal_day : ℕ → CalendarDay → Cmd Text
  unfolding runtimes_text
  cal_day day d = do
    zones ← gets (λ s. s.zones)
    runtimes ← runtimes_text (cal_runtime day) d.zruntimes zones 0
    pure (
        bytes ", \"d"
        ++ decimal (pos day)
        ++ bytes "-starttime\" : \""
        ++ start_time_of d
        ++ bytes "\" "
        ++ runtimes)

  unfoldable pub build_sprinkler_cal : Cmd Text
  unfolding build_sprinkler zones_text days_text cal_day
  build_sprinkler_cal = do
    start ← build_sprinkler
    n ← gets (λ s. s.zones)
    zones ← zones_text zone_runtime n 1
    days ← days_text cal_day 7 0
    pure (drop_last start ++ zones ++ days ++ bytes "}")

  abbrev pub zone_object : State → GpioCfg → Text
  zone_object s z =
      bytes "\"zone "
      ++ decimal z.zone
      ++ bytes "\": {\"number\": "
      ++ decimal z.zone
      ++ bytes ", \"name\": \""
      ++ z.name
      ++ bytes "\", \"state\": \""
      ++ on_off (pin_is_on z s.board)
      ++ bytes "\", \"runtime\": "
      ++ decimal z.default_runtime
      ++ bytes " },"

  -- The running zone, by its number and name.
  unfoldable pub active_text : Cmd Text
  active_text = do
    s ← gets (λ s. s)
    if is_none s.current_zone.type then pure [] else (do
      z ← zone_at s.current_zone.zone
      pure (
          bytes "\"active\": {\"zone\": "
          ++ decimal s.current_zone.zone
          ++ bytes ", \"name\": \""
          ++ z.name
          ++ bytes "\"},"))

  abbrev pub advanced_runtime : ℕ → ℤ → Text
  advanced_runtime zone r =
      bytes "\"Zone " ++ decimal (pos (suc zone)) ++ bytes "\" : " ++ decimal r ++ bytes ","

  -- A day of the advanced text, whose loop starts with zone 2; the last byte is written over.
  unfoldable pub advanced_day : ℕ → CalendarDay → Cmd Text
  unfolding runtimes_text
  advanced_day day d = do
    zones ← gets (λ s. s.zones)
    runtimes ← runtimes_text advanced_runtime d.zruntimes (zones - 1) 1
    pure (
        drop_last (
          bytes "\"day "
          ++ decimal (pos day)
          ++ bytes "\" : { \"start time\" : \""
          ++ start_time_of d
          ++ bytes "\", "
          ++ runtimes)
        ++ bytes "},")

  unfoldable pub build_advanced_sprinkler : Cmd Text
  unfolding zones_text days_text advanced_day active_text
  build_advanced_sprinkler = do
    s ← gets (λ s. s)
    zones ← zones_text zone_object s.zones 1
    active ← active_text
    days ← days_text advanced_day 7 0
    pure (
        drop_last (switch_values s ++ rain_values s ++ bytes ", \"zones\": {" ++ zones ++ active)
        ++ bytes "}, \"calendar\": {"
        ++ drop_last days
        ++ bytes "}}")

  abbrev pub device_object : State → GpioCfg → Text
  device_object s z =
      bytes "{\"type\" : \"zone\", \"zone\": "
      ++ decimal z.zone
      ++ bytes ", \"name\": \""
      ++ z.name
      ++ bytes "\", \"state\": \""
      ++ on_off (pin_is_on z s.board)
      ++ bytes "\", \"duration\": "
      ++ decimal (z.default_runtime *ℤ pos 60)
      ++ bytes ", \"id\" : \"zone"
      ++ decimal z.zone
      ++ bytes "\" },"

  -- A device that is not a zone: its type, number, name, state and id.
  abbrev pub other_device : Text → ℤ → Text → Bool → Text → Text
  other_device type zone name on id =
      bytes "{\"type\" : \""
      ++ type
      ++ bytes "\", \"zone\": "
      ++ decimal zone
      ++ bytes ", \"name\": \""
      ++ name
      ++ bytes "\", \"state\": \""
      ++ on_off on
      ++ bytes "\", \"duration\": 0, \"id\" : \""
      ++ id
      ++ bytes "\" }"

  unfoldable pub build_homebridge_sprinkler : Cmd Text
  unfolding zones_text
  build_homebridge_sprinkler = do
    s ← gets (λ s. s)
    zones ← zones_text device_object (suc s.zones - first_zone s) (first_zone s)
    pure (
        bytes "{ \"title\" : \""
        ++ s.name
        ++ bytes "\",  \"devices\": ["
        ++ zones
        ++ other_device (bytes "zone") (pos (suc s.zones)) (bytes "Cycle all zones")
            (is_all s.current_zone.type) (bytes "cycleallzones")
        ++ bytes ","
        ++ other_device (bytes "switch") (negsuc 0) (bytes "24h Rain Delay") s.delay24h
            (bytes "24hdelay")
        ++ bytes ","
        ++ other_device (bytes "switch") (negsuc 0) (bytes "Run on calendar schedule") s.calendar
            (bytes "calendar")
        ++ bytes "]}")
