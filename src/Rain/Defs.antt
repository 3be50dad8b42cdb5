-- ===== src/Rain/Defs.antt =====
-- sd_cron.c: the calendar switch, the 24h rain delay and the rain sensors. `time` reads the clock, and
-- an `unsigned long` time is the `long` that it is converted to.
use sprinkler_d.Prelude.{
  ℤ, pos, negsuc, ltb, ◌+ℤ◌, ◌*ℤ◌, ltb_ℤ, leb_ℤ, Bool, true, false, not, ◌&&◌, if◌then◌else◌,
}
use sprinkler_d.Platform.{Platform}
use sprinkler_d.State.{State, Cmd, pure, gets, modify, ◌>>=◌, ◌>>◌, set_event_status}
use sprinkler_d.Zones.Requests.{zc_rain_delay_enabled}
use sprinkler_d.Cache.{write_cache}

abbrev pub delay24h_sec : ℤ
delay24h_sec = pos 86400

abbrev pub same : Bool → Bool → Bool
same true b = b
same false b = not b

-- `now < dtime` for an `unsigned long`; a negative number is a large one.
abbrev pub later_than : ℤ → ℤ → Bool
later_than (pos now) (pos dtime) = ltb now dtime
later_than (pos now) (negsuc dtime) = true
later_than (negsuc now) (pos dtime) = false
later_than (negsuc now) (negsuc dtime) = ltb dtime now

module _ ⦃P : Platform⦄ where
  unfoldable pub enable_calendar : Bool → State → State
  enable_calendar state s =
      if same s.calendar state then s else record (set_event_status s) { calendar = state }

  -- The delay begins, and ends at `until`.
  abbrev pub begin_delay : ℤ → State → State
  begin_delay until s = record s { delay24h = true; delay24h_time = until }

  unfoldable pub enable_delay24h : Bool → Cmd (Unit {0})
  enable_delay24h state = do
    delay ← gets (λ s. s.delay24h)
    now ← gets (λ s. s.clock)
    if same delay state then pure tt else do
      modify set_event_status
      if state
          then (do modify (begin_delay (now +ℤ delay24h_sec)); zc_rain_delay_enabled)
          else modify (λ s. record s { delay24h = false; delay24h_time = pos 0 })
      write_cache

  unfoldable pub reset_delay24h_time : ℤ → Cmd (Unit {0})
  reset_delay24h_time dtime = do
    modify (λ s. record s {
      update_event_mask =
          if s.delay24h then s.update_event_mask else (set_event_status s).update_event_mask;
    })
    now ← gets (λ s. s.clock)
    modify (begin_delay (if later_than now dtime then dtime else now +ℤ delay24h_sec))
    zc_rain_delay_enabled
    write_cache

  unfoldable pub check_delay24h : Cmd Bool
  unfolding enable_delay24h
  check_delay24h = do
    until ← gets (λ s. s.delay24h_time)
    now ← gets (λ s. s.clock)
    if ltb_ℤ (pos 0) until && ltb_ℤ until now
        then enable_delay24h false >> pure true
        else pure false

  -- `setTodayChanceOfRain`
  unfoldable pub set_today_chance_of_rain : ℤ → Cmd Bool
  set_today_chance_of_rain percent =
      if leb_ℤ percent (pos 100) && leb_ℤ (pos 0) percent
      then (do
        modify (λ s. record s {
          update_event_mask = record (s.update_event_mask) { rain_probability = true };
          today_rain_chance = percent;
        })
        limit ← gets (λ s. s.precip_chance_delay)
        if ltb_ℤ (pos 0) limit && leb_ℤ limit percent
            then reset_delay24h_time (pos 0)
            else enable_delay24h false
        pure true)
      else pure false

  abbrev pub zero_rain : P.Real
  zero_rain = P.real_of_int (pos 0)

  -- `limit > 0 && rain >= limit`
  abbrev pub reaches : P.Real → P.Real → Bool
  reaches rain limit = P.real_ltb zero_rain limit && P.real_leb limit rain

  -- `setTodayRainTotal`
  unfoldable pub set_today_rain_total : P.Real → Cmd Bool
  set_today_rain_total rain = do
    total ← gets (λ s. s.today_rain_total)
    if P.real_eqb total rain && not (P.real_eqb rain zero_rain) then pure true else do
      modify (λ s. record s {
        today_rain_total = rain;
        update_event_mask = record (s.update_event_mask) { rain_total = true };
      })
      now ← gets (λ s. s.clock)
      day1 ← gets (λ s. s.precip_inch_delay1day)
      day2 ← gets (λ s. s.precip_inch_delay2day)
      if reaches rain day2
          then reset_delay24h_time (now +ℤ delay24h_sec *ℤ pos 2)
          else if reaches rain day1
          then reset_delay24h_time (now +ℤ delay24h_sec)
          else pure tt
      pure true
