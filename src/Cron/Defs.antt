-- ===== src/Cron/Defs.antt =====
-- `write_cron` and `check_cron`.
use sprinkler_d.Prelude.{
  ℕ, zero, suc, ℤ, pos, ◌+ℤ◌, ◌-ℤ◌, ltb_ℤ, leb_ℤ, ◌&&◌, Option, none, some, List, [], ◌∷◌, ◌++◌,
  map, get_elem?, if◌then◌else◌,
}
use sprinkler_d.Platform.{Platform}
use sprinkler_d.State.{
  CalendarDay, RunBeforeCmd, CronJob, CronLine, run_zone, run_command, clear_chance_of_rain,
  clear_rain_total, Cmd, fault, pure, gets, modify, ◌>>=◌, ◌>>◌,
}

abbrev pub timediff_cron_update : ℤ
timediff_cron_update = pos 20

-- A line in front of the lines that follow, where they could be made.
abbrev pub line_before : CronLine → Option (List CronLine) → Option (List CronLine)
line_before l none = none
line_before l (some ls) = some (l ∷ ls)

abbrev pub lines_before : List CronLine → Option (List CronLine) → Option (List CronLine)
lines_before ls none = none
lines_before ls (some ms) = some (ls ++ ms)

abbrev pub zone_line : ℕ → ℕ → ℤ → ℤ → ℤ → CronLine
zone_line day zone runtime min hour = record {
  minute = min;
  hour = hour;
  day = some day;
  job = run_zone (pos (suc zone)) runtime;
}

-- The end of a zone's run: the minute and the hour of the next, with one carry.
abbrev pub next_minute : ℤ → ℤ → ℤ
next_minute min runtime =
    if leb_ℤ (pos 60) (min +ℤ runtime) then min +ℤ runtime -ℤ pos 60 else min +ℤ runtime

abbrev pub next_hour : ℤ → ℤ → ℤ → ℤ
next_hour min hour runtime = if leb_ℤ (pos 60) (min +ℤ runtime) then hour +ℤ pos 1 else hour

-- The loop over the zones of a day, `rounds` of them from `zone` on; none is an access outside the run times.
-- It ends early at midnight.
unfoldable pub zone_lines : ℕ → ℕ → List ℤ → ℕ → ℤ → ℤ → Option (List CronLine)
zone_lines zero zone runtimes day min hour = some []
zone_lines (suc rounds) zone runtimes day min hour = elim (get_elem? runtimes zone) [
  | none ↦ none
  | some r ↦
      let line = zone_line day zone r min hour in
      let same = zone_lines rounds (suc zone) runtimes day min hour in
      let later =
        zone_lines rounds (suc zone) runtimes day (next_minute min r) (next_hour min hour r) in
      if ltb_ℤ (pos 0) r
      then (if leb_ℤ (pos 24) (next_hour min hour r)
          then some (line ∷ [])
          else line_before line later)
      else same
]

-- A command that runs some minutes before the day's start, on whatever days.
unfoldable pub command_line : ℕ → CalendarDay → RunBeforeCmd → CronLine
command_line day d c =
    if ltb_ℤ d.minute c.mins
    then record {
      minute = pos 60 -ℤ (c.mins -ℤ d.minute);
      hour = d.hour -ℤ pos 1;
      day = some day;
      job = run_command c.command;
    }
    else record {
      minute = d.minute -ℤ c.mins;
      hour = d.hour;
      day = some day;
      job = run_command c.command;
    }

unfoldable pub day_lines : ℕ → List RunBeforeCmd → ℕ → CalendarDay → Option (List CronLine)
unfolding zone_lines command_line
day_lines zones commands day d =
    let before = map (command_line day d) commands in
    if leb_ℤ (pos 0) d.hour && leb_ℤ (pos 0) d.minute
    then (elim (zone_lines zones 0 d.zruntimes day d.minute d.hour) [
      | none ↦ none
      | some ls ↦ some (ls ++ before)
    ])
    else some before

-- The loop over the days of the week, `rounds` of them from `day` on.
unfoldable pub week_lines :
    ℕ → ℕ → ℕ → List RunBeforeCmd → List CalendarDay → Option (List CronLine)
unfolding day_lines
week_lines zero day zones commands cron = some []
week_lines (suc rounds) day zones commands cron = elim (get_elem? cron day) [
  | none ↦ none
  | some d ↦
      let rest = week_lines rounds (suc day) zones commands cron in
      elim (day_lines zones commands day d) [ none ↦ none | some ls ↦ lines_before ls rest ]
]

abbrev pub midnight : CronJob → CronLine
midnight job = record { minute = pos 0; hour = pos 0; day = none; job = job }

module _ ⦃P : Platform⦄ where
  abbrev pub save_cron : Option (List CronLine) → Cmd (Unit {0})
  save_cron none = λ s. fault
  save_cron (some ls) = modify (λ s. record s {
    cron_file = ls ++ (midnight clear_chance_of_rain ∷ midnight clear_rain_total ∷ []);
  })

  unfoldable pub write_cron : Cmd (Unit {0})
  unfolding week_lines
  write_cron = do
    opens ← gets (λ s. s.cron_opens)
    lines ← gets (λ s. week_lines 7 0 s.zones s.run_before_cmd s.cron)
    if opens then save_cron lines else pure tt

  unfoldable pub check_cron : Cmd (Unit {0})
  unfolding write_cron
  check_cron = do
    update ← gets (λ s. s.cron_update)
    now ← gets (λ s. s.clock)
    if ltb_ℤ (pos 0) update && ltb_ℤ timediff_cron_update (now -ℤ update)
        then (do write_cron; modify (λ s. record s { cron_update = pos 0 }))
        else pure tt
