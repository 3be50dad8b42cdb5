-- ===== src/Cron/Safety.antt =====
-- Writing the cron file ends at no fault and leaves the state sound.
use sprinkler_d.Prelude.{
  ℕ, zero, suc, ◌+◌, ◌-ℤ◌, ℤ, pos, ltb_ℤ, leb_ℤ, ◌≤◌, ◌≡◌, refl, Bool, true, false, ◌&&◌, some,
  List, [], ◌∷◌, if◌then◌else◌, ◌++◌, map, length, get_elem?, get_elem?_lt, inl, inr, Bool-cases,
  arith,
}
use sprinkler_d.Platform.{Platform, Driver}
use sprinkler_d.State.{CalendarDay, RunBeforeCmd, CronLine, State, pure, returns}
use sprinkler_d.Cron.Defs.{
  zone_line, next_minute, next_hour, zone_lines, command_line, day_lines, week_lines, save_cron,
  write_cron, check_cron, timediff_cron_update,
}
use sprinkler_d.Sound.{AllDays, AllDays-at, Sound, Keeps, Keeps-then}

-- The lines from zone `zone` on exist, where it has the run time `r` and the lines behind it exist.
zone_lines-some :
    (rounds zone : ℕ) (runtimes : List ℤ) (day : ℕ) (min hour r : ℤ)
    → get_elem? runtimes zone ≡ some r
    → ((min hour : ℤ)
        → (ls : List CronLine) × (zone_lines rounds (suc zone) runtimes day min hour ≡ some ls))
    → (ls : List CronLine) × (zone_lines (suc rounds) zone runtimes day min hour ≡ some ls)
unfolding zone_lines
zone_lines-some rounds zone runtimes day min hour r at rest = elim (Bool-cases (ltb_ℤ (pos 0) r)) [
  | inl runs ↦ elim (Bool-cases (leb_ℤ (pos 24) (next_hour min hour r))) [
    | inl over ↦ (zone_line day zone r min hour ∷ [], rw (at, runs, over, zone_lines))
    | inr more ↦
        let (ls, e) = rest (next_minute min r) (next_hour min hour r) in
        (zone_line day zone r min hour ∷ ls, rw (at, runs, more, e, zone_lines))
  ]
  | inr none_runs ↦ let (ls, e) = rest min hour in (ls, rw (at, none_runs, zone_lines) e)
]

-- The loop that writes a day's cron lines ends without an access outside the day's run times,
-- where there is a run time for each zone that it goes through.
pub zone_lines_total :
    (rounds zone : ℕ) (runtimes : List ℤ) (day : ℕ) (min hour : ℤ)
    → rounds + zone ≤ length runtimes
    → (ls : List CronLine) × (zone_lines rounds zone runtimes day min hour ≡ some ls)
unfolding zone_lines
zone_lines_total zero zone runtimes day min hour h = ([], refl)
zone_lines_total (suc rounds) zone runtimes day min hour h =
    let (r, at) = get_elem?_lt runtimes zone (omega arith) in
    zone_lines-some rounds zone runtimes day min hour r at
      λ m k. zone_lines_total rounds (suc zone) runtimes day m k (omega arith)

day_lines_total :
    (zones : ℕ) (commands : List RunBeforeCmd) (day : ℕ) (d : CalendarDay)
    → length d.zruntimes ≡ zones
    → (ls : List CronLine) × (day_lines zones commands day d ≡ some ls)
unfolding day_lines
day_lines_total zones commands day d size =
    let (ls, e) = zone_lines_total zones 0 d.zruntimes day d.minute d.hour (omega arith) in
    elim (Bool-cases (leb_ℤ (pos 0) d.hour && leb_ℤ (pos 0) d.minute)) [
      | inl set ↦ (ls ++ map (command_line day d) commands, rw (set, e))
      | inr unset ↦ (map (command_line day d) commands, rw unset)
    ]

week_lines-some :
    (rounds day zones : ℕ) (commands : List RunBeforeCmd) (cron : List CalendarDay)
    (d : CalendarDay) (ls ms : List CronLine)
    → get_elem? cron day ≡ some d
    → day_lines zones commands day d ≡ some ls
    → week_lines rounds (suc day) zones commands cron ≡ some ms
    → week_lines (suc rounds) day zones commands cron ≡ some (ls ++ ms)
unfolding week_lines
week_lines-some rounds day zones commands cron d ls ms at e e' = rw (at, e, e', week_lines)

week_lines_total :
    (rounds day zones : ℕ) (commands : List RunBeforeCmd) (cron : List CalendarDay)
    → AllDays zones cron
    → rounds + day ≤ length cron
    → (ls : List CronLine) × (week_lines rounds day zones commands cron ≡ some ls)
unfolding week_lines
week_lines_total zero day zones commands cron all h = ([], refl)
week_lines_total (suc rounds) day zones commands cron all h =
    let (d, at) = get_elem?_lt cron day (omega arith) in
    let (ls, e) = day_lines_total zones commands day d (AllDays-at zones cron day d all at) in
    let (ms, e') = week_lines_total rounds (suc day) zones commands cron all (omega arith) in
    (ls ++ ms, week_lines-some rounds day zones commands cron d ls ms at e e')

module _ ⦃P : Platform⦄ ⦃D : Driver⦄ where
  write_cron-Sound : (s : State) → Sound s → Keeps (write_cron s)
  unfolding write_cron
  write_cron-Sound s h =
      let (ls, e) =
        week_lines_total 7 0 s.zones s.run_before_cmd s.cron h.tables.days
          (omega (arith, h.tables.week)) in
      rw e (saved ls s.cron_opens)
    where
      saved :
          (ls : List CronLine) (opens : Bool)
          → Keeps ((if opens then save_cron (some ls) else pure tt) s)
      saved ls true = returns record { safe = h.safe; tables = h.tables }
      saved ls false = returns h

  pub check_cron-Sound : (s : State) → Sound s → Keeps (check_cron s)
  unfolding check_cron
  check_cron-Sound s h =
      elim (Bool-cases
        (ltb_ℤ (pos 0) s.cron_update && ltb_ℤ timediff_cron_update (s.clock -ℤ s.cron_update))) [
          | inl due ↦ rw due (
              Keeps-then _ (write_cron-Sound s h)
                λ _ u k. returns record { safe = k.safe; tables = k.tables })
          | inr early ↦ rw early (returns h)
        ]
