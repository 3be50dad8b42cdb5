-- ===== src/Cron/Plan.antt =====
-- write_cron's lines of a day against a plan in minutes of the day.
use Prim.Native.Nat.{◌/◌, ◌%◌}
use sprinkler_d.Prelude.{
  ℕ, zero, suc, ◌+◌, ◌*◌, ◌≤◌, ◌<◌, ℤ, pos, negsuc, pos_part, ◌+ℤ◌, ◌-ℤ◌, ltb_ℤ, leb_ℤ, leb, ◌≡◌,
  refl, sym, ap, ◌∙◌, inl, inr, Bool-cases, true, ◌&&◌, some, List, [], ◌∷◌, ◌++◌, map, length,
  get_elem?, if◌then◌else◌, arith,
}
use sprinkler_d.State.{CalendarDay, CronLine, RunBeforeCmd}
use sprinkler_d.Cron.Defs.{zone_line, next_minute, next_hour, zone_lines, command_line, day_lines}

-- A line at a minute of the day.
abbrev pub line_at : ℕ → ℕ → ℤ → ℕ → CronLine
line_at day zone r t = zone_line day zone r (pos (t % 60)) (pos (t / 60))

-- The zones with a run time, one behind the other from minute `t` on, until midnight is reached.
abbrev pub plan : ℕ → ℕ → List ℤ → ℕ → List CronLine
plan day zone [] t = []
plan day zone (r ∷ rs) t =
    let next = t + pos_part r in
    let rest = plan day (suc zone) rs next in
    let same = plan day (suc zone) rs t in
    if ltb_ℤ (pos 0) r then line_at day zone r t ∷ (if leb 1440 next then [] else rest) else same

-- An hour at most.
abbrev pub AreShort : List ℤ → Type 0
AreShort [] = Unit {0}
AreShort (r ∷ rs) = (pos_part r ≤ 60) × AreShort rs

next_minute-at :
    (t : ℕ) (r : ℤ)
    → ltb_ℤ (pos 0) r ≡ true
    → pos_part r ≤ 60
    → next_minute (pos (t % 60)) r ≡ pos ((t + pos_part r) % 60)
unfolding ◌+ℤ◌ ◌-ℤ◌
next_minute-at t (pos r) runs short = ground arith
next_minute-at t (negsuc r) runs short = ground arith

next_hour-at :
    (t : ℕ) (r : ℤ)
    → ltb_ℤ (pos 0) r ≡ true
    → pos_part r ≤ 60
    → next_hour (pos (t % 60)) (pos (t / 60)) r ≡ pos ((t + pos_part r) / 60)
unfolding ◌+ℤ◌
next_hour-at t (pos r) runs short = ground arith
next_hour-at t (negsuc r) runs short = ground arith

midnight-at : (t : ℕ) → leb_ℤ (pos 24) (pos (t / 60)) ≡ leb 1440 t
midnight-at t = ground arith

starts_at : (h m : ℕ) → (leb_ℤ (pos 0) (pos h) && leb_ℤ (pos 0) (pos m)) ≡ true
starts_at h m = ground arith

zone_lines-plan :
    (rs : List ℤ) (rounds zone : ℕ) (runtimes : List ℤ) (day t : ℕ)
    → rounds ≡ length rs
    → ((j k : ℕ) → k ≡ zone + j → get_elem? runtimes k ≡ get_elem? rs j)
    → AreShort rs
    → zone_lines rounds zone runtimes day (pos (t % 60)) (pos (t / 60)) ≡ some (plan day zone rs t)
unfolding zone_lines
zone_lines-plan [] rounds zone runtimes day t e at short = rw e refl
zone_lines-plan (r ∷ rs) zero zone runtimes day t e at short = absurd (omega arith)
zone_lines-plan (r ∷ rs) (suc rounds) zone runtimes day t e at (short, rest) =
    let here : get_elem? runtimes zone ≡ some r = at 0 zone (omega arith) in
    let later : (j k : ℕ) → k ≡ suc zone + j → get_elem? runtimes k ≡ get_elem? rs j =
      λ j k q. at (suc j) k (omega arith) in
    elim (Bool-cases (ltb_ℤ (pos 0) r)) [
      | inr none_runs ↦
          rw (here, none_runs, zone_lines)
            (zone_lines-plan rs rounds (suc zone) runtimes day t (omega arith) later rest)
      | inl runs ↦
          let next = t + pos_part r in
          let ih =
            zone_lines-plan rs rounds (suc zone) runtimes day next (omega arith) later rest in
          let full = midnight-at next in
          elim (Bool-cases (leb 1440 next)) [
            | inl over ↦ rw (here, runs, next_hour-at t r runs short, full, over, zone_lines) refl
            | inr more ↦
                rw
                  (
                    here,
                    runs,
                    next_minute-at t r runs short,
                    next_hour-at t r runs short,
                    full,
                    more,
                    ih,
                    zone_lines,
                  )
                  refl
          ]
    ]

-- For a day with a start, whose minute is below 60, a run time for each zone and none of more than
-- 60 minutes, the cron lines are those of a plan in minutes of the day: the zones with a run time
-- in their order, each at the minute at which the one before it ends, up to the first that ends at
-- midnight or later, and behind them the commands of the day.
pub day_lines-plan :
    (zones : ℕ) (commands : List RunBeforeCmd) (day h m : ℕ) (d : CalendarDay)
    → length d.zruntimes ≡ zones
    → d.hour ≡ pos h
    → d.minute ≡ pos m
    → m < 60
    → AreShort d.zruntimes
    → day_lines zones commands day d
      ≡ some (plan day 0 d.zruntimes (60 * h + m) ++ map (command_line day d) commands)
unfolding day_lines
day_lines-plan zones commands day h m d size at_hour at_minute below short =
    let t = 60 * h + m in
    let minute : d.minute ≡ pos (t % 60) = at_minute ∙ ap pos (omega arith) in
    let hour : d.hour ≡ pos (t / 60) = at_hour ∙ ap pos (omega arith) in
    let planned =
      zone_lines-plan d.zruntimes zones 0 d.zruntimes day t (sym size)
        (λ j k e. let same : k ≡ j = omega arith in ap (get_elem? d.zruntimes) same) short in
    let starts : (leb_ℤ (pos 0) d.hour && leb_ℤ (pos 0) d.minute) ≡ true =
      rw (at_hour, at_minute) (starts_at h m) in
    let lines : zone_lines zones 0 d.zruntimes day d.minute d.hour
        ≡ some (plan day 0 d.zruntimes t) =
      ap (λ x. zone_lines zones 0 d.zruntimes day x d.hour) minute
      ∙ ap (λ x. zone_lines zones 0 d.zruntimes day (pos (t % 60)) x) hour
      ∙ planned in
    rw (starts, lines) refl
