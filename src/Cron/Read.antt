-- ===== src/Cron/Read.antt =====
-- sd_cron.c: `read_cron`, over the cron file's lines. The C library's regular expressions are a parameter: the
-- texts of a line's five groups, where it matches.
use sprinkler_d.Prelude.{
  ℕ, suc, ◌≤◌, ℤ, pos, negsuc, eqb_ℤ, ltb_ℤ, leb_ℤ, ◌≡◌, refl, ◌∙◌, ap, Bool, true, false, ◌&&◌,
  and_left, and_right, Option, none, some, List, [], ◌∷◌, map, length, set, length-set, lt→ltb, ◌-◌,
  if◌then◌else◌, inl, inr, Bool-cases, arith,
}
use sprinkler_d.Platform.{Platform, Driver}
use sprinkler_d.Text.{Text, digits, first, str2int}
use sprinkler_d.State.{
  CalendarDay, CronLine, State, Run, done, and_then, Cmd, pure, gets, modify, ◌>>=◌, ◌>>◌, returns,
}
use sprinkler_d.Zones.Cycle.{array_index}
use sprinkler_d.Web.Defs.{day_at, set_day, set_zone_runtime}
use sprinkler_d.Web.Changes.{day_at-in}
use sprinkler_d.Sound.{AllDays, AllDays-set, Sound, Keeps, in_bounds}

pub record CronGroups : Type 0 where
  pub minute : Text
  pub hour : Text
  pub day : Text
  pub zone : Text
  pub runtime : Text

-- Whether `regcomp` and `fopen` succeed, and the groups of a line that `regexec` matches.
pub record CronReader : Type 0 where
  pub compiles : Bool
  pub opens : Bool
  pub match : CronLine → Option CronGroups

abbrev pub group : Text → ℤ
group t = str2int t (length t)

-- A day without a start, with run times of 0; a day has as many as there are zones.
abbrev pub reset_day : CalendarDay → CalendarDay
reset_day d = record {
  hour = negsuc 0;
  minute = negsuc 0;
  zruntimes = map (λ r. pos 0) d.zruntimes;
}

-- Only the first start of a day is taken.
abbrev pub start_day : CronGroups → CalendarDay → CalendarDay
start_day g d =
    if eqb_ℤ d.hour (negsuc 0) then record d { hour = group g.hour; minute = group g.minute } else d

module _ ⦃P : Platform⦄ where
  -- A line that matches.
  unfoldable pub take_groups : CronGroups → Cmd (Unit {0})
  unfolding day_at set_zone_runtime str2int
  take_groups g = do
    n ← gets (λ s. s.zones)
    if ltb_ℤ (group g.day) (pos 7) && leb_ℤ (group g.zone) (pos n)
        then (do
          k ← array_index (group g.day)
          d ← day_at k
          modify (set_day k (start_day g d))
          set_zone_runtime k (group g.zone) (group g.runtime))
        else pure tt

  abbrev pub take_line : Option CronGroups → Cmd (Unit {0})
  take_line none = pure tt
  take_line (some g) = take_groups g

  unfoldable pub take_lines : CronReader → List CronLine → Cmd (Unit {0})
  unfolding take_groups
  take_lines r [] = pure tt
  take_lines r (l ∷ ls) = take_line (r.match l) >> take_lines r ls

  unfoldable pub read_cron : CronReader → Cmd (Unit {0})
  unfolding take_lines
  read_cron r = do
    modify (λ s. record s { cron = map reset_day s.cron })
    ls ← gets (λ s. s.cron_file)
    if r.compiles && r.opens then take_lines r ls else pure tt

-- The zone of a line that matches is not 0; `write_cron` writes no such line.
abbrev pub NamesZones : CronReader → Type 0
NamesZones r =
    (l : CronLine) (g : CronGroups) → r.match l ≡ some g → ltb_ℤ (pos 0) (group g.zone) ≡ true

length-map : (f : ℤ → ℤ) (xs : List ℤ) → length (map f xs) ≡ length xs
length-map f [] = refl
length-map f (x ∷ xs) = ap suc (length-map f xs)

AllDays-reset : (n : ℕ) (ds : List CalendarDay) → AllDays n ds → AllDays n (map reset_day ds)
AllDays-reset n [] h = tt
AllDays-reset n (d ∷ ds) (e, h) = (length-map (λ r. pos 0) d.zruntimes ∙ e, AllDays-reset n ds h)

length-reset : (ds : List CalendarDay) → length (map reset_day ds) ≡ length ds
length-reset [] = refl
length-reset (d ∷ ds) = ap suc (length-reset ds)

before_seven : (k : ℕ) → ltb_ℤ (pos k) (pos 7) ≡ true → k ≤ 6
before_seven k h = ground arith

length-start_day :
    (g : CronGroups) (d : CalendarDay) → length (start_day g d).zruntimes ≡ length d.zruntimes
length-start_day g d = elim (Bool-cases (eqb_ℤ d.hour (negsuc 0))) [
  | inl first_start ↦ rw first_start refl
  | inr later ↦ rw later refl
]

module _ ⦃P : Platform⦄ where
  -- The command ends and changes nothing but the calendar, which has seven days with a run time for each zone.
  pub data Schedules (s : State) : Run (Unit {0}) → Type 0 where
    schedules :
        (ds : List CalendarDay)
        → length ds ≡ 7
        → AllDays s.zones ds
        → Schedules s (done tt (record s { cron = ds }))

  Schedules-widen :
      (s : State) (ds : List CalendarDay) (r : Run (Unit {0}))
      → Schedules (record s { cron = ds }) r
      → Schedules s r
  Schedules-widen s ds r (schedules es week days) = schedules es week days

  Schedules-then :
      (s : State) (r : Run (Unit {0})) (k : Unit {0} → Cmd (Unit {0}))
      → Schedules s r
      → ((ds : List CalendarDay)
          → length ds ≡ 7
          → AllDays s.zones ds
          → Schedules (record s { cron = ds }) (k tt (record s { cron = ds })))
      → Schedules s (and_then r k)
  Schedules-then s r k (schedules ds week days) next = Schedules-widen s ds _ (next ds week days)

  set_day-Schedules :
      (s : State) (k : ℕ) (d : CalendarDay)
      → length s.cron ≡ 7
      → AllDays s.zones s.cron
      → length d.zruntimes ≡ s.zones
      → Schedules s (done tt (set_day k d s))
  set_day-Schedules s k d week days size =
      schedules _ (length-set s.cron k d ∙ week) (AllDays-set s.zones s.cron k d days size)

  set_zone_runtime-Schedules :
      (s : State) (day : ℕ) (zone runtime : ℤ) (k : ℕ)
      → length s.cron ≡ 7
      → AllDays s.zones s.cron
      → day ≤ 6
      → zone ≡ pos k
      → 1 ≤ k
      → k ≤ s.zones
      → Schedules s (set_zone_runtime day zone runtime s)
  unfolding set_zone_runtime
  set_zone_runtime-Schedules s day zone runtime k week days hi e lo top =
      let (d, at, size) = day_at-in s day hi week days in
      rw (at, e, lt→ltb (k - 1) (length d.zruntimes) (omega arith))
        (set_day-Schedules s day _ week days (length-set d.zruntimes (k - 1) runtime ∙ size))

  take_groups-Schedules :
      (g : CronGroups) (s : State)
      → ltb_ℤ (pos 0) (group g.zone) ≡ true
      → length s.cron ≡ 7
      → AllDays s.zones s.cron
      → Schedules s (take_groups g s)
  unfolding take_groups
  take_groups-Schedules g s positive week days =
      let early = ltb_ℤ (group g.day) (pos 7) in
      let known = leb_ℤ (group g.zone) (pos s.zones) in
      elim (Bool-cases (ltb_ℤ (group g.day) (pos 7) && leb_ℤ (group g.zone) (pos s.zones))) [
        | inr other ↦ rw other (schedules s.cron week days)
        | inl good ↦
            let k = digits 0 (first (length g.day) g.day) in
            let hi : k ≤ 6 = before_seven k (and_left early known good) in
            let (i, e, lo, top) =
              in_bounds (group g.zone) s.zones positive (and_right early known good) in
            let (d, at, size) = day_at-in s k hi week days in
            let d' = start_day g d in
            rw (good, at)
              (Schedules-widen s (set s.cron k d') _ (
                set_zone_runtime-Schedules (set_day k d' s) k (group g.zone) (group g.runtime) i
                  (length-set s.cron k d' ∙ week)
                  (AllDays-set s.zones s.cron k d' days (length-start_day g d ∙ size)) hi e lo top))
      ]

  take_line-Schedules :
      (o : Option CronGroups) (s : State)
      → ((g : CronGroups) → o ≡ some g → ltb_ℤ (pos 0) (group g.zone) ≡ true)
      → length s.cron ≡ 7
      → AllDays s.zones s.cron
      → Schedules s (take_line o s)
  take_line-Schedules none s named week days = schedules s.cron week days
  take_line-Schedules (some g) s named week days =
      take_groups-Schedules g s (named g refl) week days

  take_lines-Schedules :
      (r : CronReader) (ls : List CronLine) (s : State)
      → NamesZones r
      → length s.cron ≡ 7
      → AllDays s.zones s.cron
      → Schedules s (take_lines r ls s)
  unfolding take_lines
  take_lines-Schedules r [] s named week days = schedules s.cron week days
  take_lines-Schedules r (l ∷ ls) s named week days =
      Schedules-then s _ _ (take_line-Schedules (r.match l) s (named l) week days)
        λ ds w a. take_lines-Schedules r ls (record s { cron = ds }) named w a

  lines-Schedules :
      (opened : Bool) (r : CronReader) (ls : List CronLine) (s : State)
      → NamesZones r
      → length s.cron ≡ 7
      → AllDays s.zones s.cron
      → Schedules s ((if opened then take_lines r ls else pure tt) s)
  lines-Schedules true r ls s named week days = take_lines-Schedules r ls s named week days
  lines-Schedules false r ls s named week days = schedules s.cron week days

  pub read_cron-Schedules :
      (r : CronReader) (s : State)
      → NamesZones r
      → length s.cron ≡ 7
      → AllDays s.zones s.cron
      → Schedules s (read_cron r s)
  unfolding read_cron
  read_cron-Schedules r s named week days =
      let ds = map reset_day s.cron in
      Schedules-widen s ds _ (
        lines-Schedules (r.compiles && r.opens) r s.cron_file (record s { cron = ds }) named
          (length-reset s.cron ∙ week) (AllDays-reset s.zones s.cron days))

module _ ⦃P : Platform⦄ ⦃D : Driver⦄ where
  Sound-Schedules : (s : State) (r : Run (Unit {0})) → Sound s → Schedules s r → Keeps r
  Sound-Schedules s r h (schedules ds week days) = returns (record {
    safe = h.safe;
    tables = record {
      week = week;
      days = days;
      numbered = h.tables.numbered;
      cached = h.tables.cached;
    };
  })

  -- From a state whose pins agree with the current zone and whose tables have the sizes the
  -- handlers rely on, the cron file is read without an access outside an array and leaves the
  -- state so, where no line that matches names zone 0.
  pub read_cron-Sound :
      (r : CronReader) (s : State) → NamesZones r → Sound s → Keeps (read_cron r s)
  read_cron-Sound r s named h =
      Sound-Schedules s _ h (read_cron-Schedules r s named h.tables.week h.tables.days)
