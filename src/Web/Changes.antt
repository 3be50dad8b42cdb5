-- ===== src/Web/Changes.antt =====
-- The web requests that change the calendar.
use sprinkler_d.Prelude.{
  ℕ, ◌-◌, ℤ, pos, negsuc, ltb_ℤ, leb_ℤ, ltb, lt→ltb, ◌≤◌, ◌≡◌, refl, ◌∙◌, true, ◌&&◌, length,
  get_elem?_lt, length-set, inl, inr, Bool-cases, arith,
}
use sprinkler_d.Platform.{Platform, Driver}
use sprinkler_d.Text.{Text, bytes, atoi}
use sprinkler_d.State.{CalendarDay, State, done, returns}
use sprinkler_d.Web.Defs.{Query, day_at, set_day, set_zone_runtime, change_calendar, serve_calendar}
use sprinkler_d.Web.Safety.{zone_of}
use sprinkler_d.Sound.{
  AllDays, AllDays-at, AllDays-set, Sound, Keeps, Keeps-then, IsKept, in_bounds,
}

week_day :
    (day : ℤ) → (leb_ℤ (pos 0) day && leb_ℤ day (pos 6)) ≡ true → (k : ℕ) × (day ≡ pos k) × (k ≤ 6)
week_day (pos k) h = (k, refl, ground arith)
week_day (negsuc k) h = absurd (ground arith)

module _ ⦃P : Platform⦄ where
  -- `cron[day]` is there.
  pub day_at-in :
      (s : State) (day : ℕ)
      → day ≤ 6
      → length s.cron ≡ 7
      → AllDays s.zones s.cron
      → (d : CalendarDay) × (day_at day s ≡ done d s) × (length d.zruntimes ≡ s.zones)
  unfolding day_at
  day_at-in s day hi week days =
      let (d, at) = get_elem?_lt s.cron day (omega (arith, week)) in
      (d, rw (at, day_at), AllDays-at s.zones s.cron day d days at)

module _ ⦃P : Platform⦄ ⦃D : Driver⦄ where
  set_day-Sound :
      (s : State) (day : ℕ) (d : CalendarDay)
      → length d.zruntimes ≡ s.zones
      → Sound s
      → Sound (set_day day d s)
  set_day-Sound s day d e h = record {
    safe = h.safe;
    tables = record {
      week = length-set s.cron day d ∙ h.tables.week;
      days = AllDays-set s.zones s.cron day d h.tables.days e;
      numbered = h.tables.numbered;
      cached = h.tables.cached;
    };
  }

  day_at-some :
      (s : State) (day : ℕ)
      → day ≤ 6
      → Sound s
      → (d : CalendarDay) × (day_at day s ≡ done d s) × (length d.zruntimes ≡ s.zones)
  day_at-some s day hi h = day_at-in s day hi h.tables.week h.tables.days

  set_zone_runtime-Sound :
      (s : State) (day : ℕ) (zone runtime : ℤ) (k : ℕ)
      → day ≤ 6
      → zone ≡ pos k
      → 1 ≤ k
      → k ≤ s.zones
      → Sound s
      → Keeps (set_zone_runtime day zone runtime s)
  unfolding set_zone_runtime
  set_zone_runtime-Sound s day zone runtime k hi e lo top h =
      let (d, at, size) = day_at-some s day hi h in
      rw (at, e, lt→ltb (k - 1) (length d.zruntimes) (omega arith))
        (returns (set_day-Sound s day _ (length-set d.zruntimes (k - 1) runtime ∙ size) h))

  change_calendar-Sound :
      (s : State) (day zone : ℤ) (time stale : Text)
      → Sound s
      → Keeps (change_calendar day zone time stale s)
  unfolding change_calendar
  change_calendar-Sound s day zone time stale h =
      elim (Bool-cases (leb_ℤ (pos 0) day && leb_ℤ day (pos 6))) [
        | inr bad ↦ rw bad (returns h)
        | inl good ↦
            let (k, e, hi) = week_day day good in
            elim (Bool-cases (ltb_ℤ (pos 0) zone)) [
              | inl one ↦ elim (Bool-cases (leb_ℤ zone (pos s.zones))) [
                | inl known ↦
                    let (i, ei, lo, top) = in_bounds zone s.zones one known in
                    rw (good, e, one, known)
                      (set_zone_runtime-Sound s k zone (atoi time) i hi ei lo top h)
                | inr unknown ↦ rw (good, e, one, unknown) (returns h)
              ]
              | inr all ↦
                  let (d, at, size) = day_at-some s k hi h in
                  elim (Bool-cases (ltb 0 (length time))) [
                    | inl starts ↦
                        rw (good, e, all, at, starts) (returns (set_day-Sound s k _ size h))
                    | inr removed ↦
                        rw (good, e, all, at, removed) (returns (set_day-Sound s k _ size h))
                  ]
            ]
      ]

  pub serve_calendar-IsKept : (q : Query) → IsKept (serve_calendar q)
  unfolding serve_calendar
  serve_calendar-IsKept q = record {
    keeps = λ s h.
        Keeps-then _
          (change_calendar-Sound s (atoi (q.get_var (bytes "day"))) (zone_of q)
            (q.get_var (bytes "time")) q.stale h)
          λ _ u k. returns record { safe = k.safe; tables = k.tables };
  }
