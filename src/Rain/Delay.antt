-- ===== src/Rain/Delay.antt =====
-- What turning the rain delay on and off does, the pins and the cache file included.
use sprinkler_d.Prelude.{
  ℕ, zero, suc, ◌+◌, ℤ, pos, negsuc, ◌+ℤ◌, ltb_ℤ, ltb, ◌≤◌, ◌≤ℤ◌, ◌<ℤ◌, ◌≡◌, ◌⊎◌, inl, inr,
  Bool-cases, refl, Bool, true, false, ◌&&◌, not, if◌then◌else◌, List, [], ◌∷◌, ◌++◌, length,
  get_elem?_lt, arith,
}
use sprinkler_d.Platform.{Platform, Driver}
use sprinkler_d.State.{
  pure, ◌>>◌, CacheLine, int_line, Running, State, done, set_event_status, Saves, saves,
  Saves-widen, Saves-then, Effect-Saves, ran,
}
use sprinkler_d.Zones.Panel.{zone_at-some}
use sprinkler_d.Zones.Safety.{Safe}
use sprinkler_d.Zones.Invariant.{NoCron, zc_rain_delay_enabled-Safe}
use sprinkler_d.Zones.Requests.{zc_rain_delay_enabled}
use sprinkler_d.Cache.{runtime_lines, option_lines, save_lines, write_cache}
use sprinkler_d.Rain.Defs.{
  delay24h_sec, same, begin_delay, later_than, enable_delay24h, reset_delay24h_time, check_delay24h,
}

same-not : (a b : Bool) → a ≡ not b → same a b ≡ false
same-not a b e = ground arith

same_self : (a b : Bool) → a ≡ b → same a b ≡ true
same_self a b e = ground arith

-- Where a delay that is reset to `dtime` ends, where the clock is not before 1970: at that time where it
-- lies ahead or is negative, which an `unsigned long` makes a time far ahead, and else a day from now.
abbrev pub EndsAt : (clock dtime until : ℤ) → Type 0
EndsAt clock dtime until =
    (((clock <ℤ dtime) ⊎ (dtime <ℤ pos 0)) × (until ≡ dtime))
    ⊎ ((pos 0 ≤ℤ dtime) × (dtime ≤ℤ clock) × (until ≡ clock +ℤ pos 86400))

ends_at :
    (clock dtime : ℤ)
    → pos 0 ≤ℤ clock
    → EndsAt clock dtime (if later_than clock dtime then dtime else clock +ℤ delay24h_sec)
ends_at (negsuc c) dtime h = absurd (ground arith)
ends_at (pos c) (negsuc d) h = inl (inr (ground arith), refl)
ends_at (pos c) (pos d) h = elim (Bool-cases (ltb c d)) [
  | inl ahead ↦ rw ahead (inl (inl (ground arith), refl))
  | inr past ↦ rw past (inr (ground arith, ground arith, refl))
]

module _ ⦃P : Platform⦄ where
  runtime_lines_total :
      (rounds zone : ℕ) (s : State)
      → length s.zonecfg ≡ suc s.zones
      → rounds + zone ≤ suc s.zones
      → (ls : List CacheLine) × (runtime_lines rounds zone s ≡ done ls s)
  unfolding runtime_lines
  runtime_lines_total zero zone s size h = ([], refl)
  runtime_lines_total (suc rounds) zone s size h =
      let (z, at) = get_elem?_lt s.zonecfg zone (omega (arith, size)) in
      let (ls, e) = runtime_lines_total rounds (suc zone) s size (omega arith) in
      (int_line z.default_runtime ∷ ls, rw (zone_at-some s zone z at, e))

  save_if :
      (s : State) (opens : Bool)
      → length s.zonecfg ≡ suc s.zones
      → (f : List CacheLine) × ((if opens then save_lines else pure tt) s
          ≡ done tt (record s { cache_file = f }))
  unfolding save_lines
  save_if s true size =
      let (ls, e) = runtime_lines_total s.zones 1 s size (omega arith) in
      (option_lines s ++ ls, rw e)
  save_if s false size = (s.cache_file, refl)

  -- Where the zones are all configured, writing the cache ends without an access outside the zones
  -- and changes nothing but the cache file.
  pub write_cache_total :
      (s : State)
      → length s.zonecfg ≡ suc s.zones
      → (f : List CacheLine) × (write_cache s ≡ done tt (record s { cache_file = f }))
  unfolding write_cache
  write_cache_total s size = save_if s s.cache_opens size

  module _ ⦃D : Driver⦄ where
    -- The pins agree with the current zone, and no zone that cron started runs.
    abbrev pub Quiet : State → Running → P.Board → Type 0
    Quiet s c b = Safe s c b × NoCron c

    -- The rest of a change of the delay: the zone that cron started is turned off, and all is saved.
    rest_Quiet :
        (s : State)
        → Safe s s.current_zone s.board
        → Saves s (λ _ c b. Quiet s c b) ((zc_rain_delay_enabled >> write_cache) s)
    rest_Quiet s h =
        Effect-Saves _ (zc_rain_delay_enabled-Safe s h)
          λ _ c b e (safe, quiet). saved_Quiet (ran s c b e) safe.2.wiring.size (safe, quiet)
      where
        saved_Quiet :
            (t : State)
            → length t.zonecfg ≡ suc t.zones
            → Quiet t t.current_zone t.board
            → Saves t (λ _ c b. Quiet t c b) (write_cache t)
        saved_Quiet t size q = let (f, e) = write_cache_total t size in rw e (saves _ _ _ _ f q)

    -- Where the pins agree with the current zone and the rain delay is off, turning it on sets its
    -- end a day from now, and besides changes only the current zone, the pins, the event mask and
    -- the cache file; no zone that cron started runs then, and the pins still agree with the
    -- current zone.
    pub enable_delay24h_on :
        (s : State)
        → Safe s s.current_zone s.board
        → s.delay24h ≡ false
        → Saves
            (begin_delay (s.clock +ℤ delay24h_sec) s)
            (λ _ c b. Quiet s c b)
            (enable_delay24h true s)
    unfolding enable_delay24h
    enable_delay24h_on s h off = rw (same-not s.delay24h true off) (
        Saves-widen s.current_zone s.board (set_event_status s).update_event_mask s.cache_file
          (rest_Quiet (begin_delay (s.clock +ℤ delay24h_sec) (set_event_status s)) h))

    pub reset_delay24h_time-Saves :
        (s : State) (dtime : ℤ)
        → Safe s s.current_zone s.board
        → Saves
            (begin_delay (if later_than s.clock dtime then dtime else s.clock +ℤ delay24h_sec) s)
            (λ _ c b. Quiet s c b)
            (reset_delay24h_time dtime s)
    unfolding reset_delay24h_time
    reset_delay24h_time-Saves s dtime h =
        Saves-widen s.current_zone s.board
          (if s.delay24h then s.update_event_mask else (set_event_status s).update_event_mask)
          s.cache_file
          (rest_Quiet
            (record s {
              delay24h = true;
              delay24h_time = if later_than s.clock dtime then dtime else s.clock +ℤ delay24h_sec;
              update_event_mask =
                  if s.delay24h
                  then s.update_event_mask
                  else (set_event_status s).update_event_mask;
            })
            h)

    -- Where the pins agree with the current zone and the clock is not before 1970, a reset of the
    -- rain delay turns it on until the given time where that lies ahead of the clock or is
    -- negative, and until 86400 seconds from now where it is neither, and besides changes only the
    -- current zone, the pins, the event mask and the cache file; no zone that cron started runs
    -- then, and the pins still agree with the current zone.
    pub reset_delay24h_time_lem :
        (s : State) (dtime : ℤ)
        → Safe s s.current_zone s.board
        → pos 0 ≤ℤ s.clock
        → (until : ℤ) × EndsAt s.clock dtime until
          × Saves (begin_delay until s) (λ _ c b. Quiet s c b) (reset_delay24h_time dtime s)
    reset_delay24h_time_lem s dtime h now =
        (_, ends_at s.clock dtime now, reset_delay24h_time-Saves s dtime h)

    -- Where the zones are all configured and the delay is on, turning it off clears its end;
    -- besides it changes only the event mask and the cache file.
    pub enable_delay24h_off :
        (s : State)
        → length s.zonecfg ≡ suc s.zones
        → s.delay24h ≡ true
        → Saves
            (record s { delay24h = false; delay24h_time = pos 0 })
            (λ _ c b. (c ≡ s.current_zone) × (b ≡ s.board))
            (enable_delay24h false s)
    unfolding enable_delay24h
    enable_delay24h_off s size on =
        let t = record (set_event_status s) { delay24h = false; delay24h_time = pos 0 } in
        let (f, e) = write_cache_total t size in
        rw (same-not s.delay24h false on, e) (saves _ _ _ _ f (refl, refl))

    pub enable_delay24h_same :
        (s : State) (state : Bool) → s.delay24h ≡ state → enable_delay24h state s ≡ done tt s
    unfolding enable_delay24h
    enable_delay24h_same s state e = rw (same_self s.delay24h state e)

    -- Where the zones are all configured, the delay is on and its end lies in the past,
    -- check_delay24h returns true, turns the delay off and clears its end; besides it changes only
    -- the event mask and the cache file.
    pub check_delay24h_over :
        (s : State)
        → length s.zonecfg ≡ suc s.zones
        → s.delay24h ≡ true
        → (ltb_ℤ (pos 0) s.delay24h_time && ltb_ℤ s.delay24h_time s.clock) ≡ true
        → Saves
            (record s { delay24h = false; delay24h_time = pos 0 })
            (λ r c b. (r ≡ true) × (c ≡ s.current_zone) × (b ≡ s.board))
            (check_delay24h s)
    unfolding check_delay24h
    check_delay24h_over s size on over = rw over (
        Saves-then _ (enable_delay24h_off s size on)
          λ _ c b e f (ec, eb). saves _ _ _ _ _ (refl, ec, eb))

    pub check_delay24h_waits :
        (s : State)
        → (ltb_ℤ (pos 0) s.delay24h_time && ltb_ℤ s.delay24h_time s.clock) ≡ false
        → check_delay24h s ≡ done false s
    unfolding check_delay24h
    check_delay24h_waits s wait = rw wait
