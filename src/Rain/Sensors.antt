-- ===== src/Rain/Sensors.antt =====
-- The rain sensors: a report turns the delay on exactly where it reaches the configured limit.
use sprinkler_d.Prelude.{
  ℤ, pos, ◌+ℤ◌, ltb_ℤ, leb_ℤ, negsuc, ◌≤ℤ◌, ◌<ℤ◌, ◌≡◌, ◌⊎◌, refl, Bool, true, false, ◌&&◌,
  if◌then◌else◌, Bool-cases, inl, inr, arith,
}
use sprinkler_d.Platform.{Platform, Driver}
use sprinkler_d.State.{State, pure, ◌>>◌, Returns, returns, Returns-mono, Saves-Returns}
use sprinkler_d.Zones.Safety.{Safe}
use sprinkler_d.Zones.Invariant.{NoCron}
use sprinkler_d.Rain.Defs.{
  delay24h_sec, later_than, enable_delay24h, reset_delay24h_time, set_today_chance_of_rain,
}
use sprinkler_d.Rain.Delay.{enable_delay24h_off, enable_delay24h_same, reset_delay24h_time-Saves}

not_before : (clock x : ℤ) → pos 0 ≤ℤ clock → (if later_than clock (pos 0) then pos 0 else x) ≡ x
not_before (pos n) x h = ground arith
not_before (negsuc n) x h = refl

module _ ⦃P : Platform⦄ ⦃D : Driver⦄ where
  abbrev pub IsSafe : State → Type 0
  IsSafe s = Safe s s.current_zone s.board

  -- The delay as a report leaves it: on until the given time with nothing of cron's running, or off.
  abbrev pub DelayIs : Bool → ℤ → State → Type 0
  DelayIs true until t = (t.delay24h ≡ true) × (t.delay24h_time ≡ until) × NoCron t.current_zone
  DelayIs false until t = t.delay24h ≡ false

  -- The delay that a report of the chance of rain asks for.
  abbrev pub asks_delay : ℤ → State → Bool
  asks_delay percent s = ltb_ℤ (pos 0) s.precip_chance_delay && leb_ℤ s.precip_chance_delay percent

  reported :
      (t : State) (delay : Bool)
      → IsSafe t
      → pos 0 ≤ℤ t.clock
      → Returns
          (λ r u.
            (r ≡ true)
            × DelayIs delay (t.clock +ℤ delay24h_sec) u
            × IsSafe u
            × (u.today_rain_chance ≡ t.today_rain_chance))
          (((if delay then reset_delay24h_time (pos 0) else enable_delay24h false) >> pure true) t)
  reported t true h now =
      Saves-Returns _ (reset_delay24h_time-Saves t (pos 0) h) λ _ c b e f (safe, quiet).
        returns (refl, (refl, not_before t.clock (t.clock +ℤ delay24h_sec) now, quiet), safe, refl)
  reported t false h now = elim (Bool-cases t.delay24h) [
    | inl on ↦
        Saves-Returns _ (enable_delay24h_off t h.2.wiring.size on)
          λ _ c b e f (ec, eb). returns (refl, refl, rw (ec, eb) h, refl)
    | inr off ↦ rw (enable_delay24h_same t false off) (returns (refl, off, h, refl))
  ]

  -- On with nothing of cron's running where the chance is at a positive limit or above, else off.
  abbrev pub Answers : (limit percent until : ℤ) → State → Type 0
  Answers limit percent until u =
      ((pos 0 <ℤ limit) × (limit ≤ℤ percent) × DelayIs true until u)
      ⊎ (((limit ≤ℤ pos 0) ⊎ (percent <ℤ limit)) × (u.delay24h ≡ false))

  answers :
      (above reached : Bool) (limit percent until : ℤ) (u : State)
      → ltb_ℤ (pos 0) limit ≡ above
      → leb_ℤ limit percent ≡ reached
      → DelayIs (above && reached) until u
      → Answers limit percent until u
  answers true true limit percent until u a r h = inl (ground arith, ground arith, h)
  answers true false limit percent until u a r h = inr (inr (ground arith), h)
  answers false reached limit percent until u a r h = inr (inl (ground arith), h)

  -- Where the pins agree with the current zone and the clock is not before 1970, a percentage from
  -- 0 to 100 is recorded, and the delay is then on until 86400 seconds from now with no zone
  -- running that cron started where the configured limit is positive and the percentage is equal
  -- to it or higher, and off where the limit is not positive or the percentage is lower; the pins
  -- keep agreeing with the current zone.
  pub set_today_chance_of_rain_valid :
      (s : State) (percent : ℤ)
      → IsSafe s
      → pos 0 ≤ℤ s.clock
      → (leb_ℤ percent (pos 100) && leb_ℤ (pos 0) percent) ≡ true
      → Returns
          (λ r u.
            (r ≡ true)
            × Answers s.precip_chance_delay percent (s.clock +ℤ pos 86400) u
            × IsSafe u
            × (u.today_rain_chance ≡ percent))
          (set_today_chance_of_rain percent s)
  unfolding set_today_chance_of_rain
  set_today_chance_of_rain_valid s percent h now valid = rw valid (
      Returns-mono
        (reported
          (record s {
            update_event_mask = record (s.update_event_mask) { rain_probability = true };
            today_rain_chance = percent;
          })
          (asks_delay percent s) h now)
        λ r u (ok, delay, safe, chance).
          (ok, answers _ _ s.precip_chance_delay percent _ u refl refl delay, safe, chance))
