-- ===== src/Web/Safety.antt =====
-- The web requests for options, limits, sensors and zones. A request that turns a zone on or off must not name
-- zone 0 or a negative one, which the handler does not keep out.
use sprinkler_d.Prelude.{
  ℕ, ℤ, pos, ltb_ℤ, leb_ℤ, ◌≤◌, ◌≡◌, Bool, true, false, ◌&&◌, ◌||◌, Option, none, some, inl, inr,
  Bool-cases, if◌then◌else◌,
}
use sprinkler_d.Platform.{Platform, Driver}
use sprinkler_d.Text.{Text, bytes, same_text, atoi}
use sprinkler_d.State.{
  RunType, ZoneState, zc_on, zc_off, set_event_zones, State, done, modify, returns,
}
use sprinkler_d.Zones.Pins.{pin_is_on, is_all, is_none, zc_state}
use sprinkler_d.Zones.Panel.{zone_at-some}
use sprinkler_d.Zones.Switches.{zone_exists}
use sprinkler_d.Web.Defs.{
  Query, is_value_on, is_value_flip, flipped, zone_answer, set_chance_limit, set_day1_limit,
  set_day2_limit, set_option, set_delay, Reply, serve_option, set_config, serve_sensor, switch_zone,
  serve_zone,
}
use sprinkler_d.Sound.{
  Sound, Keeps, Keeps-then, IsKept, IsKept-if, IsKept-pure, IsKept-then, enable_calendar-IsKept,
  enable_delay24h-IsKept, reset_delay24h_time-IsKept, set_today_chance_of_rain-IsKept,
  set_today_rain_total-IsKept, cycle_all-IsKept, in_bounds, zc_zone-Sound,
}

abbrev pub zone_of : Query → ℤ
zone_of q = atoi (q.get_var (bytes "zone"))

-- The request turns a zone on or off.
abbrev pub names_zone : Query → Bool
names_zone q =
    let type = q.get_var (bytes "type") in
    same_text type (bytes "cron") || same_text type (bytes "zone")

module _ ⦃P : Platform⦄ ⦃D : Driver⦄ where
  set_delay-IsKept :
      (value : Option Bool) (state : Text) (time : ℤ) → IsKept (set_delay value state time)
  unfolding set_delay
  set_delay-IsKept (some b) state time = enable_delay24h-IsKept b
  set_delay-IsKept none state time = search (IsKept-if, IsKept-pure, reset_delay24h_time-IsKept)

  set_option-IsKept : (q : Query) → IsKept (set_option q)
  unfolding set_option
  set_option-IsKept q =
      search
        (
          IsKept-if, IsKept-pure, IsKept-then, enable_calendar-IsKept, set_delay-IsKept,
          cycle_all-IsKept,
        )
        depth 9

  pub serve_option-IsKept : (q : Query) → IsKept (serve_option q)
  unfolding serve_option
  serve_option-IsKept q = record {
    keeps = λ s h.
        Keeps-then _ ((set_option-IsKept q).keeps s h)
          λ reply u k. returns record { safe = k.safe; tables = k.tables };
  }

  pub serve_sensor-IsKept : (q : Query) → IsKept (serve_sensor q)
  unfolding serve_sensor
  serve_sensor-IsKept q =
      search
        (
          IsKept-if, IsKept-pure, IsKept-then, set_today_chance_of_rain-IsKept,
          set_today_rain_total-IsKept,
        )
        depth 9

  chance_limit-IsKept : (n : ℤ) → IsKept (modify (set_chance_limit n))
  chance_limit-IsKept n = record {
    keeps = λ s h. returns record { safe = h.safe; tables = h.tables };
  }

  day1_limit-IsKept : (x : P.Real) → IsKept (modify (set_day1_limit x))
  day1_limit-IsKept x = record {
    keeps = λ s h. returns record { safe = h.safe; tables = h.tables };
  }

  day2_limit-IsKept : (x : P.Real) → IsKept (modify (set_day2_limit x))
  day2_limit-IsKept x = record {
    keeps = λ s h. returns record { safe = h.safe; tables = h.tables };
  }

  pub set_config-IsKept : (q : Query) → IsKept (set_config q)
  unfolding set_config
  set_config-IsKept q =
      search (IsKept-if, IsKept-pure, chance_limit-IsKept, day1_limit-IsKept, day2_limit-IsKept)
        depth 9

  pub evented : (s : State) → Sound s → Sound (set_event_zones s)
  evented s h = record { safe = h.safe; tables = h.tables }

  zc_state-reads :
      (s : State) (zone : ℤ) (k : ℕ)
      → zone ≡ pos k
      → k ≤ s.zones
      → Sound s
      → (st : ZoneState) × (zc_state zone s ≡ done st s)
  unfolding zc_state
  zc_state-reads s zone k e hi h =
      let (z, at) = zone_exists s k h.safe.2.wiring hi in
      elim (Bool-cases (ltb_ℤ (pos 0) zone && leb_ℤ zone (pos s.zones))) [
        | inl inside ↦
            (if pin_is_on z s.board then zc_on else zc_off, rw (inside, e, zone_at-some s k z at))
        | inr outside ↦ (zc_off, rw outside)
      ]

  -- A request that names one of the zones.
  switch_zone-Sound :
      (s : State) (type : RunType) (zone runtime : ℤ)
      → is_all type ≡ false
      → is_none type ≡ false
      → ((k : ℕ) × (zone ≡ pos k) × (1 ≤ k) × (k ≤ s.zones))
      → Sound s
      → (value : Option Bool) (flip : Bool) → Keeps (switch_zone type zone runtime value flip s)
  unfolding switch_zone
  switch_zone-Sound s type zone runtime one some_type named h (some true) flip =
      Keeps-then _ (zc_zone-Sound s type zone zc_on runtime h (inr (one, some_type, named)))
        λ _ u k. returns k
  switch_zone-Sound s type zone runtime one some_type named h (some false) flip =
      Keeps-then _ (zc_zone-Sound s type zone zc_off runtime h (inr (one, some_type, named)))
        λ _ u k. returns k
  switch_zone-Sound s type zone runtime one some_type (k, e, lo, hi) h none true =
      let (st, read) = zc_state-reads s zone k e hi h in
      rw read (
        Keeps-then _
          (zc_zone-Sound s type zone (flipped st) runtime h (inr (one, some_type, (k, e, lo, hi))))
          λ _ u m. returns m)
  switch_zone-Sound s type zone runtime one some_type named h none false = returns h

  zone_answer-Sound :
      (zone : ℤ) (state : Text) (answer : Option Reply) (u : State)
      → Sound u
      → Keeps (zone_answer zone state answer u)
  unfolding zone_answer
  zone_answer-Sound zone state none u k = returns (evented u k)
  zone_answer-Sound zone state (some reply) u k = returns k

  pub serve_zone-Sound :
      (s : State) (type : RunType) (q : Query)
      → is_all type ≡ false
      → is_none type ≡ false
      → ltb_ℤ (pos 0) (zone_of q) ≡ true
      → Sound s
      → Keeps (serve_zone type q s)
  unfolding serve_zone
  serve_zone-Sound s type q one some_type positive h =
      elim (Bool-cases (leb_ℤ (zone_of q) (pos s.zones))) [
        | inl known ↦ rw known (
            Keeps-then _
              (switch_zone-Sound s type (zone_of q) (atoi (q.get_var (bytes "runtime"))) one
                some_type (in_bounds (zone_of q) s.zones positive known) h
                (is_value_on (q.get_var (bytes "state")))
                (is_value_flip (q.get_var (bytes "state"))))
              λ answer u k. zone_answer-Sound (zone_of q) (q.get_var (bytes "state")) answer u k)
        | inr unknown ↦ rw unknown (returns (evented s h))
      ]
