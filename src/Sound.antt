-- ===== src/Sound.antt =====
-- The daemon's state as its handlers keep it: the zones, the pins and the current zone agree, and the
-- calendar has seven days with a run time for each zone.
use sprinkler_d.Prelude.{
  ℕ, zero, suc, ◌+◌, ℤ, pos, ◌+ℤ◌, ◌*ℤ◌, leb_ℤ, ltb_ℤ, negsuc, not, ◌&&◌, if◌then◌else◌, ◌≤◌, ◌≡◌,
  refl, sym, Bool, true, false, some, List, [], ◌∷◌, length, get_elem?, set, inl, inr, Bool-cases,
  arith,
}
use sprinkler_d.Platform.{Platform, Driver}
use sprinkler_d.State.{
  CalendarDay, DzCache, GpioCfg, RunType, ZoneState, zc_all, State, Run, Cmd, pure, modify, ◌>>◌,
  and_then, Saves-mono, Returns, returns, Effect, effect, Saves, saves,
}
use sprinkler_d.Zones.Requests.{zc_zone}
use sprinkler_d.Domoticz.Defs.{non_zone_dzids}
use sprinkler_d.Zones.Safety.{Safe}
use sprinkler_d.Zones.Invariant.{Asks, zc_zone-Safe}
use sprinkler_d.Rain.Defs.{
  delay24h_sec, enable_calendar, same, zero_rain, reaches, enable_delay24h, reset_delay24h_time,
  set_today_chance_of_rain, set_today_rain_total,
}
use sprinkler_d.Rain.Sensors.{asks_delay}
use sprinkler_d.Rain.Delay.{
  enable_delay24h_on, enable_delay24h_off, enable_delay24h_same, reset_delay24h_time-Saves,
}

-- Every day has a run time for each of the `n` zones.
abbrev pub AllDays : ℕ → List CalendarDay → Type 0
AllDays n [] = Unit {0}
AllDays n (d ∷ ds) = (length d.zruntimes ≡ n) × AllDays n ds

pub AllDays-at :
    (n : ℕ) (ds : List CalendarDay) (i : ℕ) (d : CalendarDay)
    → AllDays n ds
    → get_elem? ds i ≡ some d
    → length d.zruntimes ≡ n
AllDays-at n [] i d h e = cc
AllDays-at n (x ∷ ds) zero d (h, rest) e = let same : x ≡ d = cc in rw (sym same) h
AllDays-at n (x ∷ ds) (suc i) d (h, rest) e = AllDays-at n ds i d rest e

pub AllDays-set :
    (n : ℕ) (ds : List CalendarDay) (i : ℕ) (d : CalendarDay)
    → AllDays n ds
    → length d.zruntimes ≡ n
    → AllDays n (set ds i d)
AllDays-set n [] i d h e = tt
AllDays-set n (x ∷ ds) zero d (h, rest) e = (e, rest)
AllDays-set n (x ∷ ds) (suc i) d (h, rest) e = (h, AllDays-set n ds i d rest e)

-- What the handlers rely on in the arrays: a calendar of seven days with a run time for each of the `n`
-- zones, each zone from 1 on with its own number, and a Domoticz cache with an entry for each zone and each of
-- the other switches.
pub record Tables (n : ℕ) (zs : List GpioCfg) (ds : List CalendarDay) (cache : List DzCache)
    : Type 0 where
  pub week : length ds ≡ 7
  pub days : AllDays n ds
  pub numbered : (i : ℕ) (z : GpioCfg) → 1 ≤ i → get_elem? zs i ≡ some z → z.zone ≡ pos i
  pub cached : n + non_zone_dzids ≤ length cache

module _ ⦃P : Platform⦄ ⦃D : Driver⦄ where
  pub record Sound (s : State) : Type 0 where
    pub safe : Safe s s.current_zone s.board
    pub tables : Tables s.zones s.zonecfg s.cron s.dz_cache

  -- A command ends at no fault and leaves the state sound.
  abbrev pub Keeps : {A : Type 0} → Run A → Type 0
  Keeps r = Returns (λ _ u. Sound u) r

  pub Sound-Effect :
      {A : Type 0} {s : State} {r : Run A}
      → Tables s.zones s.zonecfg s.cron s.dz_cache
      → Effect s (λ _ c b. Safe s c b) r
      → Keeps r
  Sound-Effect tables (effect a c b e q) = returns (record { safe = q; tables = tables })

  pub Sound-Saves :
      {A : Type 0} {s : State} {r : Run A}
      → Tables s.zones s.zonecfg s.cron s.dz_cache
      → Saves s (λ _ c b. Safe s c b) r
      → Keeps r
  Sound-Saves tables (saves a c b e f q) = returns (record { safe = q; tables = tables })

  -- A handler's next command, after one that keeps the state sound.
  pub Keeps-then :
      {A B : Type 0} {r : Run A} (k : A → Cmd B)
      → Keeps r
      → ((a : A) (s : State) → Sound s → Keeps (k a s))
      → Keeps (and_then r k)
  Keeps-then k (returns h) next = next _ _ h

  pub zc_zone-Sound :
      (s : State) (type : RunType) (zone : ℤ) (state : ZoneState) (length : ℤ)
      → Sound s
      → Asks s.zones type zone
      → Keeps (zc_zone type zone state length s)
  zc_zone-Sound s type zone state length h asks =
      Sound-Effect h.tables (zc_zone-Safe s type zone state length h.safe asks)

  pub enable_delay24h-Sound : (s : State) (state : Bool) → Sound s → Keeps (enable_delay24h state s)
  enable_delay24h-Sound s true h = elim (Bool-cases s.delay24h) [
    | inl on ↦ rw (enable_delay24h_same s true on) (returns h)
    | inr off ↦ Sound-Saves h.tables (Saves-mono (enable_delay24h_on s h.safe off) (λ r c b q. q.0))
  ]
  enable_delay24h-Sound s false h = elim (Bool-cases s.delay24h) [
    | inl on ↦ Sound-Saves h.tables (
        Saves-mono (enable_delay24h_off s h.safe.2.wiring.size on)
          (λ r c b (ec, eb). rw (ec, eb) h.safe))
    | inr off ↦ rw (enable_delay24h_same s false off) (returns h)
  ]

  pub reset_delay24h_time-Sound :
      (s : State) (dtime : ℤ) → Sound s → Keeps (reset_delay24h_time dtime s)
  reset_delay24h_time-Sound s dtime h =
      Sound-Saves h.tables (Saves-mono (reset_delay24h_time-Saves s dtime h.safe) (λ r c b q. q.0))

  pub enable_calendar-Sound : (s : State) (state : Bool) → Sound s → Sound (enable_calendar state s)
  unfolding enable_calendar
  enable_calendar-Sound s state h = elim (Bool-cases (same s.calendar state)) [
    | inl e ↦ rw e h
    | inr e ↦ rw e (record { safe = h.safe; tables = h.tables })
  ]

  pub set_today_chance_of_rain-Sound :
      (s : State) (percent : ℤ) → Sound s → Keeps (set_today_chance_of_rain percent s)
  unfolding set_today_chance_of_rain
  set_today_chance_of_rain-Sound s percent h =
      elim (Bool-cases (leb_ℤ percent (pos 100) && leb_ℤ (pos 0) percent)) [
        | inr bad ↦ rw bad (returns h)
        | inl good ↦ rw good (delayed (asks_delay percent s))
      ]
    where
      t : State
      t = record s {
        update_event_mask = record (s.update_event_mask) { rain_probability = true };
        today_rain_chance = percent;
      }

      sound : Sound t
      sound = record { safe = h.safe; tables = h.tables }

      delayed :
          (delay : Bool)
          → Keeps (
              ((if delay then reset_delay24h_time (pos 0) else enable_delay24h false) >> pure true)
                t)
      delayed true = Keeps-then _ (reset_delay24h_time-Sound t (pos 0) sound) (λ _ u k. returns k)
      delayed false = Keeps-then _ (enable_delay24h-Sound t false sound) (λ _ u k. returns k)

  pub set_today_rain_total-Sound :
      (s : State) (rain : P.Real) → Sound s → Keeps (set_today_rain_total rain s)
  unfolding set_today_rain_total
  set_today_rain_total-Sound s rain h =
      elim (Bool-cases (P.real_eqb s.today_rain_total rain && not (P.real_eqb rain zero_rain))) [
        | inl same_rain ↦ rw same_rain (returns h)
        | inr new ↦
            rw new (
              delayed (reaches rain s.precip_inch_delay2day) (reaches rain s.precip_inch_delay1day))
      ]
    where
      t : State
      t = record s {
        today_rain_total = rain;
        update_event_mask = record (s.update_event_mask) { rain_total = true };
      }

      sound : Sound t
      sound = record { safe = h.safe; tables = h.tables }

      delayed :
          (two one : Bool)
          → Keeps (
              ((if two
                    then reset_delay24h_time (s.clock +ℤ delay24h_sec *ℤ pos 2)
                    else if one
                    then reset_delay24h_time (s.clock +ℤ delay24h_sec)
                    else pure tt)
                  >> pure true)
                t)
      delayed true one = Keeps-then _ (reset_delay24h_time-Sound t _ sound) (λ _ u k. returns k)
      delayed false true = Keeps-then _ (reset_delay24h_time-Sound t _ sound) (λ _ u k. returns k)
      delayed false false = returns sound

  -- A handler that keeps the state sound.
  pub record IsKept {A : Type 0} (m : Cmd A) : Type 0 where
    pub keeps : (s : State) → Sound s → Keeps (m s)

  pub IsKept-if :
      {A : Type 0} (b : Bool) (x y : Cmd A) → IsKept x → IsKept y → IsKept (if b then x else y)
  IsKept-if true x y left right = left
  IsKept-if false x y left right = right

  pub IsKept-pure : {A : Type 0} (a : A) → IsKept (pure a)
  IsKept-pure a = record { keeps = λ s h. returns h }

  pub IsKept-then : {A B : Type 0} (m : Cmd A) (n : Cmd B) → IsKept m → IsKept n → IsKept (m >> n)
  IsKept-then m n first next = record {
    keeps = λ s h. Keeps-then _ (first.keeps s h) λ _ u k. next.keeps u k;
  }

  pub enable_calendar-IsKept : (b : Bool) → IsKept (modify (enable_calendar b))
  enable_calendar-IsKept b = record { keeps = λ s h. returns (enable_calendar-Sound s b h) }

  pub enable_delay24h-IsKept : (b : Bool) → IsKept (enable_delay24h b)
  enable_delay24h-IsKept b = record { keeps = λ s h. enable_delay24h-Sound s b h }

  pub reset_delay24h_time-IsKept : (dtime : ℤ) → IsKept (reset_delay24h_time dtime)
  reset_delay24h_time-IsKept dtime = record { keeps = λ s h. reset_delay24h_time-Sound s dtime h }

  pub set_today_chance_of_rain-IsKept : (n : ℤ) → IsKept (set_today_chance_of_rain n)
  set_today_chance_of_rain-IsKept n = record { keeps = λ s h. set_today_chance_of_rain-Sound s n h }

  pub set_today_rain_total-IsKept : (x : P.Real) → IsKept (set_today_rain_total x)
  set_today_rain_total-IsKept x = record { keeps = λ s h. set_today_rain_total-Sound s x h }

  pub cycle_all-IsKept : (state : ZoneState) → IsKept (zc_zone zc_all (pos 0) state (pos 0))
  cycle_all-IsKept state = record {
    keeps = λ s h. zc_zone-Sound s zc_all (pos 0) state (pos 0) h (inl (refl, refl));
  }

-- A zone that passes both tests of the handlers is one of the zones.
pub in_bounds :
    (zone : ℤ) (n : ℕ)
    → ltb_ℤ (pos 0) zone ≡ true
    → leb_ℤ zone (pos n) ≡ true
    → (k : ℕ) × (zone ≡ pos k) × (1 ≤ k) × (k ≤ n)
in_bounds (pos k) n lo hi = (k, refl, ground arith, ground arith)
in_bounds (negsuc k) n lo hi = absurd (ground arith)
