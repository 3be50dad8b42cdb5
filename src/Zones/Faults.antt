-- ===== src/Zones/Faults.antt =====
-- Where the zone control goes wrong: requests and failures that its callers do not keep out.
use sprinkler_d.Prelude.{
  ℕ, zero, suc, List, [], ◌∷◌, ltb_ℤ, ℤ, pos, negsuc, eqb_ℤ, leb_ℤ, ◌≡◌, refl, sym, ◌∙◌, Bool, true,
  false, ◌&&◌, none, some, get_elem?, length, arith,
}
use sprinkler_d.Platform.{Platform, Driver}
use sprinkler_d.State.{
  RunType, zc_none, ZoneState, zc_off, State, done, fault, and_then, Effect, effect, Acts-then, ran,
  zone_at, set_event_zones,
}
use sprinkler_d.Zones.Pins.{is_all, zc_stop}
use sprinkler_d.Zones.Cycle.{next_zone, start_next_zone, zc_update_runtime}
use sprinkler_d.Zones.Requests.{zc_zone, is_duplicate, turn_off}
use sprinkler_d.Zones.Panel.{lit_at, zone_at-some}
use sprinkler_d.Zones.Switches.{Shows, zone_exists, zc_master-Shows}
use sprinkler_d.Zones.Safety.{RunsZone}
use sprinkler_d.Zones.Zone.{is_held, run_length_at, no_hold}

module _ ⦃P : Platform⦄ where
  negative : (m : ℕ) (b : Bool) → (ltb_ℤ (pos 0) (negsuc m) && b) ≡ false
  negative m b = ground arith

  no_duplicate :
      (s : State) (type : RunType) (m : ℕ) (state : ZoneState)
      → is_all type ≡ false
      → is_duplicate type (negsuc m) state s ≡ done false s
  unfolding is_duplicate
  no_duplicate s type m state one = rw (negative m (leb_ℤ (negsuc m) (pos s.zones)), one)

  -- A request that is not for all zones, is not held back and has a negative zone and no run time
  -- reads in front of the array of zones.
  pub zc_zone_negative :
      (s : State) (type : RunType) (m : ℕ) (state : ZoneState)
      → is_all type ≡ false
      → is_held type state s.calendar s.delay24h ≡ false
      → zc_zone type (negsuc m) state (pos 0) s ≡ fault
  unfolding zc_zone zone_at
  zc_zone_negative s type m state one free = rw (no_duplicate s type m state one, free, one)

  past_end : {A : Type 0} (n : ℕ) (cfg : List A) → length cfg ≡ n → get_elem? cfg n ≡ none
  past_end zero [] e = refl
  past_end (suc n) [] e = refl
  past_end (suc n) (z ∷ cfg) e = past_end n cfg (omega arith)
  past_end zero (z ∷ cfg) e = absurd (omega arith)

  no_zone : (s : State) → length s.zonecfg ≡ suc s.zones → zone_at (pos (suc s.zones)) s ≡ fault
  unfolding zone_at
  no_zone s size = rw (past_end (suc s.zones) s.zonecfg size, zone_at)

  overrun :
      (s : State) (rounds : ℕ)
      → length s.zonecfg ≡ suc s.zones
      → next_zone (suc rounds) (suc s.zones) s ≡ fault
  unfolding next_zone
  overrun s rounds size = rw (no_zone s size)

  -- Where the zones are all configured, a search for the zone after the last reads behind the
  -- array of zones.
  pub start_next_zone_overrun :
      (s : State) (fuel : ℕ)
      → length s.zonecfg ≡ suc s.zones
      → start_next_zone (suc fuel) s.zones s ≡ fault
  unfolding start_next_zone
  start_next_zone_overrun s fuel size = rw (overrun (set_event_zones s) s.zones size, and_then)

  not_below : (n : ℕ) (a b : Bool) → (a && ltb_ℤ (pos n) (pos n) && b) ≡ false
  not_below n true b = ground arith
  not_below n false b = refl

  -- For the last zone, whatever runs, zc_update_runtime changes nothing but the event mask: a new
  -- run time does not reach the running time.
  pub zc_update_runtime_last :
      (s : State) → zc_update_runtime (pos s.zones) s ≡ done tt (set_event_zones s)
  unfolding zc_update_runtime
  zc_update_runtime_last s =
      rw (not_below s.zones (ltb_ℤ (pos 0) (pos s.zones)) (eqb_ℤ (pos s.zones) s.current_zone.zone))

  module _ ⦃D : Driver⦄ where
    stop_master :
        (s : State) (k : ℕ)
        → Shows s s.board (some k) false
        → s.master_valve ≡ true
        → zc_stop (pos 0) s ≡ done false s
    unfolding zc_stop
    stop_master s k p fitted =
        let (z, at) = zone_exists s 0 p.wiring (omega arith) in
        rw (zone_at-some s 0 z at, sym (lit_at s.zonecfg s.board 0 z at) ∙ p.master_lit fitted)

    -- While a zone runs by itself and a master valve is fitted, a request to turn zone 0 off
    -- returns true, closes the master valve and forgets the running zone, whose own valve stays
    -- open.
    pub zc_zone_master_off :
        (s : State) (k : ℕ) (type : RunType) (length : ℤ)
        → RunsZone s k
        → s.master_valve ≡ true
        → is_all type ≡ false
        → is_all s.current_zone.type ≡ false
        → Effect s
            (λ r c b. (r ≡ true) × (c.type ≡ zc_none) × Shows s b (some k) false)
            (zc_zone type (pos 0) zc_off length s)
    unfolding zc_zone turn_off
    zc_zone_master_off s k type length r fitted one alone =
        let (z, at) = zone_exists s 0 r.shows.wiring (omega arith) in
        rw (one, no_hold type s.calendar s.delay24h, run_length_at s 0 z length at, alone)
          (Acts-then _ (zc_master-Shows s zc_off (some k) true r.shows) λ _ b e q.
            rw (stop_master (ran s s.current_zone b e) k q fitted) (effect _ _ _ _ (refl, refl, q)))
