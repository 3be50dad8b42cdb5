-- ===== src/Zones/Zone.antt =====
-- `zc_zone`, request by request, where every pin answers.
use sprinkler_d.Prelude.{
  ℕ, ℤ, pos, negsuc, eqb_ℤ, ltb_ℤ, leb_ℤ, ◌≤◌, ◌≡◌, inl, inr, Bool, true, false, not, ◌&&◌, ◌||◌,
  Option, none, some, get_elem?, if◌then◌else◌, arith, Bool-cases, ==_refl,
}
use sprinkler_d.Platform.{Platform, Driver}
use sprinkler_d.State.{
  RunType, zc_none, ZoneState, zc_on, zc_off, Running, GpioCfg, State, done, Effect,
}
use sprinkler_d.Zones.Pins.{is_all, is_cron, is_on}
use sprinkler_d.Zones.Requests.{same_state, is_duplicate, run_length, turn_on, turn_off, zc_zone}
use sprinkler_d.Zones.Cycle.{zc_check}
use sprinkler_d.Zones.Panel.{is_zone, zone_at-some}
use sprinkler_d.Zones.Switches.{Shows, zone_exists}
use sprinkler_d.Zones.AllOff.{test_at}
use sprinkler_d.Zones.Safety.{active, Safe, RunsZone}
use sprinkler_d.Zones.OnOff.{
  started, Safe-Within, expired, turn_on-started, turn_off-idle, turn_off-check,
}

-- The rain delay or the calendar holds a request back.
abbrev pub is_held : RunType → ZoneState → Bool → Bool → Bool
is_held type state calendar delay24h = is_cron type && is_on state && (not calendar || delay24h)

in_range_at : (k n : ℕ) → 1 ≤ k → k ≤ n → (ltb_ℤ (pos 0) (pos k) && leb_ℤ (pos k) (pos n)) ≡ true
in_range_at k n lo hi = ground arith

pub no_hold : (t : RunType) (c d : Bool) → is_held t zc_off c d ≡ false
no_hold t c d = ground arith

module _ ⦃P : Platform⦄ ⦃D : Driver⦄ where
  is_duplicate_at :
      (s : State) (type : RunType) (k : ℕ) (state : ZoneState) (a : Option ℕ) (v : Bool)
      → Shows s s.board a v
      → 1 ≤ k
      → k ≤ s.zones
      → is_duplicate type (pos k) state s
        ≡ done (same_state (if is_zone a k then zc_on else zc_off) state) s
  unfolding is_duplicate
  is_duplicate_at s type k state a v p lo hi =
      let (z, at) = zone_exists s k p.wiring hi in
      rw (in_range_at k s.zones lo hi, zone_at-some s k z at, test_at s k z a v p lo hi at)

  -- A request for a zone that is so already changes nothing.
  pub zc_zone_duplicate :
      (s : State) (type : RunType) (k : ℕ) (state : ZoneState) (length : ℤ) (a : Option ℕ)
      (v : Bool)
      → Shows s s.board a v
      → 1 ≤ k
      → k ≤ s.zones
      → same_state (if is_zone a k then zc_on else zc_off) state ≡ true
      → zc_zone type (pos k) state length s ≡ done false s
  unfolding zc_zone
  zc_zone_duplicate s type k state length a v p lo hi same =
      rw (is_duplicate_at s type k state a v p lo hi, same)

  -- The minutes that a request for a zone means.
  abbrev pub minutes : GpioCfg → ℤ → ℤ
  minutes z length = if eqb_ℤ length (pos 0) then z.default_runtime else length

  pub run_length_at :
      (s : State) (k : ℕ) (z : GpioCfg) (length : ℤ)
      → get_elem? s.zonecfg k ≡ some z
      → run_length (pos k) length s ≡ done (minutes z length) s
  unfolding run_length
  run_length_at s k z length at = elim (Bool-cases (eqb_ℤ length (pos 0))) [
    | inl default ↦ rw (default, zone_at-some s k z at)
    | inr given ↦ rw given
  ]

  -- A request to turn on zone `k`, which is off.
  module _ (s : State) (k : ℕ) (h : Safe s s.current_zone s.board) (lo : 1 ≤ k) (hi : k ≤ s.zones)
      (off : is_zone (active s.current_zone) k ≡ false) (type : RunType) (one : is_all type ≡ false)
      (length : ℤ) (z : GpioCfg) (at : get_elem? s.zonecfg k ≡ some z) where
    pub zc_zone_held :
        is_held type zc_on s.calendar s.delay24h ≡ true
        → zc_zone type (pos k) zc_on length s ≡ done false s
    unfolding zc_zone
    zc_zone_held held =
        rw (is_duplicate_at s type k zc_on (active s.current_zone) _ h.2 lo hi, off, held)

    pub zc_zone_refused :
        is_held type zc_on s.calendar s.delay24h ≡ false
        → ltb_ℤ (pos 0) (minutes z length) ≡ false
        → zc_zone type (pos k) zc_on length s ≡ done false s
    unfolding zc_zone turn_on
    zc_zone_refused free none_left = rw (
      is_duplicate_at s type k zc_on (active s.current_zone) _ h.2 lo hi,
      off,
      free,
      one,
      run_length_at s k z length at,
      none_left,
    )

    -- A request for a zone that is off, which is not for all zones, is not held back by the
    -- calendar or the rain delay and means a positive number of minutes, returns true and leaves
    -- that zone on alone with the master valve, running from now for those minutes.
    pub zc_zone_starts :
        is_held type zc_on s.calendar s.delay24h ≡ false
        → ltb_ℤ (pos 0) (minutes z length) ≡ true
        → Effect s
            (λ r c b.
              (r ≡ true)
              × (c ≡ started type k (minutes z length) s.clock)
              × Shows s b (some k) true)
            (zc_zone type (pos k) zc_on length s)
    unfolding zc_zone
    zc_zone_starts free positive =
        rw
          (
            is_duplicate_at s type k zc_on (active s.current_zone) _ h.2 lo hi,
            off,
            free,
            one,
            run_length_at s k z length at,
          )
          (turn_on-started s type k (minutes z length) (active s.current_zone) _ h.2
            (Safe-Within s s.current_zone s.board h) off lo hi positive)

  -- A request to turn off zone `k`, which is on.
  module _ (s : State) (k : ℕ) (r : RunsZone s k) (type : RunType) (one : is_all type ≡ false)
      (length : ℤ) where
    zc_zone-turn_off : zc_zone type (pos k) zc_off length s ≡ turn_off (pos k) s
    unfolding zc_zone
    zc_zone-turn_off =
        let (z, at) = zone_exists s k r.shows.wiring r.hi in
        rw (
          is_duplicate_at s type k zc_off (some k) true r.shows r.lo r.hi,
          ==_refl k,
          no_hold type s.calendar s.delay24h,
          one,
          run_length_at s k z length at,
        )

    -- A request to turn off the running zone, which does not run in a run of all zones, returns
    -- true, makes no zone current and leaves every zone and the master valve off.
    pub zc_zone_stops :
        is_all s.current_zone.type ≡ false
        → Effect s
            (λ r' c b.
              (r' ≡ true)
              × (c ≡ record (s.current_zone) { type = zc_none; zone = negsuc 0 })
              × Shows s b none false)
            (zc_zone type (pos k) zc_off length s)
    zc_zone_stops alone = rw zc_zone-turn_off (turn_off-idle s k alone r.shows r.lo r.hi)

    pub zc_zone_moves_on :
        is_all s.current_zone.type ≡ true
        → {Q : Running → P.Board → Type 0}
        → Effect
            (record s { current_zone = expired s.current_zone })
            (λ _ c b. Q c b)
            (zc_check (record s { current_zone = expired s.current_zone }))
        → Effect s (λ r' c b. (r' ≡ true) × Q c b) (zc_zone type (pos k) zc_off length s)
    zc_zone_moves_on all check = rw zc_zone-turn_off (turn_off-check s (pos k) all check)
