-- ===== src/Zones/Invariant.antt =====
-- Every request of the zone control, of whatever kind and whether it is granted or not, keeps the pins in
-- agreement with the current zone.
use sprinkler_d.Prelude.{
  ℕ, ℤ, pos, negsuc, ltb_ℤ, ◌≤◌, ◌≡◌, refl, sym, ◌∙◌, ap, subst, inl, inr, ◌⊎◌, true, false, Option,
  none, arith, Bool-cases, ==_iff,
}
use sprinkler_d.Platform.{Platform, Driver}
use sprinkler_d.State.{
  RunType, zc_none, zc_single, zc_all, ZoneState, zc_on, zc_off, Running, State, done, Effect,
  effect, Effect-mono, Effect-then,
}
use sprinkler_d.Zones.Pins.{is_none, is_all, is_cron, is_on}
use sprinkler_d.Zones.Requests.{cycle_all, zc_zone, zc_rain_delay_enabled}
use sprinkler_d.Zones.Panel.{is_zone}
use sprinkler_d.Zones.Switches.{Shows, zone_exists}
use sprinkler_d.Zones.Progress.{IsNext}
use sprinkler_d.Zones.Safety.{
  active, active_running, active_idle, Safe, RunsZone, Safe-RunsZone, Safe-idle, Safe-running,
}
use sprinkler_d.Zones.Check.{zc_check-Safe}
use sprinkler_d.Zones.OnOff.{expired}
use sprinkler_d.Zones.CycleAll.{Cycled, Cycled-Safe, cycle_all_on, cycle_all_off}
use sprinkler_d.Zones.Zone.{
  is_held, minutes, zc_zone_duplicate, zc_zone_held, zc_zone_refused, zc_zone_starts, zc_zone_stops,
  zc_zone_moves_on,
}

-- A request that the daemon's callers may make: all zones, or one of the zones.
abbrev pub Asks : ℕ → RunType → ℤ → Type 0
Asks n type zone =
    ((type ≡ zc_all) × (zone ≡ pos 0))
    ⊎ ((is_all type ≡ false)
        × (is_none type ≡ false)
        × ((k : ℕ) × (zone ≡ pos k) × (1 ≤ k) × (k ≤ n)))

positive : (zone : ℤ) (k : ℕ) → zone ≡ pos k → 1 ≤ k → ltb_ℤ (pos 0) zone ≡ true
positive zone k at h = rw at (ground arith)

module _ ⦃P : Platform⦄ ⦃D : Driver⦄ where
  zc_zone_all_refused :
      (s : State) (state : ZoneState) (length : ℤ)
      → is_all s.current_zone.type ≡ is_on state
      → zc_zone zc_all (pos 0) state length s ≡ done false s
  unfolding zc_zone
  zc_zone_all_refused s zc_on length e = rw e
  zc_zone_all_refused s zc_off length e = rw e

  zc_zone_all_granted_on :
      (s : State) (length : ℤ)
      → is_all s.current_zone.type ≡ false
      → zc_zone zc_all (pos 0) zc_on length s ≡ cycle_all zc_on s
  unfolding zc_zone
  zc_zone_all_granted_on s length e = rw e

  zc_zone_all_granted_off :
      (s : State) (length : ℤ)
      → is_all s.current_zone.type ≡ true
      → zc_zone zc_all (pos 0) zc_off length s ≡ cycle_all zc_off s
  unfolding zc_zone
  zc_zone_all_granted_off s length e = rw e

  -- From a state whose pins agree with the current zone and that is not a run of all zones, the
  -- request to run all zones turns off whatever ran and starts the least zone that has a run time
  -- and a valid pin, alone and with the master valve, for that run time, or leaves everything off
  -- where there is none.
  pub zc_zone_all_on :
      (s : State) (length : ℤ)
      → Safe s s.current_zone s.board
      → is_all s.current_zone.type ≡ false
      → Effect s
          (λ r c b. (r ≡ true) × ((o : Option ℕ) × IsNext s.zonecfg s.zones 1 o × Cycled s o c b))
          (zc_zone zc_all (pos 0) zc_on length s)
  zc_zone_all_on s length h e = rw (zc_zone_all_granted_on s length e) (cycle_all_on s h)

  -- From a state whose pins agree with the current zone, the request to end a run of all zones
  -- returns true, leaves every zone and the master valve off, and changes of the current zone only
  -- the type, to none.
  pub zc_zone_all_off :
      (s : State) (length : ℤ)
      → Safe s s.current_zone s.board
      → is_all s.current_zone.type ≡ true
      → Effect s
          (λ r c b.
            (r ≡ true) × (c ≡ record (s.current_zone) { type = zc_none }) × Shows s b none false)
          (zc_zone zc_all (pos 0) zc_off length s)
  zc_zone_all_off s length h e = rw (zc_zone_all_granted_off s length e) (cycle_all_off s h)

  all-Safe :
      (s : State) (state : ZoneState) (length : ℤ)
      → Safe s s.current_zone s.board
      → Effect s (λ _ c b. Safe s c b) (zc_zone zc_all (pos 0) state length s)
  all-Safe s zc_on length h = elim (Bool-cases (is_all s.current_zone.type)) [
    | inl e ↦ rw (zc_zone_all_refused s zc_on length e) (effect _ _ _ _ h)
    | inr e ↦
        Effect-mono (zc_zone_all_on s length h e)
          (λ r c b (_, (o, next, cyc)). Cycled-Safe s o c b h.0 next cyc)
  ]
  all-Safe s zc_off length h = elim (Bool-cases (is_all s.current_zone.type)) [
    | inl e ↦
        Effect-mono (zc_zone_all_off s length h e)
          (λ r c b (_, ec, p). Safe-idle s c b h.0 (rw ec) p)
    | inr e ↦ rw (zc_zone_all_refused s zc_off length e) (effect _ _ _ _ h)
  ]

  -- The zone that is on is the running one.
  lit-RunsZone :
      (s : State) (k : ℕ)
      → Safe s s.current_zone s.board
      → is_zone (active s.current_zone) k ≡ true
      → RunsZone s k
  lit-RunsZone s k h on = elim (Bool-cases (is_none s.current_zone.type)) [
    | inl idle ↦
        absurd (let e = active_idle s.current_zone idle in ground (arith, ap (λ o. is_zone o k) e))
    | inr running ↦
        let (j, z) = Safe-RunsZone s h running in
        let e = active_running s.current_zone j running z.at in
        subst (RunsZone s) ((==_iff j k).0 (sym (ap (λ o. is_zone o k) e) ∙ on)) z
  ]

  single-Safe :
      (s : State) (type : RunType) (k : ℕ) (state : ZoneState) (length : ℤ)
      → Safe s s.current_zone s.board
      → is_all type ≡ false
      → is_none type ≡ false
      → 1 ≤ k
      → k ≤ s.zones
      → Effect s (λ _ c b. Safe s c b) (zc_zone type (pos k) state length s)
  single-Safe s type k zc_on length h one some_type lo hi =
      elim (Bool-cases (is_zone (active s.current_zone) k)) [
        | inl on ↦
            rw (zc_zone_duplicate s type k zc_on length (active s.current_zone) _ h.2 lo hi (rw on))
              (effect _ _ _ _ h)
        | inr off ↦
            let (z, at) = zone_exists s k h.2.wiring hi in
            elim (Bool-cases (is_held type zc_on s.calendar s.delay24h)) [
              | inl held ↦
                  rw (zc_zone_held s k h lo hi off type one length z at held) (effect _ _ _ _ h)
              | inr free ↦ elim (Bool-cases (ltb_ℤ (pos 0) (minutes z length))) [
                | inl positive ↦
                    Effect-mono (zc_zone_starts s k h lo hi off type one length z at free positive)
                      (λ r c b (_, e, p). Safe-running s c b k (rw e some_type) (rw e) lo hi p)
                | inr zero_left ↦
                    rw (zc_zone_refused s k h lo hi off type one length z at free zero_left)
                      (effect _ _ _ _ h)
              ]
            ]
      ]
  single-Safe s type k zc_off length h one some_type lo hi =
      elim (Bool-cases (is_zone (active s.current_zone) k)) [
        | inl on ↦
            let r = lit-RunsZone s k h on in
            elim (Bool-cases (is_all s.current_zone.type)) [
              | inl all ↦
                  Effect-mono
                    (zc_zone_moves_on s k r type one length all
                      (zc_check-Safe (record s { current_zone = expired s.current_zone }) h))
                    (λ r' c b (_, safe). safe)
              | inr alone ↦
                  Effect-mono (zc_zone_stops s k r type one length alone)
                    (λ r' c b (_, e, p). Safe-idle s c b h.0 (rw e) p)
            ]
        | inr off ↦
            rw
              (zc_zone_duplicate s type k zc_off length (active s.current_zone) _ h.2 lo hi
                (rw off))
              (effect _ _ _ _ h)
      ]

  -- Whatever a caller may ask of zc_zone for all zones or one of the zones, in whatever state
  -- whose pins agree with the current zone, the request ends without an access outside an array,
  -- changes only the current zone, the pins and the event mask, and leaves the running zone on
  -- alone with the master valve, or everything off where nothing runs.
  pub zc_zone-Safe :
      (s : State) (type : RunType) (zone : ℤ) (state : ZoneState) (length : ℤ)
      → Safe s s.current_zone s.board
      → Asks s.zones type zone
      → Effect s (λ _ c b. Safe s c b) (zc_zone type zone state length s)
  zc_zone-Safe s type zone state length h (inl (all, e)) = rw (all, e) (all-Safe s state length h)
  zc_zone-Safe s type zone state length h (inr (one, some_type, (k, e, lo, hi))) =
      rw e (single-Safe s type k state length h one some_type lo hi)

  -- Nothing that cron started runs.
  abbrev pub NoCron : Running → Type 0
  NoCron c = is_cron c.type ≡ false

  cron_one : (t : RunType) → is_cron t ≡ true → is_all t ≡ false
  cron_one t h = ground arith

  cron_some : (t : RunType) → is_cron t ≡ true → is_none t ≡ false
  cron_some t h = ground arith

  stops_at :
      (s : State) (k : ℕ)
      → RunsZone s k
      → (zone : ℤ) → zone ≡ pos k
      → is_all s.current_zone.type ≡ false
      → Effect s
          (λ r c b.
            (r ≡ true)
            × (c ≡ record (s.current_zone) { type = zc_none; zone = negsuc 0 })
            × Shows s b none false)
          (zc_zone zc_single zone zc_off (pos 0) s)
  stops_at s k r zone at alone = rw at (zc_zone_stops s k r zc_single refl (pos 0) alone)

  -- The rain delay's call turns off the zone that cron started, with the master valve.
  pub zc_rain_delay_enabled_cron :
      (s : State)
      → Safe s s.current_zone s.board
      → is_cron s.current_zone.type ≡ true
      → Effect s
          (λ _ c b.
            (c ≡ record (s.current_zone) { type = zc_none; zone = negsuc 0 })
            × Shows s b none false)
          (zc_rain_delay_enabled s)
  unfolding zc_rain_delay_enabled
  zc_rain_delay_enabled_cron s h cron =
      let (k, r) = Safe-RunsZone s h (cron_some s.current_zone.type cron) in
      rw (cron, positive s.current_zone.zone k r.at r.lo)
        (Effect-then _ (stops_at s k r s.current_zone.zone r.at (cron_one s.current_zone.type cron))
          λ a c b e (_, ec, p). effect _ _ _ _ (ec, p))

  -- It leaves a zone that was started by hand, or in a run of all zones, as it is.
  pub zc_rain_delay_enabled_other :
      (s : State) → is_cron s.current_zone.type ≡ false → zc_rain_delay_enabled s ≡ done tt s
  unfolding zc_rain_delay_enabled
  zc_rain_delay_enabled_other s other = rw other

  -- Where the pins agree with the current zone, the rain delay's call of the zone control leaves
  -- no zone running that cron started and keeps the pins in agreement with the current zone.
  pub zc_rain_delay_enabled-Safe :
      (s : State)
      → Safe s s.current_zone s.board
      → Effect s (λ _ c b. Safe s c b × NoCron c) (zc_rain_delay_enabled s)
  zc_rain_delay_enabled-Safe s h = elim (Bool-cases (is_cron s.current_zone.type)) [
    | inl cron ↦
        Effect-mono (zc_rain_delay_enabled_cron s h cron)
          (λ r c b (e, p). (Safe-idle s c b h.0 (rw e) p, rw e))
    | inr other ↦ rw (zc_rain_delay_enabled_other s other) (effect _ _ _ _ (h, other))
  ]
