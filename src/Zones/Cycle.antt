-- ===== src/Zones/Cycle.antt =====
-- zone_ctrl.c: starting the next zone of a run of all zones, and the check that ends a zone whose
-- time is up.
use sprinkler_d.Prelude.{
  ℕ, zero, suc, ℤ, pos, negsuc, leb_ℤ, ltb_ℤ, eqb_ℤ, Bool, true, false, not, ◌&&◌, ◌||◌, Option,
  none, some, if◌then◌else◌, ltb,
}
use sprinkler_d.Platform.{Platform, valid_gpio}
use sprinkler_d.State.{
  zc_none, zc_on, zc_off, GpioCfg, Cmd, fault, out_of_fuel, pure, gets, modify, ◌>>=◌, ◌>>◌,
  zone_at, set_event_zones,
}
use sprinkler_d.Zones.Pins.{is_none, is_all, calc_timeleft, zc_start, zc_stop, zc_master}

-- The `while` condition of `start_next_zone`: the zone is passed over.
unfoldable pub skips : GpioCfg → Bool
unfolding valid_gpio
skips z = leb_ℤ z.default_runtime (pos 0) || not (valid_gpio z.pin)

module _ ⦃P : Platform⦄ where
  -- The `while` loop: the next zone to start, or none when `zone` goes past the last.
  unfoldable pub next_zone : ℕ → ℕ → Cmd (Option ℕ)
  next_zone zero zone = λ s. out_of_fuel
  next_zone (suc fuel) zone = do
    z ← zone_at (pos zone)
    last ← gets (λ s. s.zones)
    elim (skips z) [
      | true ↦ elim (ltb last (suc zone)) [ true ↦ pure none | false ↦ next_zone fuel (suc zone) ]
      | false ↦ pure (some zone)
    ]

  -- No zones left to run.
  unfoldable pub end_cycle : Cmd ℤ
  end_cycle = do
    modify (λ s. record s {
      current_zone = record (s.current_zone) { type = zc_none; zone = negsuc 0; timeleft = pos 0 };
    })
    zc_master zc_off
    pure (negsuc 0)

  -- The zone has started: open the master valve and start its time.
  unfoldable pub begin_zone : ℕ → Cmd ℤ
  begin_zone zone = do
    modify (λ s. record s { current_zone = record (s.current_zone) { zone = pos zone } })
    zc_master zc_on
    z ← zone_at (pos zone)
    modify (λ s. calc_timeleft (record s {
      current_zone = record (s.current_zone) {
        started_time = s.clock;
        duration = z.default_runtime;
      };
    }))
    pure (pos zone)

  -- What `start_next_zone` does with the zone that it found; `again` is its call for itself, after a
  -- zone that does not start.
  unfoldable pub start_found : (ℕ → Cmd ℤ) → Option ℕ → Cmd ℤ
  unfolding end_cycle begin_zone
  start_found again none = end_cycle
  start_found again (some zone) = do
    started ← zc_start (pos zone)
    elim started [ true ↦ begin_zone zone | false ↦ again zone ]

  -- The call for itself takes fuel, as the loop does.
  unfoldable pub start_next_zone : ℕ → ℕ → Cmd ℤ
  unfolding next_zone start_found
  start_next_zone zero startz = λ s. out_of_fuel
  start_next_zone (suc fuel) startz = do
    modify set_event_zones
    rounds ← gets (λ s. suc s.zones)
    next ← next_zone rounds (suc startz)
    start_found (start_next_zone fuel) next

  -- A zone of an array index; `zc_check` has read `zonecfg` there before.
  abbrev pub array_index : ℤ → Cmd ℕ
  array_index (pos n) = pure n
  array_index (negsuc n) = λ s. fault

  -- The time of the running zone is up: on to the next of all zones.
  unfoldable pub finish_zone : Cmd (Unit {0})
  finish_zone = do
    zone ← gets (λ s. s.current_zone.zone)
    zc_stop zone
    startz ← array_index zone
    fuel ← gets (λ s. suc s.zones)
    start_next_zone fuel startz
    pure tt

  -- Turn everything off.
  unfoldable pub finish_run : Cmd (Unit {0})
  finish_run = do
    zc_master zc_off
    zone ← gets (λ s. s.current_zone.zone)
    zc_stop zone
    modify (λ s. record s {
      current_zone = record (s.current_zone) { type = zc_none; zone = negsuc 0; timeleft = pos 0 };
    })

  unfoldable pub zc_check : Cmd Bool
  unfolding calc_timeleft finish_zone finish_run
  zc_check = do
    type ← gets (λ s. s.current_zone.type)
    if is_none type then pure false else do
      modify calc_timeleft
      c ← gets (λ s. s.current_zone)
      n ← gets (λ s. s.zones)
      if leb_ℤ c.timeleft (pos 0)
          then (if is_all c.type && ltb_ℤ c.zone (pos n) then finish_zone else finish_run)
            >> pure true
          else pure false

  unfoldable pub zc_update_runtime : ℤ → Cmd (Unit {0})
  zc_update_runtime zone = do
    n ← gets (λ s. s.zones)
    running ← gets (λ s. s.current_zone.zone)
    if ltb_ℤ (pos 0) zone && ltb_ℤ zone (pos n) && eqb_ℤ zone running
        then (do
          z ← zone_at zone
          modify (λ s. record s {
            current_zone = record (s.current_zone) { duration = z.default_runtime };
          }))
        else pure tt
    modify set_event_zones
