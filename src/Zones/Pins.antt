-- ===== src/Zones/Pins.antt =====
-- zone_ctrl.c: the state of a zone's pin, and turning one zone or the master valve on or off.
use sprinkler_d.Prelude.{
  ℤ, pos, negsuc, ◌-ℤ◌, ◌*ℤ◌, ltb_ℤ, leb_ℤ, eqb_ℤ, Bool, true, false, not, ◌&&◌, if◌then◌else◌,
}
use sprinkler_d.Platform.{Platform, gpio_ok}
use sprinkler_d.State.{
  RunType, zc_none, zc_all, zc_cron, ZoneState, zc_on, zc_off, GpioCfg, sec2min, State, Cmd, done,
  pure, gets, ◌>>=◌, ◌>>◌, and_then, zone_at, set_event_zones,
}

abbrev pub is_none : RunType → Bool
is_none zc_none = true
is_none _ = false

abbrev pub is_all : RunType → Bool
is_all zc_all = true
is_all _ = false

abbrev pub is_cron : RunType → Bool
is_cron zc_cron = true
is_cron _ = false

abbrev pub is_on : ZoneState → Bool
is_on zc_on = true
is_on zc_off = false

-- `!x`
abbrev pub lnot : ℤ → ℤ
lnot x = if eqb_ℤ x (pos 0) then pos 1 else pos 0

module _ ⦃P : Platform⦄ where
  -- `on_state == digitalRead(pin)`
  unfoldable pub pin_is_on : GpioCfg → P.Board → Bool
  pin_is_on z b = eqb_ℤ z.on_state (P.digital_read b z.pin)

  unfoldable pub calc_timeleft : State → State
  calc_timeleft s = record s { current_zone = record c { timeleft = left } }
    where
      open s use {current_zone as c}

      left : ℤ
      left =
          if eqb_ℤ c.zone (negsuc 0)
          then pos 0
          else c.duration *ℤ sec2min -ℤ (s.clock -ℤ c.started_time)

  unfoldable pub zc_state : ℤ → Cmd ZoneState
  unfolding zone_at pin_is_on
  zc_state zone s =
      if ltb_ℤ (pos 0) zone && leb_ℤ zone (pos s.zones)
      then and_then (zone_at zone s)
          (λ z s'. done (if pin_is_on z s'.board then zc_on else zc_off) s')
      else done zc_off s

  -- The `digitalWrite` of `zc_start` and `zc_stop`, and the event that follows it.
  unfoldable pub write_pin : GpioCfg → ℤ → Cmd Bool
  write_pin z level s =
      let (b, code) = P.digital_write s.board z.pin level in
      done (eqb_ℤ code gpio_ok) (set_event_zones (record s { board = b }))

  unfoldable pub zc_start : ℤ → Cmd Bool
  unfolding zone_at pin_is_on write_pin
  zc_start zone = do
    z ← zone_at zone
    on ← gets (λ s. pin_is_on z s.board)
    if on then pure false else write_pin z z.on_state

  unfoldable pub zc_stop : ℤ → Cmd Bool
  unfolding zone_at pin_is_on write_pin
  zc_stop zone = do
    z ← zone_at zone
    on ← gets (λ s. pin_is_on z s.board)
    if on then write_pin z (lnot z.on_state) else pure false

  -- `zc_master` where a master valve is fitted; it is zone 0.
  unfoldable pub switch_master : ZoneState → Cmd (Unit {0})
  switch_master state = do
    z ← zone_at (pos 0)
    on ← gets (λ s. pin_is_on z s.board)
    if is_on state && not on
        then zc_start (pos 0) >> pure tt
        else if not (is_on state) && on
        then zc_stop (pos 0) >> pure tt
        else pure tt

  unfoldable pub zc_master : ZoneState → Cmd (Unit {0})
  unfolding switch_master
  zc_master state = do
    fitted ← gets (λ s. s.master_valve)
    if fitted then switch_master state else pure tt
