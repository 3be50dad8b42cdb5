-- ===== src/Zones/Requests.antt =====
-- zone_ctrl.c: `zc_zone`, the request to turn a zone or all zones on or off, and the end of a cron run
-- when a rain delay begins.
use sprinkler_d.Prelude.{
  ℕ, zero, suc, ℤ, pos, negsuc, ◌-ℤ◌, ◌*ℤ◌, ltb_ℤ, leb_ℤ, eqb_ℤ, Bool, true, false, not, ◌&&◌, ◌||◌,
  if◌then◌else◌,
}
use sprinkler_d.Platform.{Platform}
use sprinkler_d.State.{
  RunType, zc_none, zc_single, zc_all, ZoneState, zc_on, zc_off, sec2min, State, Cmd, pure, gets,
  modify, ◌>>=◌, ◌>>◌, zone_at,
}
use sprinkler_d.Zones.Pins.{
  is_all, is_cron, is_on, pin_is_on, calc_timeleft, zc_start, zc_stop, zc_master,
}
use sprinkler_d.Zones.Cycle.{start_next_zone, zc_check}

abbrev pub same_state : ZoneState → ZoneState → Bool
same_state zc_on zc_on = true
same_state zc_off zc_off = true
same_state _ _ = false

module _ ⦃P : Platform⦄ where
  -- `zone > 0 && zone <= zones`
  abbrev pub in_range : ℤ → State → Bool
  in_range zone s = ltb_ℤ (pos 0) zone && leb_ℤ zone (pos s.zones)

  -- The request asks for what is so already.
  unfoldable pub is_duplicate : RunType → ℤ → ZoneState → Cmd Bool
  is_duplicate type zone state = do
    valid ← gets (in_range zone)
    current ← gets (λ s. s.current_zone.type)
    if valid
        then (do
          z ← zone_at zone
          on ← gets (λ s. pin_is_on z s.board)
          pure (same_state (if on then zc_on else zc_off) state))
        else pure (
            is_all type
            && ((is_on state && is_all current) || (not (is_on state) && not (is_all current))))

  -- The body of the loop that turns every zone off.
  unfoldable pub zone_off : ℕ → Cmd (Unit {0})
  zone_off i = do
    zc_master zc_off
    z ← zone_at (pos i)
    on ← gets (λ s. pin_is_on z s.board)
    if on then zc_stop (pos i) >> pure tt else pure tt

  -- `for (i = ...; i <= zones; i++)`: every zone off, `rounds` of them from `i` on.
  unfoldable pub all_off : ℕ → ℕ → Cmd (Unit {0})
  all_off zero i = pure tt
  all_off (suc rounds) i = zone_off i >> all_off rounds (suc i)

  -- The loop before a zone is started; the result is true where it returns early since the zone is on.
  unfoldable pub others_off : ℤ → ℕ → ℕ → Cmd Bool
  others_off zone zero i = pure false
  others_off zone (suc rounds) i = do
    z ← zone_at (pos i)
    on ← gets (λ s. pin_is_on z s.board)
    let rest : Cmd Bool = others_off zone rounds (suc i)
    if on then (if eqb_ℤ zone (pos i) then pure true else zc_stop (pos i) >> rest) else rest

  abbrev pub set_type : RunType → State → State
  set_type t s = record s { current_zone = record (s.current_zone) { type = t } }

  -- The first zone of a run of all zones; `start_next_zone` increments the 0.
  unfoldable pub begin_cycle : Cmd (Unit {0})
  begin_cycle = do
    n ← gets (λ s. s.zones)
    zone ← start_next_zone (suc n) 0
    if eqb_ℤ zone (negsuc 0) then pure tt else modify (set_type zc_all)

  unfoldable pub cycle_all : ZoneState → Cmd Bool
  unfolding all_off zone_off begin_cycle
  cycle_all state = do
    n ← gets (λ s. s.zones)
    all_off n 1
    modify (set_type zc_none)
    if is_on state then begin_cycle else pure tt
    pure true

  -- A zone has started on request.
  unfoldable pub start_time : RunType → ℤ → ℤ → State → State
  unfolding calc_timeleft
  start_time type zone length s = calc_timeleft (record s {
    current_zone = record (s.current_zone) {
      type = type;
      zone = zone;
      duration = length;
      started_time = s.clock;
    };
  })

  unfoldable pub turn_on : RunType → ℤ → ℤ → Cmd Bool
  unfolding others_off start_time
  turn_on type zone length = if not (ltb_ℤ (pos 0) length) then pure false else do
    n ← gets (λ s. s.zones)
    already ← others_off zone n 1
    if already then pure false else do
      started ← zc_start zone
      if started
          then (do zc_master zc_on; modify (start_time type zone length); pure true)
          else pure false

  unfoldable pub turn_off : ℤ → Cmd Bool
  turn_off zone = do
    current ← gets (λ s. s.current_zone.type)
    if is_all current
        then (do
          modify (λ s.
              let c = s.current_zone in
              record s {
                current_zone = record c {
                  started_time = c.started_time -ℤ c.duration *ℤ sec2min -ℤ pos 1;
                };
              })
          zc_check
          pure true)
        else (do
          zc_master zc_off
          zc_stop zone
          modify (λ s. record s {
            current_zone = record (s.current_zone) { type = zc_none; zone = negsuc 0 };
          })
          pure true)

  -- `length`, and the zone's default where it is 0.
  unfoldable pub run_length : ℤ → ℤ → Cmd ℤ
  run_length zone length =
      if eqb_ℤ length (pos 0) then (do z ← zone_at zone; pure z.default_runtime) else pure length

  unfoldable pub zc_zone : RunType → ℤ → ZoneState → ℤ → Cmd Bool
  unfolding is_duplicate cycle_all turn_on turn_off run_length
  zc_zone type zone state length = do
    duplicate ← is_duplicate type zone state
    if duplicate then pure false else do
      calendar ← gets (λ s. s.calendar)
      delay24h ← gets (λ s. s.delay24h)
      if is_cron type && is_on state && (not calendar || delay24h)
          then pure false
          else if is_all type
          then cycle_all state
          else (do
            minutes ← run_length zone length
            if is_on state then turn_on type zone minutes else turn_off zone)

  unfoldable pub zc_rain_delay_enabled : Cmd (Unit {0})
  unfolding zc_zone
  zc_rain_delay_enabled = do
    c ← gets (λ s. s.current_zone)
    if is_cron c.type && ltb_ℤ (pos 0) c.zone
        then zc_zone zc_single c.zone zc_off (pos 0) >> pure tt
        else pure tt
