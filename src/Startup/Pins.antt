-- ===== src/Startup/Pins.antt =====
-- sprinkler.c: the zones' pins at the start, in `main_loop`, and at the end, in `intHandler`.
use sprinkler_d.Prelude.{ℕ, zero, suc, ◌-◌, ℤ, pos, negsuc, eqb_ℤ, not, ◌||◌, if◌then◌else◌}
use sprinkler_d.Platform.{Platform}
use sprinkler_d.State.{GpioCfg, State, Cmd, pure, gets, modify, ◌>>=◌, ◌>>◌, zone_at}
use sprinkler_d.Cache.{write_cache}
use sprinkler_d.Mqtt.Broadcast.{first_zone}

module _ ⦃P : Platform⦄ where
  abbrev pub write_pin : ℤ → ℤ → State → State
  write_pin p level s = record s { board = (P.digital_write s.board p level).0 }

  -- A zone's pin is an output, and at its level for the start.
  unfoldable pub set_up_pin : GpioCfg → Cmd (Unit {0})
  set_up_pin z = do
    modify (λ s. record s { board = P.pin_mode s.board z.pin z.input_output })
    if not (eqb_ℤ z.startup_state (negsuc 0))
        then modify (write_pin z.pin z.startup_state)
        else pure tt

  -- The loop over the zones, `rounds` of them from `i` on.
  unfoldable pub set_up_pins : ℕ → ℕ → Cmd (Unit {0})
  unfolding set_up_pin
  set_up_pins zero i = pure tt
  set_up_pins (suc rounds) i = do z ← zone_at (pos i); set_up_pin z; set_up_pins rounds (suc i)

  unfoldable pub set_up : Cmd (Unit {0})
  unfolding set_up_pins
  set_up = do s ← gets (λ s. s); set_up_pins (suc s.zones - first_zone s) (first_zone s)

  -- A zone's pin is at its level for the end, where that is a level.
  unfoldable pub shut_down_pin : GpioCfg → Cmd (Unit {0})
  shut_down_pin z =
      if eqb_ℤ z.shutdown_state (pos 0) || eqb_ℤ z.shutdown_state (pos 1)
      then modify (write_pin z.pin z.shutdown_state)
      else pure tt

  unfoldable pub shut_down_pins : ℕ → ℕ → Cmd (Unit {0})
  unfolding shut_down_pin
  shut_down_pins zero i = pure tt
  shut_down_pins (suc rounds) i = do
    z ← zone_at (pos i)
    shut_down_pin z
    shut_down_pins rounds (suc i)

  -- `intHandler` and `Daemon_Stop` up to their exit, without the GPIO library's own end.
  unfoldable pub int_handler : Cmd (Unit {0})
  unfolding shut_down_pins write_cache
  int_handler = do
    s ← gets (λ s. s)
    shut_down_pins (suc s.zones - first_zone s) (first_zone s)
    write_cache
