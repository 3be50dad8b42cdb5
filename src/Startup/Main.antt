-- ===== src/Startup/Main.antt =====
-- sprinkler.c: `main` up to the first round of `main_loop`. A result of none is an exit.
use sprinkler_d.Prelude.{pos, Bool, true, Option, none, some, List, if◌then◌else◌}
use sprinkler_d.Platform.{Platform}
use sprinkler_d.Text.{Text}
use sprinkler_d.State.{zc_none, no_event, State, Cmd, pure, modify, ◌>>=◌, ◌>>◌}
use sprinkler_d.Cache.{read_cache}
use sprinkler_d.Cron.Read.{CronReader, read_cron}
use sprinkler_d.Mqtt.Defs.{Net}
use sprinkler_d.Mqtt.Lifecycle.{Host, start_net_services}
use sprinkler_d.Startup.Options.{default_options, read_args}
use sprinkler_d.Startup.Settings.{Ini, read_cfg}
use sprinkler_d.Startup.Pins.{set_up}
use sprinkler_d.Startup.Inputs.{Input, read_inputs, set_up_inputs}

-- What the start takes from outside: the arguments, whether the user is root, what minIni reads of a configuration
-- file, what `malloc` leaves in an input, the cron file's matches, whether `gpioSetup` succeeds and for which inputs
-- the GPIO library takes an interrupt handler, and the network.
pub record Launch : Type 0 where
  pub arguments : List Text
  pub is_root : Bool
  pub ini : Option Text → Ini
  pub unset_input : Input
  pub cron : CronReader
  pub gpio_ready : Bool
  pub registers : Input → Bool
  pub host : Host

module _ ⦃P : Platform⦄ where
  abbrev pub reset : State → State
  reset s = record s {
    calendar = true;
    current_zone = record (s.current_zone) { type = zc_none };
    cron_update = pos 0;
    update_event_mask = no_event;
  }

  -- `main`, between the configuration and the main loop.
  unfoldable pub prepare : Launch → Cmd (Unit {0})
  prepare l = do modify reset; read_cron l.cron; read_cache

  abbrev pub net_up : Bool × Net → Option Net
  net_up (up, n) = if up then some n else none

  -- `main_loop`, before its endless loop.
  unfoldable pub begin_loop : Launch → List Input → Net → Cmd (Option Net)
  begin_loop l is n =
      if l.gpio_ready
      then (do
        set_up
        registered ← set_up_inputs l.registers is
        if registered then pure (net_up (start_net_services l.host n)) else pure none)
      else pure none

  abbrev pub configured : Launch → List Input → Option (State × Net) → Cmd (Option Net)
  configured l is none = pure none
  configured l is (some (t, n)) = λ s. (prepare l >> begin_loop l is n) t

  unfoldable pub start : Launch → Ini → Net → Cmd (Option Net)
  unfolding prepare begin_loop
  start l ini n s = configured l (read_inputs ini l.unset_input) (read_cfg ini s n) s

  unfoldable pub main : Launch → Net → Cmd (Option Net)
  unfolding start
  main l n = elim (read_args l.arguments default_options) [
    | none ↦ pure none
    | some o ↦ if l.is_root then start l (l.ini o.cfg) n else pure none
  ]
