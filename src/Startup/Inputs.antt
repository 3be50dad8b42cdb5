-- ===== src/Startup/Inputs.antt =====
-- The inputs: their part of readCfg (config.c), their set-up in main_loop and event_trigger (sprinkler.c).
-- A command that run_external would run is a result.
use sprinkler_d.Prelude.{
  ℕ, zero, suc, ℤ, pos, negsuc, ◌-ℤ◌, eqb_ℤ, ltb_ℤ, ◌≡◌, Bool, true, false, ◌&&◌, Option, none,
  some, List, [], ◌∷◌, length, if◌then◌else◌, ltb,
}
use sprinkler_d.Platform.{Platform, valid_gpio}
use sprinkler_d.Text.{Text, bytes}
use sprinkler_d.State.{Cmd, pure, modify, ◌>>◌}
use sprinkler_d.Zones.Pins.{lnot}
use sprinkler_d.Startup.Settings.{Ini, section, pin_key, count_sections}

-- `struct GPIOcfg`, for an input.
pub record Input : Type 0 where
  pub pin : ℤ
  pub input_output : ℤ
  pub receive_mode : ℤ
  pub set_pull_updown : ℤ
  pub last_event_state : ℤ
  pub on_state : ℤ
  pub last_event_time : ℤ
  pub name : Text
  pub dz_idx : ℤ
  pub zone : ℤ
  pub command_on : Text
  pub command_off : Text

-- `INPUT`, and `COMMAND_SIZE`
abbrev pub input_mode : ℤ
input_mode = pos 0

abbrev pub command_size : ℕ
command_size = 512

unfoldable pub count_inputs : Ini → ℕ
unfolding count_sections
count_inputs ini = count_sections ini (bytes "INPUT") pin_key 24 1 0

-- The section of input `i`, read into an entry that holds what `malloc` has left there.
unfoldable pub read_input : Ini → Input → ℕ → Input
read_input ini left i =
    let name = section (bytes "INPUT") i in
    let pin = ini.getl name pin_key (negsuc 0) in
    if valid_gpio pin
    then record left {
      input_output = input_mode;
      receive_mode = pos 3;
      zone = pos i;
      pin = pin;
      on_state = ini.getl name (bytes "GPIO_ON_STATE") (pos 0);
      set_pull_updown = ini.getl name (bytes "GPIO_PULL_UPDN") (negsuc 0);
      dz_idx = ini.getl name (bytes "DOMOTICZ_IDX") (negsuc 0);
      name = ini.gets name (bytes "NAME") [] 40;
      command_on = ini.gets name (bytes "COMMAND_ON") [] command_size;
      command_off = ini.gets name (bytes "COMMAND_OFF") [] command_size;
    }
    else left

-- The loop over the inputs, `rounds` of them from `i` on.
unfoldable pub read_inputs_from : Ini → Input → ℕ → ℕ → List Input
unfolding read_input
read_inputs_from ini left zero i = []
read_inputs_from ini left (suc rounds) i =
    read_input ini left i ∷ read_inputs_from ini left rounds (suc i)

unfoldable pub read_inputs : Ini → Input → List Input
unfolding count_inputs read_inputs_from
read_inputs ini left = read_inputs_from ini left (count_inputs ini) 1

-- `rawtime - gpiopin->last_event_time < 1`, for an input.
abbrev pub is_bounce : ℤ → Input → Bool
is_bounce now i = ltb_ℤ (now -ℤ i.last_event_time) (pos 1) && eqb_ℤ i.input_output input_mode

-- The command for a level.
unfoldable pub command_for : ℤ → Input → Option Text
command_for level i =
    if eqb_ℤ level i.on_state && ltb 0 (length i.command_on)
    then some i.command_on
    else if eqb_ℤ level (lnot i.on_state) && ltb 0 (length i.command_off)
    then some i.command_off
    else none

-- Every one of the inputs is registered.
abbrev pub AllRegistered : (Input → Bool) → List Input → Type 0
AllRegistered registers [] = Unit {0}
AllRegistered registers (i ∷ is) = (registers i ≡ true) × AllRegistered registers is

module _ ⦃P : Platform⦄ where
  -- The loop over the inputs. `registers` says for which of them `registerGPIOinterrupt` succeeds; the result is
  -- false at the exit where it does not.
  unfoldable pub set_up_inputs : (Input → Bool) → List Input → Cmd Bool
  set_up_inputs registers [] = pure true
  set_up_inputs registers (i ∷ is) = do
    modify (λ s. record s { board = P.pin_mode s.board i.pin i.input_output })
    if registers i then set_up_inputs registers is else pure false

  -- The input and the command that is run, if any.
  unfoldable pub event_trigger : P.Board → ℤ → Input → Input × Option Text
  unfolding command_for
  event_trigger b now i =
      let level = P.digital_read b i.pin in
      if is_bounce now i
      then (i, none)
      else (record i { last_event_time = now; last_event_state = level }, command_for level i)
