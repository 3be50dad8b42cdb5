-- ===== src/Mqtt/Lifecycle.antt =====
-- net_services.c: `generate_mqtt_id`, `start_mqtt`, `check_net_services` and `start_net_services`.
use sprinkler_d.Prelude.{
  ℕ, zero, suc, ◌-◌, ℤ, Bool, true, false, Option, none, some, ◌∷◌, ◌++◌, length, ltb,
  if◌then◌else◌,
}
use sprinkler_d.Platform.{Platform}
use sprinkler_d.Text.{Text, first}
use sprinkler_d.Format.{decimal}
use sprinkler_d.Mqtt.Defs.{Net, MqttStatus, mqtt_starting, mqtt_stopped, mqtt_disabled}

-- What the connection takes from outside: whether `mg_connect` and `mg_bind` succeed, the program's
-- name, the address that `mac` finds on a network interface, in hexadecimal, and `getpid`.
pub record Host : Type 0 where
  pub connects : Bool
  pub binds : Bool
  pub progname : Text
  pub mac_address : Option Text
  pub pid : ℤ

-- Zeros in front, for at least `n` digits.
abbrev zeros : ℕ → Text → Text
zeros zero s = s
zeros (suc n) s = b'0' ∷ zeros n s

abbrev pub id_tail : Host → ℕ → Text
id_tail h room = elim h.mac_address [
  | some address ↦ address
  | none ↦ let digits = decimal h.pid in zeros (room - length digits) digits
]

-- The text in a buffer of `len` bytes: at most `len - 1` of them.
unfoldable pub generate_mqtt_id : Host → ℕ → Text
generate_mqtt_id h len =
    let name = first len h.progname in
    if ltb (length name) len
    then first (len - 1) (name ++ b'_' ∷ id_tail h (len - suc (length name) - 2))
    else first (len - 1) name

-- `MQTT_ID_LEN - 1`
abbrev pub mqtt_id_len : ℕ
mqtt_id_len = 24

abbrev is_stopped : MqttStatus → Bool
is_stopped mqtt_stopped = true
is_stopped _ = false

module _ ⦃P : Platform⦄ where
  abbrev named : Host → Net → Net
  named h n = record n {
    mqtt_id = if ltb (length n.mqtt_id) 1 then generate_mqtt_id h mqtt_id_len else n.mqtt_id;
  }

  -- `mg_connect` puts the new connection on mongoose's list.
  unfoldable pub start_mqtt : Host → Net → Net
  unfolding generate_mqtt_id
  start_mqtt h n =
      if n.enable_mqtt_aq
      then (if h.connects then record (named h n) { mqtt_status = mqtt_starting } else named h n)
      else record n { mqtt_status = mqtt_disabled }

  unfoldable pub check_net_services : Host → Net → Bool × Net
  unfolding start_mqtt
  check_net_services h n = if is_stopped n.mqtt_status then (false, start_mqtt h n) else (true, n)

  unfoldable pub start_net_services : Host → Net → Bool × Net
  unfolding start_mqtt
  start_net_services h n = if h.binds then (true, start_mqtt h n) else (false, n)
