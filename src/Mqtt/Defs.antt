-- ===== src/Mqtt/Defs.antt =====
-- net_services.c: the state of the MQTT connection, the messages that are sent, and what is
-- published of one zone. A function that also reads or changes the daemon's state takes the
-- connection's state and is a command that ends with the new one.
use Prim.Native.Nat.{◌%◌}
use sprinkler_d.Prelude.{
  ℕ, ◌+◌, ◌^◌, ℤ, pos, ◌*ℤ◌, eqb_ℤ, ltb_ℤ, Bool, ◌&&◌, List, [], ◌∷◌, ◌++◌, not, if◌then◌else◌, leb,
}
use sprinkler_d.Platform.{Platform}
use sprinkler_d.Text.{Text, bytes}
use sprinkler_d.Format.{decimal, two_digits, quot, rem}
use sprinkler_d.State.{GpioCfg, State, Cmd, pure, gets, ◌>>=◌}
use sprinkler_d.Zones.Pins.{pin_is_on, is_none}
use sprinkler_d.Domoticz.Defs.{dz_on, dz_off, update_dz_cache}

-- `mqttstatus`
pub data MqttStatus : Type 0 where
  mqtt_starting mqtt_running mqtt_stopped mqtt_disabled : MqttStatus

-- What a connection of mongoose's list is: its flags.
pub data Connection : Type 0 where
  websocket mqtt_connection other_connection : Connection

pub record Message : Type 0 where
  pub id : ℕ
  pub topic : Text
  pub payload : Text

-- `static uint16_t msg_id`
unfoldable pub next_msg_id : ℕ → ℕ
next_msg_id id = if leb 65535 id then 1 else (id + 1) % 2 ^ 16

module _ ⦃P : Platform⦄ where
  -- The file's static variables, those of `broadcast_sprinklerdstate`, `send_mqtt_msg` and
  -- `ev_handler`, the configuration of MQTT, mongoose's list of connections and the messages
  -- that were sent, the last one first.
  pub record Net : Type 0 where
    pub mqtt_status : MqttStatus
    pub mqtt_connected_time : ℤ
    pub msg_id : ℕ
    pub last_state_msg : Text
    pub published_rain_chance : ℤ
    pub published_rain_total : P.Real
    pub ha_published : Bool
    pub enable_mqtt_dz : Bool
    pub enable_mqtt_aq : Bool
    pub enable_mqtt_ha : Bool
    pub mqtt_topic : Text
    pub mqtt_dz_sub_topic : Text
    pub mqtt_dz_pub_topic : Text
    pub mqtt_ha_dis_topic : Text
    pub mqtt_id : Text
    pub connections : List Connection
    pub subscribed : List Text
    pub sent : List Message

  unfoldable pub send_mqtt_msg : Text → Text → Net → Net
  unfolding next_msg_id
  send_mqtt_msg topic message n = record n {
    msg_id = next_msg_id n.msg_id;
    sent = record { id = next_msg_id n.msg_id; topic = topic; payload = message } ∷ n.sent;
  }

  -- A topic below the configured one.
  abbrev pub topic_of : Net → Text → Text
  topic_of n name = n.mqtt_topic ++ b'/' ∷ name

  -- "zone%d" and what follows it.
  abbrev pub zone_name : ℤ → Text → Text
  zone_name zone rest = bytes "zone" ++ decimal zone ++ rest

  -- `MQTT_ON` and `MQTT_OFF`
  abbrev pub mqtt_value : Bool → Text
  mqtt_value b = if b then bytes "1" else bytes "0"

  -- `DZ_ON` and `DZ_OFF`
  abbrev pub dz_value : Bool → ℤ
  dz_value b = if b then dz_on else dz_off

  -- `build_dz_mqtt_status_JSON`, called with TEMP_UNKNOWN only
  unfoldable pub build_dz_mqtt_status : ℤ → ℤ → Text
  build_dz_mqtt_status idx nvalue =
      bytes "{\"idx\":"
      ++ decimal idx
      ++ bytes ",\"nvalue\":"
      ++ decimal nvalue
      ++ bytes ",\"svalue\":\"\"}"

  unfoldable pub build_dz_status_message : ℤ → ℤ → Text → Text
  build_dz_status_message idx nvalue svalue =
      bytes "{\"idx\":"
      ++ decimal idx
      ++ bytes ",\"nvalue\":"
      ++ decimal nvalue
      ++ bytes ",\"svalue\":\""
      ++ svalue
      ++ bytes "\"}"

  -- A value that the cache did not have is published to Domoticz.
  unfoldable pub publish_dz : ℤ → ℤ → Net → Cmd Net
  unfolding update_dz_cache send_mqtt_msg build_dz_mqtt_status
  publish_dz idx value n = do
    changed ← update_dz_cache idx value
    if changed
        then pure (send_mqtt_msg n.mqtt_dz_pub_topic (build_dz_mqtt_status idx value) n)
        else pure n

  -- The time left of a zone as it is published, times 60.
  abbrev pub remaining : State → GpioCfg → ℤ
  remaining s z =
      if eqb_ℤ s.current_zone.zone z.zone && not (is_none s.current_zone.type)
      then s.current_zone.timeleft *ℤ pos 60
      else pos 0

  abbrev pub send_zone : State → GpioCfg → Net → Net
  send_zone s z n =
      send_mqtt_msg (topic_of n (zone_name z.zone (bytes "/remainingduration")))
        (decimal (remaining s z))
        (send_mqtt_msg (topic_of n (zone_name z.zone (bytes "/duration")))
          (decimal (z.default_runtime *ℤ pos 60))
          (send_mqtt_msg (topic_of n (zone_name z.zone [])) (mqtt_value (pin_is_on z s.board)) n))

  -- The messages of a zone in a state of the daemon.
  abbrev pub publish_zone_at : State → GpioCfg → Net → Cmd Net
  publish_zone_at s z n =
      let m = if n.enable_mqtt_aq then send_zone s z n else n in
      if ltb_ℤ (pos 0) z.dz_idx && m.enable_mqtt_dz
      then publish_dz z.dz_idx (dz_value (pin_is_on z s.board)) m
      else pure m

  unfoldable pub publish_zone_mqtt : GpioCfg → Net → Cmd Net
  unfolding publish_dz send_mqtt_msg
  publish_zone_mqtt z n = do s ← gets (λ s. s); publish_zone_at s z n

  -- `sprinklerdstatus`: the code and the text.
  unfoldable pub sprinklerd_status : State → ℤ × Text
  sprinklerd_status s =
      if not (is_none s.current_zone.type)
      then (
        pos 1,
        bytes "Running: Zone "
            ++ decimal s.current_zone.zone
            ++ bytes " - time left "
            ++ two_digits (quot s.current_zone.timeleft 60)
            ++ bytes ":"
            ++ two_digits (rem s.current_zone.timeleft 60),
      )
      else if s.delay24h
      then (pos 3, P.time_text (bytes "24h delay: end time %a %I:%M%p") s.delay24h_time)
      else if s.calendar
      then (pos 2, bytes "Calendar schedule")
      else (pos 0, bytes "OFF")
