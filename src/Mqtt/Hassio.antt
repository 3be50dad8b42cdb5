-- ===== src/Mqtt/Hassio.antt =====
-- hassio.c: the messages that let Home Assistant find the daemon's sensors, switches and zones.
use sprinkler_d.Prelude.{ℕ, zero, suc, ℤ, pos, ◌++◌, ◌∷◌}
use sprinkler_d.Platform.{Platform}
use sprinkler_d.Text.{Text, bytes}
use sprinkler_d.Format.{decimal}
use sprinkler_d.State.{GpioCfg, Cmd, pure, gets, ◌>>=◌, zone_at}
use sprinkler_d.Mqtt.Defs.{Net, send_mqtt_msg}

-- `"name": "value",` of a JSON object
abbrev field : Text → Text → Text
field name value = bytes "\"" ++ name ++ bytes "\": \"" ++ value ++ bytes "\","

-- The start of each text: the device and where its availability is published.
unfoldable pub device : Text → Text
device topic =
    bytes "{\"device\": {\"identifiers\": [\"SprinklerD\"], \"sw_version\": \"1.4.1\","
    ++ bytes " \"model\": \"Sprinkler Daemon\", \"name\": \"SprinklerD\","
    ++ bytes " \"manufacturer\": \"SprinklerD\", \"suggested_area\": \"garden\"},"
    ++ bytes "\"availability\": {\"payload_available\" : \"1\",\"payload_not_available\" : \"0\","
    ++ bytes "\"topic\": \""
    ++ topic
    ++ bytes "/Alive\"},"

-- `HASSIO_TEXT_SENSOR_DISCOVER`
unfoldable pub text_sensor : Text → Text → Text → Text → Text
unfolding device
text_sensor topic id name state =
    device topic
    ++ field (bytes "type") (bytes "sensor")
    ++ field (bytes "unique_id") id
    ++ field (bytes "name") name
    ++ field (bytes "state_topic") (topic ++ b'/' ∷ state)
    ++ bytes "\"icon\": \"mdi:card-text\"}"

-- `HASSIO_SENSOR_DISCOVER`
unfoldable pub sensor : Text → Text → Text → Text → Text → Text → Text
unfolding device
sensor topic id name state unit icon =
    device topic
    ++ field (bytes "type") (bytes "sensor")
    ++ field (bytes "unique_id") id
    ++ field (bytes "name") name
    ++ field (bytes "state_topic") (topic ++ b'/' ∷ state)
    ++ field (bytes "value_template") (bytes "{{ value_json }}")
    ++ field (bytes "unit_of_measurement") unit
    ++ bytes "\"icon\": \""
    ++ icon
    ++ bytes "\"}"

-- `HASSIO_SWITCH_DISCOVER`
unfoldable pub switch : Text → Text → Text → Text → Text
unfolding device
switch topic id name state =
    device topic
    ++ field (bytes "type") (bytes "switch")
    ++ field (bytes "unique_id") id
    ++ field (bytes "name") name
    ++ field (bytes "state_topic") (topic ++ b'/' ∷ state)
    ++ field (bytes "command_topic") (topic ++ b'/' ∷ state ++ bytes "/set")
    ++ bytes "\"payload_on\": \"1\",\"payload_off\": \"0\"}"

-- `HASSIO_VALVE_DISCOVER`
unfoldable pub valve : Text → Text → ℤ → Text → Text
unfolding device
valve topic id zone name =
    device topic
    ++ field (bytes "type") (bytes "valve")
    ++ field (bytes "device_class") (bytes "water")
    ++ field (bytes "unique_id") id
    ++ field (bytes "name") (bytes "Zone " ++ decimal zone ++ bytes " (" ++ name ++ bytes ")")
    ++ field (bytes "state_topic") (topic ++ bytes "/zone" ++ decimal zone)
    ++ field (bytes "command_topic") (topic ++ bytes "/zone" ++ decimal zone ++ bytes "/set")
    ++ bytes "\"value_template\": \"{% set values = { '0':'closed', '1':'open'} %}"
    ++ bytes "{{ values[value] if value in values.keys() else 'closed' }}\","
    ++ bytes "\"payload_open\": \"1\",\"payload_close\": \"0\"}"

module _ ⦃P : Platform⦄ where
  -- The topic of a part's configuration.
  abbrev pub config_topic : Net → Text → Text → Text
  config_topic n kind id = n.mqtt_ha_dis_topic ++ kind ++ id ++ bytes "/config"

  unfoldable pub send_text_sensor : Text → Text → Text → Net → Net
  unfolding text_sensor send_mqtt_msg
  send_text_sensor id name state n =
      send_mqtt_msg (config_topic n (bytes "/sensor/sprinklerd/") id)
        (text_sensor n.mqtt_topic id name state) n

  unfoldable pub send_sensor : Text → Text → Text → Text → Text → Net → Net
  unfolding sensor send_mqtt_msg
  send_sensor id name state unit icon n =
      send_mqtt_msg (config_topic n (bytes "/sensor/sprinklerd/") id)
        (sensor n.mqtt_topic id name state unit icon) n

  unfoldable pub send_switch : Text → Text → Text → Net → Net
  unfolding switch send_mqtt_msg
  send_switch id name state n =
      send_mqtt_msg (config_topic n (bytes "/switch/sprinklerd/") id)
        (switch n.mqtt_topic id name state) n

  unfoldable pub send_valve : GpioCfg → Net → Net
  unfolding valve send_mqtt_msg
  send_valve z n =
      let id = bytes "sprinklerd_zone_" ++ decimal z.zone in
      send_mqtt_msg (config_topic n (bytes "/valve/sprinklerd/") id)
        (valve n.mqtt_topic id z.zone z.name) n

  -- The messages before the loop over the zones.
  unfoldable pub send_parts : Net → Net
  unfolding send_text_sensor send_sensor send_switch
  send_parts n =
      let a = send_text_sensor (bytes "sprinklerd_status") (bytes "Status") (bytes "status") n in
      let b =
        send_text_sensor (bytes "sprinklerd_active_zone") (bytes "Active Zone") (bytes "active")
          a in
      let c =
        send_switch (bytes "sprinklerd_calendar") (bytes "Calendar Schedule") (bytes "calendar")
          b in
      let d =
        send_switch (bytes "sprinklerd_24hdelay") (bytes "24 Hour rain delay") (bytes "24hdelay")
          c in
      let e =
        send_switch (bytes "sprinklerd_cycleallzones") (bytes "Cycle All Zones")
          (bytes "cycleallzones") d in
      let f =
        send_sensor (bytes "sprinklerd_rainprobability") (bytes "Todays Rain Probability")
          (bytes "chanceofrain") (bytes "%") (bytes "mdi:water-percent") e in
      send_sensor (bytes "sprinklerd_raintotal") (bytes "Todays Rain Total") (bytes "raintotal")
        (bytes "\\\"") (bytes "mdi:weather-hail") f

  -- The loop over the zones, `rounds` of them from `i` on.
  unfoldable pub send_valves : ℕ → ℕ → Net → Cmd Net
  unfolding send_valve
  send_valves zero i n = pure n
  send_valves (suc rounds) i n = do z ← zone_at (pos i); send_valves rounds (suc i) (send_valve z n)

  unfoldable pub publish_mqtt_hassio_discover : Net → Cmd Net
  unfolding send_parts send_valves
  publish_mqtt_hassio_discover n = do
    zones ← gets (λ s. s.zones)
    send_valves zones 1 (send_parts n)
