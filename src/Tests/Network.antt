-- ===== src/Tests/Network.antt =====
-- A connection to a broker, and the theorems of MQTT at concrete events.
use sprinkler_d.Prelude.{pos, negsuc, ◌≤◌, ◌≡◌, refl, some, none, true, false, [], ◌∷◌, arith}
use sprinkler_d.Text.{bytes, atoi, same_upto, digits}
use sprinkler_d.State.{State, any_event, no_event, done, fault, Returns}
use sprinkler_d.Sound.{Sound, Keeps}
use sprinkler_d.Domoticz.Defs.{DzMessage, action_domoticz_mqtt_message}
use sprinkler_d.Domoticz.Safety.{action_domoticz_mqtt_message-Sound}
use sprinkler_d.Mqtt.Defs.{
  Net, mqtt_starting, mqtt_running, mqtt_stopped, mqtt_connection, other_connection, next_msg_id,
  send_mqtt_msg,
}
use sprinkler_d.Mqtt.Lifecycle.{Host, check_net_services}
use sprinkler_d.Mqtt.Topics.{MqttMessage, parts, split_topic, command_of, action_mqtt_message}
use sprinkler_d.Mqtt.Events.{connect, close, publish, ev_handler}
use sprinkler_d.Mqtt.Safety.{set_duration_overrun}
use sprinkler_d.Mqtt.Cleared.{both_broadcasts-Cleared, both_broadcasts-silent}
use sprinkler_d.Daemon.{both_broadcasts}
use sprinkler_d.Mqtt.Laws.{send_mqtt_msg-own, close-restarts}
use sprinkler_d.Tests.Plant.{plant, plant_driver, idle}
use sprinkler_d.Tests.Garden.{idle-Safe, garden-Tables}

abbrev pub host : Host
host = record {
  connects = true;
  binds = true;
  progname = bytes "sprinklerd";
  mac_address = none;
  pid = pos 4711;
}

-- A web server's connection and a broker's.
abbrev pub net : Net
net = record {
  mqtt_status = mqtt_running;
  mqtt_connected_time = pos 100;
  msg_id = 65534;
  last_state_msg = [];
  published_rain_chance = negsuc 0;
  published_rain_total = negsuc 0;
  ha_published = false;
  enable_mqtt_dz = true;
  enable_mqtt_aq = true;
  enable_mqtt_ha = true;
  mqtt_topic = bytes "garden";
  mqtt_dz_sub_topic = bytes "domoticz/out";
  mqtt_dz_pub_topic = bytes "domoticz/in";
  mqtt_ha_dis_topic = bytes "homeassistant";
  mqtt_id = bytes "sprinklerd_1";
  connections = other_connection ∷ mqtt_connection ∷ [];
  subscribed = [];
  sent = [];
}

idle-Sound : Sound idle
idle-Sound = record { safe = idle-Safe; tables = garden-Tables }

-- The chance of rain has changed.
abbrev rainy : State
rainy = record idle { update_event_mask = record no_event { rain_probability = true } }

rainy-Sound : Sound rainy
rainy-Sound = record { safe = idle-Safe; tables = garden-Tables }

abbrev offline : Net
offline = record net { connections = other_connection ∷ [] }

abbrev switch_on : DzMessage
switch_on = record { idx = pos 2; nvalue = pos 1; svalue = [] }

abbrev set_zone_one : MqttMessage
set_zone_one = record {
  message_id = 0;
  topic = bytes "garden/zone9/duration/set";
  behind_topic = bytes "600";
  payload = bytes "600";
  behind_payload = [];
}

abbrev own_message : MqttMessage
own_message = record set_zone_one { message_id = 65535 }

action_domoticz_mqtt_message-Sound_example :
    Keeps (action_domoticz_mqtt_message (some switch_on) idle)
action_domoticz_mqtt_message-Sound_example =
    action_domoticz_mqtt_message-Sound (some switch_on) idle idle-Sound

set_duration_overrun_example : action_mqtt_message (bytes "garden") set_zone_one idle ≡ fault
unfolding split_topic command_of parts bytes atoi same_upto digits
set_duration_overrun_example =
    set_duration_overrun idle (bytes "garden") set_zone_one 9 refl refl refl (omega arith)

send_mqtt_msg-own_example :
    ((send_mqtt_msg (bytes "garden/status") (bytes "OFF") net).msg_id ≤ 65535)
    × (ev_handler 1 (publish own_message) net idle ≡ done net idle)
unfolding send_mqtt_msg next_msg_id
send_mqtt_msg-own_example =
    send_mqtt_msg-own net net (bytes "garden/status") (bytes "OFF") own_message 1 idle (omega arith)
      refl

close-restarts_example :
    Returns
      (λ m t.
        (m.mqtt_status ≡ mqtt_stopped)
        × ((check_net_services host m).1.mqtt_status ≡ mqtt_starting)
        × Returns
            (λ o u. o.mqtt_status ≡ mqtt_running)
            (ev_handler 2 connect (check_net_services host m).1 t))
      (ev_handler 1 close net idle)
unfolding bytes
close-restarts_example = close-restarts host net 1 2 idle refl refl refl refl

both_broadcasts-Cleared_example :
    Returns (λ _ t. any_event t.update_event_mask ≡ false) (both_broadcasts 3 net rainy)
both_broadcasts-Cleared_example = both_broadcasts-Cleared 3 net rainy rainy-Sound refl refl

both_broadcasts-silent_example :
    Returns
      (λ r t. (r ≡ (3, offline)) × (any_event t.update_event_mask ≡ true))
      (both_broadcasts 3 offline rainy)
both_broadcasts-silent_example = both_broadcasts-silent 3 offline rainy refl refl
