-- ===== src/Mqtt/Events.antt =====
-- net_services.c: `ev_handler`, what mongoose's events do.
use sprinkler_d.Prelude.{
  ℕ, ℤ, pos, ◌-ℤ◌, eqb_ℤ, ltb_ℤ, Bool, true, not, ◌&&◌, Option, none, some, List, [], ◌∷◌, ◌++◌,
  length, get_elem?, set, if◌then◌else◌, ◌==◌, ltb,
}
use sprinkler_d.Platform.{Platform}
use sprinkler_d.Text.{Text, bytes, same_upto, first}
use sprinkler_d.State.{Cmd, fault, pure, gets, ◌>>=◌, ◌>>◌}
use sprinkler_d.Web.Defs.{Query}
use sprinkler_d.Web.Serve.{action_web_request}
use sprinkler_d.Domoticz.Defs.{DzMessage, action_domoticz_mqtt_message}
use sprinkler_d.Domoticz.Parse.{parse_mqtt_request}
use sprinkler_d.Mqtt.Defs.{
  Connection, websocket, mqtt_connection, other_connection, mqtt_running, mqtt_stopped, Net,
  send_mqtt_msg, topic_of,
}
use sprinkler_d.Mqtt.Broadcast.{broadcast_sprinklerdstate}
use sprinkler_d.Mqtt.Hassio.{publish_mqtt_hassio_discover}
use sprinkler_d.Mqtt.Topics.{MqttMessage, action_mqtt_message}

-- mongoose's events, with what the handler reads of their data: the return code of a CONNACK, and the
-- query of a web request, none where it asks for a file.
pub data Event : Type 0 where
  connect suback close other_event : Event
  connack : ℤ → Event
  http_request : Option Query → Event
  publish : MqttMessage → Event

module _ ⦃P : Platform⦄ where
  -- `sprintf` of the topic of the last will into `aq_topic[30]`
  unfoldable pub alive_topic : Net → Cmd Text
  alive_topic n =
      let topic = topic_of n (bytes "Alive") in
      if ltb (length topic) 30 then pure topic else λ s. fault

  -- The topics of `mg_mqtt_subscribe`; `gp_topic` has room for 28 bytes.
  unfoldable pub subscriptions : Net → List Text
  subscriptions n =
      let gp_topic = first 28 (topic_of n (bytes "#")) in
      if n.enable_mqtt_aq && n.enable_mqtt_dz
      then gp_topic ∷ n.mqtt_dz_sub_topic ∷ []
      else if n.enable_mqtt_aq
      then gp_topic ∷ []
      else if n.enable_mqtt_dz
      then n.mqtt_dz_sub_topic ∷ []
      else []

  unfoldable pub on_connect : ℕ → Net → Cmd Net
  unfolding alive_topic
  on_connect nc n = do
    topic ← alive_topic n
    pure (record n {
      connections = set n.connections nc mqtt_connection;
      mqtt_status = mqtt_running;
    })

  unfoldable pub announce : Net → Cmd Net
  unfolding publish_mqtt_hassio_discover
  announce n =
      if n.enable_mqtt_ha && not n.ha_published
      then (do m ← publish_mqtt_hassio_discover n; pure (record m { ha_published = true }))
      else pure n

  unfoldable pub on_connack : ℤ → Net → Cmd Net
  unfolding announce broadcast_sprinklerdstate
  on_connack ret n =
      if not (eqb_ℤ ret (pos 0)) then pure (record n { mqtt_status = mqtt_stopped }) else (do
        now ← gets (λ s. s.clock)
        m ← announce (record n { mqtt_connected_time = now; subscribed = subscriptions n })
        broadcast_sprinklerdstate m)

  unfoldable pub on_suback : Net → Cmd Net
  unfolding alive_topic send_mqtt_msg
  on_suback n = do topic ← alive_topic n; pure (send_mqtt_msg topic (bytes "1") n)

  abbrev closed : Option Connection → Net → Net
  closed (some mqtt_connection) n = record n { mqtt_status = mqtt_stopped }
  closed (some websocket) n = n
  closed (some other_connection) n = n
  closed none n = n

  unfoldable pub parsed_domoticz : Option (Option DzMessage) → Cmd (Unit {0})
  unfolding action_domoticz_mqtt_message
  parsed_domoticz none = λ s. fault
  parsed_domoticz (some m) = action_domoticz_mqtt_message m

  abbrev pub below : Text → MqttMessage → Bool
  below topic m = same_upto (length topic) (m.topic ++ m.behind_topic) topic

  -- A message that is not cached and not the daemon's own.
  unfoldable pub on_message : MqttMessage → Net → Cmd (Unit {0})
  unfolding action_mqtt_message parsed_domoticz parse_mqtt_request
  on_message m n = do
    if n.enable_mqtt_aq && below n.mqtt_topic m then action_mqtt_message n.mqtt_topic m else pure tt
    if n.enable_mqtt_dz && below n.mqtt_dz_sub_topic m
        then parsed_domoticz (parse_mqtt_request m.payload m.behind_payload)
        else pure tt

  unfoldable pub on_publish : MqttMessage → Net → Cmd Net
  unfolding on_message
  on_publish m n = do
    now ← gets (λ s. s.clock)
    if ltb_ℤ (now -ℤ n.mqtt_connected_time) (pos 1)
        then pure n
        else if not (m.message_id == 0)
        then pure n
        else on_message m n >> pure n

  -- The event of connection `nc` of mongoose's list.
  unfoldable pub ev_handler : ℕ → Event → Net → Cmd Net
  unfolding on_connect on_connack on_suback on_publish action_web_request
  ev_handler nc connect n = on_connect nc n
  ev_handler nc (connack ret) n = on_connack ret n
  ev_handler nc suback n = on_suback n
  ev_handler nc close n = pure (closed (get_elem? n.connections nc) n)
  ev_handler nc (http_request q) n = action_web_request q >> pure n
  ev_handler nc (publish m) n = on_publish m n
  ev_handler nc other_event n = pure n
