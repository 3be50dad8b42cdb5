-- ===== src/Mqtt/Laws.antt =====
-- The ids of the messages, the connection's states, and the events that a broadcast clears.
use sprinkler_d.Prelude.{
  ℕ, ◌≤◌, pos, ◌-ℤ◌, ltb_ℤ, ◌≡◌, ◌≢◌, refl, true, some, get_elem?, ==_ne, Bool-cases, inl, inr,
  arith,
}
use sprinkler_d.Platform.{Platform}
use sprinkler_d.Text.{Text}
use sprinkler_d.State.{State, done, Returns, returns}
use sprinkler_d.Mqtt.Defs.{
  mqtt_connection, mqtt_starting, mqtt_running, mqtt_stopped, Net, next_msg_id, send_mqtt_msg,
}
use sprinkler_d.Mqtt.Lifecycle.{Host, start_mqtt, check_net_services}
use sprinkler_d.Mqtt.Topics.{MqttMessage}
use sprinkler_d.Mqtt.Events.{
  connect, close, publish, alive_topic, on_connect, on_publish, ev_handler,
}
use sprinkler_d.Mqtt.Handler.{FitsTopic}

pub next_msg_id-bounds :
    (id : ℕ) → id ≤ 65535 → (1 ≤ next_msg_id id) × (next_msg_id id ≤ 65535) × (next_msg_id id ≢ id)
unfolding next_msg_id
next_msg_id-bounds id h = ground arith

own_id : {a b : ℕ} → 1 ≤ a → b ≡ a → b ≢ 0
own_id lo e zero_id = omega (arith, lo, e, zero_id)

module _ ⦃P : Platform⦄ where
  -- From a message id of 16 bits, the next message is sent under an id of 16 bits, and a message
  -- that comes back under that id does nothing.
  pub send_mqtt_msg-own :
      (n k : Net) (topic payload : Text) (m : MqttMessage) (nc : ℕ) (s : State)
      → n.msg_id ≤ 65535
      → m.message_id ≡ (send_mqtt_msg topic payload n).msg_id
      → ((send_mqtt_msg topic payload n).msg_id ≤ 65535)
        × (ev_handler nc (publish m) k s ≡ done k s)
  unfolding ev_handler on_publish send_mqtt_msg
  send_mqtt_msg-own n k topic payload m nc s low sent =
      let (lo, hi, new) = next_msg_id-bounds n.msg_id low in
      (
        hi,
        elim (Bool-cases (ltb_ℤ (s.clock -ℤ k.mqtt_connected_time) (pos 1))) [
          | inl cached ↦ rw cached
          | inr later ↦ rw (later, ==_ne m.message_id 0 (own_id lo sent))
        ],
      )

  -- Where MQTT is configured, the broker can be reached and the last will's topic fits its buffer,
  -- the close of an MQTT connection stops MQTT, the next check of the network starts it again, and
  -- the connect event that follows has it running.
  pub close-restarts :
      (h : Host) (n : Net) (nc mc : ℕ) (s : State)
      → get_elem? n.connections nc ≡ some mqtt_connection
      → n.enable_mqtt_aq ≡ true
      → h.connects ≡ true
      → FitsTopic n
      → Returns
          (λ m t.
            (m.mqtt_status ≡ mqtt_stopped)
            × ((check_net_services h m).1.mqtt_status ≡ mqtt_starting)
            × Returns
                (λ o u. o.mqtt_status ≡ mqtt_running)
                (ev_handler mc connect (check_net_services h m).1 t))
          (ev_handler nc close n s)
  unfolding ev_handler on_connect alive_topic check_net_services start_mqtt
  close-restarts h n nc mc s at aq reached fits =
      rw at (returns (refl, rw (aq, reached) refl, rw (aq, reached, fits) (returns refl)))
