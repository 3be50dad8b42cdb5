-- ===== src/Mqtt/Broadcast.antt =====
-- net_services.c: `broadcast_zonestate`, `broadcast_sprinklerdactivestate` and
-- `broadcast_sprinklerdstate`.
use sprinkler_d.Prelude.{
  ℕ, zero, suc, ◌-◌, ℤ, pos, pos_part, ◌+ℤ◌, ◌-ℤ◌, ◌*ℤ◌, eqb_ℤ, ltb_ℤ, Bool, false, not, ◌&&◌, ◌||◌,
  List, [], ◌∷◌, ◌++◌, if◌then◌else◌,
}
use sprinkler_d.Platform.{Platform}
use sprinkler_d.Text.{Text, bytes, same_text}
use sprinkler_d.Format.{decimal}
use sprinkler_d.State.{GpioCfg, State, Cmd, pure, gets, modify, ◌>>=◌, ◌>>◌, zone_at}
use sprinkler_d.Zones.Pins.{is_all, is_none}
use sprinkler_d.Mqtt.Defs.{
  Connection, websocket, mqtt_connection, other_connection, Net, send_mqtt_msg, topic_of, zone_name,
  mqtt_value, dz_value, publish_dz, publish_zone_mqtt, sprinklerd_status, build_dz_status_message,
}
use sprinkler_d.Mqtt.Lifecycle.{Host, check_net_services}

module _ ⦃P : Platform⦄ where
  -- The loop over mongoose's connections; a message to a web socket is not complete in the code.
  unfoldable pub each_mqtt : (Net → Cmd Net) → List Connection → Net → Cmd Net
  each_mqtt k [] n = pure n
  each_mqtt k (websocket ∷ cs) n = each_mqtt k cs n
  each_mqtt k (other_connection ∷ cs) n = each_mqtt k cs n
  each_mqtt k (mqtt_connection ∷ cs) n = do m ← k n; each_mqtt k cs m

  unfoldable pub broadcast_zonestate : Host → GpioCfg → Net → Cmd Net
  unfolding each_mqtt check_net_services publish_zone_mqtt
  broadcast_zonestate h z n =
      let m = (check_net_services h n).1 in each_mqtt (publish_zone_mqtt z) m.connections m

  -- The run times in seconds of `rounds` zones from `i` on, added to `total`.
  unfoldable pub total_left : ℕ → ℤ → ℤ → Cmd ℤ
  total_left zero i total = pure total
  total_left (suc rounds) i total = do
    z ← zone_at i
    total_left rounds (i +ℤ pos 1) (total +ℤ z.default_runtime *ℤ pos 60)

  abbrev pub zones_behind : State → ℕ
  zones_behind s = pos_part (pos s.zones -ℤ s.current_zone.zone)

  -- What is running, before the time that is left of the cycle.
  unfoldable pub send_active : State → Net → Net
  unfolding send_mqtt_msg sprinklerd_status
  send_active s n =
      if is_none s.current_zone.type
      then send_mqtt_msg (topic_of n (bytes "cycleallzones/remainingduration")) (bytes "0")
          (send_mqtt_msg (topic_of n (bytes "active")) (bytes " ") n)
      else send_mqtt_msg (topic_of n (zone_name s.current_zone.zone (bytes "/remainingduration")))
          (decimal s.current_zone.timeleft)
          (send_mqtt_msg (topic_of n (bytes "status")) (sprinklerd_status s).1 (
            send_mqtt_msg (topic_of n (bytes "active"))
              (bytes "Zone " ++ decimal s.current_zone.zone) n))

  abbrev pub send_total : ℤ → Net → Net
  send_total total n =
      send_mqtt_msg (topic_of n (bytes "zone0/remainingduration")) (decimal total)
        (send_mqtt_msg (topic_of n (bytes "cycleallzones/remainingduration")) (decimal total) n)

  abbrev pub send_left : ℤ → Net → Net
  send_left timeleft n =
      send_mqtt_msg (topic_of n (bytes "zone0/remainingduration")) (decimal timeleft) n

  unfoldable pub publish_active : Net → Cmd Net
  unfolding send_active total_left send_mqtt_msg
  publish_active n = do
    s ← gets (λ s. s)
    let m = send_active s n
    if is_all s.current_zone.type
        then (do
          total ← total_left (zones_behind s) (s.current_zone.zone +ℤ pos 1) s.current_zone.timeleft
          pure (send_total total m))
        else if is_none s.current_zone.type
        then pure m
        else pure (send_left s.current_zone.timeleft m)

  abbrev pub clear_event_zones : State → State
  clear_event_zones s = record s {
    update_event_mask = record (s.update_event_mask) { zones = false };
  }

  unfoldable pub broadcast_sprinklerdactivestate : Net → Cmd Net
  unfolding each_mqtt publish_active
  broadcast_sprinklerdactivestate n = do
    m ← each_mqtt publish_active n.connections n
    modify clear_event_zones
    pure m

  -- The loop over the zones, `rounds` of them from `i` on.
  unfoldable pub publish_zones : ℕ → ℕ → Net → Cmd Net
  unfolding publish_zone_mqtt
  publish_zones zero i n = pure n
  publish_zones (suc rounds) i n = do
    z ← zone_at (pos i)
    m ← publish_zone_mqtt z n
    publish_zones rounds (suc i) m

  -- `getTodayString`
  abbrev pub today_string : State → Text
  today_string s = P.time_text (bytes "%a %h %d.") s.clock

  abbrev pub clear_event_rain_probability : State → State
  clear_event_rain_probability s = record s {
    update_event_mask = record (s.update_event_mask) { rain_probability = false };
  }

  abbrev pub clear_event_rain_total : State → State
  clear_event_rain_total s = record s {
    update_event_mask = record (s.update_event_mask) { rain_total = false };
  }

  -- The messages of the chance of rain in a state of the daemon.
  abbrev pub rain_chance_at : State → Net → Cmd Net
  rain_chance_at s n =
      if not (eqb_ℤ n.published_rain_chance s.today_rain_chance)
        || s.update_event_mask.rain_probability
      then (do
        modify clear_event_rain_probability
        pure (
            send_mqtt_msg (topic_of n (bytes "chanceofrain/day")) (today_string s)
              (record (send_mqtt_msg (topic_of n (bytes "chanceofrain"))
                (decimal s.today_rain_chance) n) { published_rain_chance = s.today_rain_chance })))
      else pure n

  unfoldable pub publish_rain_chance : Net → Cmd Net
  unfolding send_mqtt_msg
  publish_rain_chance n = do s ← gets (λ s. s); rain_chance_at s n

  -- The messages of the rain total in a state of the daemon.
  abbrev pub rain_total_at : State → Net → Cmd Net
  rain_total_at s n =
      if not (P.real_eqb n.published_rain_total s.today_rain_total)
        || s.update_event_mask.rain_total
      then (do
        modify clear_event_rain_total
        pure (
            send_mqtt_msg (topic_of n (bytes "raintotal/day")) (today_string s)
              (record (send_mqtt_msg (topic_of n (bytes "raintotal"))
                (P.real_text 2 s.today_rain_total) n) {
                  published_rain_total = s.today_rain_total;
                })))
      else pure n

  unfoldable pub publish_rain_total : Net → Cmd Net
  unfolding send_mqtt_msg
  publish_rain_total n = do s ← gets (λ s. s); rain_total_at s n

  abbrev pub send_switches : State → Net → Net
  send_switches s n = send_mqtt_msg (topic_of n (bytes "status")) (sprinklerd_status s).1 (
      send_mqtt_msg (topic_of n (bytes "cycleallzones")) (mqtt_value (is_all s.current_zone.type)) (
        send_mqtt_msg (topic_of n (bytes "24hdelay")) (mqtt_value s.delay24h)
          (send_mqtt_msg (topic_of n (bytes "calendar")) (mqtt_value s.calendar) n)))

  -- The part for `enableMQTTaq`.
  unfoldable pub publish_aq_state : Net → Cmd Net
  unfolding publish_rain_chance publish_rain_total send_mqtt_msg sprinklerd_status
  publish_aq_state n = do
    s ← gets (λ s. s)
    m ← publish_rain_chance (send_switches s n)
    publish_rain_total m

  -- A switch that has an index in Domoticz.
  unfoldable pub publish_switch : ℤ → Bool → Net → Cmd Net
  unfolding publish_dz
  publish_switch idx on n = if ltb_ℤ (pos 0) idx then publish_dz idx (dz_value on) n else pure n

  -- The status text, where it is not the one that was sent last.
  -- The status message in a state of the daemon.
  abbrev pub status_at : State → Net → Cmd Net
  status_at s n =
      let status = sprinklerd_status s in
      if ltb_ℤ (pos 0) s.dzidx_status && not (same_text n.last_state_msg status.1)
      then pure
          (record (send_mqtt_msg n.mqtt_dz_pub_topic
            (build_dz_status_message s.dzidx_status status.0 status.1) n) {
              last_state_msg = status.1;
            })
      else pure n

  unfoldable pub publish_status : Net → Cmd Net
  unfolding send_mqtt_msg sprinklerd_status build_dz_status_message
  publish_status n = do s ← gets (λ s. s); status_at s n

  -- The part for `enableMQTTdz`.
  unfoldable pub publish_dz_state : Net → Cmd Net
  unfolding publish_switch publish_status
  publish_dz_state n = do
    s ← gets (λ s. s)
    a ← publish_switch s.dzidx_calendar s.calendar n
    b ← publish_switch s.dzidx_24hdelay s.delay24h a
    c ← publish_switch s.dzidx_allzones (is_all s.current_zone.type) b
    publish_status c

  -- Zone 0 is published where a master valve is fitted.
  abbrev pub first_zone : State → ℕ
  first_zone s = if s.master_valve then 0 else 1

  -- The messages of the whole state, in a state of the daemon.
  abbrev pub state_at : State → Net → Cmd Net
  state_at s n = do
    a ← publish_zones (suc s.zones - first_zone s) (first_zone s) n
    b ← if a.enable_mqtt_aq then publish_aq_state a else pure a
    if b.enable_mqtt_dz then publish_dz_state b else pure b

  unfoldable pub publish_state : Net → Cmd Net
  unfolding publish_zones publish_aq_state publish_dz_state
  publish_state n = do s ← gets (λ s. s); state_at s n

  abbrev pub clear_event_status : State → State
  clear_event_status s = record s {
    update_event_mask = record (s.update_event_mask) { status = false };
  }

  unfoldable pub broadcast_sprinklerdstate : Net → Cmd Net
  unfolding each_mqtt publish_state
  broadcast_sprinklerdstate n = do
    m ← each_mqtt publish_state n.connections n
    modify clear_event_status
    pure m
