-- ===== src/Mqtt/Topics.antt =====
-- net_services.c: `action_mqtt_message`, what a message below the daemon's topic asks for.
use sprinkler_d.Prelude.{
  ℕ, zero, suc, ℤ, pos, eqb_ℤ, ltb_ℤ, leb_ℤ, Bool, true, false, not, ◌&&◌, ◌||◌, Option, none, some,
  List, [], ◌∷◌, ◌++◌, length, get_elem?, if◌then◌else◌, ◌==◌,
}
use sprinkler_d.Platform.{Platform}
use sprinkler_d.Text.{Text, bytes, same_upto, same_upto_case, atoi, str2int}
use sprinkler_d.Format.{quot}
use sprinkler_d.State.{
  zc_single, zc_all, ZoneState, zc_on, zc_off, State, Cmd, pure, gets, modify, ◌>>=◌, ◌>>◌, zone_at,
  set_event_zones, set_event_status,
}
use sprinkler_d.Cache.{set_runtime}
use sprinkler_d.Zones.Cycle.{array_index, zc_update_runtime}
use sprinkler_d.Zones.Pins.{is_none, is_on}
use sprinkler_d.Zones.Requests.{zc_zone}
use sprinkler_d.Rain.Defs.{
  enable_calendar, enable_delay24h, set_today_chance_of_rain, set_today_rain_total,
}
use sprinkler_d.Domoticz.Parse.{drop_text}

-- `struct mg_mqtt_message`, with what the buffer holds behind the topic and behind the payload, up
-- to a NUL.
pub record MqttMessage : Type 0 where
  pub message_id : ℕ
  pub topic : Text
  pub behind_topic : Text
  pub payload : Text
  pub behind_payload : Text

-- The texts behind the next `n` slashes of the topic, read on into the buffer; the byte behind a slash
-- is passed over.
unfoldable pub parts : ℕ → Bool → Text → Text → List Text
parts zero skip t behind = []
parts (suc n) skip [] behind = []
parts (suc n) true (c ∷ t) behind = parts (suc n) false t behind
parts (suc n) false (c ∷ t) behind = elim (c == b'/') [
  | true ↦ (t ++ behind) ∷ parts n true t behind
  | false ↦ parts (suc n) false t behind
]

-- `pt2`, `pt3` and `pt4`, none where they are NULL.
pub record Topic : Type 0 where
  pub pt2 : Option Text
  pub pt3 : Option Text
  pub pt4 : Option Text

unfoldable pub split_topic : Text → MqttMessage → Topic
unfolding parts
split_topic mqtt_topic m =
    let found = parts 3 false (drop_text (length mqtt_topic) m.topic) m.behind_topic in
    record { pt2 = get_elem? found 0; pt3 = get_elem? found 1; pt4 = get_elem? found 2 }

-- `pt != NULL && strncmp(pt, word, n) == 0`
abbrev pub begins : ℕ → Text → Option Text → Bool
begins n word none = false
begins n word (some t) = same_upto n t word

unfoldable pub status_of : MqttMessage → ZoneState
status_of m =
    let text = m.payload ++ m.behind_payload in
    if same_upto_case 2 text (bytes "on") || same_upto 1 text (bytes "1") then zc_on else zc_off

-- `atoi(&pt2[4])`
abbrev pub topic_zone : Option Text → ℤ
topic_zone none = pos 0
topic_zone (some t) = atoi (drop_text 4 t)

-- What the topic asks for, in the order of the tests.
pub data Command : Type 0 where
  set_duration delay calendar cycle_all_zones rain_total chance_of_rain set_zone unknown_topic :
      Command

unfoldable pub command_of : Topic → Command
command_of t =
    let set = begins 3 (bytes "set") t.pt3 in
    if begins 4 (bytes "zone") t.pt2
      && begins 8 (bytes "duration") t.pt3
      && begins 3 (bytes "set") t.pt4
    then set_duration
    else if begins 8 (bytes "24hdelay") t.pt2 && set
    then delay
    else if begins 6 (bytes "calendar") t.pt2 && set
    then calendar
    else if begins 13 (bytes "cycleallzones") t.pt2 && set
    then cycle_all_zones
    else if begins 9 (bytes "raintotal") t.pt2 && set
    then rain_total
    else if begins 12 (bytes "chanceofrain") t.pt2 && set
    then chance_of_rain
    else if begins 4 (bytes "zone") t.pt2 && set
    then set_zone
    else unknown_topic

module _ ⦃P : Platform⦄ where
  -- `zoneN/duration/set`; the message for the log reads the zone, one that is not there too.
  unfoldable pub set_zone_duration : ℤ → ℤ → Cmd (Unit {0})
  set_zone_duration zone seconds = do
    n ← gets (λ s. s.zones)
    if ltb_ℤ (pos 0) zone && leb_ℤ zone (pos n)
        then (do k ← array_index zone; set_runtime k (quot seconds 60); zc_update_runtime zone)
        else zone_at zone >> pure tt

  -- `zoneN/set`; zone 0 off turns off whatever runs.
  abbrev pub switch_at : State → ℤ → ZoneState → Cmd (Unit {0})
  switch_at s zone status =
      if ltb_ℤ (pos 0) zone && leb_ℤ zone (pos s.zones)
      then zc_zone zc_single zone status (pos 0) >> pure tt
      else if eqb_ℤ zone (pos 0) && not (is_on status) && not (is_none s.current_zone.type)
      then zc_zone zc_single s.current_zone.zone zc_off (pos 0) >> pure tt
      else if eqb_ℤ zone (pos 0) && is_on status
      then modify set_event_zones >> modify set_event_status
      else pure tt

  unfoldable pub switch_topic_zone : ℤ → ZoneState → Cmd (Unit {0})
  switch_topic_zone zone status = do s ← gets (λ s. s); switch_at s zone status

  unfoldable pub run_topic : Command → Option Text → MqttMessage → Cmd (Unit {0})
  unfolding set_zone_duration switch_topic_zone
  run_topic set_duration pt2 m =
      set_zone_duration (topic_zone pt2)
        (str2int (m.payload ++ m.behind_payload) (length m.payload))
  run_topic delay pt2 m = enable_delay24h (is_on (status_of m))
  run_topic calendar pt2 m = modify (enable_calendar (is_on (status_of m)))
  run_topic cycle_all_zones pt2 m = zc_zone zc_all (pos 0) (status_of m) (pos 0) >> pure tt
  run_topic rain_total pt2 m =
      set_today_rain_total (P.real_of_text (m.payload ++ m.behind_payload)) >> pure tt
  run_topic chance_of_rain pt2 m =
      set_today_chance_of_rain (str2int (m.payload ++ m.behind_payload) (length m.payload))
      >> pure tt
  run_topic set_zone pt2 m = switch_topic_zone (topic_zone pt2) (status_of m)
  run_topic unknown_topic pt2 m = pure tt

  unfoldable pub action_mqtt_message : Text → MqttMessage → Cmd (Unit {0})
  unfolding split_topic command_of run_topic
  action_mqtt_message mqtt_topic m =
      let t = split_topic mqtt_topic m in run_topic (command_of t) t.pt2 m
