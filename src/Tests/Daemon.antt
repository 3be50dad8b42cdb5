-- ===== src/Tests/Daemon.antt =====
-- The theorems of the whole daemon at a concrete run.
use sprinkler_d.Prelude.{true, ltb_ℤ, subst, ℕ, pos, ◌≡◌, refl, [], ◌∷◌, some}
use sprinkler_d.State.{State, Run, zc_all}
use sprinkler_d.Text.{bytes, str2int, digits}
use sprinkler_d.Cron.Read.{CronGroups, CronReader, group, NamesZones, read_cron, read_cron-Sound}
use sprinkler_d.Cron.Defs.{zone_line}
use sprinkler_d.Mqtt.Defs.{Net, next_msg_id, send_mqtt_msg, mqtt_stopped}
use sprinkler_d.Mqtt.Events.{suback, close, ev_handler, on_suback, alive_topic}
use sprinkler_d.Daemon.{main_round, start, next, event, time_passes, main_round-Sound, Steps-Sound}
use sprinkler_d.Sound.{Sound, Keeps}
use sprinkler_d.Tests.Plant.{plant, plant_driver}
use sprinkler_d.Tests.Network.{host, net}
use sprinkler_d.Tests.Garden.{watering, garden-Tables, all_Safe}

running_Sound : Sound (watering zc_all)
running_Sound = record { safe = all_Safe; tables = garden-Tables }

abbrev alive : Net
alive = send_mqtt_msg (bytes "garden/Alive") (bytes "1") net

abbrev gone : Net
gone = record alive { mqtt_status = mqtt_stopped }

abbrev later : State
later = record (watering zc_all) { clock = pos 1060 }

abbrev after_round : Run (ℕ × Net)
after_round = main_round host 3 net (watering zc_all)

main_round-Sound_example : Keeps after_round
main_round-Sound_example = main_round-Sound (watering zc_all) host 3 net running_Sound

-- The broker confirms the subscription, a minute passes, and the connection is closed.
Steps-Sound_example : Sound (record (watering zc_all) { clock = pos 1060 })
unfolding ev_handler on_suback alive_topic send_mqtt_msg next_msg_id bytes
Steps-Sound_example =
    Steps-Sound net gone (watering zc_all) later
      (next net alive gone (watering zc_all) later later
        (next net alive alive (watering zc_all) (watering zc_all) later
          (next net net alive (watering zc_all) (watering zc_all) (watering zc_all)
            (start net (watering zc_all))
            (event 1 suback net alive (watering zc_all) (watering zc_all) refl refl))
          (time_passes (pos 1060) alive (watering zc_all)))
        (event 1 close alive gone later later tt refl))
      running_Sound

-- Every line is read as a run of zone 2 on Sunday at 6:30.
abbrev sunday : CronGroups
sunday = record {
  minute = bytes "30";
  hour = bytes "6";
  day = bytes "0";
  zone = bytes "2";
  runtime = bytes "15";
}

abbrev pub reader : CronReader
reader = record { compiles = true; opens = true; match = λ l. some sunday }

pub reader-NamesZones : NamesZones reader
unfolding str2int digits bytes
reader-NamesZones l g e =
    let same : sunday ≡ g = cc in subst (λ h. ltb_ℤ (pos 0) (group h.zone) ≡ true) same refl

abbrev with_line : State
with_line = record (watering zc_all) { cron_file = zone_line 0 1 (pos 15) (pos 30) (pos 6) ∷ [] }

read_cron-Sound_example : Keeps (read_cron reader with_line)
read_cron-Sound_example =
    read_cron-Sound reader with_line reader-NamesZones
      (record { safe = running_Sound.safe; tables = running_Sound.tables })
