-- ===== src/Tests/Domoticz.antt =====
-- The theorems of the Domoticz cache at a concrete cache.
use sprinkler_d.Prelude.{pos, ◌≡◌, refl, inr, some, [], ◌∷◌}
use sprinkler_d.State.{State, done, Returns}
use sprinkler_d.Domoticz.Defs.{
  DzMessage, dz_entry, dz_status, update_dz_cache, action_domoticz_mqtt_message,
}
use sprinkler_d.Text.{bytes}
use sprinkler_d.Mqtt.Defs.{build_dz_mqtt_status}
use sprinkler_d.Domoticz.Parse.{parse_mqtt_request}
use sprinkler_d.Domoticz.RoundTrip.{parse_mqtt_request-build}
use sprinkler_d.Domoticz.Cache.{update_dz_cache-echo}
use sprinkler_d.Domoticz.Map.{Holds, put_value, values, differs, update_dz_cache-refines}
use sprinkler_d.Tests.Plant.{plant, idle}

-- Index 5 is cached, and the other five entries are free.
abbrev cached : State
cached = record idle {
  dz_cache =
      dz_entry (pos 5) (pos 1)
      ∷ dz_entry (pos 0) (pos 0)
      ∷ dz_entry (pos 0) (pos 0)
      ∷ dz_entry (pos 0) (pos 0)
      ∷ dz_entry (pos 0) (pos 0)
      ∷ dz_entry (pos 0) (pos 0)
      ∷ [];
}

abbrev message : DzMessage
message = record { idx = pos 7; nvalue = pos 1; svalue = [] }

update_dz_cache-echo_example :
    Returns
      (λ _ u. action_domoticz_mqtt_message (some message) u ≡ done tt u)
      (update_dz_cache (pos 7) (pos 1) cached)
unfolding dz_status
update_dz_cache-echo_example = update_dz_cache-echo cached message (inr (refl, (pos 0, refl)))

update_dz_cache-refines_example :
    Returns
      (λ changed u.
        Holds u (put_value (values cached) (pos 7) (pos 1))
        × (changed ≡ differs (values cached (pos 7)) (pos 1)))
      (update_dz_cache (pos 7) (pos 1) cached)
unfolding dz_status
update_dz_cache-refines_example =
    update_dz_cache-refines cached (pos 7) (pos 1) (inr (refl, (pos 0, refl)))

parse_mqtt_request-build_example :
    parse_mqtt_request (build_dz_mqtt_status (pos 120) (pos 1)) (bytes "\"idx\":7}")
    ≡ some (some (record { idx = pos 120; nvalue = pos 1; svalue = [] }))
parse_mqtt_request-build_example = parse_mqtt_request-build 120 1 (bytes "\"idx\":7}")
