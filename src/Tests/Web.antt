-- ===== src/Tests/Web.antt =====
-- The theorem of the web requests at a concrete query.
use sprinkler_d.Prelude.{
  ◌-ℤ◌, ◌*ℤ◌, pos, negsuc, ◌≡◌, refl, inr, some, true, false, [], if◌then◌else◌, arith,
}
use sprinkler_d.Text.{Text, bytes, same_text, same_upto_case, atoi}
use sprinkler_d.Format.{decimal, two_digits}
use sprinkler_d.State.{State, fault, zone_at, done, zc_cron, Returns}
use sprinkler_d.Web.Defs.{Query}
use sprinkler_d.Web.Json.{status_text}
use sprinkler_d.Web.Serve.{request, answer, serve_web_request}
use sprinkler_d.Zones.Pins.{pin_is_on, zc_stop, zc_start, zc_master}
use sprinkler_d.Zones.Requests.{zc_zone}
use sprinkler_d.Web.Requests.{serve_web_request-Sound}
use sprinkler_d.Mqtt.Events.{http_request, ev_handler}
use sprinkler_d.Mqtt.Handler.{ev_handler-Sound}
use sprinkler_d.Rain.Defs.{reset_delay24h_time, check_delay24h}
use sprinkler_d.Rain.Faults.{reset_delay24h_time_negative}
use sprinkler_d.Sound.{Sound, Keeps}
use sprinkler_d.Tests.Plant.{plant, plant_driver, idle}
use sprinkler_d.Tests.Network.{net}
use sprinkler_d.Tests.Garden.{watering, garden-Tables, cron_Safe}

-- `type=zone&zone=3&runtime=2&state=on`
abbrev variable : Text → Text
unfolding same_text bytes
variable name =
    if same_text name (bytes "type")
    then bytes "zone"
    else if same_text name (bytes "zone")
    then bytes "3"
    else if same_text name (bytes "runtime")
    then bytes "2"
    else if same_text name (bytes "state")
    then bytes "on"
    else []

abbrev query : Query
query = record { get_var = variable; stale = [] }

watering-Sound : Sound (watering zc_cron)
watering-Sound = record { safe = cron_Safe; tables = garden-Tables }

serve_web_request-Sound_example : Keeps (serve_web_request query (watering zc_cron))
unfolding same_text bytes atoi status_text decimal two_digits request same_upto_case zc_zone zone_at
    pin_is_on zc_stop zc_start zc_master ◌-ℤ◌ ◌*ℤ◌ answer
serve_web_request-Sound_example =
    serve_web_request-Sound (watering zc_cron) query watering-Sound (inr refl) refl (refl, refl)

ev_handler-Sound_example : Keeps (ev_handler 0 (http_request (some query)) net (watering zc_cron))
unfolding same_text bytes atoi status_text decimal two_digits request same_upto_case zc_zone zone_at
    pin_is_on zc_stop zc_start zc_master ◌-ℤ◌ ◌*ℤ◌ answer
ev_handler-Sound_example =
    ev_handler-Sound (watering zc_cron) 0 (http_request (some query)) net watering-Sound (inr refl)
      (refl, (refl, refl))

reset_delay24h_time_negative_example :
    Returns
      (λ _ u.
        (u.delay24h ≡ true)
        × (check_delay24h (record u { clock = pos 9000 })
            ≡ done false (record u { clock = pos 9000 })))
      (reset_delay24h_time (negsuc 0) (watering zc_cron))
reset_delay24h_time_negative_example =
    reset_delay24h_time_negative (watering zc_cron) 0 (pos 9000) cron_Safe (ground arith)

-- `type=read`
abbrev read_query : Query
unfolding same_text bytes
read_query = record {
  get_var = λ name. if same_text name (bytes "type") then bytes "read" else [];
  stale = [];
}

-- A certain rain of five characters does not fit the status.
abbrev soaked : State
soaked = record idle { today_rain_chance = pos 100; today_rain_total = pos 12345 }

status_overrun : serve_web_request read_query soaked ≡ fault
unfolding serve_web_request status_text decimal same_text bytes
status_overrun = refl
