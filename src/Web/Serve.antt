-- ===== src/Web/Serve.antt =====
-- `serve_web_request` and `action_web_request` as a whole: the change, the JSON text and its buffer.
use sprinkler_d.Prelude.{
  ℕ, ◌+◌, ◌*◌, ℤ, pos, negsuc, ltb_ℤ, leb_ℤ, ltb, ◌&&◌, Option, none, some, [], ◌∷◌, ◌++◌, length,
  if◌then◌else◌,
}
use sprinkler_d.Platform.{Platform}
use sprinkler_d.Text.{Text, bytes, same_text, same_upto_case, atoi}
use sprinkler_d.Format.{decimal}
use sprinkler_d.State.{
  zc_single, zc_cron, State, Cmd, fault, pure, gets, modify, ◌>>=◌, ◌>>◌, set_event_zones,
}
use sprinkler_d.Zones.Cycle.{array_index, zc_update_runtime}
use sprinkler_d.Cache.{set_runtime}
use sprinkler_d.Web.Defs.{
  Query, Reply, no_reply, sprinkler_json, calendar_json, advanced_json, homebridge_json,
  unknown_request, unknown_option, unknown_zone, unknown_state, bad_runtime, built, serve_option,
  set_config, serve_sensor, serve_zone, serve_calendar,
}
use sprinkler_d.Web.Json.{
  build_sprinkler, build_sprinkler_cal, build_advanced_sprinkler, build_homebridge_sprinkler,
}

-- `{ "error": "…"}` around a text.
abbrev pub error_text : Text → Text
error_text text = bytes "{ \"error\": \"" ++ text ++ bytes "\"}"

module _ ⦃P : Platform⦄ where
  -- `type=zrtcfg` for a zone that is there
  unfoldable pub change_runtime : ℤ → ℤ → Cmd Text
  unfolding build_sprinkler
  change_runtime zone runtime = do
    k ← array_index zone
    set_runtime k runtime
    text ← build_sprinkler
    zc_update_runtime zone
    modify set_event_zones
    pure text

  unfoldable pub serve_runtime : Query → Cmd Reply
  unfolding change_runtime
  serve_runtime q =
      let zone = atoi (q.get_var (bytes "zone")) in
      let runtime = atoi (q.get_var (bytes "time")) in
      do
        n ← gets (λ s. s.zones)
        if ltb_ℤ (pos 0) zone && leb_ℤ zone (pos n) && ltb_ℤ (negsuc 0) runtime
            then (do text ← change_runtime zone runtime; pure (built text))
            else pure (bad_runtime zone runtime)

  -- The requests that may change the state, by their type.
  unfoldable pub serve_change : Text → Query → Cmd Reply
  unfolding serve_option set_config serve_sensor serve_zone serve_calendar serve_runtime
  serve_change type q =
      if same_text type (bytes "option")
      then serve_option q
      else if same_upto_case 6 type (bytes "config")
      then set_config q >> pure sprinkler_json
      else if same_upto_case 6 type (bytes "sensor")
      then serve_sensor q
      else if same_text type (bytes "cron")
      then serve_zone zc_cron q
      else if same_text type (bytes "zone")
      then serve_zone zc_single q
      else if same_text type (bytes "zrtcfg")
      then serve_runtime q
      else if same_text type (bytes "calcfg")
      then serve_calendar q
      else pure unknown_request

  -- What a request changes, and the kind of its answer.
  unfoldable pub request : Query → Cmd Reply
  unfolding serve_change
  request q =
      let type = q.get_var (bytes "type") in
      if same_text type (bytes "json")
      then pure advanced_json
      else if same_text type (bytes "homebridge")
      then pure homebridge_json
      else if same_text type (bytes "firstload")
      then pure calendar_json
      else if same_text type (bytes "read")
      then pure sprinkler_json
      else serve_change type q

  -- The text of an answer.
  unfoldable pub answer : Reply → Cmd Text
  unfolding build_sprinkler build_sprinkler_cal build_advanced_sprinkler build_homebridge_sprinkler
  answer no_reply = pure []
  answer sprinkler_json = build_sprinkler
  answer calendar_json = build_sprinkler_cal
  answer advanced_json = build_advanced_sprinkler
  answer homebridge_json = build_homebridge_sprinkler
  answer unknown_request = pure (error_text (bytes "unknown request"))
  answer unknown_option = pure (bytes "{ \"error\": \"Bad request unknown option\" }")
  answer (unknown_zone zone) = pure (error_text (bytes "Bad request unknown zone " ++ decimal zone))
  answer (unknown_state zone state) = pure (
      error_text
        (bytes "Bad request on zone " ++ decimal zone ++ bytes ", unknown state " ++ state))
  answer (bad_runtime zone runtime) = pure (
      error_text
        (bytes "bad request zone " ++ decimal zone ++ bytes " runtime " ++ decimal runtime))
  answer (built text) = pure text

  -- `bufsize` of action_web_request
  abbrev pub buffer_size : State → ℕ
  buffer_size s = 1024 + 200 * s.zones

  -- A text in the buffer, with its NUL; a longer one is written behind the buffer.
  unfoldable pub in_buffer : Text → Cmd Text
  in_buffer text = do
    size ← gets buffer_size
    if ltb (length text) size then pure text else λ s. fault

  unfoldable pub serve_web_request : Query → Cmd Text
  unfolding request answer in_buffer
  serve_web_request q = do reply ← request q; text ← answer reply; in_buffer text

  -- What is sent: an empty text becomes an error.
  abbrev pub sent : Text → Text
  sent [] = error_text (bytes "unknown request")
  sent (c ∷ text) = c ∷ text

  -- The text that is sent; mongoose answers a request without a query with a file.
  unfoldable pub action_web_request : Option Query → Cmd Text
  unfolding serve_web_request
  action_web_request none = pure []
  action_web_request (some q) = do text ← serve_web_request q; pure (sent text)
