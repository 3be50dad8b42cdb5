-- ===== src/Mqtt/Handler.antt =====
-- The handler of mongoose's events keeps the daemon's state sound.
use sprinkler_d.Prelude.{
  ℕ, ℤ, pos, eqb_ℤ, ltb_ℤ, ◌-ℤ◌, ◌≡◌, ◌⊎◌, inl, inr, Bool, true, false, ◌&&◌, Option, none, some,
  length, Bool-cases, if◌then◌else◌, ◌==◌, ltb,
}
use sprinkler_d.Platform.{Platform, Driver}
use sprinkler_d.Text.{bytes}
use sprinkler_d.State.{State, pure, ◌>>=◌, returns}
use sprinkler_d.Web.Defs.{Query}
use sprinkler_d.Web.Safety.{names_zone, zone_of}
use sprinkler_d.Web.Serve.{request, action_web_request}
use sprinkler_d.Web.Texts.{fits}
use sprinkler_d.Web.Held.{Held, held, Held-then}
use sprinkler_d.Web.Requests.{FitsAfter, serve_web_request-Held, serve_web_request-Sound}
use sprinkler_d.Domoticz.Defs.{DzMessage}
use sprinkler_d.Domoticz.Parse.{parse_mqtt_request}
use sprinkler_d.Domoticz.Safety.{action_domoticz_mqtt_message-IsKept}
use sprinkler_d.Mqtt.Defs.{Net, topic_of}
use sprinkler_d.Mqtt.Broadcast.{broadcast_sprinklerdstate}
use sprinkler_d.Mqtt.Topics.{MqttMessage, action_mqtt_message}
use sprinkler_d.Mqtt.Safety.{Asked, action_mqtt_message-Sound}
use sprinkler_d.Mqtt.Published.{
  broadcast_sprinklerdstate-IsZoned, publish_mqtt_hassio_discover-IsZoned,
}
use sprinkler_d.Mqtt.Events.{
  Event, connect, suback, close, other_event, connack, http_request, publish, alive_topic,
  subscriptions, on_connect, announce, on_connack, on_suback, parsed_domoticz, below, on_message,
  on_publish, ev_handler,
}
use sprinkler_d.Sound.{Sound, Keeps, Keeps-then, IsKept, IsKept-if, IsKept-pure}
use sprinkler_d.Zoned.{IsZoned, IsKept-IsZoned, IsZoned-if, IsZoned-pure, IsZoned-bind}

-- The topic of the last will fits into its buffer of 30 bytes.
abbrev pub FitsTopic : ⦃P : Platform⦄ → Net → Type 0
FitsTopic n = ltb (length (topic_of n (bytes "Alive"))) 30 ≡ true

-- The text value of a message from Domoticz ends within the message and fits into its buffer.
abbrev pub IsParsed : MqttMessage → Type 0
IsParsed m = (o : Option DzMessage) × (parse_mqtt_request m.payload m.behind_payload ≡ some o)

module _ ⦃P : Platform⦄ where
  -- What an event must not be: a connection whose last will does not fit, a web request for a zone
  -- that is not positive, a message for the run time of a zone that is not there, or one from Domoticz
  -- whose text does not fit.
  abbrev pub Allowed : State → Net → Event → Type 0
  Allowed s n connect = FitsTopic n
  Allowed s n suback = FitsTopic n
  Allowed s n close = Unit {0}
  Allowed s n other_event = Unit {0}
  Allowed s n (connack ret) = Unit {0}
  Allowed s n (http_request none) = Unit {0}
  Allowed s n (http_request (some q)) = (names_zone q ≡ false) ⊎ (ltb_ℤ (pos 0) (zone_of q) ≡ true)
  Allowed s n (publish m) = Asked s n.mqtt_topic m × IsParsed m

  -- The texts of a web request fit their buffers: the status before and behind the change, and the answer.
  abbrev pub Fits : State → Event → Type 0
  Fits s connect = Unit {0}
  Fits s suback = Unit {0}
  Fits s close = Unit {0}
  Fits s other_event = Unit {0}
  Fits s (connack ret) = Unit {0}
  Fits s (http_request none) = Unit {0}
  Fits s (http_request (some q)) = (fits s ≡ true) × FitsAfter (request q s)
  Fits s (publish m) = Unit {0}

  module _ ⦃D : Driver⦄ where
    announce-IsZoned : (k : ℕ) (n : Net) → IsZoned k (announce n)
    unfolding announce
    announce-IsZoned k n =
        IsZoned-if k _ _ _
          (IsZoned-bind k _ _ (publish_mqtt_hassio_discover-IsZoned k n) λ m. IsZoned-pure k _)
          (IsZoned-pure k n)

    accepted-IsZoned : (k : ℕ) (n : Net) → IsZoned k (announce n >>= broadcast_sprinklerdstate)
    accepted-IsZoned k n =
        IsZoned-bind k _ _ (announce-IsZoned k n) λ m. broadcast_sprinklerdstate-IsZoned k m

    on_connack-Sound : (s : State) (ret : ℤ) (n : Net) → Sound s → Keeps (on_connack ret n s)
    unfolding on_connack
    on_connack-Sound s ret n h = elim (Bool-cases (eqb_ℤ ret (pos 0))) [
      | inr bad ↦ rw bad (returns h)
      | inl good ↦ rw good (
          (IsKept-IsZoned _ (λ k.
              accepted-IsZoned k
                (record n { mqtt_connected_time = s.clock; subscribed = subscriptions n }))).keeps
            s h)
    ]

    web-Sound :
        (s : State) (q : Query)
        → (names_zone q ≡ false) ⊎ (ltb_ℤ (pos 0) (zone_of q) ≡ true)
        → Fits s (http_request (some q))
        → Sound s
        → Keeps (action_web_request (some q) s)
    unfolding action_web_request
    web-Sound s q named (short, after) h =
        Keeps-then _ (serve_web_request-Sound s q h named short after) λ _ u k. returns k

    parsed-IsKept :
        (m : MqttMessage)
        → IsParsed m
        → IsKept (parsed_domoticz (parse_mqtt_request m.payload m.behind_payload))
    unfolding parsed_domoticz
    parsed-IsKept m (o, e) = rw e (action_domoticz_mqtt_message-IsKept o)

    domoticz_part :
        (n : Net) (m : MqttMessage)
        → IsParsed m
        → IsKept (
            if n.enable_mqtt_dz && below n.mqtt_dz_sub_topic m
            then parsed_domoticz (parse_mqtt_request m.payload m.behind_payload)
            else pure tt)
    domoticz_part n m fits = IsKept-if _ _ _ (parsed-IsKept m fits) (IsKept-pure tt)

    topic_part :
        (asked : Bool) (s : State) (n : Net) (m : MqttMessage)
        → Asked s n.mqtt_topic m
        → Sound s
        → Keeps ((if asked then action_mqtt_message n.mqtt_topic m else pure tt) s)
    topic_part true s n m named h = action_mqtt_message-Sound s n.mqtt_topic m named h
    topic_part false s n m named h = returns h

    on_message-Sound :
        (s : State) (m : MqttMessage) (n : Net)
        → Asked s n.mqtt_topic m
        → IsParsed m
        → Sound s
        → Keeps (on_message m n s)
    unfolding on_message
    on_message-Sound s m n named fits h =
        Keeps-then _ (topic_part (n.enable_mqtt_aq && below n.mqtt_topic m) s n m named h)
          λ _ t k. (domoticz_part n m fits).keeps t k

    on_publish-Sound :
        (s : State) (m : MqttMessage) (n : Net)
        → Asked s n.mqtt_topic m
        → IsParsed m
        → Sound s
        → Keeps (on_publish m n s)
    unfolding on_publish
    on_publish-Sound s m n named fits h =
        elim (Bool-cases (ltb_ℤ (s.clock -ℤ n.mqtt_connected_time) (pos 1))) [
          | inl cached ↦ rw cached (returns h)
          | inr new ↦ elim (Bool-cases (m.message_id == 0)) [
            | inr own ↦ rw (new, own) (returns h)
            | inl foreign ↦
                rw (new, foreign)
                  (Keeps-then _ (on_message-Sound s m n named fits h) λ _ u k. returns k)
          ]
        ]

    -- From a state whose pins agree with the current zone and whose tables have the sizes the
    -- handlers rely on, every event of mongoose ends without an access outside an array or buffer
    -- and leaves the state so, where the last will's topic fits its buffer at a connect or a
    -- confirmed subscription, a web request that turns a zone on or off names a positive number,
    -- the status of 50 bytes before and behind a web request's change and the text of its answer
    -- fit their buffers, an MQTT message for a run time names zone 0 or one of the zones, and a
    -- message for Domoticz has no text value that is unfinished or of 20 bytes or more.
    pub ev_handler-Sound :
        (s : State) (nc : ℕ) (e : Event) (n : Net)
        → Sound s
        → Allowed s n e
        → Fits s e
        → Keeps (ev_handler nc e n s)
    unfolding ev_handler on_connect on_suback alive_topic action_web_request
    ev_handler-Sound s nc connect n h topic room = rw topic (returns h)
    ev_handler-Sound s nc suback n h topic room = rw topic (returns h)
    ev_handler-Sound s nc close n h allowed room = returns h
    ev_handler-Sound s nc other_event n h allowed room = returns h
    ev_handler-Sound s nc (connack ret) n h allowed room = on_connack-Sound s ret n h
    ev_handler-Sound s nc (http_request none) n h allowed room = returns h
    ev_handler-Sound s nc (http_request (some q)) n h named room =
        Keeps-then _ (web-Sound s q named room h) λ _ u k. returns k
    ev_handler-Sound s nc (publish m) n h (named, parsed) room =
        on_publish-Sound s m n named parsed h

    web-Held :
        (s : State) (q : Query)
        → (names_zone q ≡ false) ⊎ (ltb_ℤ (pos 0) (zone_of q) ≡ true)
        → Sound s
        → Held false (action_web_request (some q) s)
    unfolding action_web_request
    web-Held s q named h =
        Held-then false _ (serve_web_request-Held s q h named) λ _ u k. held (returns k)

    -- Without the conditions on the buffers: where an event ends at no fault, the state is sound.
    pub ev_handler-Held :
        (s : State) (nc : ℕ) (e : Event) (n : Net)
        → Sound s
        → Allowed s n e
        → Held false (ev_handler nc e n s)
    unfolding ev_handler
    ev_handler-Held s nc (http_request (some q)) n h named =
        Held-then false _ (web-Held s q named h) λ _ u k. held (returns k)
    ev_handler-Held s nc (http_request none) n h allowed =
        held (ev_handler-Sound s nc (http_request none) n h allowed tt)
    ev_handler-Held s nc connect n h allowed = held (ev_handler-Sound s nc connect n h allowed tt)
    ev_handler-Held s nc suback n h allowed = held (ev_handler-Sound s nc suback n h allowed tt)
    ev_handler-Held s nc close n h allowed = held (ev_handler-Sound s nc close n h allowed tt)
    ev_handler-Held s nc other_event n h allowed =
        held (ev_handler-Sound s nc other_event n h allowed tt)
    ev_handler-Held s nc (connack ret) n h allowed =
        held (ev_handler-Sound s nc (connack ret) n h allowed tt)
    ev_handler-Held s nc (publish m) n h allowed =
        held (ev_handler-Sound s nc (publish m) n h allowed tt)
