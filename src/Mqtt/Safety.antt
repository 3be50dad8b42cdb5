-- ===== src/Mqtt/Safety.antt =====
-- What a message below the daemon's topic does keeps the daemon's state sound.
use sprinkler_d.Prelude.{
  ℕ, zero, suc, List, [], ◌∷◌, ◌++◌, subst, length, ap, and_left, and_right, get_elem?, ℤ, pos,
  eqb_ℤ, ltb_ℤ, leb_ℤ, ◌≤◌, ◌≡◌, inl, inr, refl, sym, ◌∙◌, Bool, true, false, ◌&&◌, not, Option,
  none, Bool-cases, if◌then◌else◌, arith,
}
use sprinkler_d.Platform.{Platform, Driver}
use sprinkler_d.Text.{Text, str2int}
use sprinkler_d.Format.{quot}
use sprinkler_d.State.{
  ZoneState, zc_off, zc_single, Returns-and_then, State, Cmd, fault, pure, modify, ◌>>◌, returns,
  set_event_zones, set_event_status, zone_at,
}
use sprinkler_d.Zones.Pins.{is_none, is_on}
use sprinkler_d.Zones.Panel.{zone_at-some}
use sprinkler_d.Zones.Switches.{zone_exists}
use sprinkler_d.Zones.Requests.{zc_zone}
use sprinkler_d.Web.Runtimes.{set_runtime-Sound, zc_update_runtime-Sound}
use sprinkler_d.Mqtt.Topics.{
  MqttMessage, split_topic, command_of, Command, set_duration, delay, calendar, cycle_all_zones,
  rain_total, chance_of_rain, set_zone, unknown_topic, topic_zone, status_of, set_zone_duration,
  switch_at, switch_topic_zone, run_topic, action_mqtt_message,
}
use sprinkler_d.Sound.{
  Sound, Keeps, Keeps-then, IsKept, IsKept-pure, IsKept-then, enable_calendar-IsKept,
  enable_delay24h-IsKept, set_today_chance_of_rain-IsKept, set_today_rain_total-IsKept,
  cycle_all-IsKept, in_bounds, zc_zone-Sound,
}
use sprinkler_d.Zoned.{IsKeptAt, IsKeptAt-if, IsKeptAt-IsKept}

module _ ⦃P : Platform⦄ where
  outside :
      (s : State) (k : ℕ)
      → suc s.zones ≤ k
      → (ltb_ℤ (pos 0) (pos k) && leb_ℤ (pos k) (pos s.zones)) ≡ false
  outside s k over = ground arith

  past_end : {A : Type 0} (cfg : List A) (k : ℕ) → length cfg ≤ k → get_elem? cfg k ≡ none
  past_end [] k h = refl
  past_end (x ∷ cfg) zero h = elim h [ ]
  past_end (x ∷ cfg) (suc k) h = past_end cfg k (omega arith)

  no_zone :
      (s : State) (k : ℕ)
      → length s.zonecfg ≡ suc s.zones
      → suc s.zones ≤ k
      → zone_at (pos k) s ≡ fault
  unfolding zone_at
  no_zone s k size over = rw (past_end s.zonecfg k (omega arith), zone_at)

  -- A message for the run time of a zone names one of the zones, or zone 0.
  abbrev pub NamesZone : State → Command → ℤ → Type 0
  NamesZone s c zone = c ≡ set_duration → (k : ℕ) × (zone ≡ pos k) × (k ≤ s.zones)

  -- What a message below the daemon's topic must not ask for.
  abbrev pub Asked : State → Text → MqttMessage → Type 0
  Asked s mqtt_topic m =
      NamesZone s (command_of (split_topic mqtt_topic m))
        (topic_zone (split_topic mqtt_topic m).pt2)

module _ ⦃P : Platform⦄ ⦃D : Driver⦄ where
  duration-Sound :
      (s : State) (zone seconds : ℤ) (k : ℕ)
      → zone ≡ pos k
      → k ≤ s.zones
      → Sound s
      → Keeps (set_zone_duration zone seconds s)
  unfolding set_zone_duration
  duration-Sound s zone seconds k e hi h =
      elim (Bool-cases (ltb_ℤ (pos 0) (pos k) && leb_ℤ (pos k) (pos s.zones))) [
        | inl known ↦
            rw (e, known)
              (Returns-and_then (set_runtime-Sound s k (quot seconds 60) hi h)
                λ _ u (m, (zs, same)). zc_update_runtime-Sound u k (rw same hi) m)
        | inr other ↦
            let (z, at) = zone_exists s k h.safe.2.wiring hi in
            rw (e, other, zone_at-some s k z at) (returns h)
      ]

  zone-IsKeptAt :
      (s : State) (zone : ℤ) (status : ZoneState)
      → (Sound s → (k : ℕ) × (zone ≡ pos k) × (1 ≤ k) × (k ≤ s.zones))
      → IsKeptAt s (zc_zone zc_single zone status (pos 0) >> pure tt)
  zone-IsKeptAt s zone status named = record {
    keeps_at = λ h.
        Keeps-then _ (zc_zone-Sound s zc_single zone status (pos 0) h (inr (refl, refl, named h)))
          λ _ u m. returns m;
  }

  -- The zone of the message is one of the zones.
  named_zone :
      (n : ℕ) (zone : ℤ)
      → (ltb_ℤ (pos 0) zone && leb_ℤ zone (pos n)) ≡ true
      → (k : ℕ) × (zone ≡ pos k) × (1 ≤ k) × (k ≤ n)
  named_zone n zone known =
      let low = ltb_ℤ (pos 0) zone in
      let high = leb_ℤ zone (pos n) in
      in_bounds zone n (and_left low high known) (and_right low high known)

  -- The running zone, which zone 0 stands for.
  running_zone :
      (s : State) (a b : Bool)
      → (a && b && not (is_none s.current_zone.type)) ≡ true
      → Sound s
      → (k : ℕ) × (s.current_zone.zone ≡ pos k) × (1 ≤ k) × (k ≤ s.zones)
  running_zone s a b asked h = elim h.safe.1 [
    | inl idle ↦ absurd (
        let some : not (is_none s.current_zone.type) ≡ true =
          and_right (a && b) (not (is_none s.current_zone.type)) asked in
        let e : false ≡ true = sym (ap not idle) ∙ some in cc)
    | inr (k, at, lo, hi) ↦ (k, at, lo, hi)
  ]

  events-IsKept : IsKept (modify set_event_zones >> modify set_event_status)
  events-IsKept = record { keeps = λ s h. returns record { safe = h.safe; tables = h.tables } }

  -- A branch is taken where its test holds.
  IsKeptAt-cases :
      {A : Type 0} (s : State) (b : Bool) (x y : Cmd A)
      → (b ≡ true → IsKeptAt s x)
      → IsKeptAt s y
      → IsKeptAt s (if b then x else y)
  IsKeptAt-cases s true x y left right = left refl
  IsKeptAt-cases s false x y left right = right

  switch-IsKeptAt :
      (s : State) (zone : ℤ) (status : ZoneState) → IsKeptAt s (switch_at s zone status)
  switch-IsKeptAt s zone status =
      IsKeptAt-cases s _ _ _
        (λ known. zone-IsKeptAt s zone status (λ h. named_zone s.zones zone known))
        (IsKeptAt-cases s _ _ _
          (λ asked.
            zone-IsKeptAt s s.current_zone.zone zc_off
              (running_zone s (eqb_ℤ zone (pos 0)) (not (is_on status)) asked))
          (search (IsKeptAt-if, IsKeptAt-IsKept, events-IsKept, IsKept-pure)))

  switch-IsKept : (zone : ℤ) (status : ZoneState) → IsKept (switch_topic_zone zone status)
  unfolding switch_topic_zone
  switch-IsKept zone status = record { keeps = λ s h. (switch-IsKeptAt s zone status).keeps_at h }

  run_topic-Sound :
      (s : State) (c : Command) (pt2 : Option Text) (m : MqttMessage)
      → NamesZone s c (topic_zone pt2)
      → Sound s
      → Keeps (run_topic c pt2 m s)
  unfolding run_topic
  run_topic-Sound s set_duration pt2 m named h =
      let (k, e, hi) = named refl in
      duration-Sound s (topic_zone pt2) (str2int (m.payload ++ m.behind_payload) (length m.payload))
        k e hi h
  run_topic-Sound s delay pt2 m named h = (enable_delay24h-IsKept (is_on (status_of m))).keeps s h
  run_topic-Sound s calendar pt2 m named h =
      (enable_calendar-IsKept (is_on (status_of m))).keeps s h
  run_topic-Sound s cycle_all_zones pt2 m named h =
      (IsKept-then _ _ (cycle_all-IsKept (status_of m)) (IsKept-pure tt)).keeps s h
  run_topic-Sound s rain_total pt2 m named h =
      (IsKept-then _ _ (set_today_rain_total-IsKept _) (IsKept-pure tt)).keeps s h
  run_topic-Sound s chance_of_rain pt2 m named h =
      (IsKept-then _ _ (set_today_chance_of_rain-IsKept _) (IsKept-pure tt)).keeps s h
  run_topic-Sound s set_zone pt2 m named h =
      (switch-IsKept (topic_zone pt2) (status_of m)).keeps s h
  run_topic-Sound s unknown_topic pt2 m named h = returns h

  pub action_mqtt_message-Sound :
      (s : State) (mqtt_topic : Text) (m : MqttMessage)
      → Asked s mqtt_topic m
      → Sound s
      → Keeps (action_mqtt_message mqtt_topic m s)
  unfolding action_mqtt_message
  action_mqtt_message-Sound s mqtt_topic m named h =
      run_topic-Sound s (command_of (split_topic mqtt_topic m)) (split_topic mqtt_topic m).pt2 m
        named h

  duration_overrun :
      (s : State) (zone seconds : ℤ) (k : ℕ)
      → zone ≡ pos k
      → length s.zonecfg ≡ suc s.zones
      → suc s.zones ≤ k
      → set_zone_duration zone seconds s ≡ fault
  unfolding set_zone_duration
  duration_overrun s zone seconds k e size over = rw (e, outside s k over, no_zone s k size over)

  -- Where the zones are all configured, an MQTT message for the run time of a zone behind the last
  -- one reads behind the array of zones.
  pub set_duration_overrun :
      (s : State) (mqtt_topic : Text) (m : MqttMessage) (k : ℕ)
      → command_of (split_topic mqtt_topic m) ≡ set_duration
      → topic_zone (split_topic mqtt_topic m).pt2 ≡ pos k
      → length s.zonecfg ≡ suc s.zones
      → suc s.zones ≤ k
      → action_mqtt_message mqtt_topic m s ≡ fault
  unfolding action_mqtt_message run_topic
  set_duration_overrun s mqtt_topic m k asks zone size over =
      let pt2 = (split_topic mqtt_topic m).pt2 in
      subst (λ c. run_topic c pt2 m s ≡ fault) (sym asks)
        (duration_overrun s (topic_zone pt2)
          (str2int (m.payload ++ m.behind_payload) (length m.payload)) k zone size over)
