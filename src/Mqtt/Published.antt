-- ===== src/Mqtt/Published.antt =====
-- What the daemon publishes keeps its state sound: the zones and the Domoticz cache are read and written
-- within their lengths.
use sprinkler_d.Prelude.{
  ℕ, zero, suc, sym, ◌∙◌, Bool-cases, ◌+◌, ◌-◌, ℤ, pos, pos_part, ◌+ℤ◌, ◌-ℤ◌, ◌*ℤ◌, ◌≤◌, ◌≡◌, refl,
  Bool, true, false, List, [], ◌∷◌, arith, inl, inr, subst,
}
use sprinkler_d.Platform.{Platform, Driver}
use sprinkler_d.State.{RunType, returns, State, GpioCfg, Cmd, done, modify}
use sprinkler_d.Zones.Pins.{is_all, is_none}
use sprinkler_d.Mqtt.Defs.{
  Connection, websocket, mqtt_connection, other_connection, Net, publish_dz, publish_zone_at,
  publish_zone_mqtt,
}
use sprinkler_d.Mqtt.Broadcast.{
  each_mqtt, publish_zones, publish_rain_chance, publish_rain_total, publish_aq_state, first_zone,
  publish_switch, publish_status, publish_dz_state, state_at, publish_state,
  broadcast_sprinklerdstate, send_switches, send_active, send_total, send_left, rain_chance_at,
  rain_total_at, status_at, clear_event_rain_probability, clear_event_rain_total, total_left,
  publish_active, broadcast_sprinklerdactivestate, zones_behind,
}
use sprinkler_d.Mqtt.Hassio.{send_parts, send_valves, publish_mqtt_hassio_discover}
use sprinkler_d.Domoticz.Safety.{update_dz_cache-IsZoned}
use sprinkler_d.Sound.{Sound}
use sprinkler_d.Zones.Panel.{zone_at-some}
use sprinkler_d.Zones.Switches.{zone_exists}
use sprinkler_d.Zoned.{
  IsZoned, IsZoned-if, IsZoned-pure, IsZoned-bind, IsZoned-then, IsZoned-read, IsZoned-zone_at,
  IsZoned-marked,
}

next_index : (i : ℕ) → pos i +ℤ pos 1 ≡ pos (suc i)
unfolding ◌+ℤ◌
next_index i = ground arith

-- From a zone on there are as many zones left as the loop goes through.
behind_zone : (n k : ℕ) → k ≤ n → pos_part (pos n -ℤ pos k) + suc k ≡ suc n
unfolding ◌-ℤ◌
behind_zone n k h = ground arith

module _ ⦃P : Platform⦄ ⦃D : Driver⦄ where
  publish_dz-IsZoned : (k : ℕ) (idx value : ℤ) (n : Net) → IsZoned k (publish_dz idx value n)
  unfolding publish_dz
  publish_dz-IsZoned k idx value n =
      IsZoned-bind k _ _ (update_dz_cache-IsZoned k idx value)
        λ changed. search (IsZoned-if, IsZoned-pure)

  pub publish_zone_mqtt-IsZoned :
      (k : ℕ) (z : GpioCfg) (n : Net) → IsZoned k (publish_zone_mqtt z n)
  unfolding publish_zone_mqtt
  publish_zone_mqtt-IsZoned k z n =
      IsZoned-read k (λ s. publish_zone_at s z n)
        λ s e. search (IsZoned-if, IsZoned-pure, publish_dz-IsZoned)

  publish_zones-IsZoned :
      (rounds k i : ℕ) (n : Net) → rounds + i ≤ suc k → IsZoned k (publish_zones rounds i n)
  unfolding publish_zones
  publish_zones-IsZoned zero k i n h = IsZoned-pure k n
  publish_zones-IsZoned (suc rounds) k i n h = IsZoned-zone_at k i _ (omega arith) λ z e.
      IsZoned-bind k _ _ (publish_zone_mqtt-IsZoned k z n)
        λ m. publish_zones-IsZoned rounds k (suc i) m (omega arith)

  clear_probability-IsZoned : (k : ℕ) → IsZoned k (modify clear_event_rain_probability)
  clear_probability-IsZoned k = IsZoned-marked k (λ m. record m { rain_probability = false })

  clear_total-IsZoned : (k : ℕ) → IsZoned k (modify clear_event_rain_total)
  clear_total-IsZoned k = IsZoned-marked k (λ m. record m { rain_total = false })

  publish_rain_chance-IsZoned : (k : ℕ) (n : Net) → IsZoned k (publish_rain_chance n)
  unfolding publish_rain_chance
  publish_rain_chance-IsZoned k n =
      IsZoned-read k (λ s. rain_chance_at s n)
        λ s e. search (IsZoned-if, IsZoned-pure, IsZoned-then, clear_probability-IsZoned) depth 9

  publish_rain_total-IsZoned : (k : ℕ) (n : Net) → IsZoned k (publish_rain_total n)
  unfolding publish_rain_total
  publish_rain_total-IsZoned k n =
      IsZoned-read k (λ s. rain_total_at s n)
        λ s e. search (IsZoned-if, IsZoned-pure, IsZoned-then, clear_total-IsZoned) depth 9

  publish_aq_state-IsZoned : (k : ℕ) (n : Net) → IsZoned k (publish_aq_state n)
  unfolding publish_aq_state
  publish_aq_state-IsZoned k n = IsZoned-read k _ λ s e.
      IsZoned-bind k _ _ (publish_rain_chance-IsZoned k (send_switches s n))
        λ m. publish_rain_total-IsZoned k m

  publish_switch-IsZoned :
      (k : ℕ) (idx : ℤ) (on : Bool) (n : Net) → IsZoned k (publish_switch idx on n)
  unfolding publish_switch
  publish_switch-IsZoned k idx on n = search (IsZoned-if, IsZoned-pure, publish_dz-IsZoned)

  publish_status-IsZoned : (k : ℕ) (n : Net) → IsZoned k (publish_status n)
  unfolding publish_status
  publish_status-IsZoned k n =
      IsZoned-read k (λ s. status_at s n) λ s e. search (IsZoned-if, IsZoned-pure)

  publish_dz_state-IsZoned : (k : ℕ) (n : Net) → IsZoned k (publish_dz_state n)
  unfolding publish_dz_state
  publish_dz_state-IsZoned k n = IsZoned-read k _ λ s e.
      IsZoned-bind k _ _ (publish_switch-IsZoned k s.dzidx_calendar s.calendar n) λ a.
        IsZoned-bind k _ _ (publish_switch-IsZoned k s.dzidx_24hdelay s.delay24h a) λ b.
          IsZoned-bind k _ _
            (publish_switch-IsZoned k s.dzidx_allzones (is_all s.current_zone.type) b)
            λ c. publish_status-IsZoned k c

  first_zone_le : (s : State) → (suc s.zones - first_zone s) + first_zone s ≤ suc s.zones
  first_zone_le s = ground arith

  publish_state-IsZoned : (k : ℕ) (n : Net) → IsZoned k (publish_state n)
  unfolding publish_state
  publish_state-IsZoned k n =
      IsZoned-read k (λ s. state_at s n)
        λ s e.
          IsZoned-bind k _ _
            (publish_zones-IsZoned (suc s.zones - first_zone s) k (first_zone s) n
              (omega (arith, e, first_zone_le s)))
            λ a.
              IsZoned-bind k _ _
                (IsZoned-if k a.enable_mqtt_aq _ _ (publish_aq_state-IsZoned k a)
                  (IsZoned-pure k a))
                λ b.
                  IsZoned-if k b.enable_mqtt_dz _ _ (publish_dz_state-IsZoned k b)
                    (IsZoned-pure k b)

  each_mqtt-IsZoned :
      (k : ℕ) (f : Net → Cmd Net)
      → ((n : Net) → IsZoned k (f n))
      → (cs : List Connection) (n : Net) → IsZoned k (each_mqtt f cs n)
  unfolding each_mqtt
  each_mqtt-IsZoned k f kept [] n = IsZoned-pure k n
  each_mqtt-IsZoned k f kept (websocket ∷ cs) n = each_mqtt-IsZoned k f kept cs n
  each_mqtt-IsZoned k f kept (other_connection ∷ cs) n = each_mqtt-IsZoned k f kept cs n
  each_mqtt-IsZoned k f kept (mqtt_connection ∷ cs) n =
      IsZoned-bind k _ _ (kept n) λ m. each_mqtt-IsZoned k f kept cs m

  pub broadcast_sprinklerdstate-IsZoned :
      (k : ℕ) (n : Net) → IsZoned k (broadcast_sprinklerdstate n)
  unfolding broadcast_sprinklerdstate
  broadcast_sprinklerdstate-IsZoned k n =
      IsZoned-bind k _ _
        (each_mqtt-IsZoned k publish_state (publish_state-IsZoned k) n.connections n)
        λ m.
          IsZoned-bind k _ _ (IsZoned-marked k (λ e. record e { status = false }))
            λ _. IsZoned-pure k m

  send_valves-IsZoned :
      (rounds k i : ℕ) (n : Net) → rounds + i ≤ suc k → IsZoned k (send_valves rounds i n)
  unfolding send_valves
  send_valves-IsZoned zero k i n h = IsZoned-pure k n
  send_valves-IsZoned (suc rounds) k i n h =
      IsZoned-zone_at k i _ (omega arith)
        λ z e. send_valves-IsZoned rounds k (suc i) _ (omega arith)

  pub publish_mqtt_hassio_discover-IsZoned :
      (k : ℕ) (n : Net) → IsZoned k (publish_mqtt_hassio_discover n)
  unfolding publish_mqtt_hassio_discover
  publish_mqtt_hassio_discover-IsZoned k n = record {
    keeps_zones = λ s h.
        (send_valves-IsZoned s.zones k 1 (send_parts n) (omega (arith, h.count))).keeps_zones s h;
  }

  -- The run times that are added up are those of zones that are there.
  total_left_reads :
      (rounds i : ℕ) (z total : ℤ) (s : State)
      → Sound s
      → z ≡ pos i
      → rounds + i ≤ suc s.zones
      → (t : ℤ) × (total_left rounds z total s ≡ done t s)
  unfolding total_left
  total_left_reads zero i z total s h e fits = (total, refl)
  total_left_reads (suc rounds) i z total s h e fits =
      let (g, at) = zone_exists s i h.safe.2.wiring (omega arith) in
      let (t, rest) =
        total_left_reads rounds (suc i) (z +ℤ pos 1) (total +ℤ g.default_runtime *ℤ pos 60) s h
          (rw e (next_index i)) (omega arith) in
      (
        t,
        rw (e, zone_at-some s i g at)
            (subst
              (λ v.
                total_left rounds (v +ℤ pos 1) (total +ℤ g.default_runtime *ℤ pos 60) s ≡ done t s)
              e rest),
      )

  all_some : (t : RunType) → is_all t ≡ true → is_none t ≡ false
  all_some t h = ground arith

  -- The zone that runs in a run of all zones is one of the zones.
  running_zone :
      (s : State)
      → Sound s
      → is_all s.current_zone.type ≡ true
      → (k : ℕ) × (s.current_zone.zone ≡ pos k) × (k ≤ s.zones)
  running_zone s h all = elim h.safe.1 [
    | inl idle ↦ absurd (let e : true ≡ false = sym idle ∙ all_some s.current_zone.type all in cc)
    | inr (k, at, lo, hi) ↦ (k, at, hi)
  ]

  behind_fits :
      (s : State) (k : ℕ)
      → s.current_zone.zone ≡ pos k
      → k ≤ s.zones
      → zones_behind s + suc k ≡ suc s.zones
  behind_fits s k at hi =
      subst (λ z. pos_part (pos s.zones -ℤ z) + suc k ≡ suc s.zones) (sym at)
        (behind_zone s.zones k hi)

  publish_active-reads :
      (s : State) (n : Net) → Sound s → (m : Net) × (publish_active n s ≡ done m s)
  unfolding publish_active
  publish_active-reads s n h = elim (Bool-cases (is_all s.current_zone.type)) [
    | inl all ↦
        let (k, at, hi) = running_zone s h all in
        let (t, e) =
          total_left_reads (zones_behind s) (suc k) (s.current_zone.zone +ℤ pos 1)
            s.current_zone.timeleft s h (rw at (next_index k))
            (omega (arith, behind_fits s k at hi)) in
        (send_total t (send_active s n), rw (all, e) refl)
    | inr one ↦ elim (Bool-cases (is_none s.current_zone.type)) [
      | inl idle ↦ (send_active s n, rw (one, idle) refl)
      | inr runs ↦ (send_left s.current_zone.timeleft (send_active s n), rw (one, runs) refl)
    ]
  ]

  publish_active-IsZoned : (k : ℕ) (n : Net) → IsZoned k (publish_active n)
  publish_active-IsZoned k n = record {
    keeps_zones = λ s h. let (m, e) = publish_active-reads s n h.sound in rw e (returns h);
  }

  pub broadcast_sprinklerdactivestate-IsZoned :
      (k : ℕ) (n : Net) → IsZoned k (broadcast_sprinklerdactivestate n)
  unfolding broadcast_sprinklerdactivestate
  broadcast_sprinklerdactivestate-IsZoned k n =
      IsZoned-bind k _ _
        (each_mqtt-IsZoned k publish_active (publish_active-IsZoned k) n.connections n)
        λ m.
          IsZoned-bind k _ _ (IsZoned-marked k (λ e. record e { zones = false }))
            λ _. IsZoned-pure k m
