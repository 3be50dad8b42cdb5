-- ===== src/Mqtt/Cleared.antt =====
-- The broadcasts clear the events that asked for them, where MQTT is connected.
use sprinkler_d.Prelude.{
  ℕ, suc, ◌-◌, eqb_ℤ, ◌≡◌, refl, ◌∙◌, ap, Bool, true, false, not, ◌||◌, List, [], ◌∷◌, inl, inr,
  Bool-cases, or_right, if◌then◌else◌,
}
use sprinkler_d.Platform.{Platform, Driver}
use sprinkler_d.State.{
  EventMask, any_event, State, Run, done, Cmd, pure, and_then, Returns, returns,
}
use sprinkler_d.Mqtt.Defs.{
  Connection, websocket, mqtt_connection, other_connection, Net, send_mqtt_msg,
}
use sprinkler_d.Mqtt.Broadcast.{
  each_mqtt, publish_rain_chance, publish_rain_total, publish_aq_state, publish_state,
  broadcast_sprinklerdstate, broadcast_sprinklerdactivestate, publish_active, first_zone,
  clear_event_status, send_switches,
}
use sprinkler_d.Sound.{Sound}
use sprinkler_d.Daemon.{both_broadcasts, both_broadcasts-IsKept}
use sprinkler_d.Mqtt.Reading.{each_reads}
use sprinkler_d.Mqtt.Mild.{
  Ends, Ends-mono, Ends-then, IsMild, IsMild-if, IsMild-pure, NoChance, NoTotal,
  publish_dz_state-IsMild, publish_zones-IsMild, ends,
}

module _ ⦃P : Platform⦄ where
  -- The part that clears the events of the rain sensors.
  chance_clears :
      (n : Net) (s : State)
      → Ends
          (λ m t. NoChance t × (NoTotal s → NoTotal t) × (m.enable_mqtt_aq ≡ n.enable_mqtt_aq))
          (publish_rain_chance n s)
  unfolding publish_rain_chance send_mqtt_msg
  chance_clears n s =
      elim (Bool-cases (
        not (eqb_ℤ n.published_rain_chance s.today_rain_chance)
        || s.update_event_mask.rain_probability)) [
          | inl sends ↦ rw sends (ends (refl, λ h. h, refl))
          | inr quiet ↦ rw quiet (
              ends (
                or_right (not (eqb_ℤ n.published_rain_chance s.today_rain_chance)) _ quiet,
                λ h. h,
                refl,
              ))
        ]

  total_clears :
      (n : Net) (s : State)
      → Ends
          (λ m t. NoTotal t × (NoChance s → NoChance t) × (m.enable_mqtt_aq ≡ n.enable_mqtt_aq))
          (publish_rain_total n s)
  unfolding publish_rain_total send_mqtt_msg
  total_clears n s =
      elim (Bool-cases (
        not (P.real_eqb n.published_rain_total s.today_rain_total)
        || s.update_event_mask.rain_total)) [
          | inl sends ↦ rw sends (ends (refl, λ h. h, refl))
          | inr quiet ↦ rw quiet (
              ends (
                or_right (not (P.real_eqb n.published_rain_total s.today_rain_total)) _ quiet,
                λ h. h,
                refl,
              ))
        ]

  switches-aq : (s : State) (n : Net) → (send_switches s n).enable_mqtt_aq ≡ n.enable_mqtt_aq
  unfolding send_mqtt_msg
  switches-aq s n = refl

  -- Neither sensor has an event, and MQTT is configured.
  abbrev Cleared : Net → State → Type 0
  Cleared m t = NoChance t × NoTotal t × (m.enable_mqtt_aq ≡ true)

  aq_clears : (n : Net) (s : State) → n.enable_mqtt_aq ≡ true → Ends Cleared (publish_aq_state n s)
  unfolding publish_aq_state
  aq_clears n s on =
      Ends-then publish_rain_total (chance_clears (send_switches s n) s) λ m t (chance, _, e).
        Ends-mono (total_clears m t)
          λ o u (total, keep, d). (keep chance, total, d ∙ e ∙ switches-aq s n ∙ on)

  -- What is mild leaves what is cleared so.
  mild_Cleared : (n : Net) (c : Cmd Net) (s : State) → IsMild n c → Cleared n s → Ends Cleared (c s)
  mild_Cleared n c s k (chance, total, on) =
      Ends-mono (k.mild s) λ m t (f, e). (f.chance chance, f.total total, e ∙ on)

  aq_part :
      (b : Bool) (n : Net) (s : State)
      → b ≡ true
      → n.enable_mqtt_aq ≡ true
      → Ends Cleared ((if b then publish_aq_state n else pure n) s)
  aq_part true n s given on = aq_clears n s on
  aq_part false n s given on = cc

  state_clears : (n : Net) (s : State) → n.enable_mqtt_aq ≡ true → Ends Cleared (publish_state n s)
  unfolding publish_state
  state_clears n s on =
      Ends-then _ ((publish_zones-IsMild (suc s.zones - first_zone s) (first_zone s) n).mild s)
        λ a t (_, e). Ends-then _ (aq_part a.enable_mqtt_aq a t (e ∙ on) (e ∙ on)) λ b u c.
          mild_Cleared b _ u (IsMild-if b _ _ _ (publish_dz_state-IsMild b) (IsMild-pure b b refl))
            c

  -- One of the connections is MQTT.
  abbrev pub has_mqtt : List Connection → Bool
  has_mqtt [] = false
  has_mqtt (mqtt_connection ∷ cs) = true
  has_mqtt (websocket ∷ cs) = has_mqtt cs
  has_mqtt (other_connection ∷ cs) = has_mqtt cs

  each_keeps :
      (cs : List Connection) (n : Net) (s : State)
      → Cleared n s
      → Ends Cleared (each_mqtt publish_state cs n s)
  unfolding each_mqtt
  each_keeps [] n s c = ends c
  each_keeps (websocket ∷ cs) n s c = each_keeps cs n s c
  each_keeps (other_connection ∷ cs) n s c = each_keeps cs n s c
  each_keeps (mqtt_connection ∷ cs) n s c =
      Ends-then _ (state_clears n s c.2) λ m t d. each_keeps cs m t d

  each_clears :
      (cs : List Connection) (n : Net) (s : State)
      → has_mqtt cs ≡ true
      → n.enable_mqtt_aq ≡ true
      → Ends Cleared (each_mqtt publish_state cs n s)
  unfolding each_mqtt
  each_clears [] n s has on = cc
  each_clears (websocket ∷ cs) n s has on = each_clears cs n s has on
  each_clears (other_connection ∷ cs) n s has on = each_clears cs n s has on
  each_clears (mqtt_connection ∷ cs) n s has on =
      Ends-then _ (state_clears n s on) λ m t d. each_keeps cs m t d

  no_events :
      (m : EventMask)
      → m.rain_probability ≡ false
      → m.rain_total ≡ false
      → m.status ≡ false
      → any_event (record m { zones = false }) ≡ false
  unfolding any_event
  no_events m chance total status = rw (chance, total, status) refl

  state_done :
      (n : Net) (s : State)
      → has_mqtt n.connections ≡ true
      → n.enable_mqtt_aq ≡ true
      → Ends
          (λ _ t. NoChance t × NoTotal t × (t.update_event_mask.status ≡ false))
          (broadcast_sprinklerdstate n s)
  unfolding broadcast_sprinklerdstate
  state_done n s has on =
      Ends-then _ (each_clears n.connections n s has on)
        λ m t (chance, total, _). ends (chance, total, refl)

  active_done :
      (n : Net) (s : State)
      → NoChance s
      → NoTotal s
      → s.update_event_mask.status ≡ false
      → Ends (λ _ t. any_event t.update_event_mask ≡ false) (broadcast_sprinklerdactivestate n s)
  unfolding broadcast_sprinklerdactivestate
  active_done n s chance total status = Ends-then _ (each_reads n.connections n s) λ m t e. ends (
      no_events t.update_event_mask (ap (λ v. v.update_event_mask.rain_probability) e ∙ chance)
        (ap (λ v. v.update_event_mask.rain_total) e ∙ total)
        (ap (λ v. v.update_event_mask.status) e ∙ status))

  both_clear :
      (j : ℕ) (n : Net) (s : State)
      → has_mqtt n.connections ≡ true
      → n.enable_mqtt_aq ≡ true
      → Ends (λ _ t. any_event t.update_event_mask ≡ false) (both_broadcasts j n s)
  unfolding both_broadcasts
  both_clear j n s has on = Ends-then _ (state_done n s has on) λ m t (chance, total, status).
      Ends-then _ (active_done m t chance total status) λ o u e. ends e

  returned :
      {A : Type 0} {Q R : A → State → Type 0} {r : Run A} → Returns Q r → Ends R r → Returns R r
  returned (returns q) (ends p) = returns p

  -- From a state whose pins agree with the current zone and whose tables have the sizes the
  -- handlers rely on, where MQTT is configured and one of the connections is MQTT, both broadcasts
  -- of a round end without an access outside an array and leave no event set.
  pub both_broadcasts-Cleared :
      ⦃D : Driver⦄ (j : ℕ) (n : Net) (s : State)
      → Sound s
      → has_mqtt n.connections ≡ true
      → n.enable_mqtt_aq ≡ true
      → Returns (λ _ t. any_event t.update_event_mask ≡ false) (both_broadcasts j n s)
  both_broadcasts-Cleared j n s h has on =
      returned ((both_broadcasts-IsKept j n).keeps s h) (both_clear j n s has on)

  each_silent :
      (k : Net → Cmd Net) (cs : List Connection) (n : Net) (s : State)
      → has_mqtt cs ≡ false
      → each_mqtt k cs n s ≡ done n s
  unfolding each_mqtt
  each_silent k [] n s silent = refl
  each_silent k (websocket ∷ cs) n s silent = each_silent k cs n s silent
  each_silent k (other_connection ∷ cs) n s silent = each_silent k cs n s silent
  each_silent k (mqtt_connection ∷ cs) n s silent = cc

  still_due :
      (m : EventMask)
      → m.rain_probability ≡ true
      → any_event (record m { status = false; zones = false }) ≡ true
  unfolding any_event
  still_due m chance = elim (Bool-cases m.rain_total) [
    | inl total ↦ rw total refl
    | inr kept ↦ rw (kept, chance) refl
  ]

  -- Where no connection is MQTT and the chance of rain has its event set, both broadcasts of a
  -- round send nothing and leave an event set, so that the next round broadcasts again.
  pub both_broadcasts-silent :
      (j : ℕ) (n : Net) (s : State)
      → has_mqtt n.connections ≡ false
      → s.update_event_mask.rain_probability ≡ true
      → Returns
          (λ r t. (r ≡ (j, n)) × (any_event t.update_event_mask ≡ true))
          (both_broadcasts j n s)
  unfolding both_broadcasts broadcast_sprinklerdstate broadcast_sprinklerdactivestate
  both_broadcasts-silent j n s silent chance =
      let t = clear_event_status s in
      rw
        (
          each_silent publish_state n.connections n s silent,
          and_then,
          each_silent publish_active n.connections n t silent,
        )
        (returns (refl, still_due s.update_event_mask chance))
