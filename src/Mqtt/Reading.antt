-- ===== src/Mqtt/Reading.antt =====
-- The broadcast of the running zone reads the daemon's state and changes nothing until its end.
use sprinkler_d.Prelude.{
  ℕ, zero, suc, ℤ, pos, negsuc, ◌≡◌, refl, ◌∙◌, List, [], ◌∷◌, inl, inr, Bool-cases, Option-cases,
  get_elem?,
}
use sprinkler_d.Platform.{Platform}
use sprinkler_d.State.{State, zone_at}
use sprinkler_d.Zones.Pins.{is_all, is_none}
use sprinkler_d.Mqtt.Defs.{Connection, websocket, mqtt_connection, other_connection, Net}
use sprinkler_d.Mqtt.Broadcast.{each_mqtt, publish_active, total_left, zones_behind}
use sprinkler_d.Mqtt.Mild.{Ends, Ends-mono, Ends-then, ends, faults}

module _ ⦃P : Platform⦄ where
  -- The other broadcast reads the state and clears the event of the zones.
  pub zone_at-reads : (i : ℤ) (s : State) → Ends (λ _ t. t ≡ s) (zone_at i s)
  unfolding zone_at
  zone_at-reads (negsuc i) s = faults
  zone_at-reads (pos i) s = elim (Option-cases (get_elem? s.zonecfg i)) [
    | inl e ↦ rw (e, zone_at) faults
    | inr (z, e) ↦ rw (e, zone_at) (ends refl)
  ]

  pub total_left-reads :
      (rounds : ℕ) (i total : ℤ) (s : State) → Ends (λ _ t. t ≡ s) (total_left rounds i total s)
  unfolding total_left
  total_left-reads zero i total s = ends refl
  total_left-reads (suc rounds) i total s =
      Ends-then _ (zone_at-reads i s)
        λ z t e. Ends-mono (total_left-reads rounds _ _ t) λ _ u d. d ∙ e

  pub publish_active-reads : (n : Net) (s : State) → Ends (λ _ t. t ≡ s) (publish_active n s)
  unfolding publish_active
  publish_active-reads n s = elim (Bool-cases (is_all s.current_zone.type)) [
    | inl all ↦ rw all (Ends-then _ (total_left-reads (zones_behind s) _ _ s) λ total t e. ends e)
    | inr one ↦ elim (Bool-cases (is_none s.current_zone.type)) [
      | inl idle ↦ rw (one, idle) (ends refl)
      | inr runs ↦ rw (one, runs) (ends refl)
    ]
  ]

  pub each_reads :
      (cs : List Connection) (n : Net) (s : State)
      → Ends (λ _ t. t ≡ s) (each_mqtt publish_active cs n s)
  unfolding each_mqtt
  each_reads [] n s = ends refl
  each_reads (websocket ∷ cs) n s = each_reads cs n s
  each_reads (other_connection ∷ cs) n s = each_reads cs n s
  each_reads (mqtt_connection ∷ cs) n s =
      Ends-then _ (publish_active-reads n s) λ m t e. Ends-mono (each_reads cs m t) λ _ u d. d ∙ e
