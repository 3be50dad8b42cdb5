-- ===== src/Mqtt/Mild.antt =====
-- The parts of a broadcast that bring up no event of the rain sensors and leave MQTT configured.
use sprinkler_d.Prelude.{
  ℕ, zero, suc, ℤ, pos, eqb_ℤ, ◌≡◌, refl, ◌∙◌, Bool, true, false, Option, none, some, inl, inr,
  Bool-cases, get_elem?, if◌then◌else◌,
}
use sprinkler_d.Platform.{Platform}
use sprinkler_d.State.{
  GpioCfg, State, Run, done, fault, out_of_fuel, Cmd, pure, gets, ◌>>=◌, and_then, zone_at,
}
use sprinkler_d.Zones.Pins.{is_all}
use sprinkler_d.Domoticz.Defs.{dz_status, dz_rounds, update_found, update_dz_cache}
use sprinkler_d.Mqtt.Defs.{
  Net, send_mqtt_msg, publish_dz, publish_zone_at, publish_zone_mqtt, send_zone,
}
use sprinkler_d.Mqtt.Broadcast.{
  publish_zones, publish_switch, status_at, publish_status, publish_dz_state,
}

module _ ⦃P : Platform⦄ where
  -- Where a run ends, its result and state satisfy a predicate.
  pub data Ends {A : Type 0} (Q : A → State → Type 0) : Run A → Type 0 where
    ends : {a : A} {s : State} → Q a s → Ends Q (done a s)
    faults : Ends Q fault
    runs_out : Ends Q out_of_fuel

  pub Ends-then :
      {A B : Type 0} {Q : A → State → Type 0} {R : B → State → Type 0} {r : Run A} (k : A → Cmd B)
      → Ends Q r
      → ((a : A) (t : State) → Q a t → Ends R (k a t))
      → Ends R (and_then r k)
  Ends-then k (ends q) next = next _ _ q
  Ends-then k faults next = faults
  Ends-then k runs_out next = runs_out

  pub Ends-mono :
      {A : Type 0} {Q R : A → State → Type 0} {r : Run A}
      → Ends Q r
      → ((a : A) (t : State) → Q a t → R a t)
      → Ends R r
  Ends-mono (ends q) weaken = ends (weaken _ _ q)
  Ends-mono faults weaken = faults
  Ends-mono runs_out weaken = runs_out

  abbrev pub NoChance : State → Type 0
  NoChance s = s.update_event_mask.rain_probability ≡ false

  abbrev pub NoTotal : State → Type 0
  NoTotal s = s.update_event_mask.rain_total ≡ false

  -- No event of the rain sensors comes up.
  pub record Falls (s t : State) : Type 0 where
    pub chance : NoChance s → NoChance t
    pub total : NoTotal s → NoTotal t

  pub Falls-trans : (s t u : State) → Falls s t → Falls t u → Falls s u
  Falls-trans s t u f g = record {
    chance = λ h. g.chance (f.chance h);
    total = λ h. g.total (f.total h);
  }

  -- A part of a broadcast from the connection's state `n`: no event of the rain sensors comes up, and
  -- MQTT stays configured as it is.
  pub record IsMild (n : Net) (c : Cmd Net) : Type 0 where
    pub mild : (s : State) → Ends (λ m t. Falls s t × (m.enable_mqtt_aq ≡ n.enable_mqtt_aq)) (c s)

  pub IsMild-pure : (n m : Net) → m.enable_mqtt_aq ≡ n.enable_mqtt_aq → IsMild n (pure m)
  IsMild-pure n m e = record { mild = λ s. ends (record { chance = λ h. h; total = λ h. h }, e) }

  pub IsMild-if :
      (n : Net) (b : Bool) (x y : Cmd Net) → IsMild n x → IsMild n y → IsMild n (if b then x else y)
  IsMild-if n true x y left right = left
  IsMild-if n false x y left right = right

  pub IsMild-bind :
      (n : Net) (c : Cmd Net) (k : Net → Cmd Net)
      → IsMild n c
      → ((m : Net) → IsMild m (k m))
      → IsMild n (c >>= k)
  IsMild-bind n c k first next = record {
    mild = λ s.
        Ends-then k (first.mild s)
          λ m t (f, e). Ends-mono ((next m).mild t) λ o u (g, d). (Falls-trans s t u f g, d ∙ e);
  }

  pub IsMild-read :
      (n : Net) (k : State → Cmd Net)
      → ((s : State) → IsMild n (k s))
      → IsMild n (gets (λ s. s) >>= k)
  IsMild-read n k next = record { mild = λ s. (next s).mild s }

  pub IsMild-zone_at :
      (n : Net) (i : ℕ) (k : GpioCfg → Cmd Net)
      → ((z : GpioCfg) → IsMild n (k z))
      → IsMild n (zone_at (pos i) >>= k)
  unfolding zone_at
  IsMild-zone_at n i k next = record { mild = λ s. at s (get_elem? s.zonecfg i) refl }
    where
      at :
          (s : State) (o : Option GpioCfg)
          → get_elem? s.zonecfg i ≡ o
          → Ends
              (λ m t. Falls s t × (m.enable_mqtt_aq ≡ n.enable_mqtt_aq))
              (and_then (zone_at (pos i) s) k)
      at s none e = rw (e, and_then) faults
      at s (some z) e = rw (e, and_then) ((next z).mild s)

  -- The cache's change, and a message where there is one.
  pub found-IsMild :
      (o : Option (Option ℤ)) (idx value : ℤ) (n m : Net)
      → m.enable_mqtt_aq ≡ n.enable_mqtt_aq
      → IsMild n (update_found idx value o >>= λ changed. if changed then pure m else pure n)
  unfolding update_found
  found-IsMild none idx value n m e = record { mild = λ s. faults }
  found-IsMild (some none) idx value n m e = record {
    mild = λ s. ends (record { chance = λ h. h; total = λ h. h }, e);
  }
  found-IsMild (some (some status)) idx value n m e = elim (Bool-cases (eqb_ℤ status value)) [
    | inl same ↦
        rw same (record { mild = λ s. ends (record { chance = λ h. h; total = λ h. h }, refl) })
    | inr new ↦ rw new (record { mild = λ s. ends (record { chance = λ h. h; total = λ h. h }, e) })
  ]

  pub publish_dz-IsMild : (idx value : ℤ) (n : Net) → IsMild n (publish_dz idx value n)
  unfolding publish_dz update_dz_cache send_mqtt_msg
  publish_dz-IsMild idx value n = record {
    mild = λ s. (found-IsMild (dz_status (dz_rounds s) s.dz_cache idx) idx value n _ refl).mild s;
  }

  -- A zone's messages, where the Domoticz part starts from what was sent before.
  pub IsMild-from :
      (n m : Net) (c : Cmd Net) → m.enable_mqtt_aq ≡ n.enable_mqtt_aq → IsMild m c → IsMild n c
  IsMild-from n m c e k = record { mild = λ s. Ends-mono (k.mild s) λ o t (f, d). (f, d ∙ e) }

  pub send_zone-aq :
      (b : Bool) (s : State) (z : GpioCfg) (n : Net)
      → (if b then send_zone s z n else n).enable_mqtt_aq ≡ n.enable_mqtt_aq
  unfolding send_mqtt_msg
  send_zone-aq true s z n = refl
  send_zone-aq false s z n = refl

  pub zone-IsMild :
      (n m : Net) (b : Bool) (idx value : ℤ)
      → m.enable_mqtt_aq ≡ n.enable_mqtt_aq
      → IsMild n (if b then publish_dz idx value m else pure m)
  zone-IsMild n m b idx value e =
      IsMild-if n b _ _ (IsMild-from n m _ e (publish_dz-IsMild idx value m)) (IsMild-pure n m e)

  pub publish_zone_mqtt-IsMild : (z : GpioCfg) (n : Net) → IsMild n (publish_zone_mqtt z n)
  unfolding publish_zone_mqtt
  publish_zone_mqtt-IsMild z n =
      IsMild-read n (λ s. publish_zone_at s z n)
        λ s.
          zone-IsMild n (if n.enable_mqtt_aq then send_zone s z n else n) _ _ _
            (send_zone-aq n.enable_mqtt_aq s z n)

  pub publish_zones-IsMild : (rounds i : ℕ) (n : Net) → IsMild n (publish_zones rounds i n)
  unfolding publish_zones
  publish_zones-IsMild zero i n = IsMild-pure n n refl
  publish_zones-IsMild (suc rounds) i n = IsMild-zone_at n i _ λ z.
      IsMild-bind n _ _ (publish_zone_mqtt-IsMild z n) λ m. publish_zones-IsMild rounds (suc i) m

  pub publish_switch-IsMild : (idx : ℤ) (on : Bool) (n : Net) → IsMild n (publish_switch idx on n)
  unfolding publish_switch
  publish_switch-IsMild idx on n =
      IsMild-if n _ _ _ (publish_dz-IsMild idx _ n) (IsMild-pure n n refl)

  pub publish_status-IsMild : (n : Net) → IsMild n (publish_status n)
  unfolding publish_status send_mqtt_msg
  publish_status-IsMild n =
      IsMild-read n (λ s. status_at s n)
        λ s. IsMild-if n _ _ _ (IsMild-pure n _ refl) (IsMild-pure n n refl)

  pub publish_dz_state-IsMild : (n : Net) → IsMild n (publish_dz_state n)
  unfolding publish_dz_state
  publish_dz_state-IsMild n = record {
    mild = λ s.
        (IsMild-bind n _ _ (publish_switch-IsMild s.dzidx_calendar s.calendar n) λ a.
            IsMild-bind a _ _ (publish_switch-IsMild s.dzidx_24hdelay s.delay24h a) λ b.
              IsMild-bind b _ _
                (publish_switch-IsMild s.dzidx_allzones (is_all s.current_zone.type) b)
                publish_status-IsMild).mild
          s;
  }
