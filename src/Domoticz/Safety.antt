-- ===== src/Domoticz/Safety.antt =====
-- The Domoticz cache is read and written within its length, and a message from Domoticz keeps the state sound.
use sprinkler_d.Prelude.{
  ℕ, zero, suc, ◌+◌, ℤ, pos, eqb_ℤ, leb_ℤ, ◌≤◌, ◌≡◌, refl, ap, inl, inr, Bool, true, false, ◌||◌,
  Option, none, some, List, [], ◌∷◌, length, if◌then◌else◌, Bool-cases, arith,
}
use sprinkler_d.Platform.{Platform, Driver}
use sprinkler_d.State.{DzCache, State, pure, modify, returns, zc_single}
use sprinkler_d.Zones.Requests.{zc_zone}
use sprinkler_d.Zones.Invariant.{zc_zone-Safe}
use sprinkler_d.Domoticz.Defs.{
  DzMessage, dz_entry, dz_status, dz_put, dz_rounds, dz_on, dz_off, dz_state, dz_zones, request_at,
  dz_request, put_entry, update_found, update_dz_cache, check_found, check_dz_cache,
  action_domoticz_mqtt_message,
}
use sprinkler_d.Sound.{
  Sound, Keeps, Keeps-then, IsKept, IsKept-if, IsKept-pure, IsKept-then, enable_calendar-IsKept,
  enable_delay24h-IsKept, set_today_rain_total-IsKept, cycle_all-IsKept,
}
use sprinkler_d.Zoned.{
  IsZoned, IsZoned-if, IsZoned-pure, IsZoned-bind, IsZoned-zone_at, Zoned-Effect, IsKeptAt,
  IsKeptAt-if, IsKeptAt-IsKept, IsKeptAt-IsZoned,
}

length-dz_put :
    (rounds : ℕ) (cache : List DzCache) (key : ℤ) (entry : DzCache)
    → length (dz_put rounds cache key entry) ≡ length cache
unfolding dz_put
length-dz_put zero cache key entry = refl
length-dz_put (suc rounds) [] key entry = refl
length-dz_put (suc rounds) (d ∷ cache) key entry = elim (Bool-cases (eqb_ℤ d.idx key)) [
  | inl hit ↦ rw hit refl
  | inr off ↦ rw off (ap suc (length-dz_put rounds cache key entry))
]

dz_status_total :
    (rounds : ℕ) (cache : List DzCache) (idx : ℤ)
    → rounds ≤ length cache
    → (o : Option ℤ) × (dz_status rounds cache idx ≡ some o)
unfolding dz_status
dz_status_total zero cache idx h = (none, refl)
dz_status_total (suc rounds) [] idx h = elim h [ ]
dz_status_total (suc rounds) (d ∷ cache) idx h = elim (Bool-cases (eqb_ℤ d.idx idx)) [
  | inl hit ↦ (some d.status, rw hit refl)
  | inr off ↦ let (o, e) = dz_status_total rounds cache idx (omega arith) in (o, rw off e)
]

module _ ⦃P : Platform⦄ ⦃D : Driver⦄ where
  put_entry-IsZoned : (n : ℕ) (key : ℤ) (entry : DzCache) → IsZoned n (modify (put_entry key entry))
  put_entry-IsZoned n key entry = record {
    keeps_zones = λ s h. returns record {
      sound = record {
        safe = h.sound.safe;
        tables = record {
          week = h.sound.tables.week;
          days = h.sound.tables.days;
          numbered = h.sound.tables.numbered;
          cached =
              omega
                (arith, h.sound.tables.cached, length-dz_put (dz_rounds s) s.dz_cache key entry);
        };
      };
      count = h.count;
    };
  }

  update_found-IsZoned :
      (n : ℕ) (idx value : ℤ) (o : Option ℤ) → IsZoned n (update_found idx value (some o))
  unfolding update_found
  update_found-IsZoned n idx value none =
      IsZoned-bind n _ _ (put_entry-IsZoned n (pos 0) (dz_entry idx value)) λ _. IsZoned-pure n true
  update_found-IsZoned n idx value (some status) =
      IsZoned-if n (eqb_ℤ status value) _ _ (IsZoned-pure n false)
        (IsZoned-bind n _ _ (put_entry-IsZoned n idx (dz_entry idx value)) λ _. IsZoned-pure n true)

  pub update_dz_cache-IsZoned : (n : ℕ) (idx value : ℤ) → IsZoned n (update_dz_cache idx value)
  unfolding update_dz_cache
  update_dz_cache-IsZoned n idx value = record {
    keeps_zones = λ s h.
        let (o, e) = dz_status_total (dz_rounds s) s.dz_cache idx h.sound.tables.cached in
        rw e ((update_found-IsZoned n idx value o).keeps_zones s h);
  }

  check_found-IsKept : (value : ℤ) (o : Option ℤ) → IsKept (check_found value (some o))
  unfolding check_found
  check_found-IsKept value none = IsKept-pure false
  check_found-IsKept value (some status) = IsKept-pure (eqb_ℤ status value)

  check_dz_cache-Sound : (s : State) (idx value : ℤ) → Sound s → Keeps (check_dz_cache idx value s)
  unfolding check_dz_cache
  check_dz_cache-Sound s idx value h =
      let (o, e) = dz_status_total (dz_rounds s) s.dz_cache idx h.tables.cached in
      rw e ((check_found-IsKept value o).keeps s h)

  zone_request-IsZoned :
      (n i : ℕ) (zone nvalue : ℤ)
      → 1 ≤ i
      → i ≤ n
      → zone ≡ pos i
      → IsZoned n (zc_zone zc_single zone (dz_state nvalue) (pos 0))
  zone_request-IsZoned n i zone nvalue lo hi e = record {
    keeps_zones = λ s h. Zoned-Effect n h (
        zc_zone-Safe s zc_single zone (dz_state nvalue) (pos 0) h.sound.safe
          (inr (refl, refl, (i, e, lo, omega (arith, h.count)))));
  }

  dz_zones-IsZoned :
      (rounds n i : ℕ) (idx nvalue : ℤ)
      → 1 ≤ i
      → rounds + i ≤ suc n
      → IsZoned n (dz_zones rounds i idx nvalue)
  unfolding dz_zones
  dz_zones-IsZoned zero n i idx nvalue lo hi = IsZoned-pure n tt
  dz_zones-IsZoned (suc rounds) n i idx nvalue lo hi = IsZoned-zone_at n i _ (omega arith) λ z e.
      IsZoned-bind n _ _
        (IsZoned-if n (eqb_ℤ z.dz_idx idx) _ _
          (IsZoned-if n (eqb_ℤ nvalue dz_on || eqb_ℤ nvalue dz_off) _ _
            (IsZoned-bind n _ _ (zone_request-IsZoned n i z.zone nvalue lo (omega arith) (e lo))
              λ _. IsZoned-pure n tt)
            (IsZoned-pure n tt))
          (IsZoned-pure n tt))
        λ _. dz_zones-IsZoned rounds n (suc i) idx nvalue (omega arith) (omega arith)

  dz_zones-IsKeptAt : (s : State) (idx nvalue : ℤ) → IsKeptAt s (dz_zones s.zones 1 idx nvalue)
  dz_zones-IsKeptAt s idx nvalue =
      IsKeptAt-IsZoned s _
        (dz_zones-IsZoned s.zones s.zones 1 idx nvalue (omega arith) (omega arith))

  request-IsKeptAt : (s : State) (m : DzMessage) → IsKeptAt s (request_at s m)
  request-IsKeptAt s m =
      search
        (
          IsKeptAt-if, IsKeptAt-IsKept, dz_zones-IsKeptAt, IsKept-pure, IsKept-then,
          enable_calendar-IsKept, enable_delay24h-IsKept, set_today_rain_total-IsKept,
          cycle_all-IsKept,
        )
        depth 12

  dz_request-Sound : (s : State) (m : DzMessage) → Sound s → Keeps (dz_request m s)
  unfolding dz_request
  dz_request-Sound s m h = (request-IsKeptAt s m).keeps_at h

  answered :
      (m : DzMessage) (known : Bool) (s : State)
      → Sound s
      → Keeps ((if known then pure tt else dz_request m) s)
  answered m true s h = returns h
  answered m false s h = dz_request-Sound s m h

  -- From a state whose pins agree with the current zone, whose zones carry their own numbers and whose
  -- Domoticz cache has an entry for each zone and switch, every message from Domoticz ends without an access
  -- outside an array and leaves the state so.
  pub action_domoticz_mqtt_message-IsKept :
      (m : Option DzMessage) → IsKept (action_domoticz_mqtt_message m)
  unfolding action_domoticz_mqtt_message
  action_domoticz_mqtt_message-IsKept none = IsKept-pure tt
  action_domoticz_mqtt_message-IsKept (some m) =
      IsKept-if (leb_ℤ m.idx (pos 0)) _ _ (IsKept-pure tt) record {
        keeps = λ s h.
            Keeps-then _ (check_dz_cache-Sound s m.idx m.nvalue h)
              λ known t k. answered m known t k;
      }

  -- From a state whose pins agree with the current zone and whose tables have the sizes the
  -- handlers rely on, every message from Domoticz that was parsed ends without an access outside
  -- an array and leaves the state so.
  pub action_domoticz_mqtt_message-Sound :
      (m : Option DzMessage) (s : State) → Sound s → Keeps (action_domoticz_mqtt_message m s)
  action_domoticz_mqtt_message-Sound m s h = (action_domoticz_mqtt_message-IsKept m).keeps s h
