-- ===== src/Domoticz/Defs.antt =====
-- `update_dz_cache`, `check_dz_cache` and `action_domoticz_mqtt_message`, which takes the message as it was parsed.
use sprinkler_d.Prelude.{
  ℕ, zero, suc, ◌+◌, ℤ, pos, eqb_ℤ, leb_ℤ, Bool, true, false, ◌||◌, Option, none, some, List, [],
  ◌∷◌, if◌then◌else◌,
}
use sprinkler_d.Platform.{Platform}
use sprinkler_d.Text.{Text}
use sprinkler_d.State.{
  DzCache, ZoneState, zc_on, zc_off, zc_single, zc_all, State, Cmd, fault, pure, gets, modify,
  ◌>>=◌, ◌>>◌, zone_at,
}
use sprinkler_d.Zones.Requests.{zc_zone}
use sprinkler_d.Rain.Defs.{enable_calendar, enable_delay24h, set_today_rain_total}

abbrev pub non_zone_dzids : ℕ
non_zone_dzids = 3

abbrev pub dz_on : ℤ
dz_on = pos 1

abbrev pub dz_off : ℤ
dz_off = pos 0

-- A value and its index in Domoticz.
abbrev pub dz_entry : ℤ → ℤ → DzCache
dz_entry idx value = record { idx = idx; status = value }

-- The first of `rounds` entries with the given index: its status, or that there is none. The outer none is
-- an access outside the array.
unfoldable pub dz_status : ℕ → List DzCache → ℤ → Option (Option ℤ)
dz_status zero cache idx = some none
dz_status (suc rounds) [] idx = none
dz_status (suc rounds) (d ∷ cache) idx =
    let rest = dz_status rounds cache idx in if eqb_ℤ d.idx idx then some (some d.status) else rest

-- The first of `rounds` entries with the index `key` becomes `entry`.
unfoldable pub dz_put : ℕ → List DzCache → ℤ → DzCache → List DzCache
dz_put zero cache key entry = cache
dz_put (suc rounds) [] key entry = []
dz_put (suc rounds) (d ∷ cache) key entry =
    let rest = d ∷ dz_put rounds cache key entry in if eqb_ℤ d.idx key then entry ∷ cache else rest

-- A message as `parseJSONmqttrequest` leaves it.
pub record DzMessage : Type 0 where
  pub idx : ℤ
  pub nvalue : ℤ
  pub svalue : Text

module _ ⦃P : Platform⦄ where
  abbrev pub dz_rounds : State → ℕ
  dz_rounds s = s.zones + non_zone_dzids

  abbrev pub put_entry : ℤ → DzCache → State → State
  put_entry key entry s = record s { dz_cache = dz_put (dz_rounds s) s.dz_cache key entry }

  -- The value of the index is there, or a free entry (index 0) takes it.
  unfoldable pub update_found : ℤ → ℤ → Option (Option ℤ) → Cmd Bool
  unfolding dz_put
  update_found idx value none = λ s. fault
  update_found idx value (some (some status)) =
      if eqb_ℤ status value
      then pure false
      else modify (put_entry idx (dz_entry idx value)) >> pure true
  update_found idx value (some none) = modify (put_entry (pos 0) (dz_entry idx value)) >> pure true

  unfoldable pub update_dz_cache : ℤ → ℤ → Cmd Bool
  unfolding update_found dz_status
  update_dz_cache idx value = do
    found ← gets (λ s. dz_status (dz_rounds s) s.dz_cache idx)
    update_found idx value found

  unfoldable pub check_found : ℤ → Option (Option ℤ) → Cmd Bool
  check_found value none = λ s. fault
  check_found value (some none) = pure false
  check_found value (some (some status)) = pure (eqb_ℤ status value)

  unfoldable pub check_dz_cache : ℤ → ℤ → Cmd Bool
  unfolding check_found dz_status
  check_dz_cache idx value = do
    found ← gets (λ s. dz_status (dz_rounds s) s.dz_cache idx)
    check_found value found

  abbrev pub dz_state : ℤ → ZoneState
  dz_state nvalue = if eqb_ℤ nvalue dz_on then zc_on else zc_off

  -- The loop over the zones, `rounds` of them from zone `i` on.
  unfoldable pub dz_zones : ℕ → ℕ → ℤ → ℤ → Cmd (Unit {0})
  dz_zones zero i idx nvalue = pure tt
  dz_zones (suc rounds) i idx nvalue = do
    z ← zone_at (pos i)
    if eqb_ℤ z.dz_idx idx
        then (if eqb_ℤ nvalue dz_on || eqb_ℤ nvalue dz_off
            then zc_zone zc_single z.zone (dz_state nvalue) (pos 0) >> pure tt
            else pure tt)
        else pure tt
    dz_zones rounds (suc i) idx nvalue

  -- What a message asks for, by its index.
  abbrev pub request_at : State → DzMessage → Cmd (Unit {0})
  request_at s m =
      if eqb_ℤ m.idx s.dzidx_calendar
      then modify (enable_calendar (eqb_ℤ m.nvalue dz_on))
      else if eqb_ℤ m.idx s.dzidx_24hdelay
      then enable_delay24h (eqb_ℤ m.nvalue dz_on)
      else if eqb_ℤ m.idx s.dzidx_allzones
      then zc_zone zc_all (pos 0) (dz_state m.nvalue) (pos 0) >> pure tt
      else if eqb_ℤ m.idx s.dzidx_rainsensor
      then set_today_rain_total (P.real_of_text m.svalue) >> pure tt
      else dz_zones s.zones 1 m.idx m.nvalue

  unfoldable pub dz_request : DzMessage → Cmd (Unit {0})
  unfolding dz_zones
  dz_request m = do s ← gets (λ s. s); request_at s m

  unfoldable pub action_domoticz_mqtt_message : Option DzMessage → Cmd (Unit {0})
  unfolding check_dz_cache dz_request
  action_domoticz_mqtt_message none = pure tt
  action_domoticz_mqtt_message (some m) =
      if leb_ℤ m.idx (pos 0)
      then pure tt
      else do known ← check_dz_cache m.idx m.nvalue; if known then pure tt else dz_request m
