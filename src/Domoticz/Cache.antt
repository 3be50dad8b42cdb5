-- ===== src/Domoticz/Cache.antt =====
-- A value that the cache has taken is found again, so that Domoticz' echo of it asks for nothing.
use sprinkler_d.Prelude.{
  ℕ, zero, suc, ℤ, pos, eqb_ℤ, eqb_ℤ_refl, eqb_ℤ_iff, leb_ℤ, ◌≡◌, refl, sym, ◌∙◌, inl, inr, ◌⊎◌,
  Bool, true, false, none, some, List, [], ◌∷◌, Bool-cases, if◌then◌else◌,
}
use sprinkler_d.Platform.{Platform}
use sprinkler_d.State.{DzCache, State, done, pure, modify, ◌>>◌, Returns, returns, Returns-mono}
use sprinkler_d.Domoticz.Defs.{
  DzMessage, dz_entry, dz_status, dz_put, dz_rounds, put_entry, update_found, update_dz_cache,
  check_dz_cache, action_domoticz_mqtt_message,
}

-- The entry that takes a value: the one of its index, or the first free one where it has none.
abbrev pub Takes : ℕ → List DzCache → ℤ → ℤ → Type 0
Takes rounds cache key idx =
    ((st : ℤ) × (dz_status rounds cache key ≡ some (some st)))
    × ((key ≡ idx) ⊎ (dz_status rounds cache idx ≡ some none))

other_key :
    (rounds : ℕ) (d : DzCache) (cache : List DzCache) (key idx : ℤ)
    → eqb_ℤ d.idx key ≡ false
    → (key ≡ idx) ⊎ (dz_status (suc rounds) (d ∷ cache) idx ≡ some none)
    → (eqb_ℤ d.idx idx ≡ false) × ((key ≡ idx) ⊎ (dz_status rounds cache idx ≡ some none))
unfolding dz_status
other_key rounds d cache key idx off (inl same) = (rw (sym same) off, inl same)
other_key rounds d cache key idx off (inr absent) = elim (Bool-cases (eqb_ℤ d.idx idx)) [
  | inl hit ↦ absurd (let e : some (some d.status) ≡ some none = sym (rw hit refl) ∙ absent in cc)
  | inr miss ↦ (miss, inr (sym (rw miss refl) ∙ absent))
]

pub dz_status-dz_put :
    (rounds : ℕ) (cache : List DzCache) (key idx value : ℤ)
    → Takes rounds cache key idx
    → dz_status rounds (dz_put rounds cache key (dz_entry idx value)) idx ≡ some (some value)
unfolding dz_status dz_put
dz_status-dz_put zero cache key idx value ((st, e), w) = cc
dz_status-dz_put (suc rounds) [] key idx value ((st, e), w) = cc
dz_status-dz_put (suc rounds) (d ∷ cache) key idx value ((st, e), w) =
    elim (Bool-cases (eqb_ℤ d.idx key)) [
      | inl hit ↦ rw (hit, eqb_ℤ_refl idx)
      | inr off ↦
          let (miss, w') = other_key rounds d cache key idx off w in
          let rest : dz_status rounds cache key ≡ some (some st) = sym (rw off refl) ∙ e in
          rw (off, miss) (dz_status-dz_put rounds cache key idx value ((st, rest), w'))
    ]

module _ ⦃P : Platform⦄ where
  -- The cache has the value of an index.
  abbrev pub Cached : State → ℤ → ℤ → Type 0
  Cached s idx value = dz_status (dz_rounds s) s.dz_cache idx ≡ some (some value)

  -- It has a value of the index, or a free entry.
  abbrev pub HasRoom : State → ℤ → Type 0
  HasRoom s idx =
      ((st : ℤ) × Cached s idx st)
      ⊎ ((dz_status (dz_rounds s) s.dz_cache idx ≡ some none) × ((st : ℤ) × Cached s (pos 0) st))

  changed :
      (s : State) (idx value st : ℤ) (same : Bool)
      → Cached s idx st
      → (same ≡ true → st ≡ value)
      → Returns
          (λ _ u. Cached u idx value)
          ((if same then pure false else modify (put_entry idx (dz_entry idx value)) >> pure true)
            s)
  changed s idx value st true e same = returns (e ∙ rw (same refl) refl)
  changed s idx value st false e same =
      returns (dz_status-dz_put (dz_rounds s) s.dz_cache idx idx value ((st, e), inl refl))

  -- Where the cache has a value of the index or a free entry within its length, update_dz_cache
  -- ends and the first entry of the index has the new value.
  pub update_dz_cache-Cached :
      (s : State) (idx value : ℤ)
      → HasRoom s idx
      → Returns (λ _ u. Cached u idx value) (update_dz_cache idx value s)
  unfolding update_dz_cache update_found
  update_dz_cache-Cached s idx value (inl (st, e)) =
      rw e (changed s idx value st (eqb_ℤ st value) e (λ h. (eqb_ℤ_iff st value).0 h))
  update_dz_cache-Cached s idx value (inr (absent, (st, e))) =
      rw absent (
        returns (dz_status-dz_put (dz_rounds s) s.dz_cache (pos 0) idx value ((st, e), inr absent)))

  echo :
      (u : State) (m : DzMessage)
      → Cached u m.idx m.nvalue
      → action_domoticz_mqtt_message (some m) u ≡ done tt u
  unfolding action_domoticz_mqtt_message check_dz_cache
  echo u m e = elim (Bool-cases (leb_ℤ m.idx (pos 0))) [
    | inl low ↦ rw low
    | inr high ↦ rw (high, e, eqb_ℤ_refl m.nvalue)
  ]

  -- Where the cache has a value of the message's index or a free entry within its length, a
  -- message from Domoticz that repeats what update_dz_cache has just recorded changes nothing.
  pub update_dz_cache-echo :
      (s : State) (m : DzMessage)
      → HasRoom s m.idx
      → Returns
          (λ _ u. action_domoticz_mqtt_message (some m) u ≡ done tt u)
          (update_dz_cache m.idx m.nvalue s)
  update_dz_cache-echo s m room =
      Returns-mono (update_dz_cache-Cached s m.idx m.nvalue room) (λ a u e. echo u m e)
