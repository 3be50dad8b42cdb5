-- ===== src/Domoticz/Map.antt =====
-- The Domoticz cache implements a map from indices to values: it forgets where the entries stand.
use sprinkler_d.Prelude.{
  ℕ, zero, suc, ℤ, pos, eqb_ℤ, eqb_ℤ_iff, ◌≡◌, ◌≢◌, refl, sym, ◌∙◌, ap, Bool, true, false, not,
  Option, none, some, List, [], ◌∷◌, ◌⊎◌, inl, inr, Bool-cases, if◌then◌else◌,
}
use sprinkler_d.Platform.{Platform}
use sprinkler_d.State.{DzCache, State, Returns, returns}
use sprinkler_d.Domoticz.Defs.{
  dz_entry, dz_status, dz_put, dz_rounds, put_entry, update_found, update_dz_cache,
}
use sprinkler_d.Domoticz.Cache.{HasRoom, Cached, dz_status-dz_put}

-- What a map is, and its change at one index.
abbrev pub Values : Type 0
Values = ℤ → Option ℤ

abbrev pub put_value : Values → ℤ → ℤ → Values
put_value f idx value k = if eqb_ℤ k idx then some value else f k

-- The map has another value at the index, or none.
abbrev pub differs : Option ℤ → ℤ → Bool
differs none value = true
differs (some status) value = not (eqb_ℤ status value)

abbrev pub known : Option (Option ℤ) → Option ℤ
known none = none
known (some o) = o

eqb_ne : (a b : ℤ) → a ≢ b → eqb_ℤ a b ≡ false
eqb_ne a b ne = elim (Bool-cases (eqb_ℤ a b)) [
  | inl e ↦ absurd (ne ((eqb_ℤ_iff a b).0 e))
  | inr e ↦ e
]

-- A write leaves the values of the other indices.
dz_put-others :
    (rounds : ℕ) (cache : List DzCache) (key idx value k : ℤ)
    → k ≢ key
    → k ≢ idx
    → dz_status rounds (dz_put rounds cache key (dz_entry idx value)) k ≡ dz_status rounds cache k
unfolding dz_status dz_put
dz_put-others zero cache key idx value k a b = refl
dz_put-others (suc rounds) [] key idx value k a b = refl
dz_put-others (suc rounds) (d ∷ cache) key idx value k a b = elim (Bool-cases (eqb_ℤ d.idx key)) [
  | inl hit ↦
      let miss : eqb_ℤ d.idx k ≡ false =
        eqb_ne d.idx k (λ e. a (sym e ∙ (eqb_ℤ_iff d.idx key).0 hit)) in
      rw (hit, miss, eqb_ne idx k (λ e. b (sym e))) refl
  | inr off ↦ elim (Bool-cases (eqb_ℤ d.idx k)) [
    | inl here ↦ rw (off, here) refl
    | inr past ↦ rw (off, past) (dz_put-others rounds cache key idx value k a b)
  ]
]

module _ ⦃P : Platform⦄ where
  -- The map that the cache stands for, at the indices that Domoticz uses.
  abbrev pub values : State → Values
  values s k = known (dz_status (dz_rounds s) s.dz_cache k)

  -- The state's map is the given one.
  abbrev pub Holds : State → Values → Type 0
  Holds s f = (k : ℤ) → k ≢ pos 0 → values s k ≡ f k

  put-Holds :
      (s : State) (key idx value : ℤ)
      → ((key ≡ idx) ⊎ (key ≡ pos 0))
      → Cached (put_entry key (dz_entry idx value) s) idx value
      → Holds (put_entry key (dz_entry idx value) s) (put_value (values s) idx value)
  put-Holds s key idx value place stored k ne = elim (Bool-cases (eqb_ℤ k idx)) [
    | inl same ↦ rw (same, (eqb_ℤ_iff k idx).0 same, stored) refl
    | inr other ↦
        let far : k ≢ idx = λ e. (let t : false ≡ true = sym other ∙ (eqb_ℤ_iff k idx).1 e in cc) in
        rw (other, dz_put-others (dz_rounds s) s.dz_cache key idx value k (elsewhere place far) far)
          refl
  ]
    where
      elsewhere : (key ≡ idx) ⊎ (key ≡ pos 0) → k ≢ idx → k ≢ key
      elsewhere (inl e) far at = far (at ∙ e)
      elsewhere (inr e) far at = ne (at ∙ e)

  same-Holds :
      (s : State) (idx value : ℤ) → Cached s idx value → Holds s (put_value (values s) idx value)
  same-Holds s idx value stored k ne = elim (Bool-cases (eqb_ℤ k idx)) [
    | inl same ↦ rw (same, (eqb_ℤ_iff k idx).0 same, stored) refl
    | inr other ↦ rw other refl
  ]

  -- Where the cache has a value of the index or a free entry, update_dz_cache ends; read as a map
  -- from the indices other than 0 to values, the cache is changed at the given index and nowhere
  -- else, and the result says whether the map had another value there or none.
  pub update_dz_cache-refines :
      (s : State) (idx value : ℤ)
      → HasRoom s idx
      → Returns
          (λ changed u.
            Holds u (put_value (values s) idx value) × (changed ≡ differs (values s idx) value))
          (update_dz_cache idx value s)
  unfolding update_dz_cache update_found
  update_dz_cache-refines s idx value (inl (st, e)) = elim (Bool-cases (eqb_ℤ st value)) [
    | inl same ↦
        let stored : Cached s idx value =
          e ∙ ap (λ v. some (some v)) ((eqb_ℤ_iff st value).0 same) in
        rw (e, same) (returns (same-Holds s idx value stored, refl))
    | inr other ↦
        rw (e, other)
          (returns (
            put-Holds s idx idx value (inl refl)
                (dz_status-dz_put (dz_rounds s) s.dz_cache idx idx value ((st, e), inl refl)),
            refl,
          ))
  ]
  update_dz_cache-refines s idx value (inr (absent, (st, e))) = rw absent (
      returns (
        put-Holds s (pos 0) idx value (inr refl)
            (dz_status-dz_put (dz_rounds s) s.dz_cache (pos 0) idx value ((st, e), inr absent)),
        refl,
      ))
