-- ===== src/Zones/Switches.antt =====
-- `zc_start`, `zc_stop` and `zc_master` as operations of the abstract view: what each does to the
-- zone that is on and to the master valve.
use sprinkler_d.Prelude.{
  ℕ, ℤ, pos, ◌≤◌, ◌≡◌, ◌≢◌, inl, inr, refl, sym, ◌∙◌, Bool, true, false, Option, none, some,
  get_elem?, get_elem?_lt, ◌==◌, ==_iff, ==_refl, ==_ne, ne_of_==, subst, arith, Bool-cases,
}
use sprinkler_d.Platform.{Platform, Driver}
use sprinkler_d.State.{
  GpioCfg, State, ZoneState, zc_on, zc_off, done, Acts, acts, Acts-mono, Acts-trans,
}
use sprinkler_d.Zones.Pins.{is_on, zc_start, zc_stop, zc_master, switch_master}
use sprinkler_d.Zones.Panel.{
  Wired, is_zone, lit, lit_at, Wiring, Panel, Switched, zone_at-some, zc_start-Acts, zc_stop-Acts,
}

module _ ⦃P : Platform⦄ ⦃D : Driver⦄ where
  -- The state's pins show that `active` is the zone that is on, and whether the master valve is.
  abbrev pub Shows : State → P.Board → Option ℕ → Bool → Type 0
  Shows s b = Panel s.zonecfg s.zones s.master_valve b

  pub zone_exists :
      (s : State) (i : ℕ)
      → Wiring s.zonecfg s.zones s.master_valve s.board
      → i ≤ s.zones
      → (z : GpioCfg) × (get_elem? s.zonecfg i ≡ some z)
  zone_exists s i w h = get_elem?_lt s.zonecfg i (omega (arith, w.size))

  -- A zone that is switched is the one that is on, or none is.
  zone-Switched :
      (s : State) {b b' : P.Board} {k : ℕ} {on : Bool} {a a' : Option ℕ} {v : Bool}
      → Shows s b a v
      → Switched s.zonecfg s.zones s.master_valve b b' k on
      → 1 ≤ k
      → is_zone a' k ≡ on
      → ((j : ℕ) → k ≢ j → is_zone a' j ≡ is_zone a j)
      → Shows s b' a' v
  zone-Switched s {b' = b'} {k} {a'} p w h self others = record {
    wiring = w.wiring;
    zones_lit = λ i lo hi. elim (Bool-cases (k == i)) [
      | inl e ↦
          subst (λ j. lit s.zonecfg b' j ≡ is_zone a' j) ((==_iff k i).0 e) (w.self ∙ sym self)
      | inr e ↦
          let ne = ne_of_== k i e in
          w.others i (hi, inr lo) ne ∙ p.zones_lit i lo hi ∙ sym (others i ne)
    ];
    master_lit =
        λ fitted. w.others 0 (omega arith, inl fitted) (λ e. omega arith) ∙ p.master_lit fitted;
  }

  pub zc_start-Shows :
      (s : State) (k : ℕ) (v : Bool)
      → Shows s s.board none v
      → 1 ≤ k
      → k ≤ s.zones
      → Acts s (λ r b. (r ≡ true) × Shows s b (some k) v) (zc_start (pos k) s)
  zc_start-Shows s k v p lo hi =
      let (z, at) = zone_exists s k p.wiring hi in
      Acts-mono (zc_start-Acts s p.wiring k z (hi, inr lo) at (p.zones_lit k lo hi))
        (λ r b (ok, sw). (ok, zone-Switched s p sw lo (==_refl k) (==_ne k)))

  pub zc_stop-Shows :
      (s : State) (k : ℕ) (v : Bool)
      → Shows s s.board (some k) v
      → 1 ≤ k
      → k ≤ s.zones
      → Acts s (λ r b. (r ≡ true) × Shows s b none v) (zc_stop (pos k) s)
  zc_stop-Shows s k v p lo hi =
      let (z, at) = zone_exists s k p.wiring hi in
      Acts-mono (zc_stop-Acts s p.wiring k z (hi, inr lo) at (p.zones_lit k lo hi ∙ ==_refl k))
        (λ r b (ok, sw). (ok, zone-Switched s p sw lo refl (λ j ne. sym (==_ne k j ne))))

  pub zc_stop_at :
      (s : State) (zone : ℤ) (k : ℕ) (v : Bool)
      → zone ≡ pos k
      → Shows s s.board (some k) v
      → 1 ≤ k
      → k ≤ s.zones
      → Acts s (λ r b. (r ≡ true) × Shows s b none v) (zc_stop zone s)
  zc_stop_at s zone k v at p lo hi = rw at (zc_stop-Shows s k v p lo hi)

  master-Switched :
      (s : State) {b b' : P.Board} {on : Bool} {a : Option ℕ} {v : Bool}
      → Shows s b a v
      → Switched s.zonecfg s.zones s.master_valve b b' 0 on
      → Shows s b' a on
  master-Switched s p w = record {
    wiring = w.wiring;
    zones_lit = λ i lo hi. w.others i (hi, inr lo) (λ e. omega arith) ∙ p.zones_lit i lo hi;
    master_lit = λ fitted. w.self;
  }

  module _ (s : State) (a : Option ℕ) (v : Bool) (p : Shows s s.board a v)
      (fitted : s.master_valve ≡ true) (z : GpioCfg) (at : get_elem? s.zonecfg 0 ≡ some z) where
    Wired-master : Wired s.master_valve s.zones 0
    Wired-master = (omega arith, inl fitted)

    switch_master_at :
        (state : ZoneState) → Acts s (λ _ b. Shows s b a (is_on state)) (switch_master state s)
    unfolding switch_master
    switch_master_at zc_on = elim (Bool-cases (lit s.zonecfg s.board 0)) [
      | inl e ↦
          rw (zone_at-some s 0 z at, sym (lit_at s.zonecfg s.board 0 z at) ∙ e)
            (acts tt _ _
              (record { wiring = p.wiring; zones_lit = p.zones_lit; master_lit = λ _. e }))
      | inr e ↦
          rw (zone_at-some s 0 z at, sym (lit_at s.zonecfg s.board 0 z at) ∙ e)
            (Acts-trans _ (zc_start-Acts s p.wiring 0 z Wired-master at e)
              (λ r b m (ok, sw). acts tt _ _ (master-Switched s p sw)))
    ]
    switch_master_at zc_off = elim (Bool-cases (lit s.zonecfg s.board 0)) [
      | inl e ↦
          rw (zone_at-some s 0 z at, sym (lit_at s.zonecfg s.board 0 z at) ∙ e)
            (Acts-trans _ (zc_stop-Acts s p.wiring 0 z Wired-master at e)
              (λ r b m (ok, sw). acts tt _ _ (master-Switched s p sw)))
      | inr e ↦
          rw (zone_at-some s 0 z at, sym (lit_at s.zonecfg s.board 0 z at) ∙ e)
            (acts tt _ _
              (record { wiring = p.wiring; zones_lit = p.zones_lit; master_lit = λ _. e }))
    ]

  zc_master_fitted :
      (s : State) (state : ZoneState)
      → s.master_valve ≡ true
      → zc_master state s ≡ switch_master state s
  unfolding zc_master
  zc_master_fitted s state e = rw e

  zc_master_bare :
      (s : State) (state : ZoneState) → s.master_valve ≡ false → zc_master state s ≡ done tt s
  unfolding zc_master
  zc_master_bare s state e = rw e

  -- The abstract effect of `zc_master`: the valve as asked for, and the zones as they were.
  pub zc_master-Shows :
      (s : State) (state : ZoneState) (a : Option ℕ) (v : Bool)
      → Shows s s.board a v
      → Acts s (λ _ b. Shows s b a (is_on state)) (zc_master state s)
  unfolding zc_master
  zc_master-Shows s state a v p = elim (Bool-cases s.master_valve) [
    | inl fitted ↦ rw (zc_master_fitted s state fitted) (
        let (z, at) = zone_exists s 0 p.wiring (omega arith) in
        switch_master_at s a v p fitted z at state)
    | inr bare ↦ rw (zc_master_bare s state bare) (
        acts tt _ _
          (record { wiring = p.wiring; zones_lit = p.zones_lit; master_lit = λ fitted. cc }))
  ]
