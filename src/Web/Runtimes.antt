-- ===== src/Web/Runtimes.antt =====
-- A new run time of a zone: the zones stay wired as they are.
use sprinkler_d.Prelude.{
  ℕ, zero, suc, ℤ, pos, ltb_ℤ, eqb_ℤ, ◌≤◌, ◌≡◌, refl, sym, ◌∙◌, ap, Bool, ◌&&◌, Option, some, List,
  [], ◌∷◌, get_elem?, set, length-set, inl, inr, Bool-cases,
}
use sprinkler_d.Platform.{Platform, Driver}
use sprinkler_d.State.{GpioCfg, State, Returns, returns}
use sprinkler_d.Zones.Pins.{pin_is_on}
use sprinkler_d.Zones.Cycle.{zc_update_runtime}
use sprinkler_d.Zones.Panel.{lit, Wiring, Panel, zone_at-some}
use sprinkler_d.Zones.Switches.{zone_exists}
use sprinkler_d.Cache.{set_runtime}
use sprinkler_d.Sound.{Sound, Keeps}

abbrev pub timed_zone : GpioCfg → ℤ → GpioCfg
timed_zone z r = record z { default_runtime = r }

-- Zone `i` behind the change has the pin and the level that it had.
wired_before :
    (cfg : List GpioCfg) (k : ℕ) (z : GpioCfg) (r : ℤ)
    → get_elem? cfg k ≡ some z
    → (i : ℕ) (y : GpioCfg) → get_elem? (set cfg k (timed_zone z r)) i ≡ some y
    → (x : GpioCfg) × (get_elem? cfg i ≡ some x)
      × (y.pin ≡ x.pin)
      × (y.on_state ≡ x.on_state)
      × (y.zone ≡ x.zone)
wired_before [] k z r at i y e = cc
wired_before (x ∷ cfg) zero z r at zero y e =
    let a : x ≡ z = cc in
    let b : timed_zone z r ≡ y = cc in
    (
      x,
      refl,
      sym (ap (λ w. w.pin) b) ∙ sym (ap (λ w. w.pin) a),
      sym (ap (λ w. w.on_state) b) ∙ sym (ap (λ w. w.on_state) a),
      sym (ap (λ w. w.zone) b) ∙ sym (ap (λ w. w.zone) a),
    )
wired_before (x ∷ cfg) zero z r at (suc i) y e = (y, e, refl, refl, refl)
wired_before (x ∷ cfg) (suc k) z r at zero y e = (y, e, refl, refl, refl)
wired_before (x ∷ cfg) (suc k) z r at (suc i) y e = wired_before cfg k z r at i y e

module _ ⦃P : Platform⦄ where
  lit-timed :
      (cfg : List GpioCfg) (k : ℕ) (z : GpioCfg) (r : ℤ) (b : P.Board)
      → get_elem? cfg k ≡ some z
      → (i : ℕ) → lit (set cfg k (timed_zone z r)) b i ≡ lit cfg b i
  unfolding pin_is_on
  lit-timed [] k z r b at i = refl
  lit-timed (x ∷ cfg) zero z r b at zero = let a : z ≡ x = cc in ap (λ w. pin_is_on w b) a
  lit-timed (x ∷ cfg) zero z r b at (suc i) = refl
  lit-timed (x ∷ cfg) (suc k) z r b at zero = refl
  lit-timed (x ∷ cfg) (suc k) z r b at (suc i) = lit-timed cfg k z r b at i

  module _ ⦃D : Driver⦄ where
    Wiring-timed :
        (cfg : List GpioCfg) (n : ℕ) (fitted : Bool) (b : P.Board) (k : ℕ) (z : GpioCfg) (r : ℤ)
        → get_elem? cfg k ≡ some z
        → Wiring cfg n fitted b
        → Wiring (set cfg k (timed_zone z r)) n fitted b
    Wiring-timed cfg n fitted b k z r at w = record {
      size = length-set cfg k (timed_zone z r) ∙ w.size;
      level = λ i y wi e.
          let (x, ex, p, o, l) = wired_before cfg k z r at i y e in rw o (w.level i x wi ex);
      distinct = λ i j y y' wi wj e e' same.
          let (x, ex, p, o, l) = wired_before cfg k z r at i y e in
          let (x', ex', p', o', l') = wired_before cfg k z r at j y' e' in
          w.distinct i j x x' wi wj ex ex' (sym p ∙ same ∙ p');
      outputs = λ i y wi e.
          let (x, ex, p, o, l) = wired_before cfg k z r at i y e in rw p (w.outputs i x wi ex);
    }

    Panel-timed :
        (cfg : List GpioCfg) (n : ℕ) (fitted : Bool) (b : P.Board) (a : Option ℕ) (v : Bool) (k : ℕ)
        (z : GpioCfg) (r : ℤ)
        → get_elem? cfg k ≡ some z
        → Panel cfg n fitted b a v
        → Panel (set cfg k (timed_zone z r)) n fitted b a v
    Panel-timed cfg n fitted b a v k z r at p = record {
      wiring = Wiring-timed cfg n fitted b k z r at p.wiring;
      zones_lit = λ i lo hi. lit-timed cfg k z r b at i ∙ p.zones_lit i lo hi;
      master_lit = λ f. lit-timed cfg k z r b at 0 ∙ p.master_lit f;
    }

    pub set_runtime-Sound :
        (s : State) (k : ℕ) (r : ℤ)
        → k ≤ s.zones
        → Sound s
        → Returns
            (λ _ u. Sound u × ((zs : List GpioCfg) × (u ≡ record s { zonecfg = zs })))
            (set_runtime k r s)
    unfolding set_runtime
    set_runtime-Sound s k r hi h =
        let (z, at) = zone_exists s k h.safe.2.wiring hi in
        rw (zone_at-some s k z at) (
          returns (
            record {
              safe = (
                h.safe.0,
                h.safe.1,
                Panel-timed s.zonecfg s.zones s.master_valve s.board _ _ k z r at h.safe.2,
              );
              tables = record {
                week = h.tables.week;
                days = h.tables.days;
                cached = h.tables.cached;
                numbered = λ i y lo e.
                    let (x, ex, p, o, l) = wired_before s.zonecfg k z r at i y e in
                    l ∙ h.tables.numbered i x lo ex;
              };
            },
            (_, refl),
          ))

    -- The new duration of the running zone is read from a zone that is there.
    pub zc_update_runtime-Sound :
        (s : State) (k : ℕ) → k ≤ s.zones → Sound s → Keeps (zc_update_runtime (pos k) s)
    unfolding zc_update_runtime
    zc_update_runtime-Sound s k hi h =
        elim (Bool-cases (
          ltb_ℤ (pos 0) (pos k)
          && ltb_ℤ (pos k) (pos s.zones)
          && eqb_ℤ (pos k) s.current_zone.zone)) [
            | inl runs ↦
                let (z, at) = zone_exists s k h.safe.2.wiring hi in
                rw (runs, zone_at-some s k z at)
                  (returns record { safe = h.safe; tables = h.tables })
            | inr other ↦ rw other (returns record { safe = h.safe; tables = h.tables })
          ]
