-- ===== src/Zones/Panel.antt =====
-- The abstract view of the pins: at most one zone that is on, and whether the master valve is.
use sprinkler_d.Prelude.{
  ℕ, suc, ℤ, pos, ◌≤◌, ◌≡◌, ◌≢◌, ◌⊎◌, inl, inr, refl, sym, ◌∙◌, eqb_ℤ, eqb_ℤ_refl, Bool, true,
  false, Option, none, some, List, length, get_elem?, ◌==◌, Option-cases,
}
use sprinkler_d.Platform.{Platform, Driver, IsLevel}
use sprinkler_d.State.{GpioCfg, State, done, Acts, acts, zone_at}
use sprinkler_d.Zones.Pins.{pin_is_on, lnot, write_pin, zc_start, zc_stop}

-- Zone 0 is the master valve; it counts only where one is fitted.
abbrev pub Wired : Bool → ℕ → ℕ → Type 0
Wired fitted n i = (i ≤ n) × ((fitted ≡ true) ⊎ (1 ≤ i))

abbrev pub is_zone : Option ℕ → ℕ → Bool
is_zone none i = false
is_zone (some k) i = k == i

pub lnot-IsLevel : (x : ℤ) → IsLevel x → (eqb_ℤ x (lnot x) ≡ false) × IsLevel (lnot x)
lnot-IsLevel x (inl e) = rw e (refl, inr refl)
lnot-IsLevel x (inr e) = rw e (refl, inl refl)

module _ ⦃P : Platform⦄ where
  -- Zone `i` is on.
  abbrev pub lit : List GpioCfg → P.Board → ℕ → Bool
  lit cfg b i = elim (get_elem? cfg i) [ none ↦ false | some z ↦ pin_is_on z b ]

  -- The configuration is sound: each zone is on at a level, on an output pin of its own.
  pub record Wiring ⦃D : Driver⦄ (cfg : List GpioCfg) (n : ℕ) (fitted : Bool) (b : P.Board)
      : Type 0 where
    pub size : length cfg ≡ suc n
    pub level :
        (i : ℕ) (z : GpioCfg) → Wired fitted n i → get_elem? cfg i ≡ some z → IsLevel z.on_state
    pub distinct :
        (i j : ℕ) (y z : GpioCfg)
        → Wired fitted n i
        → Wired fitted n j
        → get_elem? cfg i ≡ some y
        → get_elem? cfg j ≡ some z
        → y.pin ≡ z.pin
        → i ≡ j
    pub outputs :
        (i : ℕ) (z : GpioCfg) → Wired fitted n i → get_elem? cfg i ≡ some z → D.Output b z.pin

  pub record Panel ⦃D : Driver⦄ (cfg : List GpioCfg) (n : ℕ) (fitted : Bool) (b : P.Board)
      (active : Option ℕ) (master : Bool) : Type 0 where
    pub wiring : Wiring cfg n fitted b
    pub zones_lit : (i : ℕ) → 1 ≤ i → i ≤ n → lit cfg b i ≡ is_zone active i
    pub master_lit : fitted ≡ true → lit cfg b 0 ≡ master

  pub lit_at :
      (cfg : List GpioCfg) (b : P.Board) (i : ℕ) (z : GpioCfg)
      → get_elem? cfg i ≡ some z
      → lit cfg b i ≡ pin_is_on z b
  lit_at cfg b i z at = rw (at, lit)

  module _ ⦃D : Driver⦄ {cfg : List GpioCfg} {n : ℕ} {fitted : Bool} {b : P.Board}
      (w : Wiring cfg n fitted b) (i : ℕ) (z : GpioCfg) (wired : Wired fitted n i)
      (at : get_elem? cfg i ≡ some z) (l : ℤ) (is_level : IsLevel l) where
    abbrev after : P.Board
    after = (P.digital_write b z.pin l).0

    pub Wiring-write : Wiring cfg n fitted after
    Wiring-write = record {
      size = w.size;
      level = w.level;
      distinct = w.distinct;
      outputs = λ j y h e. D.Output-write b z.pin y.pin l (w.outputs j y h e);
    }

    pub lit-write_self : lit cfg after i ≡ eqb_ℤ z.on_state l
    unfolding pin_is_on
    lit-write_self =
        rw (lit_at cfg after i z at, D.read-write_self b z.pin l (w.outputs i z wired at) is_level)

    pub lit-write_ne : (j : ℕ) → Wired fitted n j → i ≢ j → lit cfg after j ≡ lit cfg b j
    unfolding pin_is_on
    lit-write_ne j wj ne = elim (Option-cases (get_elem? cfg j)) [
      | inl e ↦ rw (e, lit)
      | inr (y, e) ↦ rw (
        lit_at cfg after j y e,
        lit_at cfg b j y e,
        D.read-write_ne b z.pin y.pin l (λ h. ne (w.distinct i j z y wired wj at e h)),
      )
    ]

  -- What one write to a wired zone's pin does to the lights.
  pub record Switched ⦃D : Driver⦄ (cfg : List GpioCfg) (n : ℕ) (fitted : Bool) (b b' : P.Board)
      (i : ℕ) (on : Bool) : Type 0 where
    pub wiring : Wiring cfg n fitted b'
    pub self : lit cfg b' i ≡ on
    pub others : (j : ℕ) → Wired fitted n j → i ≢ j → lit cfg b' j ≡ lit cfg b j

  pub zone_at-some :
      (s : State) (i : ℕ) (z : GpioCfg)
      → get_elem? s.zonecfg i ≡ some z
      → zone_at (pos i) s ≡ done z s
  unfolding zone_at
  zone_at-some s i z at = rw (at, zone_at)

  module _ ⦃D : Driver⦄ (s : State) (w : Wiring s.zonecfg s.zones s.master_valve s.board) (i : ℕ)
      (z : GpioCfg) (wired : Wired s.master_valve s.zones i)
      (at : get_elem? s.zonecfg i ≡ some z) where
    write_pin-Acts :
        (l : ℤ) (on : Bool)
        → IsLevel l
        → eqb_ℤ z.on_state l ≡ on
        → Acts s
            (λ r b. (r ≡ true) × Switched s.zonecfg s.zones s.master_valve s.board b i on)
            (write_pin z l s)
    unfolding write_pin
    write_pin-Acts l on h e = acts _ _ _ (
      rw (D.write_ok s.board z.pin l (w.outputs i z wired at) h),
      record {
        wiring = Wiring-write w i z wired at l h;
        self = lit-write_self w i z wired at l h ∙ e;
        others = lit-write_ne w i z wired at l h;
      },
    )

    pub zc_start-Acts :
        lit s.zonecfg s.board i ≡ false
        → Acts s
            (λ r b. (r ≡ true) × Switched s.zonecfg s.zones s.master_valve s.board b i true)
            (zc_start (pos i) s)
    unfolding zc_start
    zc_start-Acts off =
        rw (zone_at-some s i z at, sym (lit_at s.zonecfg s.board i z at) ∙ off)
          (write_pin-Acts z.on_state true (w.level i z wired at) (eqb_ℤ_refl z.on_state))

    pub zc_stop-Acts :
        lit s.zonecfg s.board i ≡ true
        → Acts s
            (λ r b. (r ≡ true) × Switched s.zonecfg s.zones s.master_valve s.board b i false)
            (zc_stop (pos i) s)
    unfolding zc_stop
    zc_stop-Acts on =
        rw (zone_at-some s i z at, sym (lit_at s.zonecfg s.board i z at) ∙ on)
          (write_pin-Acts (lnot z.on_state) false (lnot-IsLevel _ (w.level i z wired at)).1
            (lnot-IsLevel _ (w.level i z wired at)).0)
