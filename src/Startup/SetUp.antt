-- ===== src/Startup/SetUp.antt =====
-- Behind the set-up of the pins every wired zone is an output and off.
use sprinkler_d.Prelude.{
  ℕ, zero, suc, ◌+◌, ◌-◌, ◌≤◌, ◌<◌, ℤ, pos, negsuc, eqb_ℤ, not, ◌≡◌, ◌≢◌, refl, sym, ap, ◌∙◌, subst,
  inl, inr, ◌⊎◌, Bool, Bool-cases, true, false, some, none, List, [], ◌∷◌, get_elem?, get_elem?_lt,
  ◌==◌, ==_iff, ne_of_==, arith,
}
use sprinkler_d.Platform.{Platform, Driver, IsLevel, valid_gpio}
use sprinkler_d.State.{GpioCfg, State, done, Acts, acts, Acts-widen}
use sprinkler_d.Zones.Pins.{lnot, pin_is_on}
use sprinkler_d.Zones.Panel.{Wired, Panel, lit, lit_at, lnot-IsLevel, zone_at-some}
use sprinkler_d.Mqtt.Broadcast.{first_zone}
use sprinkler_d.Startup.Pins.{set_up_pin, set_up_pins, set_up}
use sprinkler_d.Startup.Shutdown.{first_reached, first_ok}
use sprinkler_d.Startup.Inputs.{Input, AllRegistered, set_up_inputs}
use sprinkler_d.Startup.Planned.{Layout, AreApart}

level_set : (x : ℤ) → IsLevel x → not (eqb_ℤ x (negsuc 0)) ≡ true
level_set x (inl e) = rw e refl
level_set x (inr e) = rw e refl

module _ ⦃P : Platform⦄ ⦃D : Driver⦄ where
  -- An output that is off.
  pub record IsOff (z : GpioCfg) (b : P.Board) : Type 0 where
    pub output : D.Output b z.pin
    pub off : pin_is_on z b ≡ false

  -- The wired zones before `i` are set up.
  abbrev pub ReadyBefore : State → P.Board → ℕ → Type 0
  ReadyBefore s b i =
      (j : ℕ) (z : GpioCfg)
      → Wired s.master_valve s.zones j
      → j < i
      → get_elem? s.zonecfg j ≡ some z
      → IsOff z b

  -- The mode of a pin, and a level that is written to it, are nothing to another pin.
  IsOff-mode :
      (z : GpioCfg) (b : P.Board) (p m : ℤ) → p ≢ z.pin → IsOff z b → IsOff z (P.pin_mode b p m)
  unfolding pin_is_on
  IsOff-mode z b p m ne h = record {
    output = D.Output-mode b p z.pin m ne h.output;
    off = ap (λ l. eqb_ℤ z.on_state l) (D.read-mode_ne b p z.pin m ne) ∙ h.off;
  }

  IsOff-write :
      (z : GpioCfg) (b : P.Board) (p l : ℤ)
      → p ≢ z.pin
      → IsOff z b
      → IsOff z (P.digital_write b p l).0
  unfolding pin_is_on
  IsOff-write z b p l ne h = record {
    output = D.Output-write b p z.pin l h.output;
    off = ap (λ l. eqb_ℤ z.on_state l) (D.read-write_ne b p z.pin l ne) ∙ h.off;
  }

  abbrev set_board : P.Board → GpioCfg → P.Board
  set_board b z = (P.digital_write (P.pin_mode b z.pin (pos 1)) z.pin (lnot z.on_state)).0

  set_board-IsOff :
      (z : GpioCfg) (b : P.Board)
      → valid_gpio z.pin ≡ true
      → IsLevel z.on_state
      → IsOff z (set_board b z)
  unfolding pin_is_on
  set_board-IsOff z b valid level =
      let (differs, off) = lnot-IsLevel z.on_state level in
      let mode = D.Output-mode_self b z.pin valid in
      record {
        output = D.Output-write _ z.pin z.pin _ mode;
        off = ap (λ l. eqb_ℤ z.on_state l) (D.read-write_self _ z.pin _ mode off) ∙ differs;
      }

  set_up_pin_lem :
      (s : State) (z : GpioCfg)
      → IsLevel z.on_state
      → z.input_output ≡ pos 1
      → z.startup_state ≡ lnot z.on_state
      → set_up_pin z s ≡ done tt (record s { board = set_board s.board z })
  unfolding set_up_pin
  set_up_pin_lem s z level output starts =
      rw (output, starts, level_set (lnot z.on_state) (lnot-IsLevel z.on_state level).1) refl

  module _ (s : State) (plan : Layout s.zonecfg s.zones s.master_valve) where
    ReadyBefore-set :
        (b : P.Board) (i : ℕ) (z : GpioCfg)
        → Wired s.master_valve s.zones i
        → get_elem? s.zonecfg i ≡ some z
        → ReadyBefore s b i
        → ReadyBefore s (set_board b z) (suc i)
    ReadyBefore-set b i z w at h j y v lt e = elim (Bool-cases (i == j)) [
      | inl same ↦
          let eq : some z ≡ some y = sym at ∙ ap (get_elem? s.zonecfg) ((==_iff i j).0 same) ∙ e in
          let eq' : z ≡ y = cc in
          subst (λ x. IsOff x (set_board b z)) eq'
            (set_board-IsOff z b (plan.valid i z w at) (plan.level i z w at))
      | inr other ↦
          let ne = ne_of_== i j other in
          let apart : z.pin ≢ y.pin = λ p. ne (plan.distinct i j z y w v at e p) in
          IsOff-write y _ z.pin _ apart
            (IsOff-mode y b z.pin (pos 1) apart (h j y v (omega arith) e))
    ]

  set_up_pins-Ready :
      (rounds i : ℕ) (s : State)
      → Layout s.zonecfg s.zones s.master_valve
      → ReadyBefore s s.board i
      → (s.master_valve ≡ true) ⊎ (1 ≤ i)
      → rounds + i ≡ suc s.zones
      → Acts s (λ _ b. ReadyBefore s b (suc s.zones)) (set_up_pins rounds i s)
  unfolding set_up_pins
  set_up_pins-Ready zero i s plan h fitted total =
      let past : i ≡ suc s.zones = omega arith in acts _ _ _ (subst (ReadyBefore s s.board) past h)
  set_up_pins-Ready (suc rounds) i s plan h fitted total =
      let hi : i ≤ s.zones = omega arith in
      let (z, at) = get_elem?_lt s.zonecfg i (omega (arith, plan.size)) in
      let w : Wired s.master_valve s.zones i = (hi, fitted) in
      let b = set_board s.board z in
      rw
        (
          zone_at-some s i z at,
          set_up_pin_lem s z (plan.level i z w at) (plan.is_output i z w at)
              (plan.starts_off i z w at),
        )
        (Acts-widen (
          set_up_pins-Ready rounds (suc i) (record s { board = b }) plan
            (ReadyBefore-set s plan s.board i z w at h) (inr (omega arith)) (omega arith)))

  pub set_up-Ready :
      (s : State)
      → Layout s.zonecfg s.zones s.master_valve
      → Acts s (λ _ b. ReadyBefore s b (suc s.zones)) (set_up s)
  unfolding set_up
  set_up-Ready s plan =
      let (fitted, total) = first_ok s.master_valve s.zones in
      set_up_pins-Ready (suc s.zones - first_zone s) (first_zone s) s plan
        (λ j z w lt e. absurd (omega (arith, first_reached s.master_valve s.zones j w, lt))) fitted
        total

  pub set_up_inputs-Ready :
      (registers : Input → Bool) (is : List Input) (s : State)
      → AllRegistered registers is
      → AreApart s.zonecfg s.zones s.master_valve is
      → ReadyBefore s s.board (suc s.zones)
      → Acts s (λ r b. (r ≡ true) × ReadyBefore s b (suc s.zones)) (set_up_inputs registers is s)
  unfolding set_up_inputs
  set_up_inputs-Ready registers [] s all apart h = acts _ _ _ (refl, h)
  set_up_inputs-Ready registers (i ∷ is) s (first, all) (apart, rest) h = rw first (
      Acts-widen (
        set_up_inputs-Ready registers is
          (record s { board = P.pin_mode s.board i.pin i.input_output }) all rest
          (λ j z w lt e. IsOff-mode z s.board i.pin i.input_output (apart j z w e) (h j z w lt e))))

  -- Pins that are set up are wired soundly, and nothing is on.
  pub Ready-Panel :
      (s : State) (b : P.Board)
      → Layout s.zonecfg s.zones s.master_valve
      → ReadyBefore s b (suc s.zones)
      → Panel s.zonecfg s.zones s.master_valve b none false
  Ready-Panel s b plan h = record {
    wiring = record {
      size = plan.size;
      level = plan.level;
      distinct = plan.distinct;
      outputs = λ i z w e. (h i z w (omega (arith, w.0)) e).output;
    };
    zones_lit = λ i lo hi. dark i (hi, inr lo);
    master_lit = λ fitted. dark 0 (omega arith, inl fitted);
  }
    where
      dark : (i : ℕ) → Wired s.master_valve s.zones i → lit s.zonecfg b i ≡ false
      dark i w =
          let (z, at) = get_elem?_lt s.zonecfg i (omega (arith, plan.size, w.0)) in
          lit_at s.zonecfg b i z at ∙ (h i z w (omega (arith, w.0)) at).off
