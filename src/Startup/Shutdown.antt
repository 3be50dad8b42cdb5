-- ===== src/Startup/Shutdown.antt =====
-- At its end the daemon leaves every zone and the master valve off.
use sprinkler_d.Prelude.{
  length, ℕ, zero, suc, ◌+◌, ◌-◌, ◌≤◌, ◌<◌, ℤ, pos, eqb_ℤ, ◌≡◌, refl, Bool, true, false, ◌||◌, inl,
  inr, Bool-cases, ◌⊎◌, ◌∙◌, ◌==◌, ==_iff, ne_of_==, get_elem?_lt, some, get_elem?, subst, arith,
  if◌then◌else◌,
}
use sprinkler_d.Platform.{Platform, Driver, IsLevel}
use sprinkler_d.State.{
  GpioCfg, State, Run, done, and_then, Acts, acts, Acts-widen, Returns, returns, moved,
}
use sprinkler_d.Cache.{write_cache}
use sprinkler_d.Rain.Delay.{write_cache_total}
use sprinkler_d.Zones.Panel.{
  Wired, lit, Wiring, lnot-IsLevel, Wiring-write, lit-write_self, lit-write_ne, zone_at-some,
}
use sprinkler_d.Mqtt.Broadcast.{first_zone}
use sprinkler_d.Zones.Pins.{lnot}
use sprinkler_d.Startup.Pins.{write_pin, shut_down_pin, shut_down_pins, int_handler}

is_level : (l : ℤ) → IsLevel l → (eqb_ℤ l (pos 0) || eqb_ℤ l (pos 1)) ≡ true
is_level l (inl e) = rw e refl
is_level l (inr e) = rw e refl

module _ ⦃P : Platform⦄ ⦃D : Driver⦄ where
  -- Every wired zone's level for the end is the one that turns it off.
  abbrev pub EndsOff : State → Type 0
  EndsOff s =
      (i : ℕ) (z : GpioCfg)
      → Wired s.master_valve s.zones i
      → get_elem? s.zonecfg i ≡ some z
      → z.shutdown_state ≡ lnot z.on_state

  -- The wired zones before `i` are off.
  abbrev pub DarkBefore : State → P.Board → ℕ → Type 0
  DarkBefore s b i = (j : ℕ) → Wired s.master_valve s.zones j → j < i → lit s.zonecfg b j ≡ false

  pin_written :
      (s : State) (z : GpioCfg)
      → IsLevel z.shutdown_state
      → shut_down_pin z s ≡ done tt (write_pin z.pin z.shutdown_state s)
  unfolding shut_down_pin
  pin_written s z level = rw (is_level z.shutdown_state level) refl

  -- The loop's write turns a zone off and leaves those before it off.
  Dark-write :
      (s : State) (i : ℕ) (z : GpioCfg)
      → Wiring s.zonecfg s.zones s.master_valve s.board
      → EndsOff s
      → DarkBefore s s.board i
      → Wired s.master_valve s.zones i
      → get_elem? s.zonecfg i ≡ some z
      → DarkBefore s (P.digital_write s.board z.pin (lnot z.on_state)).0 (suc i)
  Dark-write s i z w off dark wired at j wj lt =
      let (dim, level) = lnot-IsLevel z.on_state (w.level i z wired at) in
      elim (Bool-cases (i == j)) [
        | inl same ↦
            subst (λ k. lit s.zonecfg (P.digital_write s.board z.pin (lnot z.on_state)).0 k ≡ false)
              ((==_iff i j).0 same) (lit-write_self w i z wired at (lnot z.on_state) level ∙ dim)
        | inr other ↦
            lit-write_ne w i z wired at (lnot z.on_state) level j wj (ne_of_== i j other)
            ∙ dark j wj (omega (arith, ne_of_== i j other))
      ]

  shut_down_pins-Dark :
      (rounds i : ℕ) (s : State)
      → Wiring s.zonecfg s.zones s.master_valve s.board
      → EndsOff s
      → DarkBefore s s.board i
      → (s.master_valve ≡ true) ⊎ (1 ≤ i)
      → rounds + i ≡ suc s.zones
      → Acts s (λ _ b. DarkBefore s b (suc s.zones)) (shut_down_pins rounds i s)
  unfolding shut_down_pins
  shut_down_pins-Dark zero i s w off dark fitted total =
      let past : i ≡ suc s.zones = omega arith in
      acts _ _ _ (subst (DarkBefore s s.board) past dark)
  shut_down_pins-Dark (suc rounds) i s w off dark fitted total =
      let hi : i ≤ s.zones = omega arith in
      let (z, at) = get_elem?_lt s.zonecfg i (omega (arith, w.size)) in
      let level = (lnot-IsLevel z.on_state (w.level i z (hi, fitted) at)).1 in
      let e = off i z (hi, fitted) at in
      rw (zone_at-some s i z at, pin_written s z (rw e level), e)
        (Acts-widen (
          shut_down_pins-Dark rounds (suc i) (write_pin z.pin (lnot z.on_state) s)
            (Wiring-write w i z (hi, fitted) at (lnot z.on_state) level) off
            (Dark-write s i z w off dark (hi, fitted) at) (inr (omega arith)) (omega arith)))

  -- The loop starts with the first wired zone.
  pub first_reached : (fitted : Bool) (n j : ℕ) → Wired fitted n j → (if fitted then 0 else 1) ≤ j
  first_reached true n j w = omega arith
  first_reached false n j (hi, inl fitted) = cc
  first_reached false n j (hi, inr lo) = lo

  pub first_ok :
      (fitted : Bool) (n : ℕ)
      → ((fitted ≡ true) ⊎ (1 ≤ (if fitted then 0 else 1)))
        × ((suc n - (if fitted then 0 else 1)) + (if fitted then 0 else 1) ≡ suc n)
  first_ok true n = (inl refl, omega arith)
  first_ok false n = (inr (omega arith), omega arith)

  saved :
      {s : State} {r : Run (Unit {0})}
      → length s.zonecfg ≡ suc s.zones
      → Acts s (λ _ b. DarkBefore s b (suc s.zones)) r
      → Returns (λ _ u. DarkBefore u u.board (suc u.zones)) (and_then r λ _. write_cache)
  saved {s} size (acts a b e dark) =
      let (f, written) = write_cache_total (moved s b e) size in rw written (returns dark)

  -- Where the zones are wired soundly and each zone's level for the end is the one that turns it
  -- off, the handler of SIGTERM ends without an access outside an array and leaves every zone off,
  -- and the master valve where one is fitted.
  pub int_handler-Dark :
      (s : State)
      → Wiring s.zonecfg s.zones s.master_valve s.board
      → EndsOff s
      → Returns (λ _ u. DarkBefore u u.board (suc u.zones)) (int_handler s)
  unfolding int_handler
  int_handler-Dark s w off =
      let (fitted, total) = first_ok s.master_valve s.zones in
      saved w.size (
        shut_down_pins-Dark (suc s.zones - first_zone s) (first_zone s) s w off
          (λ j wired lt. absurd (omega (arith, first_reached s.master_valve s.zones j wired, lt)))
          fitted total)
