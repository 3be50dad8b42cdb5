-- ===== src/Zones/OnOff.antt =====
-- The two ends of a request for one zone: turning it on, and turning it off.
use sprinkler_d.Prelude.{
  ℕ, ℤ, pos, negsuc, ◌*ℤ◌, ◌-ℤ◌, ltb_ℤ, ◌≤◌, ◌≡◌, ◌≢◌, refl, ap, Bool, true, false, Option, none,
  some, arith, inl, inr, Bool-cases,
}
use sprinkler_d.Platform.{Platform, Driver}
use sprinkler_d.State.{
  RunType, zc_none, zc_on, zc_off, Running, State, sec2min, Effect, effect, Acts-then, Effect-then,
  Effect-widen, ran,
}
use sprinkler_d.Zones.Pins.{is_none, is_all}
use sprinkler_d.Zones.Requests.{turn_on, turn_off}
use sprinkler_d.Zones.Cycle.{zc_check}
use sprinkler_d.Zones.Panel.{is_zone}
use sprinkler_d.Zones.Switches.{Shows, zc_start-Shows, zc_stop-Shows, zc_master-Shows}
use sprinkler_d.Zones.Advance.{calc_timeleft_started}
use sprinkler_d.Zones.AllOff.{From, others_off-Shows}
use sprinkler_d.Zones.Safety.{active, Safe, active_idle, active_running}

-- The current zone after a request that started zone `k` for `length` minutes.
abbrev pub started : RunType → ℕ → ℤ → ℤ → Running
started type k length clock = record {
  type = type;
  started_time = clock;
  duration = length;
  timeleft = length *ℤ sec2min;
  zone = pos k;
}

not_active : (a : Option ℕ) (k : ℕ) → is_zone a k ≡ false → (j : ℕ) → a ≡ some j → pos k ≢ pos j
not_active none k off j e same = cc
not_active (some i) k off j e same = ground arith

module _ ⦃P : Platform⦄ ⦃D : Driver⦄ where
  -- The zone that the pins show is one of the zones.
  pub record Within (s : State) (a : Option ℕ) : Type 0 where
    pub above : From 1 a
    pub below : (j : ℕ) → a ≡ some j → j ≤ s.zones

  Within-none : (s : State) (a : Option ℕ) → a ≡ none → Within s a
  Within-none s a e = record { above = λ j e'. absurd (cc); below = λ j e'. absurd (cc) }

  pub Within-some :
      (s : State) (a : Option ℕ) (k : ℕ) → a ≡ some k → 1 ≤ k → k ≤ s.zones → Within s a
  Within-some s a k e lo hi = record { above = λ j e'. ground arith; below = λ j e'. ground arith }

  pub Safe-Within : (s : State) (c : Running) (b : P.Board) → Safe s c b → Within s (active c)
  Safe-Within s c b (n, inl idle, p) = Within-none s (active c) (active_idle c idle)
  Safe-Within s c b (n, inr (k, at, lo, hi), p) = elim (Bool-cases (is_none c.type)) [
    | inl idle ↦ Within-none s (active c) (active_idle c idle)
    | inr running ↦ Within-some s (active c) k (active_running c k running at) lo hi
  ]

  pub turn_on-started :
      (s : State) (type : RunType) (k : ℕ) (length : ℤ) (a : Option ℕ) (v : Bool)
      → Shows s s.board a v
      → Within s a
      → is_zone a k ≡ false
      → 1 ≤ k
      → k ≤ s.zones
      → ltb_ℤ (pos 0) length ≡ true
      → Effect s
          (λ r c b. (r ≡ true) × (c ≡ started type k length s.clock) × Shows s b (some k) true)
          (turn_on type (pos k) length s)
  unfolding turn_on
  turn_on-started s type k length a v p w off lo hi positive = rw positive (
      Acts-then _
        (others_off-Shows (pos k) s.zones 1 s a v p w.above w.below (not_active a k off)
          (omega arith) (omega arith))
        λ r b e (already, q). rw already (
          Acts-then _ (zc_start-Shows (ran s s.current_zone b e) k v q lo hi) λ r' b' e' (ok, q').
            rw ok (
              Acts-then _ (zc_master-Shows (ran s s.current_zone b' e') zc_on (some k) v q')
                λ r'' b'' e'' q''. effect _ _ _ _ (
                  refl,
                  ap (λ t. t.current_zone)
                      (calc_timeleft_started (ran s s.current_zone b'' e'')
                        (record (s.current_zone) { type = type }) k length),
                  q'',
                ))))

  -- A running zone that is not one of a run of all zones is turned off with the master valve.
  pub turn_off-idle :
      (s : State) (k : ℕ)
      → is_all s.current_zone.type ≡ false
      → Shows s s.board (some k) true
      → 1 ≤ k
      → k ≤ s.zones
      → Effect s
          (λ r c b.
            (r ≡ true)
            × (c ≡ record (s.current_zone) { type = zc_none; zone = negsuc 0 })
            × Shows s b none false)
          (turn_off (pos k) s)
  unfolding turn_off
  turn_off-idle s k one p lo hi = rw one (
      Acts-then _ (zc_master-Shows s zc_off (some k) true p) λ a b e q.
        Acts-then _ (zc_stop-Shows (ran s s.current_zone b e) k false q lo hi)
          λ r b' e' (ok, q'). effect _ _ _ _ (refl, refl, q'))

  -- The start of the running zone, moved back by its whole time and a second.
  abbrev pub expired : Running → Running
  expired c = record c { started_time = c.started_time -ℤ c.duration *ℤ sec2min -ℤ pos 1 }

  -- In a run of all zones the check is made as if the zone's time were up.
  pub turn_off-check :
      (s : State) (zone : ℤ) {Q : Running → P.Board → Type 0}
      → is_all s.current_zone.type ≡ true
      → Effect
          (record s { current_zone = expired s.current_zone })
          (λ r c b. Q c b)
          (zc_check (record s { current_zone = expired s.current_zone }))
      → Effect s (λ r c b. (r ≡ true) × Q c b) (turn_off zone s)
  unfolding turn_off
  turn_off-check s zone all check = rw all (
      Effect-widen (expired s.current_zone) s.board s.update_event_mask
        (Effect-then _ check λ r c b e q. effect _ _ _ _ (refl, q)))
