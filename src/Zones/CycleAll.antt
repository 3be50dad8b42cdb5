-- ===== src/Zones/CycleAll.antt =====
-- The request for all zones: everything is turned off, and the first zone that runs is started.
use sprinkler_d.Prelude.{
  ℕ, ℤ, negsuc, eqb_ℤ, ◌≤◌, ◌≡◌, refl, ap, if◌then◌else◌, true, false, Option, none, some,
  get_elem?,
}
use sprinkler_d.Platform.{Platform, Driver}
use sprinkler_d.State.{
  EventMask, RunType, pure, modify, zc_none, zc_all, zc_on, zc_off, GpioCfg, Running, State, Effect,
  effect, Acts-then, Effect-then, Effect-widen, ran,
}
use sprinkler_d.Zones.Pins.{is_none}
use sprinkler_d.Zones.Requests.{set_type, begin_cycle, cycle_all}
use sprinkler_d.Zones.Switches.{Shows}
use sprinkler_d.Zones.Advance.{
  idle_running, now_running, Advanced, pos_ne_minus_one, start_next_zone-Advanced,
}
use sprinkler_d.Zones.AllOff.{all_off_every}
use sprinkler_d.Zones.Progress.{IsNext}
use sprinkler_d.Zones.Safety.{active, is_some, Safe, Safe-idle, Safe-running}
use sprinkler_d.Zones.OnOff.{Safe-Within}

module _ ⦃P : Platform⦄ ⦃D : Driver⦄ where
  -- The run of all zones has begun with zone `o`, or there is none to run.
  abbrev pub Cycled : State → Option ℕ → Running → P.Board → Type 0
  Cycled s none c b = (c ≡ idle_running s.current_zone) × Shows s b none false
  Cycled s (some k) c b =
      (z : GpioCfg) × (get_elem? s.zonecfg k ≡ some z)
      × (c ≡ record (now_running s.current_zone k z.default_runtime s.clock) { type = zc_all })
      × Shows s b (some k) true

  pub cycle_all_off :
      (s : State)
      → Safe s s.current_zone s.board
      → Effect s
          (λ r c b.
            (r ≡ true) × (c ≡ record (s.current_zone) { type = zc_none }) × Shows s b none false)
          (cycle_all zc_off s)
  unfolding cycle_all
  cycle_all_off s h =
      let w = Safe-Within s s.current_zone s.board h in
      Acts-then _
        (all_off_every s.zones s (active s.current_zone) (is_some (active s.current_zone)) h.2
          w.above w.below h.0 refl)
        λ _ b e q.
          Effect-widen (record (s.current_zone) { type = zc_none }) b e
            (effect _ _ _ _ (refl, refl, q))

  begin_cycle-Cycled :
      (s : State)
      → 1 ≤ s.zones
      → is_none s.current_zone.type ≡ true
      → Shows s s.board none false
      → Effect s
          (λ _ c b. (o : Option ℕ) × IsNext s.zonecfg s.zones 1 o × Cycled s o c b)
          (begin_cycle s)
  unfolding begin_cycle
  begin_cycle-Cycled s h idle p =
      let (o, next, runs) = start_next_zone-Advanced s s.zones 0 false p h in
      Effect-then _ runs λ n c b e adv. go o n c b e next adv
    where
      go :
          (o : Option ℕ) (n : ℤ) (c : Running) (b : P.Board) (e : EventMask)
          → IsNext s.zonecfg s.zones 1 o
          → Advanced s o n c b
          → Effect
              (ran s c b e)
              (λ _ c' b'. (o' : Option ℕ) × IsNext s.zonecfg s.zones 1 o' × Cycled s o' c' b')
              ((if eqb_ℤ n (negsuc 0) then pure tt else modify (set_type zc_all)) (ran s c b e))
      go none n c b e next (r, ec, q) = rw r (effect _ _ _ _ (none, next, (ec, q)))
      go (some k) n c b e next (z, at, r, ec, q) =
          rw (r, pos_ne_minus_one k)
            (Effect-widen (record c { type = zc_all }) b e
              (effect _ _ _ _
                (some k, next, (z, at, ap {A = Running} (λ d. record d { type = zc_all }) ec, q))))

  -- A cycle is described alike from a state whose run has just been ended.
  Cycled-moved :
      (s : State) (t : RunType) (b : P.Board) (e : EventMask) (o : Option ℕ) (c : Running)
      (b' : P.Board)
      → Cycled (ran s (record (s.current_zone) { type = t }) b e) o c b'
      → Cycled s o c b'
  Cycled-moved s t b e none c b' h = h
  Cycled-moved s t b e (some k) c b' h = h

  pub cycle_all_on :
      (s : State)
      → Safe s s.current_zone s.board
      → Effect s
          (λ r c b. (r ≡ true) × ((o : Option ℕ) × IsNext s.zonecfg s.zones 1 o × Cycled s o c b))
          (cycle_all zc_on s)
  unfolding cycle_all
  cycle_all_on s h =
      let w = Safe-Within s s.current_zone s.board h in
      Acts-then _
        (all_off_every s.zones s (active s.current_zone) (is_some (active s.current_zone)) h.2
          w.above w.below h.0 refl)
        λ _ b e q.
          let t = ran s (record (s.current_zone) { type = zc_none }) b e in
          Effect-widen (record (s.current_zone) { type = zc_none }) b e
            (Effect-then _ (begin_cycle-Cycled t h.0 refl q) λ _ c b' e' (o, next, cyc).
              effect _ _ _ _ (refl, (o, next, Cycled-moved s zc_none b e o c b' cyc)))

  pub Cycled-Safe :
      (s : State) (o : Option ℕ) (c : Running) (b : P.Board)
      → 1 ≤ s.zones
      → IsNext s.zonecfg s.zones 1 o
      → Cycled s o c b
      → Safe s c b
  Cycled-Safe s none c b h next (e, p) = Safe-idle s c b h (rw e) p
  Cycled-Safe s (some k) c b h (lo, hi, q, before) (z, at, e, p) =
      Safe-running s c b k (rw e) (rw e) lo hi p
