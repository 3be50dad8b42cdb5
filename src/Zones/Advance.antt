-- ===== src/Zones/Advance.antt =====
-- What `start_next_zone` does where every pin answers: the next zone that runs is on, alone, with the
-- master valve and its own time, or nothing is left and the run has ended.
use sprinkler_d.Prelude.{
  ℕ, suc, ℤ, pos, negsuc, ◌-ℤ◌, ◌*ℤ◌, eqb_ℤ, int_laws, ◌<◌, ◌≡◌, refl, Bool, true, false, Option,
  none, some, get_elem?, get_elem?_lt, arith,
}
use sprinkler_d.Platform.{Platform, Driver}
use sprinkler_d.State.{
  zc_none, zc_on, zc_off, Running, GpioCfg, State, sec2min, set_event_zones, Effect, effect, ran,
  Acts-then, Effect-widen,
}
use sprinkler_d.Zones.Pins.{calc_timeleft}
use sprinkler_d.Zones.Cycle.{end_cycle, begin_zone, start_found, start_next_zone}
use sprinkler_d.Zones.Panel.{zone_at-some}
use sprinkler_d.Zones.Switches.{Shows, zc_start-Shows, zc_master-Shows}
use sprinkler_d.Zones.Progress.{IsNext, next_zone-IsNext}

abbrev pub idle_running : Running → Running
idle_running c = record c { type = zc_none; zone = negsuc 0; timeleft = pos 0 }

abbrev pub now_running : Running → ℕ → ℤ → ℤ → Running
now_running c k runtime clock = record c {
  zone = pos k;
  started_time = clock;
  duration = runtime;
  timeleft = runtime *ℤ sec2min;
}

full_time : (a c : ℤ) → a -ℤ (c -ℤ c) ≡ a
full_time a c = omega int_laws

pub pos_ne_minus_one : (k : ℕ) → eqb_ℤ (pos k) (negsuc 0) ≡ false
pos_ne_minus_one k = ground arith

module _ ⦃P : Platform⦄ ⦃D : Driver⦄ where
  pub calc_timeleft_started :
      (s : State) (c : Running) (k : ℕ) (runtime : ℤ)
      → calc_timeleft (record s {
        current_zone = record c { zone = pos k; started_time = s.clock; duration = runtime };
      })
        ≡ record s { current_zone = now_running c k runtime s.clock }
  unfolding calc_timeleft
  calc_timeleft_started s c k runtime =
      rw (pos_ne_minus_one k, full_time (runtime *ℤ sec2min) s.clock)

  -- The zone that runs next, if any, and the state that it leaves.
  abbrev pub Advanced : State → Option ℕ → ℤ → Running → P.Board → Type 0
  Advanced s none r c b = (r ≡ negsuc 0) × (c ≡ idle_running s.current_zone) × Shows s b none false
  Advanced s (some k) r c b =
      (z : GpioCfg) × (get_elem? s.zonecfg k ≡ some z)
      × (r ≡ pos k)
      × (c ≡ now_running s.current_zone k z.default_runtime s.clock)
      × Shows s b (some k) true

  end_cycle-Advanced :
      (s : State) (v : Bool) → Shows s s.board none v → Effect s (Advanced s none) (end_cycle s)
  unfolding end_cycle
  end_cycle-Advanced s v p =
      Effect-widen (idle_running s.current_zone) s.board s.update_event_mask (
        Acts-then _ (zc_master-Shows _ zc_off none v p) (λ a b e q. effect _ _ _ _ (refl, refl, q)))

  begin_zone-Advanced :
      (s : State) (k : ℕ) (z : GpioCfg) (v : Bool)
      → get_elem? s.zonecfg k ≡ some z
      → Shows s s.board (some k) v
      → Effect s (Advanced s (some k)) (begin_zone k s)
  unfolding begin_zone
  begin_zone-Advanced s k z v at p =
      Effect-widen (record (s.current_zone) { zone = pos k }) s.board s.update_event_mask
        (Acts-then _ (zc_master-Shows _ zc_on (some k) v p) (λ a b e q.
          rw
            (
              zone_at-some (ran s (record (s.current_zone) { zone = pos k }) b e) k z at,
              calc_timeleft_started (ran s s.current_zone b e) s.current_zone k z.default_runtime,
            )
            (effect _ _ _ _ (z, at, refl, refl, q))))

  -- From zones that are all off and a zone before the last, one round of fuel lets start_next_zone
  -- end without an access outside the array: it starts the least zone behind the given one that
  -- has a run time and a valid pin, alone and with the master valve, for that run time from now,
  -- or, where there is none, ends the run with the master valve off and returns -1.
  pub start_next_zone-Advanced :
      (s : State) (fuel startz : ℕ) (v : Bool)
      → Shows s s.board none v
      → startz < s.zones
      → (o : Option ℕ) × IsNext s.zonecfg s.zones (suc startz) o
        × Effect s (Advanced s o) (start_next_zone (suc fuel) startz s)
  unfolding start_next_zone
  start_next_zone-Advanced s fuel startz v p h =
      let (o, e, next) =
        next_zone-IsNext t p.wiring.size (suc s.zones) (suc startz) h (omega arith) in
      (o, next, rw e (go o next))
    where
      t : State
      t = set_event_zones s

      go :
          (o : Option ℕ)
          → IsNext s.zonecfg s.zones (suc startz) o
          → Effect s (Advanced s o) (start_found (start_next_zone fuel) o t)
      go none next =
          Effect-widen s.current_zone s.board t.update_event_mask (end_cycle-Advanced t v p)
      go (some k) (lo, hi, runs, before) =
          let (z, at) = get_elem?_lt s.zonecfg k (omega (arith, p.wiring.size)) in
          Effect-widen s.current_zone s.board t.update_event_mask (
            Acts-then _ (zc_start-Shows t k v p (omega arith) hi)
              (λ r b e (ok, q). rw ok (begin_zone-Advanced (ran t s.current_zone b e) k z v at q)))
