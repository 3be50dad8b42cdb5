-- ===== src/Zones/Termination.antt =====
-- The fuel of `start_next_zone` is enough, and so every request to the zone control ends.
use sprinkler_d.Prelude.{
  ℕ, zero, suc, ◌+◌, ◌≤◌, pos, negsuc, ◌≡◌, refl, inl, inr, Bool, true, false, Bool-cases, Option,
  none, some, get_elem?, get_elem?-lt, Option-cases, ltb, arith,
}
use sprinkler_d.Platform.{Platform}
use sprinkler_d.State.{
  zc_none, zc_on, zc_off, State, Run, done, fault, modify, and_then, set_event_zones, zone_at,
}
use sprinkler_d.Zones.Pins.{zc_start, calc_timeleft}
use sprinkler_d.Zones.Panel.{zone_at-some}
use sprinkler_d.Zones.Cycle.{skips, next_zone, end_cycle, begin_zone, start_found, start_next_zone}
use sprinkler_d.Zones.Halting.{
  IsSized, Halts, faulted, IsHalting, IsHalting-pure, IsHalting-bind, IsHalting-then,
  IsHalting-modify, zone_at-IsHalting, zc_start-IsHalting, zc_master-IsHalting,
}

le_of_ltb : (a b : ℕ) → ltb a b ≡ false → b ≤ a
le_of_ltb a b h = ground arith

module _ ⦃P : Platform⦄ where
  zone_at-none : (s : State) (i : ℕ) → get_elem? s.zonecfg i ≡ none → zone_at (pos i) s ≡ fault
  unfolding zone_at
  zone_at-none s i e = rw (e, zone_at) refl

  -- The loop finds no zone, or one of the zones from the first one on.
  pub data Finds (n zone : ℕ) (s : State) : Run (Option ℕ) → Type 0 where
    none_left : Finds n zone s (done none s)
    found : (k : ℕ) → zone ≤ k → k ≤ n → Finds n zone s (done (some k) s)
    behind : Finds n zone s fault

  Finds-from :
      (n zone : ℕ) (s : State) (r : Run (Option ℕ)) → Finds n (suc zone) s r → Finds n zone s r
  Finds-from n zone s r none_left = none_left
  Finds-from n zone s r (found k lo hi) = found k (omega arith) hi
  Finds-from n zone s r behind = behind

  next_zone-Finds :
      (n fuel zone : ℕ) (s : State)
      → IsSized n s
      → 1 ≤ fuel
      → suc n ≤ fuel + zone
      → Finds n zone s (next_zone fuel zone s)
  unfolding next_zone
  next_zone-Finds n zero zone s h some_fuel enough = absurd (omega arith)
  next_zone-Finds n (suc fuel) zone s h some_fuel enough =
      elim (Option-cases (get_elem? s.zonecfg zone)) [
        | inl e ↦ rw (zone_at-none s zone e) behind
        | inr (z, e) ↦
            let hi : zone ≤ n = omega (arith, get_elem?-lt s.zonecfg zone z e, h.size) in
            elim (Bool-cases (skips z)) [
              | inr stays ↦ rw (zone_at-some s zone z e, stays) (found zone (omega arith) hi)
              | inl skipped ↦ elim (Bool-cases (ltb s.zones (suc zone))) [
                | inl past ↦ rw (zone_at-some s zone z e, skipped) (rw (past, and_then) none_left)
                | inr more ↦
                    let left = le_of_ltb s.zones (suc zone) more in
                    rw (zone_at-some s zone z e, skipped)
                      (rw (more, and_then)
                        (Finds-from n zone s _ (
                          next_zone-Finds n fuel (suc zone) s h (omega (arith, left, h.count))
                            (omega arith))))
              ]
            ]
      ]

  end_cycle-IsHalting : (n : ℕ) → IsHalting n end_cycle
  unfolding end_cycle
  end_cycle-IsHalting n =
      IsHalting-then n
        (modify (λ s. record s {
          current_zone = record (s.current_zone) {
            type = zc_none;
            zone = negsuc 0;
            timeleft = pos 0;
          };
        }))
        _ (IsHalting-modify n _ (λ s. refl) (λ s. refl))
        (IsHalting-then n _ _ (zc_master-IsHalting n zc_off) (IsHalting-pure n (negsuc 0)))

  begin_zone-IsHalting : (n zone : ℕ) → IsHalting n (begin_zone zone)
  unfolding begin_zone calc_timeleft
  begin_zone-IsHalting n zone =
      IsHalting-then n
        (modify (λ s. record s { current_zone = record (s.current_zone) { zone = pos zone } })) _
        (IsHalting-modify n _ (λ s. refl) (λ s. refl))
        (IsHalting-then n _ _ (zc_master-IsHalting n zc_on) (
          IsHalting-bind n _ _ (zone_at-IsHalting n (pos zone)) λ z.
            IsHalting-then n
              (modify (λ s. calc_timeleft (record s {
                current_zone = record (s.current_zone) {
                  started_time = s.clock;
                  duration = z.default_runtime;
                };
              })))
              _ (IsHalting-modify n _ (λ s. refl) (λ s. refl)) (IsHalting-pure n (pos zone))))

  start_found-Halts :
      (n fuel startz : ℕ) (s : State) (r : Run (Option ℕ))
      → IsSized n s
      → ((k : ℕ) → suc startz ≤ k → k ≤ n → IsHalting n (start_next_zone fuel k))
      → Finds n (suc startz) s r
      → Halts n (and_then r (start_found (start_next_zone fuel)))
  unfolding start_found
  start_found-Halts n fuel startz s r h again none_left = (end_cycle-IsHalting n).halts s h
  start_found-Halts n fuel startz s r h again behind = faulted
  start_found-Halts n fuel startz s r h again (found k lo hi) =
      (IsHalting-bind n (zc_start (pos k)) _ (zc_start-IsHalting n (pos k)) started).halts s h
    where
      started :
          (b : Bool) → IsHalting n (elim b [ true ↦ begin_zone k | false ↦ start_next_zone fuel k ])
      started true = begin_zone-IsHalting n k
      started false = again k lo hi

  -- A call of start_next_zone with a zone takes a call for each zone behind it at most.
  pub start_next_zone-IsHalting :
      (n fuel startz : ℕ)
      → 1 ≤ fuel
      → suc n ≤ fuel + startz
      → IsHalting n (start_next_zone fuel startz)
  unfolding start_next_zone
  start_next_zone-IsHalting n zero startz some_fuel enough = absurd (omega arith)
  start_next_zone-IsHalting n (suc fuel) startz some_fuel enough = record {
    halts = λ s h.
        let t = set_event_zones s in
        let sized : IsSized n t = record { count = h.count; size = h.size } in
        start_found-Halts n fuel startz t _ sized
          (λ k lo hi. start_next_zone-IsHalting n fuel k (omega arith) (omega arith))
          (next_zone-Finds n (suc s.zones) (suc startz) t sized (omega arith)
            (omega (arith, h.count)));
  }
