-- ===== src/Zones/Ending.antt =====
-- Every check of and request to the zone control ends, whatever the pins answer.
use sprinkler_d.Prelude.{
  ℕ, zero, suc, ℤ, pos, negsuc, ◌-ℤ◌, ◌*ℤ◌, ◌≡◌, ◌≢◌, refl, Bool, true, false, ltb_ℤ, leb_ℤ, eqb_ℤ,
  not, ◌&&◌, ◌||◌, length, if◌then◌else◌, arith,
}
use sprinkler_d.Platform.{Platform}
use sprinkler_d.State.{
  RunType, ZoneState, zc_none, zc_single, zc_all, zc_on, zc_off, sec2min, State, out_of_fuel, Cmd,
  pure, gets, modify, ◌>>=◌, ◌>>◌, zone_at,
}
use sprinkler_d.Zones.Pins.{
  zc_start, zc_stop, zc_master, pin_is_on, is_on, is_all, is_cron, is_none, calc_timeleft,
}
use sprinkler_d.Zones.Cycle.{start_next_zone, array_index, finish_zone, finish_run, zc_check}
use sprinkler_d.Zones.Requests.{
  same_state, in_range, is_duplicate, zone_off, all_off, others_off, set_type, begin_cycle,
  cycle_all, start_time, turn_on, turn_off, run_length, zc_zone, zc_rain_delay_enabled,
}
use sprinkler_d.Zones.Halting.{
  IsSized, faulted, IsHalting, IsHalting-pure, IsHalting-if, IsHalting-bind, IsHalting-then,
  IsHalting-gets, IsHalting-modify, zone_at-IsHalting, zc_start-IsHalting, zc_stop-IsHalting,
  zc_master-IsHalting, Halts-fuel,
}
use sprinkler_d.Zones.Termination.{start_next_zone-IsHalting}

module _ ⦃P : Platform⦄ where
  array_index-IsHalting : (n : ℕ) (zone : ℤ) → IsHalting n (array_index zone)
  array_index-IsHalting n (pos k) = IsHalting-pure n k
  array_index-IsHalting n (negsuc k) = record { halts = λ s h. faulted }

  start_from-IsHalting : (n startz : ℕ) → IsHalting n (start_next_zone (suc n) startz)
  start_from-IsHalting n startz =
      start_next_zone-IsHalting n (suc n) startz (omega arith) (omega arith)

  finish_zone-IsHalting : (n : ℕ) → IsHalting n finish_zone
  unfolding finish_zone
  finish_zone-IsHalting n = record {
    halts = λ s h.
        (IsHalting-then n (zc_stop s.current_zone.zone) _ (zc_stop-IsHalting n s.current_zone.zone)
            (IsHalting-bind n (array_index s.current_zone.zone) _
              (array_index-IsHalting n s.current_zone.zone)
              λ startz.
                IsHalting-gets n (λ s. suc s.zones) (λ fuel. start_next_zone fuel startz >> pure tt)
                  λ t e. rw e (
                    IsHalting-then n (start_next_zone (suc n) startz) (pure tt)
                      (start_from-IsHalting n startz) (IsHalting-pure n tt)))).halts
          s h;
  }

  finish_run-IsHalting : (n : ℕ) → IsHalting n finish_run
  unfolding finish_run
  finish_run-IsHalting n =
      IsHalting-then n (zc_master zc_off) _ (zc_master-IsHalting n zc_off) (record {
        halts = λ s h.
            (IsHalting-then n (zc_stop s.current_zone.zone)
                (modify (λ s. record s {
                  current_zone = record (s.current_zone) {
                    type = zc_none;
                    zone = negsuc 0;
                    timeleft = pos 0;
                  };
                }))
                (zc_stop-IsHalting n s.current_zone.zone)
                (IsHalting-modify n _ (λ s. refl) (λ s. refl))).halts
              s h;
      })

  zc_check-IsHalting : (n : ℕ) → IsHalting n zc_check
  unfolding zc_check calc_timeleft
  zc_check-IsHalting n = record { halts = λ s h. (checked s).halts s h }
    where
      ended :
          (s : State)
          → IsHalting n (
              if leb_ℤ s.current_zone.timeleft (pos 0)
              then (if is_all s.current_zone.type && ltb_ℤ s.current_zone.zone (pos s.zones)
                  then finish_zone
                  else finish_run)
                >> pure true
              else pure false)
      ended s =
          IsHalting-if n (leb_ℤ s.current_zone.timeleft (pos 0)) _ _
            (IsHalting-then n _ (pure true)
              (IsHalting-if n
                (is_all s.current_zone.type && ltb_ℤ s.current_zone.zone (pos s.zones)) _ _
                (finish_zone-IsHalting n) (finish_run-IsHalting n))
              (IsHalting-pure n true))
            (IsHalting-pure n false)

      checked :
          (s : State)
          → IsHalting n (
              if is_none s.current_zone.type then pure false else do
                modify calc_timeleft
                c ← gets (λ s. s.current_zone)
                k ← gets (λ s. s.zones)
                if leb_ℤ c.timeleft (pos 0)
                    then (if is_all c.type && ltb_ℤ c.zone (pos k) then finish_zone else finish_run)
                      >> pure true
                    else pure false)
      checked s = IsHalting-if n (is_none s.current_zone.type) _ _ (IsHalting-pure n false) (
          IsHalting-then n (modify calc_timeleft) _
            (IsHalting-modify n calc_timeleft (λ s. refl) (λ s. refl))
            (record { halts = λ t k. (ended t).halts t k }))

  is_duplicate-IsHalting :
      (n : ℕ) (type : RunType) (zone : ℤ) (state : ZoneState)
      → IsHalting n (is_duplicate type zone state)
  unfolding is_duplicate
  is_duplicate-IsHalting n type zone state = record {
    halts = λ s h.
        (IsHalting-if n (in_range zone s) _ _
            (IsHalting-bind n (zone_at zone) _ (zone_at-IsHalting n zone) λ z.
              IsHalting-gets n (λ t. pin_is_on z t.board)
                (λ on. pure (same_state (if on then zc_on else zc_off) state))
                λ t e. IsHalting-pure n _)
            (IsHalting-pure n _)).halts
          s h;
  }

  zone_off-IsHalting : (n i : ℕ) → IsHalting n (zone_off i)
  unfolding zone_off
  zone_off-IsHalting n i = IsHalting-then n (zc_master zc_off) _ (zc_master-IsHalting n zc_off) (
      IsHalting-bind n (zone_at (pos i)) _ (zone_at-IsHalting n (pos i)) λ z.
        IsHalting-gets n (λ s. pin_is_on z s.board)
          (λ on. if on then zc_stop (pos i) >> pure tt else pure tt)
          λ s e.
            IsHalting-if n (pin_is_on z s.board) _ _
              (IsHalting-then n (zc_stop (pos i)) (pure tt) (zc_stop-IsHalting n (pos i))
                (IsHalting-pure n tt))
              (IsHalting-pure n tt))

  all_off-IsHalting : (n rounds i : ℕ) → IsHalting n (all_off rounds i)
  unfolding all_off
  all_off-IsHalting n zero i = IsHalting-pure n tt
  all_off-IsHalting n (suc rounds) i =
      IsHalting-then n (zone_off i) (all_off rounds (suc i)) (zone_off-IsHalting n i)
        (all_off-IsHalting n rounds (suc i))

  others_off-IsHalting : (n : ℕ) (zone : ℤ) (rounds i : ℕ) → IsHalting n (others_off zone rounds i)
  unfolding others_off
  others_off-IsHalting n zone zero i = IsHalting-pure n false
  others_off-IsHalting n zone (suc rounds) i =
      let rest = others_off-IsHalting n zone rounds (suc i) in
      IsHalting-bind n (zone_at (pos i)) _ (zone_at-IsHalting n (pos i)) λ z.
        IsHalting-gets n (λ s. pin_is_on z s.board)
          (λ on.
            if on
            then (if eqb_ℤ zone (pos i)
                then pure true
                else zc_stop (pos i) >> others_off zone rounds (suc i))
            else others_off zone rounds (suc i))
          λ s e.
            IsHalting-if n (pin_is_on z s.board) _ _
              (IsHalting-if n (eqb_ℤ zone (pos i)) _ _ (IsHalting-pure n true) (
                IsHalting-then n (zc_stop (pos i)) (others_off zone rounds (suc i))
                  (zc_stop-IsHalting n (pos i)) rest))
              rest

  set_type-IsHalting : (n : ℕ) (type : RunType) → IsHalting n (modify (set_type type))
  set_type-IsHalting n type = IsHalting-modify n (set_type type) (λ s. refl) (λ s. refl)

  begin_cycle-IsHalting : (n : ℕ) → IsHalting n begin_cycle
  unfolding begin_cycle
  begin_cycle-IsHalting n =
      IsHalting-gets n (λ s. s.zones)
        (λ k. start_next_zone (suc k) 0 >>= λ zone.
          if eqb_ℤ zone (negsuc 0) then pure tt else modify (set_type zc_all))
        λ s e. rw e (
          IsHalting-bind n (start_next_zone (suc n) 0) _ (start_from-IsHalting n 0) λ zone.
            IsHalting-if n (eqb_ℤ zone (negsuc 0)) _ _ (IsHalting-pure n tt)
              (set_type-IsHalting n zc_all))

  cycle_all-IsHalting : (n : ℕ) (state : ZoneState) → IsHalting n (cycle_all state)
  unfolding cycle_all
  cycle_all-IsHalting n state =
      IsHalting-gets n (λ s. s.zones)
        (λ k.
          all_off k 1
          >> (modify (set_type zc_none)
              >> ((if is_on state then begin_cycle else pure tt) >> pure true)))
        λ s e. IsHalting-then n (all_off s.zones 1) _ (all_off-IsHalting n s.zones 1) (
          IsHalting-then n (modify (set_type zc_none)) _ (set_type-IsHalting n zc_none) (
            IsHalting-then n _ (pure true)
              (IsHalting-if n (is_on state) _ _ (begin_cycle-IsHalting n) (IsHalting-pure n tt))
              (IsHalting-pure n true)))

  turn_on-IsHalting :
      (n : ℕ) (type : RunType) (zone length : ℤ) → IsHalting n (turn_on type zone length)
  unfolding turn_on start_time calc_timeleft
  turn_on-IsHalting n type zone length =
      IsHalting-if n (not (ltb_ℤ (pos 0) length)) _ _ (IsHalting-pure n false) (
        IsHalting-gets n (λ s. s.zones)
          (λ k. others_off zone k 1 >>= λ already. if already then pure false else others)
          λ s e.
            IsHalting-bind n (others_off zone s.zones 1) _ (others_off-IsHalting n zone s.zones 1)
              λ already. IsHalting-if n already _ others (IsHalting-pure n false) (
                IsHalting-bind n (zc_start zone) _ (zc_start-IsHalting n zone) λ started.
                  IsHalting-if n started _ _
                    (IsHalting-then n (zc_master zc_on) _ (zc_master-IsHalting n zc_on) (
                      IsHalting-then n (modify (start_time type zone length)) (pure true)
                        (IsHalting-modify n (start_time type zone length) (λ s. refl) (λ s. refl))
                        (IsHalting-pure n true)))
                    (IsHalting-pure n false)))
    where
      others : Cmd Bool
      others = zc_start zone >>= λ started.
          if started
          then zc_master zc_on >> (modify (start_time type zone length) >> pure true)
          else pure false

  turn_off-IsHalting : (n : ℕ) (zone : ℤ) → IsHalting n (turn_off zone)
  unfolding turn_off
  turn_off-IsHalting n zone = record {
    halts = λ s h.
        (IsHalting-if n (is_all s.current_zone.type) _ _
            (IsHalting-then n (modify set_back) _
              (IsHalting-modify n set_back (λ s. refl) (λ s. refl))
              (IsHalting-then n zc_check (pure true) (zc_check-IsHalting n)
                (IsHalting-pure n true)))
            (IsHalting-then n (zc_master zc_off) _ (zc_master-IsHalting n zc_off) (
              IsHalting-then n (zc_stop zone) _ (zc_stop-IsHalting n zone) (
                IsHalting-then n (modify stopped) (pure true)
                  (IsHalting-modify n stopped (λ s. refl) (λ s. refl))
                  (IsHalting-pure n true))))).halts
          s h;
  }
    where
      set_back : State → State
      set_back s =
          let c = s.current_zone in
          record s {
            current_zone = record c {
              started_time = c.started_time -ℤ c.duration *ℤ sec2min -ℤ pos 1;
            };
          }

      stopped : State → State
      stopped s = record s {
        current_zone = record (s.current_zone) { type = zc_none; zone = negsuc 0 };
      }

  run_length-IsHalting : (n : ℕ) (zone length : ℤ) → IsHalting n (run_length zone length)
  unfolding run_length
  run_length-IsHalting n zone length =
      IsHalting-if n (eqb_ℤ length (pos 0)) _ (pure length)
        (IsHalting-bind n (zone_at zone) _ (zone_at-IsHalting n zone)
          λ z. IsHalting-pure n z.default_runtime)
        (IsHalting-pure n length)

  switch-IsHalting :
      (n : ℕ) (type : RunType) (zone : ℤ) (state : ZoneState) (length : ℤ)
      → IsHalting n (
          run_length zone length >>= λ minutes.
          if is_on state then turn_on type zone minutes else turn_off zone)
  switch-IsHalting n type zone state length =
      IsHalting-bind n (run_length zone length) _ (run_length-IsHalting n zone length) λ minutes.
        IsHalting-if n (is_on state) _ _ (turn_on-IsHalting n type zone minutes)
          (turn_off-IsHalting n zone)

  zc_zone-IsHalting :
      (n : ℕ) (type : RunType) (zone : ℤ) (state : ZoneState) (length : ℤ)
      → IsHalting n (zc_zone type zone state length)
  unfolding zc_zone
  zc_zone-IsHalting n type zone state length =
      IsHalting-bind n (is_duplicate type zone state) _ (is_duplicate-IsHalting n type zone state)
        λ duplicate. IsHalting-if n duplicate _ _ (IsHalting-pure n false) record {
          halts = λ s h.
              (IsHalting-if n (is_cron type && is_on state && (not s.calendar || s.delay24h)) _ _
                  (IsHalting-pure n false)
                  (IsHalting-if n (is_all type) _ _ (cycle_all-IsHalting n state)
                    (switch-IsHalting n type zone state length))).halts
                s h;
        }

  zc_rain_delay_enabled-IsHalting : (n : ℕ) → IsHalting n zc_rain_delay_enabled
  unfolding zc_rain_delay_enabled
  zc_rain_delay_enabled-IsHalting n = record {
    halts = λ s h.
        let zone = s.current_zone.zone in
        (IsHalting-if n (is_cron s.current_zone.type && ltb_ℤ (pos 0) zone) _ _
            (IsHalting-then n (zc_zone zc_single zone zc_off (pos 0)) (pure tt)
              (zc_zone-IsHalting n zc_single zone zc_off (pos 0)) (IsHalting-pure n tt))
            (IsHalting-pure n tt)).halts
          s h;
  }

  -- Where the array has an entry for each zone and for the master valve, every request to zc_zone,
  -- zc_check and the rain delay's request end, at a result or at an access outside the array,
  -- whatever the pins answer and the requests ask: the loop of start_next_zone and its calls for
  -- itself never go on without end.
  pub zc_zone_ends :
      (s : State)
      → length s.zonecfg ≡ suc s.zones
      → ((type : RunType) (zone : ℤ) (state : ZoneState) (length : ℤ)
          → zc_zone type zone state length s ≢ out_of_fuel)
        × (zc_check s ≢ out_of_fuel)
        × (zc_rain_delay_enabled s ≢ out_of_fuel)
  zc_zone_ends s size =
      let n = s.zones in
      let h : IsSized n s = record { count = refl; size = size } in
      (
        λ type zone state length.
            Halts-fuel n _ ((zc_zone-IsHalting n type zone state length).halts s h),
        Halts-fuel n _ ((zc_check-IsHalting n).halts s h),
        Halts-fuel n _ ((zc_rain_delay_enabled-IsHalting n).halts s h),
      )
