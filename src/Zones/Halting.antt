-- ===== src/Zones/Halting.antt =====
-- The zone control ends for every GPIO driver, also one whose pins do not answer: no call runs out of fuel.
use sprinkler_d.Prelude.{
  ℕ, suc, ◌≤◌, ℤ, pos, negsuc, ◌≡◌, ◌≢◌, ◌∙◌, inl, inr, Bool, true, false, some, Option-cases,
  length, get_elem?, get_elem?-lt, not, ◌&&◌, if◌then◌else◌, arith,
}
use sprinkler_d.Platform.{Platform}
use sprinkler_d.State.{
  GpioCfg, ZoneState, State, Run, done, fault, out_of_fuel, Cmd, pure, gets, modify, ◌>>=◌, ◌>>◌,
  and_then, zone_at,
}
use sprinkler_d.Zones.Pins.{
  zc_start, zc_stop, switch_master, zc_master, write_pin, pin_is_on, is_on, lnot,
}

module _ ⦃P : Platform⦄ where
  -- A state of `n` zones, with an entry for each and for the master valve.
  pub record IsSized (n : ℕ) (s : State) : Type 0 where
    pub count : s.zones ≡ n
    pub size : length s.zonecfg ≡ suc n

  -- The run ends, at a state of as many zones or at an access outside an array.
  pub data Halts {A : Type 0} (n : ℕ) : Run A → Type 0 where
    halted : {a : A} {s : State} → IsSized n s → Halts n (done a s)
    faulted : Halts n fault

  pub record IsHalting {A : Type 0} (n : ℕ) (m : Cmd A) : Type 0 where
    pub halts : (s : State) → IsSized n s → Halts n (m s)

  pub Halts-fuel : {A : Type 0} (n : ℕ) (r : Run A) → Halts n r → r ≢ out_of_fuel
  Halts-fuel n r (halted h) e = cc
  Halts-fuel n r faulted e = cc

  pub IsHalting-pure : {A : Type 0} (n : ℕ) (a : A) → IsHalting n (pure a)
  IsHalting-pure n a = record { halts = λ s h. halted h }

  pub IsHalting-if :
      {A : Type 0} (n : ℕ) (b : Bool) (x y : Cmd A)
      → IsHalting n x
      → IsHalting n y
      → IsHalting n (if b then x else y)
  IsHalting-if n true x y left right = left
  IsHalting-if n false x y left right = right

  pub IsHalting-bind :
      {A B : Type 0} (n : ℕ) (m : Cmd A) (k : A → Cmd B)
      → IsHalting n m
      → ((a : A) → IsHalting n (k a))
      → IsHalting n (m >>= k)
  IsHalting-bind {A = A} n m k first next = record { halts = λ s h. after (first.halts s h) }
    where
      after : {r : Run A} → Halts n r → Halts n (and_then r k)
      after (halted {a} {s} h) = (next a).halts s h
      after faulted = faulted

  pub IsHalting-then :
      {A B : Type 0} (n : ℕ) (m : Cmd A) (k : Cmd B)
      → IsHalting n m
      → IsHalting n k
      → IsHalting n (m >> k)
  IsHalting-then n m k first next = IsHalting-bind n m (λ _. k) first (λ _. next)

  -- What is read of the state may be any value, but for the number of zones.
  pub IsHalting-gets :
      {A B : Type 0} (n : ℕ) (f : State → A) (k : A → Cmd B)
      → ((s : State) → s.zones ≡ n → IsHalting n (k (f s)))
      → IsHalting n (gets f >>= k)
  IsHalting-gets n f k next = record { halts = λ s h. (next s h.count).halts s h }

  pub IsHalting-modify :
      (n : ℕ) (f : State → State)
      → ((s : State) → (f s).zones ≡ s.zones)
      → ((s : State) → length (f s).zonecfg ≡ length s.zonecfg)
      → IsHalting n (modify f)
  IsHalting-modify n f count size = record {
    halts = λ s h. halted record { count = count s ∙ h.count; size = size s ∙ h.size };
  }

  get_elem?-le :
      (n i : ℕ) (s : State) (z : GpioCfg) → IsSized n s → get_elem? s.zonecfg i ≡ some z → i ≤ n
  get_elem?-le n i s z h e = omega (arith, get_elem?-lt s.zonecfg i z e, h.size)

  -- A zone that is there is one of the zones.
  pub IsHalting-at :
      {B : Type 0} (n i : ℕ) (k : GpioCfg → Cmd B)
      → ((z : GpioCfg) → i ≤ n → IsHalting n (k z))
      → IsHalting n (zone_at (pos i) >>= k)
  unfolding zone_at
  IsHalting-at n i k next = record {
    halts = λ s h. elim (Option-cases (get_elem? s.zonecfg i)) [
      | inl e ↦ rw (e, and_then) faulted
      | inr (z, e) ↦ rw (e, and_then) ((next z (get_elem?-le n i s z h e)).halts s h)
    ];
  }

  pub zone_at-IsHalting : (n : ℕ) (zone : ℤ) → IsHalting n (zone_at zone)
  unfolding zone_at
  zone_at-IsHalting n (negsuc k) = record { halts = λ s h. faulted }
  zone_at-IsHalting n (pos i) = record {
    halts = λ s h. elim (Option-cases (get_elem? s.zonecfg i)) [
      | inl e ↦ rw (e, zone_at) faulted
      | inr (z, e) ↦ rw (e, zone_at) (halted h)
    ];
  }

  write_pin-IsHalting : (n : ℕ) (z : GpioCfg) (level : ℤ) → IsHalting n (write_pin z level)
  unfolding write_pin
  write_pin-IsHalting n z level = record {
    halts = λ s h. halted record { count = h.count; size = h.size };
  }

  pub zc_start-IsHalting : (n : ℕ) (zone : ℤ) → IsHalting n (zc_start zone)
  unfolding zc_start
  zc_start-IsHalting n zone = IsHalting-bind n _ _ (zone_at-IsHalting n zone) λ z.
      IsHalting-gets n (λ s. pin_is_on z s.board)
        (λ on. if on then pure false else write_pin z z.on_state)
        λ s e.
          IsHalting-if n (pin_is_on z s.board) _ _ (IsHalting-pure n false)
            (write_pin-IsHalting n z z.on_state)

  pub zc_stop-IsHalting : (n : ℕ) (zone : ℤ) → IsHalting n (zc_stop zone)
  unfolding zc_stop
  zc_stop-IsHalting n zone = IsHalting-bind n _ _ (zone_at-IsHalting n zone) λ z.
      IsHalting-gets n (λ s. pin_is_on z s.board)
        (λ on. if on then write_pin z (lnot z.on_state) else pure false)
        λ s e.
          IsHalting-if n (pin_is_on z s.board) _ _ (write_pin-IsHalting n z (lnot z.on_state))
            (IsHalting-pure n false)

  switch_master-IsHalting : (n : ℕ) (state : ZoneState) → IsHalting n (switch_master state)
  unfolding switch_master
  switch_master-IsHalting n state =
      let valve = pos 0 in
      IsHalting-bind n _ _ (zone_at-IsHalting n valve) λ z.
        IsHalting-gets n (λ s. pin_is_on z s.board)
          (λ on.
            if is_on state && not on
            then zc_start valve >> pure tt
            else if not (is_on state) && on
            then zc_stop valve >> pure tt
            else pure tt)
          λ s e.
            IsHalting-if n _ _ _
              (IsHalting-then n _ _ (zc_start-IsHalting n valve) (IsHalting-pure n tt))
              (IsHalting-if n _ _ _
                (IsHalting-then n _ _ (zc_stop-IsHalting n valve) (IsHalting-pure n tt))
                (IsHalting-pure n tt))

  pub zc_master-IsHalting : (n : ℕ) (state : ZoneState) → IsHalting n (zc_master state)
  unfolding zc_master
  zc_master-IsHalting n state =
      IsHalting-gets n (λ s. s.master_valve)
        (λ fitted. if fitted then switch_master state else pure tt)
        λ s e.
          IsHalting-if n s.master_valve _ _ (switch_master-IsHalting n state) (IsHalting-pure n tt)
