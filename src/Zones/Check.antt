-- ===== src/Zones/Check.antt =====
-- `zc_check`: a running zone waits for its time, gives way to the next of all zones, or ends the run.
use sprinkler_d.Prelude.{
  ℕ, suc, ℤ, pos, leb_ℤ, ltb_ℤ, ◌≤◌, ◌<◌, ◌≡◌, refl, ◌⊎◌, inl, inr, true, false, ◌&&◌, Option, none,
  some, ltb, ltb→lt, arith, Bool-cases,
}
use sprinkler_d.Platform.{Platform, Driver}
use sprinkler_d.State.{Running, State, done, Effect, effect, Effect-then, Effect-widen, Effect-mono}
use sprinkler_d.Zones.Pins.{is_none, is_all, calc_timeleft}
use sprinkler_d.Zones.Cycle.{zc_check}
use sprinkler_d.Zones.Switches.{Shows}
use sprinkler_d.Zones.Advance.{idle_running, Advanced}
use sprinkler_d.Zones.Safety.{
  Safe, RunsZone, Safe-RunsZone, Safe-idle, Safe-running, Advanced-moved, finish_zone-Advanced,
  finish_run-idle, ltb_at, ltb_not_at, and_false,
}
use sprinkler_d.Zones.Progress.{IsNext}

module _ ⦃P : Platform⦄ ⦃D : Driver⦄ where
  zc_check_idle : (s : State) → is_none s.current_zone.type ≡ true → zc_check s ≡ done false s
  unfolding zc_check
  zc_check_idle s idle = rw idle

  -- The state with its time left worked out, which changes nothing else.
  abbrev pub timed : State → Running
  timed s = (calc_timeleft s).current_zone

  module _ (s : State) (k : ℕ) (z : RunsZone s k) where
    -- When the time of a zone before the last is up in a run of all zones, zc_check returns true
    -- and the least later zone that has a run time and a valid pin is started alone with the
    -- master valve, or the run ends with everything off where there is none.
    pub zc_check-IsNext :
        leb_ℤ (timed s).timeleft (pos 0) ≡ true
        → is_all s.current_zone.type ≡ true
        → k < s.zones
        → Effect s
            (λ r c b.
              (r ≡ true)
              × ((o : Option ℕ) × IsNext s.zonecfg s.zones (suc k) o
                  × ((n : ℤ) × Advanced s o n c b)))
            (zc_check s)
    unfolding zc_check
    zc_check-IsNext due all more =
        rw (z.running, due, all, ltb_at s.current_zone.zone k s.zones z.at more)
          (Effect-widen (timed s) s.board s.update_event_mask (
            Effect-then _ (finish_zone-Advanced (calc_timeleft s) k z.at z.lo more z.shows)
              λ r c b e (o, next, (n, adv)). effect _ _ _ _ (
                refl,
                (
                  o,
                  next,
                  (n, Advanced-moved s (timed s).timeleft s.board s.update_event_mask o n c b adv),
                ),
              )))

    no_next :
        (is_all s.current_zone.type ≡ false) ⊎ (k ≡ s.zones)
        → (is_all s.current_zone.type && ltb_ℤ s.current_zone.zone (pos s.zones)) ≡ false
    no_next (inl one) = rw one
    no_next (inr last) = and_false _ _ (ltb_not_at s.current_zone.zone k s.zones z.at last)

    -- When the time of the running zone is up and it is the last or does not run in a run of all
    -- zones, zc_check returns true, no zone is current and every zone and the master valve are
    -- off.
    zc_check_last :
        leb_ℤ (timed s).timeleft (pos 0) ≡ true
        → (is_all s.current_zone.type ≡ false) ⊎ (k ≡ s.zones)
        → Effect s
            (λ r c b. (r ≡ true) × (c ≡ idle_running s.current_zone) × Shows s b none false)
            (zc_check s)
    unfolding zc_check
    zc_check_last due last =
        rw (z.running, due, no_next last)
          (Effect-widen (timed s) s.board s.update_event_mask (
            Effect-then _ (finish_run-idle (calc_timeleft s) k z.at z.lo z.hi z.shows)
              λ r c b e (idle, p). effect _ _ _ _ (refl, idle, p)))

    -- There is time left.
    pub zc_check_waits :
        leb_ℤ (timed s).timeleft (pos 0) ≡ false
        → zc_check s ≡ done false (record s { current_zone = timed s })
    unfolding zc_check
    zc_check_waits wait = rw (z.running, wait)

  pub Advanced-Safe :
      (s : State) (from : ℕ) (o : Option ℕ) (n : ℤ) (c : Running) (b : P.Board)
      → 1 ≤ s.zones
      → is_none s.current_zone.type ≡ false
      → IsNext s.zonecfg s.zones (suc from) o
      → Advanced s o n c b
      → Safe s c b
  Advanced-Safe s from none n c b h running next (r, e, p) = Safe-idle s c b h (rw e) p
  Advanced-Safe s from (some k) n c b h running (lo, hi, q, before) (z, at, r, e, p) =
      Safe-running s c b k (rw e running) (rw e) (omega arith) hi p

  zc_check_due-Safe :
      (s : State) (k : ℕ)
      → RunsZone s k
      → 1 ≤ s.zones
      → leb_ℤ (timed s).timeleft (pos 0) ≡ true
      → Effect s (λ r c b. Safe s c b) (zc_check s)
  zc_check_due-Safe s k z n due = elim (Bool-cases (is_all s.current_zone.type)) [
    | inl all ↦ elim (Bool-cases (ltb k s.zones)) [
      | inl more ↦
          Effect-mono (zc_check-IsNext s k z due all (ltb→lt k s.zones more))
            (λ r c b (_, (o, next, (m, adv))). Advanced-Safe s k o m c b n z.running next adv)
      | inr last ↦ ends (inr (let hi = z.hi in ground arith))
    ]
    | inr one ↦ ends (inl one)
  ]
    where
      ends :
          (is_all s.current_zone.type ≡ false) ⊎ (k ≡ s.zones)
          → Effect s (λ r c b. Safe s c b) (zc_check s)
      ends last =
          Effect-mono (zc_check_last s k z due last) (λ r c b (_, e, p). Safe-idle s c b n (rw e) p)

  -- Where the pins agree with the current zone, zc_check ends without an access outside an array,
  -- changes only the current zone, the pins and the event mask, and leaves them in agreement,
  -- whatever runs and however late it is.
  pub zc_check-Safe :
      (s : State) → Safe s s.current_zone s.board → Effect s (λ r c b. Safe s c b) (zc_check s)
  unfolding calc_timeleft
  zc_check-Safe s h = elim (Bool-cases (is_none s.current_zone.type)) [
    | inl idle ↦ rw (zc_check_idle s idle) (effect _ _ _ _ h)
    | inr running ↦
        let (k, z) = Safe-RunsZone s h running in
        elim (Bool-cases (leb_ℤ (timed s).timeleft (pos 0))) [
          | inl due ↦ zc_check_due-Safe s k z h.0 due
          | inr wait ↦
              rw (zc_check_waits s k z wait) (
                effect _ _ _ _
                  (Safe-running s (timed s) s.board k z.running z.at z.lo z.hi z.shows))
        ]
  ]
