-- ===== src/Zones/Safety.antt =====
-- The invariant of the zone control, and `zc_check`.
use sprinkler_d.Prelude.{
  ℕ, suc, ℤ, pos, negsuc, ltb_ℤ, ◌≤◌, ◌<◌, ◌≡◌, refl, sym, ◌⊎◌, inl, inr, Bool, true, false, ◌&&◌,
  Option, none, some, arith, subst,
}
use sprinkler_d.Platform.{Platform, Driver}
use sprinkler_d.State.{
  EventMask, RunType, zc_none, zc_single, zc_all, zc_cron, zc_off, Running, State, done, Effect,
  effect, ran, Acts-then, Effect-then,
}
use sprinkler_d.Zones.Pins.{is_none}
use sprinkler_d.Zones.Cycle.{array_index, finish_zone, finish_run}
use sprinkler_d.Zones.Switches.{Shows, zc_stop_at, zc_master-Shows}
use sprinkler_d.Zones.Advance.{idle_running, Advanced, start_next_zone-Advanced}
use sprinkler_d.Zones.Progress.{IsNext}

abbrev pub active_of : RunType → ℤ → Option ℕ
active_of zc_none zone = none
active_of zc_single (pos k) = some k
active_of zc_all (pos k) = some k
active_of zc_cron (pos k) = some k
active_of _ (negsuc k) = none

-- The zone that the daemon believes to be running.
abbrev pub active : Running → Option ℕ
active c = active_of c.type c.zone

abbrev pub is_some {ℓ} : {A : Type ℓ} → Option A → Bool
is_some none = false
is_some (some _) = true

-- The current zone is one of the zones, unless nothing runs.
abbrev pub InRange : ℕ → Running → Type 0
InRange n c = (is_none c.type ≡ true) ⊎ ((k : ℕ) × (c.zone ≡ pos k) × (1 ≤ k) × (k ≤ n))

pub active_running :
    (c : Running) (k : ℕ) → is_none c.type ≡ false → c.zone ≡ pos k → active c ≡ some k
active_running c k running at = rw at (go c.type running)
  where
    go : (t : RunType) → is_none t ≡ false → active_of t (pos k) ≡ some k
    go zc_none h = cc
    go zc_single h = refl
    go zc_all h = refl
    go zc_cron h = refl

pub active_idle : (c : Running) → is_none c.type ≡ true → active c ≡ none
active_idle c idle = go c.type c.zone idle
  where
    go : (t : RunType) (z : ℤ) → is_none t ≡ true → active_of t z ≡ none
    go zc_none z h = refl
    go zc_single z h = cc
    go zc_all z h = cc
    go zc_cron z h = cc

pub ltb_at : (zone : ℤ) (k n : ℕ) → zone ≡ pos k → k < n → ltb_ℤ zone (pos n) ≡ true
ltb_at zone k n at h = rw at (ground arith)

pub ltb_not_at : (zone : ℤ) (k n : ℕ) → zone ≡ pos k → k ≡ n → ltb_ℤ zone (pos n) ≡ false
ltb_not_at zone k n at h = rw at (ground arith)

pub and_false : (a b : Bool) → b ≡ false → (a && b) ≡ false
and_false true b h = h
and_false false b h = refl

module _ ⦃P : Platform⦄ ⦃D : Driver⦄ where
  -- The pins agree with the current zone: it alone is on, and the master valve with it; nothing is on
  -- where nothing runs.
  abbrev pub Safe : State → Running → P.Board → Type 0
  Safe s c b = (1 ≤ s.zones) × InRange s.zones c × Shows s b (active c) (is_some (active c))

  pub Safe-Shows :
      (s : State) (c : Running) (b : P.Board) (k : ℕ)
      → Safe s c b
      → is_none c.type ≡ false
      → c.zone ≡ pos k
      → Shows s b (some k) true
  Safe-Shows s c b k (_, _, p) running at =
      subst (λ o. Shows s b o (is_some o)) (active_running c k running at) p

  pub Safe-idle :
      (s : State) (c : Running) (b : P.Board)
      → 1 ≤ s.zones
      → is_none c.type ≡ true
      → Shows s b none false
      → Safe s c b
  Safe-idle s c b n idle p =
      (n, inl idle, subst (λ o. Shows s b o (is_some o)) (sym (active_idle c idle)) p)

  pub Safe-running :
      (s : State) (c : Running) (b : P.Board) (k : ℕ)
      → is_none c.type ≡ false
      → c.zone ≡ pos k
      → 1 ≤ k
      → k ≤ s.zones
      → Shows s b (some k) true
      → Safe s c b
  Safe-running s c b k running at lo hi p = (
    omega arith,
    inr (k, at, lo, hi),
    subst (λ o. Shows s b o (is_some o)) (sym (active_running c k running at)) p,
  )

  -- Turning the running zone off ends the run.
  pub finish_run-idle :
      (s : State) (k : ℕ)
      → s.current_zone.zone ≡ pos k
      → 1 ≤ k
      → k ≤ s.zones
      → Shows s s.board (some k) true
      → Effect s (λ r c b. (c ≡ idle_running s.current_zone) × Shows s b none false) (finish_run s)
  unfolding finish_run
  finish_run-idle s k at lo hi p = Acts-then _ (zc_master-Shows s zc_off (some k) true p) λ a b e q.
      Acts-then _ (zc_stop_at (ran s s.current_zone b e) s.current_zone.zone k false at q lo hi)
        λ a' b' e' (ok, q'). effect _ _ _ _ (refl, q')

  array_index_at : (s : State) (zone : ℤ) (k : ℕ) → zone ≡ pos k → array_index zone s ≡ done k s
  array_index_at s zone k at = rw at

  -- Neither the pins nor the time left of the state before matter to the outcome.
  pub Advanced-moved :
      (s : State) (x : ℤ) (b : P.Board) (e : EventMask) (o : Option ℕ) (n : ℤ) (c : Running)
      (b' : P.Board)
      → Advanced (ran s (record (s.current_zone) { timeleft = x }) b e) o n c b'
      → Advanced s o n c b'
  Advanced-moved s x b e none n c b' a = a
  Advanced-moved s x b e (some k) n c b' a = a

  pub finish_zone-Advanced :
      (s : State) (k : ℕ)
      → s.current_zone.zone ≡ pos k
      → 1 ≤ k
      → k < s.zones
      → Shows s s.board (some k) true
      → Effect s
          (λ r c b.
            (o : Option ℕ) × IsNext s.zonecfg s.zones (suc k) o × ((n : ℤ) × Advanced s o n c b))
          (finish_zone s)
  unfolding finish_zone
  finish_zone-Advanced s k at lo hi p =
      Acts-then _ (zc_stop_at s s.current_zone.zone k true at p lo (omega arith)) λ a b e (ok, q).
        let t = ran s s.current_zone b e in
        let (o, next, runs) = start_next_zone-Advanced t s.zones k true q hi in
        rw (array_index_at t s.current_zone.zone k at) (
          Effect-then _ runs λ n c b' e' adv.
            effect _ _ _ _
              (o, next, (n, Advanced-moved s s.current_zone.timeleft b e o n c b' adv)))

  -- The daemon believes zone `k` to be running, and so it is.
  pub record RunsZone (s : State) (k : ℕ) : Type 0 where
    pub running : is_none s.current_zone.type ≡ false
    pub at : s.current_zone.zone ≡ pos k
    pub lo : 1 ≤ k
    pub hi : k ≤ s.zones
    pub shows : Shows s s.board (some k) true

  pub Safe-RunsZone :
      (s : State)
      → Safe s s.current_zone s.board
      → is_none s.current_zone.type ≡ false
      → (k : ℕ) × RunsZone s k
  Safe-RunsZone s (n, inl idle, p) running = absurd (cc)
  Safe-RunsZone s (n, inr (k, at, lo, hi), p) running = (
    k,
    record {
      running = running;
      at = at;
      lo = lo;
      hi = hi;
      shows = Safe-Shows s s.current_zone s.board k (n, inr (k, at, lo, hi), p) running at;
    },
  )
