-- ===== src/Zoned.antt =====
-- Handlers that keep the daemon's state sound and the number of its zones, in parts that follow each other.
use sprinkler_d.Prelude.{ℕ, pos, ◌≤◌, ◌≡◌, refl, Bool, true, false, if◌then◌else◌, arith}
use sprinkler_d.Platform.{Platform, Driver}
use sprinkler_d.State.{
  State, GpioCfg, EventMask, Run, Cmd, pure, gets, modify, ◌>>=◌, ◌>>◌, and_then, Returns, returns,
  Returns-mono, Effect, effect, zone_at,
}
use sprinkler_d.Zones.Panel.{zone_at-some}
use sprinkler_d.Zones.Switches.{zone_exists}
use sprinkler_d.Zones.Safety.{Safe}
use sprinkler_d.Sound.{Sound, Keeps, IsKept}

module _ ⦃P : Platform⦄ ⦃D : Driver⦄ where
  -- The state is sound and has `n` zones.
  pub record Zoned (n : ℕ) (s : State) : Type 0 where
    pub sound : Sound s
    pub count : s.zones ≡ n

  abbrev pub KeepsZones : {A : Type 0} → ℕ → Run A → Type 0
  KeepsZones n r = Returns (λ _ u. Zoned n u) r

  pub record IsZoned {A : Type 0} (n : ℕ) (m : Cmd A) : Type 0 where
    pub keeps_zones : (s : State) → Zoned n s → KeepsZones n (m s)

  -- What each number of zones keeps is kept.
  pub IsKept-IsZoned : {A : Type 0} (m : Cmd A) → ((n : ℕ) → IsZoned n m) → IsKept m
  IsKept-IsZoned m k = record {
    keeps = λ s h.
        Returns-mono ((k s.zones).keeps_zones s (record { sound = h; count = refl }))
          (λ a u z. z.sound);
  }

  pub IsZoned-if :
      {A : Type 0} (n : ℕ) (b : Bool) (x y : Cmd A)
      → IsZoned n x
      → IsZoned n y
      → IsZoned n (if b then x else y)
  IsZoned-if n true x y left right = left
  IsZoned-if n false x y left right = right

  pub IsZoned-pure : {A : Type 0} (n : ℕ) (a : A) → IsZoned n (pure a)
  IsZoned-pure n a = record { keeps_zones = λ s h. returns h }

  pub IsZoned-bind :
      {A B : Type 0} (n : ℕ) (m : Cmd A) (k : A → Cmd B)
      → IsZoned n m
      → ((a : A) → IsZoned n (k a))
      → IsZoned n (m >>= k)
  IsZoned-bind {A = A} n m k first next = record {
    keeps_zones = λ s h. after (first.keeps_zones s h);
  }
    where
      after : {r : Run A} → KeepsZones n r → KeepsZones n (and_then r k)
      after (returns {a} {s} z) = (next a).keeps_zones s z

  pub IsZoned-then :
      {A B : Type 0} (n : ℕ) (m : Cmd A) (k : Cmd B)
      → IsZoned n m
      → IsZoned n k
      → IsZoned n (m >> k)
  IsZoned-then n m k first next = IsZoned-bind n m (λ _. k) first (λ _. next)

  -- A command that reads the state: what follows is kept whatever it is, where it has `n` zones.
  pub IsZoned-read :
      {B : Type 0} (n : ℕ) (k : State → Cmd B)
      → ((s : State) → s.zones ≡ n → IsZoned n (k s))
      → IsZoned n (gets (λ s. s) >>= k)
  IsZoned-read n k next = record { keeps_zones = λ s h. (next s h.count).keeps_zones s h }

  -- A zone that is there.
  pub IsZoned-zone_at :
      {B : Type 0} (n i : ℕ) (k : GpioCfg → Cmd B)
      → i ≤ n
      → ((z : GpioCfg) → (1 ≤ i → z.zone ≡ pos i) → IsZoned n (k z))
      → IsZoned n (zone_at (pos i) >>= k)
  IsZoned-zone_at n i k hi next = record {
    keeps_zones = λ s h.
        let (z, at) = zone_exists s i h.sound.safe.2.wiring (omega (arith, h.count)) in
        rw (zone_at-some s i z at)
          ((next z (λ lo. h.sound.tables.numbered i z lo at)).keeps_zones s h);
  }

  -- A command that changes the current zone, the pins and the event mask only.
  pub Zoned-Effect :
      {A : Type 0} (n : ℕ) {s : State} {r : Run A}
      → Zoned n s
      → Effect s (λ _ c b. Safe s c b) r
      → KeepsZones n r
  Zoned-Effect n h (effect a c b e q) =
      returns record { sound = record { safe = q; tables = h.sound.tables }; count = h.count }

  abbrev pub marked : (EventMask → EventMask) → State → State
  marked f s = record s { update_event_mask = f s.update_event_mask }

  pub IsZoned-marked : (n : ℕ) (f : EventMask → EventMask) → IsZoned n (modify (marked f))
  IsZoned-marked n f = record {
    keeps_zones = λ s h.
        returns record {
          sound = record { safe = h.sound.safe; tables = h.sound.tables };
          count = h.count;
        };
  }

  -- A command that keeps the state sound where it is run from `s`.
  pub record IsKeptAt {A : Type 0} (s : State) (m : Cmd A) : Type 0 where
    pub keeps_at : Sound s → Keeps (m s)

  pub IsKeptAt-if :
      {A : Type 0} (s : State) (b : Bool) (x y : Cmd A)
      → IsKeptAt s x
      → IsKeptAt s y
      → IsKeptAt s (if b then x else y)
  IsKeptAt-if s true x y left right = left
  IsKeptAt-if s false x y left right = right

  pub IsKeptAt-IsKept : {A : Type 0} (s : State) (m : Cmd A) → IsKept m → IsKeptAt s m
  IsKeptAt-IsKept s m k = record { keeps_at = λ h. k.keeps s h }

  pub IsKeptAt-IsZoned : {A : Type 0} (s : State) (m : Cmd A) → IsZoned s.zones m → IsKeptAt s m
  IsKeptAt-IsZoned s m k = record {
    keeps_at =
        λ h. Returns-mono (k.keeps_zones s (record { sound = h; count = refl })) (λ a u z. z.sound);
  }
