-- ===== src/Rain/Faults.antt =====
-- A reset of the rain delay with a negative time, which the web interface passes on.
use sprinkler_d.Prelude.{
  ℕ, ℤ, pos, negsuc, ltb_ℤ, ◌≤ℤ◌, ◌≡◌, refl, Bool, true, false, ◌&&◌, if◌then◌else◌, arith,
}
use sprinkler_d.Platform.{Platform, Driver}
use sprinkler_d.State.{State, done, Returns, Returns-saved}
use sprinkler_d.Zones.Safety.{Safe}
use sprinkler_d.Rain.Defs.{later_than, reset_delay24h_time, check_delay24h}
use sprinkler_d.Rain.Delay.{reset_delay24h_time-Saves, check_delay24h_waits}

large :
    (clock : ℤ) (n : ℕ) (x : ℤ)
    → pos 0 ≤ℤ clock
    → (if later_than clock (negsuc n) then negsuc n else x) ≡ negsuc n
large (pos c) n x h = refl
large (negsuc c) n x h = absurd (ground arith)

never : (n : ℕ) (b : Bool) → (ltb_ℤ (pos 0) (negsuc n) && b) ≡ false
never n b = ground arith

module _ ⦃P : Platform⦄ ⦃D : Driver⦄ where
  -- Where the pins agree with the current zone and the clock is not before 1970, a reset of the
  -- rain delay to a negative time turns the delay on, and no later check of the delay turns it
  -- off, whatever the clock says.
  pub reset_delay24h_time_negative :
      (s : State) (n : ℕ) (later : ℤ)
      → Safe s s.current_zone s.board
      → pos 0 ≤ℤ s.clock
      → Returns
          (λ _ u.
            (u.delay24h ≡ true)
            × (check_delay24h (record u { clock = later })
                ≡ done false (record u { clock = later })))
          (reset_delay24h_time (negsuc n) s)
  reset_delay24h_time_negative s n later h now =
      Returns-saved (reset_delay24h_time-Saves s (negsuc n) h)
        λ a c b e f q. (refl, check_delay24h_waits _ (rw (large s.clock n _ now) (never n _)))
