-- ===== src/Tests/Garden.antt =====
-- The garden is wired soundly, at rest and with zone 1 running.
use sprinkler_d.Prelude.{
  ℕ, zero, suc, ℤ, pos, eqb_ℤ, ◌≤◌, ◌≡◌, refl, sym, ◌∙◌, ap, subst, inl, inr, true, false, Option,
  none, some, get_elem?, arith, if◌then◌else◌,
}
use sprinkler_d.State.{GpioCfg, State, zc_single, zc_all, zc_cron, RunType}
use sprinkler_d.Platform.{valid_gpio}
use sprinkler_d.Zones.Panel.{Wiring, lit, is_zone}
use sprinkler_d.Zones.Pins.{pin_is_on, lnot}
use sprinkler_d.Zones.Switches.{Shows}
use sprinkler_d.Zones.Safety.{Safe}
use sprinkler_d.Sound.{Tables}
use sprinkler_d.Tests.Plant.{plant, plant_driver, garden, idle, write_level}

abbrev pin_of : ℕ → ℤ
pin_of zero = pos 4
pin_of (suc zero) = pos 17
pin_of (suc (suc zero)) = pos 27
pin_of _ = pos 22

abbrev index_of : ℤ → ℕ
index_of p =
    if eqb_ℤ p (pos 4) then 0 else if eqb_ℤ p (pos 17) then 1 else if eqb_ℤ p (pos 27) then 2 else 3

index_of-pin_of : (i : ℕ) → i ≤ 3 → index_of (pin_of i) ≡ i
index_of-pin_of zero h = refl
index_of-pin_of (suc zero) h = refl
index_of-pin_of (suc (suc zero)) h = refl
index_of-pin_of (suc (suc (suc i))) h = omega arith

abbrev IsPlanned : ℕ → GpioCfg → Type 0
IsPlanned i z = (z.on_state ≡ pos 0) × (z.pin ≡ pin_of i)

abbrev from_some : GpioCfg → Option GpioCfg → GpioCfg
from_some d none = d
from_some d (some z) = z

found : (y z : GpioCfg) (i : ℕ) → IsPlanned i y → some y ≡ some z → IsPlanned i z
found y z i h e = subst (IsPlanned i) (ap (from_some y) e) h

planned : (i : ℕ) (z : GpioCfg) → i ≤ 3 → get_elem? garden i ≡ some z → IsPlanned i z
planned zero z h e = found _ z 0 (refl, refl) e
planned (suc zero) z h e = found _ z 1 (refl, refl) e
planned (suc (suc zero)) z h e = found _ z 2 (refl, refl) e
planned (suc (suc (suc zero))) z h e = found _ z 3 (refl, refl) e
planned (suc (suc (suc (suc i)))) z h e = absurd (omega arith)

pin_of-valid : (i : ℕ) → valid_gpio (pin_of i) ≡ true
unfolding valid_gpio
pin_of-valid zero = refl
pin_of-valid (suc zero) = refl
pin_of-valid (suc (suc zero)) = refl
pin_of-valid (suc (suc (suc i))) = refl

pub garden-Wiring : (b : ℤ → ℤ) → Wiring garden 3 true b
garden-Wiring b = record {
  size = refl;
  level = λ i z w e. inl (planned i z w.0 e).0;
  distinct = λ i j y z w w' e e' same.
      sym (index_of-pin_of i w.0)
      ∙ ap index_of (sym (planned i y w.0 e).1 ∙ same ∙ (planned j z w'.0 e').1)
      ∙ index_of-pin_of j w'.0;
  outputs =
      λ i z w e. subst (λ p. valid_gpio p ≡ true) (sym (planned i z w.0 e).1) (pin_of-valid i);
}

idle_lit : (i : ℕ) → 1 ≤ i → i ≤ 3 → lit garden idle.board i ≡ false
unfolding pin_is_on
idle_lit zero lo hi = absurd (omega arith)
idle_lit (suc zero) lo hi = refl
idle_lit (suc (suc zero)) lo hi = refl
idle_lit (suc (suc (suc zero))) lo hi = refl
idle_lit (suc (suc (suc (suc i)))) lo hi = absurd (omega arith)

idle_master : lit garden idle.board 0 ≡ false
unfolding pin_is_on
idle_master = refl

pub idle-Safe : Safe idle idle.current_zone idle.board
idle-Safe = (
  omega arith,
  inl refl,
  record { wiring = garden-Wiring idle.board; zones_lit = idle_lit; master_lit = λ _. idle_master },
)

-- Zone 1 runs, started 10 minutes ago by a command of the given type.
abbrev pub watering : RunType → State
watering t = record idle {
  current_zone = record {
    type = t;
    started_time = pos 400;
    duration = pos 10;
    timeleft = pos 0;
    zone = pos 1;
  };
  board = write_level (write_level idle.board (pos 17) (pos 0)) (pos 4) (pos 0);
}

abbrev pub watering_board : ℤ → ℤ
watering_board = (watering zc_single).board

watering_lit : (i : ℕ) → 1 ≤ i → i ≤ 3 → lit garden watering_board i ≡ is_zone (some 1) i
unfolding pin_is_on
watering_lit zero lo hi = absurd (omega arith)
watering_lit (suc zero) lo hi = refl
watering_lit (suc (suc zero)) lo hi = refl
watering_lit (suc (suc (suc zero))) lo hi = refl
watering_lit (suc (suc (suc (suc i)))) lo hi = absurd (omega arith)

watering_master : lit garden watering_board 0 ≡ true
unfolding pin_is_on
watering_master = refl

pub watering-Shows : (t : RunType) → Shows (watering t) watering_board (some 1) true
watering-Shows t = record {
  wiring = garden-Wiring watering_board;
  zones_lit = watering_lit;
  master_lit = λ _. watering_master;
}

pub cron_Safe : Safe (watering zc_cron) (watering zc_cron).current_zone watering_board
cron_Safe = (omega arith, inr (1, refl, omega arith, omega arith), watering-Shows zc_cron)

pub all_Safe : Safe (watering zc_all) (watering zc_all).current_zone watering_board
all_Safe = (omega arith, inr (1, refl, omega arith, omega arith), watering-Shows zc_all)

garden_numbered : (i : ℕ) (z : GpioCfg) → 1 ≤ i → get_elem? garden i ≡ some z → z.zone ≡ pos i
garden_numbered zero z lo e = ap (λ o. (from_some z o).zone) (sym e)
garden_numbered (suc zero) z lo e = ap (λ o. (from_some z o).zone) (sym e)
garden_numbered (suc (suc zero)) z lo e = ap (λ o. (from_some z o).zone) (sym e)
garden_numbered (suc (suc (suc zero))) z lo e = ap (λ o. (from_some z o).zone) (sym e)
garden_numbered (suc (suc (suc (suc i)))) z lo e = cc

pub garden-Tables : Tables 3 garden idle.cron idle.dz_cache
garden-Tables = record {
  week = refl;
  days = (refl, (refl, (refl, (refl, (refl, (refl, (refl, tt)))))));
  numbered = garden_numbered;
  cached = omega arith;
}

pub garden_ends_off :
    (i : ℕ) (z : GpioCfg) → i ≤ 3 → get_elem? garden i ≡ some z → z.shutdown_state ≡ lnot z.on_state
garden_ends_off zero z lo e =
    ap (λ o. (from_some z o).shutdown_state) (sym e) ∙ ap (λ o. lnot (from_some z o).on_state) e
garden_ends_off (suc zero) z lo e =
    ap (λ o. (from_some z o).shutdown_state) (sym e) ∙ ap (λ o. lnot (from_some z o).on_state) e
garden_ends_off (suc (suc zero)) z lo e =
    ap (λ o. (from_some z o).shutdown_state) (sym e) ∙ ap (λ o. lnot (from_some z o).on_state) e
garden_ends_off (suc (suc (suc zero))) z lo e =
    ap (λ o. (from_some z o).shutdown_state) (sym e) ∙ ap (λ o. lnot (from_some z o).on_state) e
garden_ends_off (suc (suc (suc (suc i)))) z lo e = absurd (omega arith)
