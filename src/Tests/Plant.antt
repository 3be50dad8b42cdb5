-- ===== src/Tests/Plant.antt =====
-- A garden to try the code on: every pin is an output that keeps what is written to it, `float` is ℤ,
-- and there are a master valve on pin 4 and three zones on pins 17, 27 and 22, on when low.
use sprinkler_d.Prelude.{
  ℕ, ℤ, pos, negsuc, ltb_ℤ, leb_ℤ, eqb_ℤ, eqb_ℤ_iff, eqb_ℤ_refl, ◌≡◌, ◌≢◌, refl, true, false, List,
  [], ◌∷◌, if◌then◌else◌, inl, inr, Bool-cases,
}
use sprinkler_d.Text.{atoi, bytes}
use sprinkler_d.Format.{decimal}
use sprinkler_d.Platform.{Platform, Driver, valid_gpio}
use sprinkler_d.State.{State, GpioCfg, CalendarDay, DzCache, zc_none, no_event}

abbrev pub write_level : (ℤ → ℤ) → ℤ → ℤ → ℤ → ℤ
write_level b p l q = if eqb_ℤ p q then l else b q

instance abbrev pub plant : Platform
plant = record {
  Board = ℤ → ℤ;
  digital_read = λ b p. b p;
  digital_write = λ b p l. (write_level b p l, pos 0);
  pin_mode = λ b p m. b;
  Real = ℤ;
  real_of_int = λ n. n;
  int_of_real = λ n. n;
  real_tenth = λ x. x;
  real_of_text = atoi;
  real_text = λ n x. decimal x;
  time_text = λ form t. decimal t;
  real_eqb = eqb_ℤ;
  real_ltb = ltb_ℤ;
  real_leb = leb_ℤ;
}

pub write_level_self : (b : ℤ → ℤ) (p l : ℤ) → write_level b p l p ≡ l
write_level_self b p l = rw (eqb_ℤ_refl p)

pub write_level_ne : (b : ℤ → ℤ) (p q l : ℤ) → p ≢ q → write_level b p l q ≡ b q
write_level_ne b p q l ne = elim (Bool-cases (eqb_ℤ p q)) [
  | inl e ↦ absurd (ne ((eqb_ℤ_iff p q).0 e))
  | inr e ↦ rw e
]

instance abbrev pub plant_driver : Driver
plant_driver = record {
  Output = λ b p. valid_gpio p ≡ true;
  write_ok = λ b p l o v. refl;
  read-write_self = λ b p l o v. write_level_self b p l;
  read-write_ne = write_level_ne;
  Output-write = λ b p q l o. o;
  Output-mode_self = λ b p v. v;
  Output-mode = λ b p q m ne o. o;
  read-mode_ne = λ b p q m ne. refl;
}

abbrev pub zone_on_pin : ℕ → ℕ → ℕ → GpioCfg
zone_on_pin i p minutes = record {
  pin = pos p;
  input_output = pos 1;
  set_pull_updown = negsuc 0;
  name = bytes "bed";
  startup_state = pos 1;
  shutdown_state = pos 1;
  on_state = pos 0;
  dz_idx = pos (i);
  zone = pos i;
  default_runtime = pos minutes;
}

abbrev pub garden : List GpioCfg
garden = zone_on_pin 0 4 10 ∷ zone_on_pin 1 17 10 ∷ zone_on_pin 2 27 0 ∷ zone_on_pin 3 22 5 ∷ []

abbrev pub empty_day : CalendarDay
empty_day = record { hour = negsuc 0; minute = negsuc 0; zruntimes = pos 0 ∷ pos 0 ∷ pos 0 ∷ [] }

abbrev pub free_entry : DzCache
free_entry = record { idx = pos 0; status = pos 0 }

-- Started, and nothing running: every pin is high.
abbrev pub idle : State
idle = record {
  name = bytes "garden";
  dzidx_status = pos 0;
  dzidx_calendar = pos 0;
  dzidx_24hdelay = pos 0;
  dzidx_allzones = pos 0;
  dzidx_rainsensor = pos 0;
  zones = 3;
  calendar = true;
  delay24h = false;
  delay24h_time = pos 0;
  master_valve = true;
  precip_chance_delay = pos 50;
  precip_inch_delay1day = pos 1;
  precip_inch_delay2day = pos 2;
  dz_cache = free_entry ∷ free_entry ∷ free_entry ∷ free_entry ∷ free_entry ∷ free_entry ∷ [];
  zonecfg = garden;
  cron = empty_day ∷ empty_day ∷ empty_day ∷ empty_day ∷ empty_day ∷ empty_day ∷ empty_day ∷ [];
  cron_update = pos 0;
  current_zone = record {
    type = zc_none;
    started_time = pos 0;
    duration = pos 0;
    timeleft = pos 0;
    zone = negsuc 0;
  };
  run_before_cmd = [];
  update_event_mask = no_event;
  today_rain_chance = pos 0;
  today_rain_total = pos 0;
  board = λ p. pos 1;
  clock = pos 1000;
  cache_file = [];
  cache_opens = true;
  cron_file = [];
  cron_opens = true;
}
