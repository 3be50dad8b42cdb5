-- ===== src/Startup/Planned.antt =====
-- What the configuration settles about the zones before their pins are set up, and that reading the cron file and the
-- cache file leaves it so.
use sprinkler_d.Prelude.{
  ℕ, zero, suc, ◌≤◌, ℤ, pos, ◌≡◌, ◌≢◌, refl, sym, ap, ◌∙◌, subst, inl, inr, Bool, true, some, List,
  [], ◌∷◌, length, get_elem?, arith,
}
use sprinkler_d.Platform.{Platform, IsLevel, valid_gpio}
use sprinkler_d.Text.{bytes}
use sprinkler_d.State.{GpioCfg, CalendarDay, State}
use sprinkler_d.Zones.Pins.{is_none, lnot}
use sprinkler_d.Zones.Panel.{Wired}
use sprinkler_d.Sound.{AllDays, Tables}
use sprinkler_d.Cache.RoundTrip.{with_runtimes, with_zone_runtimes, restored}
use sprinkler_d.Startup.Settings.{
  Ini, section, zone_pin, has_section, count_zones, read_zone, read_zones, read_tables,
}
use sprinkler_d.Startup.Inputs.{Input}
use sprinkler_d.Startup.Main.{reset}
use sprinkler_d.Startup.Bounds.{read_at, length-read_zones, read_Tables}

-- Two entries of the array differ at most in their default run times.
pub record Alike (y z : GpioCfg) : Type 0 where
  pub pin : y.pin ≡ z.pin
  pub input_output : y.input_output ≡ z.input_output
  pub on_state : y.on_state ≡ z.on_state
  pub startup_state : y.startup_state ≡ z.startup_state
  pub zone : y.zone ≡ z.zone

Alike-refl : (z : GpioCfg) → Alike z z
Alike-refl z = record {
  pin = refl;
  input_output = refl;
  on_state = refl;
  startup_state = refl;
  zone = refl;
}

with_runtimes-Alike :
    (zs : List GpioCfg) (rs : List ℤ) (i : ℕ) (y : GpioCfg)
    → get_elem? (with_runtimes zs rs) i ≡ some y
    → (z : GpioCfg) × (get_elem? zs i ≡ some z) × Alike y z
with_runtimes-Alike [] rs i y e = cc
with_runtimes-Alike (z ∷ zs) [] i y e = (y, e, Alike-refl y)
with_runtimes-Alike (z ∷ zs) (r ∷ rs) zero y e =
    let same : record z { default_runtime = r } ≡ y = cc in
    (
      z,
      refl,
      rw (← same) record {
        pin = refl;
        input_output = refl;
        on_state = refl;
        startup_state = refl;
        zone = refl;
      },
    )
with_runtimes-Alike (z ∷ zs) (r ∷ rs) (suc i) y e = with_runtimes-Alike zs rs i y e

with_zone_runtimes-Alike :
    (zs : List GpioCfg) (rs : List ℤ) (i : ℕ) (y : GpioCfg)
    → get_elem? (with_zone_runtimes zs rs) i ≡ some y
    → (z : GpioCfg) × (get_elem? zs i ≡ some z) × Alike y z
with_zone_runtimes-Alike [] rs i y e = cc
with_zone_runtimes-Alike (z ∷ zs) rs zero y e = (y, e, Alike-refl y)
with_zone_runtimes-Alike (z ∷ zs) rs (suc i) y e = with_runtimes-Alike zs rs i y e

length-with_runtimes : (zs : List GpioCfg) (rs : List ℤ) → length (with_runtimes zs rs) ≡ length zs
length-with_runtimes [] rs = refl
length-with_runtimes (z ∷ zs) [] = refl
length-with_runtimes (z ∷ zs) (r ∷ rs) = ap suc (length-with_runtimes zs rs)

length-with_zone_runtimes :
    (zs : List GpioCfg) (rs : List ℤ) → length (with_zone_runtimes zs rs) ≡ length zs
length-with_zone_runtimes [] rs = refl
length-with_zone_runtimes (z ∷ zs) rs = ap suc (length-with_runtimes zs rs)

-- The wired zones are on at a level and off at the start, each at an output of its own.
pub record Layout (cfg : List GpioCfg) (n : ℕ) (fitted : Bool) : Type 0 where
  pub size : length cfg ≡ suc n
  pub level :
      (i : ℕ) (z : GpioCfg) → Wired fitted n i → get_elem? cfg i ≡ some z → IsLevel z.on_state
  pub distinct :
      (i j : ℕ) (y z : GpioCfg)
      → Wired fitted n i
      → Wired fitted n j
      → get_elem? cfg i ≡ some y
      → get_elem? cfg j ≡ some z
      → y.pin ≡ z.pin
      → i ≡ j
  pub valid :
      (i : ℕ) (z : GpioCfg) → Wired fitted n i → get_elem? cfg i ≡ some z → valid_gpio z.pin ≡ true
  pub is_output :
      (i : ℕ) (z : GpioCfg) → Wired fitted n i → get_elem? cfg i ≡ some z → z.input_output ≡ pos 1
  pub starts_off :
      (i : ℕ) (z : GpioCfg)
      → Wired fitted n i
      → get_elem? cfg i ≡ some z
      → z.startup_state ≡ lnot z.on_state

Layout-runtimes :
    (cfg : List GpioCfg) (n : ℕ) (fitted : Bool) (rs : List ℤ)
    → Layout cfg n fitted
    → Layout (with_zone_runtimes cfg rs) n fitted
Layout-runtimes cfg n fitted rs h = record {
  size = length-with_zone_runtimes cfg rs ∙ h.size;
  level = λ i y w e.
      let (z, at, a) = with_zone_runtimes-Alike cfg rs i y e in
      subst IsLevel (sym a.on_state) (h.level i z w at);
  distinct = λ i j x y w v e f same.
      let (p, at, a) = with_zone_runtimes-Alike cfg rs i x e in
      let (q, to, b) = with_zone_runtimes-Alike cfg rs j y f in
      h.distinct i j p q w v at to (sym a.pin ∙ same ∙ b.pin);
  valid = λ i y w e.
      let (z, at, a) = with_zone_runtimes-Alike cfg rs i y e in
      subst (λ p. valid_gpio p ≡ true) (sym a.pin) (h.valid i z w at);
  is_output = λ i y w e.
      let (z, at, a) = with_zone_runtimes-Alike cfg rs i y e in
      a.input_output ∙ h.is_output i z w at;
  starts_off = λ i y w e.
      let (z, at, a) = with_zone_runtimes-Alike cfg rs i y e in
      a.startup_state ∙ h.starts_off i z w at ∙ ap lnot (sym a.on_state);
}

-- The configuration file gives each zone that is there a pin of its own that the GPIO library takes, and a level at which it is on.
pub record IsWired (ini : Ini) : Type 0 where
  pub some_zone : 1 ≤ count_zones ini
  pub levels :
      (i : ℕ)
      → Wired (has_section ini 0) (count_zones ini) i
      → IsLevel (ini.getl (section (bytes "ZONE") i) (bytes "GPIO_ON_STATE") (pos 0))
  pub valid :
      (i : ℕ) → Wired (has_section ini 0) (count_zones ini) i → valid_gpio (zone_pin ini i) ≡ true
  pub pins :
      (i j : ℕ)
      → Wired (has_section ini 0) (count_zones ini) i
      → Wired (has_section ini 0) (count_zones ini) j
      → zone_pin ini i ≡ zone_pin ini j
      → i ≡ j

first_at :
    (ini : Ini) (n : ℕ)
    → has_section ini 0 ≡ true
    → get_elem? (read_zones ini (suc n) 0) 0 ≡ some (read_zone ini 0)
unfolding read_zones
first_at ini n there = rw there refl

entry_at :
    (ini : Ini) (i : ℕ) (z : GpioCfg)
    → Wired (has_section ini 0) (count_zones ini) i
    → get_elem? (read_zones ini (suc (count_zones ini)) 0) i ≡ some z
    → z ≡ read_zone ini i
entry_at ini (suc i) z w e = read_at ini (suc i) z (omega arith) e
entry_at ini zero z (hi, inr lo) e = absurd (omega arith)
entry_at ini zero z (hi, inl fitted) e =
    let same : some z ≡ some (read_zone ini 0) = sym e ∙ first_at ini (count_zones ini) fitted in cc

read_zones-Layout :
    (ini : Ini)
    → IsWired ini
    → Layout (read_zones ini (suc (count_zones ini)) 0) (count_zones ini) (has_section ini 0)
unfolding read_zone
read_zones-Layout ini h = record {
  size = length-read_zones ini (suc (count_zones ini)) 0;
  level = λ i z w e. rw (entry_at ini i z w e) (h.levels i w);
  distinct = λ i j y z w v e f same. h.pins i j w v (
      sym (ap (λ x. x.pin) (entry_at ini i y w e)) ∙ same ∙ ap (λ x. x.pin) (entry_at ini j z v f));
  valid = λ i z w e.
      subst (λ p. valid_gpio p ≡ true) (sym (ap (λ x. x.pin) (entry_at ini i z w e))) (h.valid i w);
  is_output = λ i z w e. ap (λ x. x.input_output) (entry_at ini i z w e);
  starts_off = λ i z w e.
      let same = entry_at ini i z w e in
      ap (λ x. x.startup_state) same ∙ sym (ap (λ x. lnot x.on_state) same);
}

-- No input shares its pin with a wired zone.
abbrev pub AreApart : List GpioCfg → ℕ → Bool → List Input → Type 0
AreApart cfg n fitted [] = Unit {0}
AreApart cfg n fitted (i ∷ is) =
    ((j : ℕ) (z : GpioCfg) → Wired fitted n j → get_elem? cfg j ≡ some z → i.pin ≢ z.pin)
    × AreApart cfg n fitted is

AreApart-runtimes :
    (cfg : List GpioCfg) (n : ℕ) (fitted : Bool) (rs : List ℤ) (is : List Input)
    → AreApart cfg n fitted is
    → AreApart (with_zone_runtimes cfg rs) n fitted is
AreApart-runtimes cfg n fitted rs [] h = tt
AreApart-runtimes cfg n fitted rs (i ∷ is) (apart, h) = (
  λ j y w e same.
      let (z, at, a) = with_zone_runtimes-Alike cfg rs j y e in apart j z w at (same ∙ a.pin),
  AreApart-runtimes cfg n fitted rs is h,
)

-- The inputs' pins are none of the zones' pins of the configuration.
abbrev pub InputsApart : Ini → List Input → Type 0
InputsApart ini [] = Unit {0}
InputsApart ini (i ∷ is) =
    ((j : ℕ) → Wired (has_section ini 0) (count_zones ini) j → i.pin ≢ zone_pin ini j)
    × InputsApart ini is

read_zones-AreApart :
    (ini : Ini) (is : List Input)
    → InputsApart ini is
    → AreApart (read_zones ini (suc (count_zones ini)) 0) (count_zones ini) (has_section ini 0) is
unfolding read_zone
read_zones-AreApart ini [] h = tt
read_zones-AreApart ini (i ∷ is) (apart, h) = (
  λ j z w e same. apart j w (same ∙ ap (λ x. x.pin) (entry_at ini j z w e)),
  read_zones-AreApart ini is h,
)

module _ ⦃P : Platform⦄ where
  -- The zones and tables are as the configuration lays them out, and nothing runs.
  pub record Planned (is : List Input) (t : State) : Type 0 where
    pub some_zone : 1 ≤ t.zones
    pub layout : Layout t.zonecfg t.zones t.master_valve
    pub tables : Tables t.zones t.zonecfg t.cron t.dz_cache
    pub apart : AreApart t.zonecfg t.zones t.master_valve is
    pub idle : is_none t.current_zone.type ≡ true

  pub read_tables-Planned :
      (ini : Ini) (is : List Input) (s : State)
      → IsWired ini
      → InputsApart ini is
      → Planned is (reset (read_tables ini (count_zones ini) s))
  read_tables-Planned ini is s h apart = record {
    some_zone = h.some_zone;
    layout = read_zones-Layout ini h;
    tables = read_Tables ini (count_zones ini) refl;
    apart = read_zones-AreApart ini is apart;
    idle = refl;
  }

  pub Planned-cron :
      (is : List Input) (t : State) (ds : List CalendarDay)
      → Planned is t
      → length ds ≡ 7
      → AllDays t.zones ds
      → Planned is (record t { cron = ds })
  Planned-cron is t ds h week days = record {
    some_zone = h.some_zone;
    layout = h.layout;
    tables = record {
      week = week;
      days = days;
      numbered = h.tables.numbered;
      cached = h.tables.cached;
    };
    apart = h.apart;
    idle = h.idle;
  }

  pub restored-Planned : (is : List Input) (o t : State) → Planned is t → Planned is (restored o t)
  restored-Planned is o t h = record {
    some_zone = h.some_zone;
    layout = Layout-runtimes t.zonecfg t.zones t.master_valve _ h.layout;
    tables = record {
      week = h.tables.week;
      days = h.tables.days;
      numbered = λ i y lo e.
          let (z, at, a) = with_zone_runtimes-Alike t.zonecfg _ i y e in
          a.zone ∙ h.tables.numbered i z lo at;
      cached = h.tables.cached;
    };
    apart = AreApart-runtimes t.zonecfg t.zones t.master_valve _ is h.apart;
    idle = h.idle;
  }
