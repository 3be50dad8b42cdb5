-- ===== src/Startup/Bounds.antt =====
-- The configuration that is read has the sizes that the handlers rely on.
use sprinkler_d.Prelude.{
  ℕ, zero, suc, ◌+◌, ◌≤◌, pos, negsuc, eqb_ℤ, ◌≡◌, refl, sym, ap, ◌∙◌, inl, inr, true, false, not,
  Bool-cases, some, length, get_elem?, get_elem?-lt, ◌==◌, ne_of_==, ==_iff, ==_ne, arith, subst,
}
use sprinkler_d.Platform.{Platform}
use sprinkler_d.Text.{Text, bytes}
use sprinkler_d.State.{GpioCfg, State}
use sprinkler_d.Domoticz.Defs.{non_zone_dzids}
use sprinkler_d.Zones.Pins.{lnot}
use sprinkler_d.Sound.{AllDays, Tables}
use sprinkler_d.Mqtt.Defs.{Net}
use sprinkler_d.Startup.Settings.{
  Ini, section, count_sections, count_zones, pin_key, read_zone, read_zones, repeat, has_section,
  unset_day, free_dz, read_tables, read_mqtt, read_cfg,
}

-- The count is at most the rounds more than before, and every section it counts is there.
count_sections-bounds :
    (ini : Ini) (name key : Text) (rounds i n : ℕ)
    → i ≡ suc n
    → (count_sections ini name key rounds i n ≤ rounds + n)
      × ((j : ℕ)
          → i ≤ j
          → j ≤ count_sections ini name key rounds i n
          → eqb_ℤ (ini.getl (section name j) key (negsuc 0)) (negsuc 0) ≡ false)
unfolding count_sections
count_sections-bounds ini name key zero i n e = (omega arith, λ j lo hi. absurd (omega arith))
count_sections-bounds ini name key (suc rounds) i n e =
    elim (Bool-cases (eqb_ℤ (ini.getl (section name i) key (negsuc 0)) (negsuc 0))) [
      | inl missing ↦ rw missing (omega arith, λ j lo hi. absurd (omega arith))
      | inr there ↦
          let (top, all) = count_sections-bounds ini name key rounds (suc i) i refl in
          rw there (
            omega (arith, top),
            λ j lo hi. elim (Bool-cases (i == j)) [
              | inl same ↦
                  subst (λ k. eqb_ℤ (ini.getl (section name k) key (negsuc 0)) (negsuc 0) ≡ false)
                    ((==_iff i j).0 same) there
              | inr other ↦ all j (omega (arith, ne_of_== i j other)) hi
            ],
          )
    ]

length-repeat : {A : Type 0} (n : ℕ) (a : A) → length (repeat n a) ≡ n
length-repeat zero a = refl
length-repeat (suc n) a = ap suc (length-repeat n a)

pub length-read_zones : (ini : Ini) (rounds i : ℕ) → length (read_zones ini rounds i) ≡ rounds
unfolding read_zones
length-read_zones ini zero i = refl
length-read_zones ini (suc rounds) i = elim (Bool-cases (has_section ini i)) [
  | inl there ↦ rw there (ap suc (length-read_zones ini rounds (suc i)))
  | inr missing ↦ elim (Bool-cases (i == 0)) [
    | inl first ↦ rw (missing, first) (ap suc (length-read_zones ini rounds (suc i)))
    | inr other ↦ rw (missing, other) (ap suc (length-repeat rounds ini.unset_zone))
  ]
]

-- The zones that are there stand at their places.
read_zones-at :
    (ini : Ini) (rounds i k j : ℕ)
    → 1 ≤ i
    → ((j : ℕ) → i ≤ j → suc j ≤ rounds + i → has_section ini j ≡ true)
    → suc k ≤ rounds
    → j ≡ k + i
    → get_elem? (read_zones ini rounds i) k ≡ some (read_zone ini j)
unfolding read_zones
read_zones-at ini zero i k j lo all hi e = elim hi [ ]
read_zones-at ini (suc rounds) i zero j lo all hi e =
    let same : i ≡ j = omega arith in
    rw (all i (omega arith) (omega arith)) (ap (λ m. some (read_zone ini m)) same)
read_zones-at ini (suc rounds) i (suc k) j lo all hi e = rw (all i (omega arith) (omega arith)) (
    read_zones-at ini rounds (suc i) k j (omega arith) (λ m l h. all m (omega arith) (omega arith))
      (omega arith) (omega arith))

-- So do they behind zone 0, which may be missing.
zones-at :
    (ini : Ini) (n k : ℕ)
    → ((j : ℕ) → 1 ≤ j → j ≤ n → has_section ini j ≡ true)
    → 1 ≤ k
    → k ≤ n
    → get_elem? (read_zones ini (suc n) 0) k ≡ some (read_zone ini k)
unfolding read_zones
zones-at ini n zero all lo hi = absurd (omega arith)
zones-at ini n (suc k) all lo hi =
    let rest =
      read_zones-at ini n 1 k (suc k) (omega arith) (λ m l h. all m l (omega arith)) (omega arith)
        (omega arith) in
    elim (Bool-cases (has_section ini 0)) [
      | inl there ↦ rw there rest
      | inr missing ↦ rw missing rest
    ]

counted : (ini : Ini) (j : ℕ) → 1 ≤ j → j ≤ count_zones ini → has_section ini j ≡ true
unfolding count_zones
counted ini j lo hi =
    ap not ((count_sections-bounds ini (bytes "ZONE") pin_key 24 1 0 refl).1 j lo hi)

pub count_zones-bound : (ini : Ini) → count_zones ini ≤ 24
unfolding count_zones
count_zones-bound ini =
    omega (arith, (count_sections-bounds ini (bytes "ZONE") pin_key 24 1 0 refl).0)

-- A zone of the array that is one of the counted zones is the one that its section describes.
pub read_at :
    (ini : Ini) (i : ℕ) (z : GpioCfg)
    → 1 ≤ i
    → get_elem? (read_zones ini (suc (count_zones ini)) 0) i ≡ some z
    → z ≡ read_zone ini i
read_at ini i z lo e =
    let size = length-read_zones ini (suc (count_zones ini)) 0 in
    let hi : i ≤ count_zones ini = omega (arith, size, get_elem?-lt _ i z e) in
    let same : some z ≡ some (read_zone ini i) =
      sym e ∙ zones-at ini (count_zones ini) i (counted ini) lo hi in
    cc

read_zones-numbered :
    (ini : Ini) (i : ℕ) (z : GpioCfg)
    → 1 ≤ i
    → get_elem? (read_zones ini (suc (count_zones ini)) 0) i ≡ some z
    → z.zone ≡ pos i
unfolding read_zone
read_zones-numbered ini i z lo e = ap (λ y. y.zone) (read_at ini i z lo e)

read_zones-off :
    (ini : Ini) (i : ℕ) (z : GpioCfg)
    → 1 ≤ i
    → get_elem? (read_zones ini (suc (count_zones ini)) 0) i ≡ some z
    → z.shutdown_state ≡ lnot z.on_state
unfolding read_zone
read_zones-off ini i z lo e =
    let same = read_at ini i z lo e in
    ap (λ y. y.shutdown_state) same ∙ sym (ap (λ y. lnot y.on_state) same)

read_days : (ini : Ini) (n : ℕ) → AllDays n (repeat 7 (unset_day ini n))
read_days ini n = let e = length-repeat n ini.unset_runtime in (e, (e, (e, (e, (e, (e, (e, tt)))))))

pub read_Tables :
    (ini : Ini) (n : ℕ)
    → n ≡ count_zones ini
    → Tables n
        (read_zones ini (suc n) 0)
        (repeat 7 (unset_day ini n))
        (repeat (n + non_zone_dzids + 1) free_dz)
read_Tables ini n e = record {
  week = refl;
  days = read_days ini n;
  numbered = rw e (read_zones-numbered ini);
  cached = omega (arith, length-repeat (n + non_zone_dzids + 1) free_dz);
}

module _ ⦃P : Platform⦄ where
  -- From 1 to 24 zones in an array with one more place, each zone from 1 on under its own number
  -- and with a level for the end that turns it off, a calendar of seven days with a run time for
  -- each zone, and a Domoticz cache with room for every value.
  pub record Configured (t : State) : Type 0 where
    pub some_zone : 1 ≤ t.zones
    pub few : t.zones ≤ 24
    pub size : length t.zonecfg ≡ suc t.zones
    pub tables : Tables t.zones t.zonecfg t.cron t.dz_cache
    pub ends_off :
        (i : ℕ) (z : GpioCfg)
        → 1 ≤ i
        → get_elem? t.zonecfg i ≡ some z
        → z.shutdown_state ≡ lnot z.on_state

  -- Where the configuration has a zone, it is read with 1 to 24 zones in an array with one more
  -- place, each zone from 1 on under its own number and with a level for the end that turns it
  -- off, a calendar of seven days with a run time for each zone, and a Domoticz cache with room
  -- for every value.
  pub read_cfg-Configured :
      (ini : Ini) (s : State) (n : Net)
      → 1 ≤ count_zones ini
      → (t : State) × (m : Net) × (read_cfg ini s n ≡ some (t, m)) × Configured t
  unfolding read_cfg
  read_cfg-Configured ini s n lo = (
    read_tables ini (count_zones ini) s,
    read_mqtt ini n,
    rw (==_ne (count_zones ini) 0 (λ e. omega (arith, e, lo))) refl,
    record {
      some_zone = lo;
      few = count_zones-bound ini;
      size = length-read_zones ini (suc (count_zones ini)) 0;
      tables = read_Tables ini (count_zones ini) refl;
      ends_off = read_zones-off ini;
    },
  )
