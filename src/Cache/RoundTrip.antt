-- ===== src/Cache/RoundTrip.antt =====
-- config.c: what read_cache makes of the lines that write_cache has written.
use sprinkler_d.Prelude.{
  ℕ, suc, ◌+◌, ◌-◌, ℤ, negsuc, ◌≡◌, refl, sym, ap, ◌∙◌, subst, Bool, true, false, none, some, List,
  [], ◌∷◌, ◌++◌, ◌≤◌, map, length, get_elem?, set, if◌then◌else◌, arith,
}
use mathlib.Core.List.{append_assoc}
use sprinkler_d.Platform.{Platform}
use sprinkler_d.State.{GpioCfg, CacheLine, int_line, State, pure, done, Returns, returns}
use sprinkler_d.Zones.Panel.{zone_at-some}
use sprinkler_d.Cache.{
  int_of_bool, bool_of_int, runtime_lines, option_lines, save_lines, write_cache, set_runtime,
  read_lines, read_cache,
}

-- The default run times of zones, and zones with other ones, as far as there are any.
abbrev pub runtimes : List GpioCfg → List ℤ
runtimes = map (λ z. z.default_runtime)

abbrev pub with_runtimes : List GpioCfg → List ℤ → List GpioCfg
with_runtimes [] rs = []
with_runtimes (z ∷ zs) [] = z ∷ zs
with_runtimes (z ∷ zs) (r ∷ rs) = record z { default_runtime = r } ∷ with_runtimes zs rs

-- The zones behind the master valve's entry.
abbrev pub zone_entries : List GpioCfg → List GpioCfg
zone_entries [] = []
zone_entries (z ∷ zs) = zs

-- Zone 0's entry stays as it is.
abbrev pub with_zone_runtimes : List GpioCfg → List ℤ → List GpioCfg
with_zone_runtimes [] rs = []
with_zone_runtimes (z ∷ zs) rs = z ∷ with_runtimes zs rs

get_elem?-middle :
    {A : Type 0} (xs : List A) (y : A) (ys : List A)
    → get_elem? (xs ++ (y ∷ ys)) (length xs) ≡ some y
get_elem?-middle [] y ys = refl
get_elem?-middle (x ∷ xs) y ys = get_elem?-middle xs y ys

set-middle :
    {A : Type 0} (xs : List A) (y z : A) (ys : List A)
    → set (xs ++ (y ∷ ys)) (length xs) z ≡ (xs ++ (z ∷ [])) ++ ys
set-middle [] y z ys = refl
set-middle (x ∷ xs) y z ys = ap (λ l. x ∷ l) (set-middle xs y z ys)

pub length-snoc : {A : Type 0} (xs : List A) (y : A) → length (xs ++ (y ∷ [])) ≡ suc (length xs)
length-snoc [] y = refl
length-snoc (x ∷ xs) y = ap suc (length-snoc xs y)

pub length-runtimes : (zs : List GpioCfg) → length (runtimes zs) ≡ length zs
length-runtimes [] = refl
length-runtimes (z ∷ zs) = ap suc (length-runtimes zs)

module _ ⦃P : Platform⦄ where
  -- A number that `%f` does not read as the separator -1.
  abbrev pub IsPlain : P.Real → Type 0
  IsPlain f = P.real_eqb f (P.real_of_int (negsuc 0)) ≡ false

  -- Numbers that `float` keeps, other than the separator.
  abbrev pub AllKept : List ℤ → Type 0
  AllKept [] = Unit {0}
  AllKept (n ∷ ns) = IsPlain (P.real_of_int n) × (P.int_of_real (P.real_of_int n) ≡ n) × AllKept ns

  pub set_runtime-middle :
      (t : State) (xs zs : List GpioCfg) (z : GpioCfg) (k : ℕ) (r : ℤ)
      → k ≡ length xs
      → set_runtime k r (record t { zonecfg = xs ++ (z ∷ zs) })
        ≡ done tt (record t { zonecfg = (xs ++ (record z { default_runtime = r } ∷ [])) ++ zs })
  unfolding set_runtime
  set_runtime-middle t xs zs z k r e =
      let s = record t { zonecfg = xs ++ (z ∷ zs) } in
      rw e (
        rw
          (
            zone_at-some s (length xs) z (get_elem?-middle xs z zs),
            set-middle xs z (record z { default_runtime = r }) zs,
          )
          refl)

  read_lines-runtimes :
      (t : State) (rs : List ℤ) (xs zs : List GpioCfg) (c m : ℕ)
      → c ≡ m + length xs
      → length rs ≤ length zs
      → AllKept rs
      → read_lines
          (map int_line rs)
          (record { c = c; zs = some m })
          (record t { zonecfg = xs ++ zs })
        ≡ done tt (record t { zonecfg = xs ++ with_runtimes zs rs })
  unfolding read_lines
  read_lines-runtimes t [] xs [] c m e size kept = refl
  read_lines-runtimes t [] xs (z ∷ zs) c m e size kept = refl
  read_lines-runtimes t (r ∷ rs) xs [] c m e size kept = absurd (omega arith)
  read_lines-runtimes t (r ∷ rs) xs (z ∷ zs) c m e size (plain, same, kept) =
      let k : c - m ≡ length xs = omega arith in
      let z' : GpioCfg = record z { default_runtime = r } in
      let next =
        read_lines-runtimes t rs (xs ++ (z' ∷ [])) zs (suc c) m (omega (arith, length-snoc xs z'))
          (omega arith) kept in
      rw (plain, same, set_runtime-middle t xs zs z (c - m) r k)
        (next
          ∙ ap (λ l. done tt (record t { zonecfg = l }))
              (append_assoc xs (z' ∷ []) (with_runtimes zs rs)))

  runtime_lines-runtimes :
      (s : State) (xs zs : List GpioCfg) (n k : ℕ)
      → s.zonecfg ≡ xs ++ zs
      → n ≡ length zs
      → k ≡ length xs
      → runtime_lines n k s ≡ done (map int_line (runtimes zs)) s
  unfolding runtime_lines
  runtime_lines-runtimes s xs [] n k e size at = rw (size, runtime_lines) refl
  runtime_lines-runtimes s xs (z ∷ zs) n k e size at =
      let here : get_elem? s.zonecfg k ≡ some z = rw (e, at) (get_elem?-middle xs z zs) in
      let rest =
        runtime_lines-runtimes s (xs ++ (z ∷ [])) zs (length zs) (suc k)
          (e ∙ sym (append_assoc xs (z ∷ []) zs)) refl (omega (arith, length-snoc xs z)) in
      rw (size, runtime_lines) (rw (zone_at-some s k z here, rest) refl)

  -- What the cache file keeps of `o`, in a daemon that has started with `t`. Numbers and limits have gone through
  -- the text of a `float`.
  abbrev pub with_options : State → State → State
  with_options o t = record t {
    calendar = o.calendar;
    delay24h = o.delay24h;
    delay24h_time = P.int_of_real (P.real_of_int o.delay24h_time);
    precip_chance_delay = o.precip_chance_delay;
    precip_inch_delay1day = P.real_tenth o.precip_inch_delay1day;
    precip_inch_delay2day = P.real_tenth o.precip_inch_delay2day;
  }

  -- No value of the options is the separator -1, and `float` keeps them; the end of the delay need not be kept.
  pub record IsLegible (o : State) : Type 0 where
    pub mark : P.real_eqb (P.real_of_int (negsuc 0)) (P.real_of_int (negsuc 0)) ≡ true
    pub switch : (b : Bool) → AllKept (int_of_bool b ∷ [])
    pub time : IsPlain (P.real_of_int o.delay24h_time)
    pub chance : AllKept (o.precip_chance_delay ∷ [])
    pub day1 : IsPlain (P.real_tenth o.precip_inch_delay1day)
    pub day2 : IsPlain (P.real_tenth o.precip_inch_delay2day)
    pub runtimes : AllKept (runtimes (zone_entries o.zonecfg))

  bool_of_bool : (b : Bool) → bool_of_int (int_of_bool b) ≡ b
  bool_of_bool true = refl
  bool_of_bool false = refl

  pub read_lines-options :
      (o t : State) (ls : List CacheLine)
      → IsLegible o
      → read_lines (option_lines o ++ ls) (record { c = 0; zs = none }) t
        ≡ read_lines ls (record { c = 7; zs = some 6 }) (with_options o t)
  unfolding read_lines option_lines
  read_lines-options o t ls h =
      let (plain1, kept1, _) = h.switch o.calendar in
      let (plain2, kept2, _) = h.switch o.delay24h in
      let (plain3, kept3, _) = h.chance in
      rw (plain1, plain2, h.time, plain3, h.day1, h.day2, h.mark)
        (rw (kept1, kept2, kept3, bool_of_bool o.calendar, bool_of_bool o.delay24h) refl)

  abbrev pub restored : State → State → State
  restored o t = record (with_options o t) {
    zonecfg = with_zone_runtimes t.zonecfg (runtimes (zone_entries o.zonecfg));
  }

  restored-eq :
      (o t : State) (cfg : List GpioCfg) (rs : List ℤ)
      → t.zonecfg ≡ cfg
      → suc (length rs) ≤ length cfg
      → AllKept rs
      → read_lines (map int_line rs) (record { c = 7; zs = some 6 }) (with_options o t)
        ≡ done tt (record (with_options o t) { zonecfg = with_zone_runtimes t.zonecfg rs })
  restored-eq o t [] rs e size kept = absurd (omega arith)
  restored-eq o t (z ∷ zs) rs e size kept =
      subst
        (λ l.
          read_lines (map int_line rs) (record { c = 7; zs = some 6 })
            (record (with_options o t) { zonecfg = l })
          ≡ done tt (record (with_options o t) { zonecfg = with_zone_runtimes l rs }))
        (sym e) (read_lines-runtimes (with_options o t) rs (z ∷ []) zs 7 6 refl (omega arith) kept)

  -- The lines of a cache file that was written for as many zones, or fewer, are read.
  pub read_lines-saved :
      (o t : State)
      → length (zone_entries o.zonecfg) + 1 ≤ length t.zonecfg
      → IsLegible o
      → read_lines
          (option_lines o ++ map int_line (runtimes (zone_entries o.zonecfg)))
          (record { c = 0; zs = none })
          t
        ≡ done tt (restored o t)
  read_lines-saved o t size h =
      read_lines-options o t _ h
      ∙ restored-eq o t t.zonecfg _ refl (omega (arith, length-runtimes (zone_entries o.zonecfg)))
          h.runtimes

  -- The file that write_cache writes.
  abbrev pub saved_lines : State → List CacheLine
  saved_lines s = option_lines s ++ map int_line (runtimes (zone_entries s.zonecfg))

  runtime_lines-entries :
      (s : State) (cfg : List GpioCfg) (n : ℕ)
      → s.zonecfg ≡ cfg
      → length cfg ≡ suc n
      → runtime_lines n 1 s ≡ done (map int_line (runtimes (zone_entries cfg))) s
  runtime_lines-entries s [] n e size = absurd (omega arith)
  runtime_lines-entries s (z ∷ zs) n e size =
      runtime_lines-runtimes s (z ∷ []) zs n 1 e (omega arith) refl

  write_if :
      (s : State) (opens : Bool)
      → opens ≡ true
      → length s.zonecfg ≡ suc s.zones
      → (if opens then save_lines else pure tt) s
        ≡ done tt (record s { cache_file = saved_lines s })
  unfolding save_lines
  write_if s true opens size = rw (runtime_lines-entries s s.zonecfg s.zones refl size) refl
  write_if s false opens size = cc

  pub write_cache_lem :
      (s : State)
      → s.cache_opens ≡ true
      → length s.zonecfg ≡ suc s.zones
      → write_cache s ≡ done tt (record s { cache_file = saved_lines s })
  unfolding write_cache
  write_cache_lem s opens size = write_if s s.cache_opens opens size

  pub length-zone_entries :
      (cfg : List GpioCfg) (n : ℕ) → length cfg ≡ suc n → length (zone_entries cfg) ≡ n
  length-zone_entries [] n e = absurd (omega arith)
  length-zone_entries (z ∷ zs) n e = omega arith

  -- Where the cache file opens, the zones are all configured, and no saved value is read as the
  -- separator -1 and float keeps those but the end of the delay and the rain limits, read_cache
  -- restores from the file that write_cache has written, in any state with as many zones: the
  -- calendar, the delay and the chance limit as they were, the end of the delay as float gives it,
  -- the rain limits to one digit, and every zone's default run time, and changes nothing else.
  pub read_cache-write_cache :
      (s t : State)
      → s.cache_opens ≡ true
      → length s.zonecfg ≡ suc s.zones
      → length t.zonecfg ≡ length s.zonecfg
      → IsLegible s
      → Returns
          (λ _ u.
            read_cache (record t { cache_file = u.cache_file })
            ≡ done tt (restored s (record t { cache_file = u.cache_file })))
          (write_cache s)
  unfolding read_cache
  read_cache-write_cache s t opens size same h = rw (write_cache_lem s opens size) (
      returns (
        read_lines-saved s (record t { cache_file = saved_lines s })
          (omega (arith, length-zone_entries s.zonecfg s.zones size)) h))
