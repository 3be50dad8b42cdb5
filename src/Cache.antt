-- ===== src/Cache.antt =====
-- config.c: the cache file, which keeps the options and the zones' run times over a restart. A line is
-- read back by `%f`.
pub mod RoundTrip
pub mod Overrun
use sprinkler_d.Prelude.{
  ℕ, zero, suc, ◌-◌, ℤ, pos, negsuc, Bool, true, false, List, [], ◌∷◌, ◌++◌, set, if◌then◌else◌,
  eqb_ℤ, not, Option, none, some, ◌==◌,
}
use sprinkler_d.Platform.{Platform}
use sprinkler_d.State.{
  CacheLine, int_line, real_line, State, Cmd, pure, gets, modify, ◌>>=◌, ◌>>◌, zone_at,
}

abbrev pub int_of_bool : Bool → ℤ
int_of_bool true = pos 1
int_of_bool false = pos 0

-- An `int` that is assigned to a `bool`.
abbrev pub bool_of_int : ℤ → Bool
bool_of_int n = not (eqb_ℤ n (pos 0))

module _ ⦃P : Platform⦄ where
  -- The loop that writes the run times, `rounds` of them from zone `zone` on.
  unfoldable pub runtime_lines : ℕ → ℕ → Cmd (List CacheLine)
  runtime_lines zero zone = pure []
  runtime_lines (suc rounds) zone = do
    z ← zone_at (pos zone)
    rest ← runtime_lines rounds (suc zone)
    pure (int_line z.default_runtime ∷ rest)

  unfoldable pub option_lines : State → List CacheLine
  option_lines s =
      int_line (int_of_bool s.calendar)
      ∷ int_line (int_of_bool s.delay24h)
      ∷ int_line s.delay24h_time
      ∷ int_line s.precip_chance_delay
      ∷ real_line s.precip_inch_delay1day
      ∷ real_line s.precip_inch_delay2day
      ∷ int_line (negsuc 0)
      ∷ []

  -- The lines that go to the file.
  unfoldable pub save_lines : Cmd (Unit {0})
  unfolding runtime_lines option_lines
  save_lines = do
    n ← gets (λ s. s.zones)
    runtimes ← runtime_lines n 1
    modify (λ s. record s { cache_file = option_lines s ++ runtimes })

  -- Remounting the root and logging are left out; a file that does not open is left as it was.
  unfoldable pub write_cache : Cmd (Unit {0})
  unfolding save_lines
  write_cache = do opens ← gets (λ s. s.cache_opens); if opens then save_lines else pure tt

  -- What `fscanf` with `%f` gives for a line.
  abbrev pub scanned : CacheLine → P.Real
  scanned (int_line n) = P.real_of_int n
  scanned (real_line x) = P.real_tenth x

  -- `c`, and the value of `c` at the line -1, where that has been read (`z`).
  pub record ReadCache : Type 0 where
    pub c : ℕ
    pub zs : Option ℕ

  -- One option by its position.
  unfoldable pub read_option : ℕ → P.Real → State → State
  read_option c f s =
      let i = P.int_of_real f in
      if c == 0
      then record s { calendar = bool_of_int i }
      else if c == 1
      then record s { delay24h = bool_of_int i }
      else if c == 2
      then record s { delay24h_time = i }
      else if c == 3
      then record s { precip_chance_delay = i }
      else if c == 4
      then record s { precip_inch_delay1day = f }
      else if c == 5
      then record s { precip_inch_delay2day = f }
      else s

  -- `zonecfg[zone].default_runtime = runtime`
  unfoldable pub set_runtime : ℕ → ℤ → Cmd (Unit {0})
  set_runtime zone runtime = do
    z ← zone_at (pos zone)
    modify (λ s. record s { zonecfg = set s.zonecfg zone (record z { default_runtime = runtime }) })

  unfoldable pub read_value : ℕ → Option ℕ → P.Real → Cmd (Unit {0})
  unfolding read_option set_runtime
  read_value c none f = modify (read_option c f)
  read_value c (some zs) f = set_runtime (c - zs) (P.int_of_real f)

  -- The loop over the lines. A second -1 moves `zs`, as the first did.
  unfoldable pub read_lines : List CacheLine → ReadCache → Cmd (Unit {0})
  unfolding read_value
  read_lines [] r = pure tt
  read_lines (l ∷ ls) r =
      let f = scanned l in
      let mark : Cmd (Unit {0}) = read_lines ls (record { c = suc r.c; zs = some r.c }) in
      let value : Cmd (Unit {0}) = read_lines ls (record { c = suc r.c; zs = r.zs }) in
      if P.real_eqb f (P.real_of_int (negsuc 0)) then mark else (read_value r.c r.zs f >> value)

  -- The file is there, with the lines that were written last.
  unfoldable pub read_cache : Cmd (Unit {0})
  unfolding read_lines
  read_cache = do lines ← gets (λ s. s.cache_file); read_lines lines (record { c = 0; zs = none })
