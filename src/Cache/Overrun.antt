-- ===== src/Cache/Overrun.antt =====
-- config.c: read_cache of a file that was written for more zones than are configured now.
use sprinkler_d.Prelude.{
  ℕ, suc, ◌+◌, ◌-◌, ℤ, ◌<◌, ◌≡◌, refl, sym, ◌∙◌, subst, none, some, List, [], ◌∷◌, ◌++◌, map,
  length, get_elem?, arith,
}
use sprinkler_d.Platform.{Platform}
use sprinkler_d.State.{GpioCfg, int_line, State, fault, zone_at}
use sprinkler_d.Cache.{set_runtime, read_lines, read_cache}
use sprinkler_d.Cache.RoundTrip.{
  AllKept, IsLegible, zone_entries, with_options, saved_lines, set_runtime-middle, length-snoc,
  length-runtimes, read_lines-options,
}

get_elem?-behind : {A : Type 0} (xs : List A) → get_elem? (xs ++ []) (length xs) ≡ none
get_elem?-behind [] = refl
get_elem?-behind (x ∷ xs) = get_elem?-behind xs

module _ ⦃P : Platform⦄ where
  set_runtime-behind :
      (t : State) (xs : List GpioCfg) (k : ℕ) (r : ℤ)
      → k ≡ length xs
      → set_runtime k r (record t { zonecfg = xs ++ [] }) ≡ fault
  unfolding set_runtime zone_at
  set_runtime-behind t xs k r e = rw e (rw (get_elem?-behind xs, zone_at) refl)

  read_lines-behind :
      (t : State) (rs : List ℤ) (xs zs : List GpioCfg) (c m : ℕ)
      → c ≡ m + length xs
      → length zs < length rs
      → AllKept rs
      → read_lines
          (map int_line rs)
          (record { c = c; zs = some m })
          (record t { zonecfg = xs ++ zs })
        ≡ fault
  unfolding read_lines
  read_lines-behind t [] xs zs c m e size kept = absurd (omega arith)
  read_lines-behind t (r ∷ rs) xs [] c m e size (plain, same, kept) =
      rw (plain, same, set_runtime-behind t xs (c - m) r (omega arith)) refl
  read_lines-behind t (r ∷ rs) xs (z ∷ zs) c m e size (plain, same, kept) =
      let z' : GpioCfg = record z { default_runtime = r } in
      rw (plain, same, set_runtime-middle t xs zs z (c - m) r (omega arith))
        (read_lines-behind t rs (xs ++ (z' ∷ [])) zs (suc c) m (omega (arith, length-snoc xs z'))
          (omega arith) kept)

  behind :
      (o t : State) (cfg : List GpioCfg) (rs : List ℤ)
      → t.zonecfg ≡ cfg
      → 0 < length cfg
      → length cfg < suc (length rs)
      → AllKept rs
      → read_lines (map int_line rs) (record { c = 7; zs = some 6 }) (with_options o t) ≡ fault
  behind o t [] rs e some_zone size kept = absurd (omega arith)
  behind o t (z ∷ zs) rs e some_zone size kept =
      subst
        (λ l.
          read_lines (map int_line rs) (record { c = 7; zs = some 6 })
            (record (with_options o t) { zonecfg = l })
          ≡ fault)
        (sym e) (read_lines-behind (with_options o t) rs (z ∷ []) zs 7 6 refl (omega arith) kept)

  -- Where the cache file was written for more zones than are configured now, at least zone 0's
  -- entry is there, and no saved value is read as the separator -1 and float keeps those but the
  -- end of the delay and the rain limits, read_cache writes behind the array of zones.
  pub read_cache_overrun :
      (o t : State)
      → t.cache_file ≡ saved_lines o
      → 0 < length t.zonecfg
      → length t.zonecfg < suc (length (zone_entries o.zonecfg))
      → IsLegible o
      → read_cache t ≡ fault
  unfolding read_cache
  read_cache_overrun o t file some_zone size h =
      subst (λ ls. read_lines ls (record { c = 0; zs = none }) t ≡ fault) (sym file)
        (read_lines-options o t _ h
          ∙ behind o t t.zonecfg _ refl some_zone
              (omega (arith, length-runtimes (zone_entries o.zonecfg))) h.runtimes)
