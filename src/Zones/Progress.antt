-- ===== src/Zones/Progress.antt =====
-- `start_next_zone` against an independent description of the next zone: the least one behind the
-- given zone that has a run time and a valid pin.
use sprinkler_d.Prelude.{
  ℕ, zero, suc, ◌+◌, ◌≤◌, ◌<◌, ◌≡◌, ◌∙◌, ap, inl, inr, Bool, true, false, not, Option, none, some,
  List, length, get_elem?, get_elem?_lt, ltb, ltb→lt, subst, ◌==◌, ==_iff, ne_of_==, arith,
  Bool-cases,
}
use sprinkler_d.Platform.{Platform}
use sprinkler_d.State.{GpioCfg, State, done, and_then}
use sprinkler_d.Zones.Cycle.{skips, next_zone}
use sprinkler_d.Zones.Panel.{zone_at-some}

-- Zone `i` has a run time and a valid pin.
abbrev pub runnable : List GpioCfg → ℕ → Bool
runnable cfg i = elim (get_elem? cfg i) [ none ↦ false | some z ↦ not (skips z) ]

abbrev pub NoneRuns : List GpioCfg → ℕ → ℕ → Type 0
NoneRuns cfg lo hi = (i : ℕ) → lo ≤ i → i < hi → runnable cfg i ≡ false

abbrev pub IsNext : List GpioCfg → ℕ → ℕ → Option ℕ → Type 0
IsNext cfg n lo none = NoneRuns cfg lo (suc n)
IsNext cfg n lo (some k) = (lo ≤ k) × (k ≤ n) × (runnable cfg k ≡ true) × NoneRuns cfg lo k

runnable_at :
    (cfg : List GpioCfg) (i : ℕ) (z : GpioCfg)
    → get_elem? cfg i ≡ some z
    → runnable cfg i ≡ not (skips z)
runnable_at cfg i z at = rw (at, runnable)

NoneRuns-cons :
    (cfg : List GpioCfg) (lo hi : ℕ)
    → runnable cfg lo ≡ false
    → NoneRuns cfg (suc lo) hi
    → NoneRuns cfg lo hi
NoneRuns-cons cfg lo hi h rest i a b = elim (Bool-cases (lo == i)) [
  | inl e ↦ subst (λ j. runnable cfg j ≡ false) ((==_iff lo i).0 e) h
  | inr e ↦ rest i (let ne = ne_of_== lo i e in omega arith) b
]

IsNext-cons :
    (cfg : List GpioCfg) (n lo : ℕ) (o : Option ℕ)
    → runnable cfg lo ≡ false
    → IsNext cfg n (suc lo) o
    → IsNext cfg n lo o
IsNext-cons cfg n lo none h rest = NoneRuns-cons cfg lo (suc n) h rest
IsNext-cons cfg n lo (some k) h (a, b, c, d) = (omega arith, b, c, NoneRuns-cons cfg lo k h d)

module _ ⦃P : Platform⦄ (s : State) (size : length s.zonecfg ≡ suc s.zones) where
  -- Where the zones are all configured and the fuel exceeds the zones that are left, the loop of
  -- start_next_zone ends, changes nothing and finds the least zone from the given one on that has
  -- a run time and a valid pin, or none where no zone has.
  pub next_zone-IsNext :
      (fuel zone : ℕ)
      → zone ≤ s.zones
      → s.zones < fuel + zone
      → (o : Option ℕ) × (next_zone fuel zone s ≡ done o s) × IsNext s.zonecfg s.zones zone o
  unfolding next_zone
  next_zone-IsNext zero zone h f = absurd (omega arith)
  next_zone-IsNext (suc fuel) zone h f =
      let (z, at) = get_elem?_lt s.zonecfg zone (omega arith) in
      elim (Bool-cases (skips z)) [
        | inl skip ↦
            let off = runnable_at s.zonecfg zone z at ∙ ap not skip in
            elim (Bool-cases (ltb s.zones (suc zone))) [
              | inl last ↦ (
                none,
                rw (zone_at-some s zone z at, skip, and_then, last),
                NoneRuns-cons s.zonecfg zone (suc s.zones) off
                    (λ i a b. absurd (let l = ltb→lt s.zones (suc zone) last in omega arith)),
              )
              | inr more ↦
                  let (o, e, spec) =
                    next_zone-IsNext fuel (suc zone) (ground arith) (omega arith) in
                  (
                    o,
                    rw (zone_at-some s zone z at, skip, and_then, more) e,
                    IsNext-cons s.zonecfg s.zones zone o off spec,
                  )
            ]
        | inr run ↦ (
          some zone,
          rw (zone_at-some s zone z at, run),
          (
            omega arith,
            h,
            rw (runnable_at s.zonecfg zone z at, run),
            λ i a b. absurd (omega arith),
          ),
        )
      ]
