-- ===== src/Zones/AllOff.antt =====
-- The two loops of `zc_zone` over the zones: each leaves every zone off.
use sprinkler_d.Prelude.{
  ℕ, zero, suc, ◌+◌, ℤ, pos, eqb_ℤ, ◌≤◌, ◌<◌, ◌≡◌, ◌≢◌, refl, sym, ◌∙◌, ap, inl, inr, Bool, true,
  false, Option, none, some, ◌==◌, ==_iff, get_elem?, arith, Bool-cases, subst, if◌then◌else◌,
  eqb_ℤ_iff,
}
use sprinkler_d.Platform.{Platform, Driver}
use sprinkler_d.State.{zc_off, State, Acts, acts, Acts-trans, ran, GpioCfg}
use sprinkler_d.Zones.Pins.{pin_is_on}
use sprinkler_d.Zones.Requests.{zone_off, all_off, others_off}
use sprinkler_d.Zones.Panel.{zone_at-some, lit_at, is_zone}
use sprinkler_d.Zones.Switches.{Shows, zone_exists, zc_stop-Shows, zc_master-Shows}

-- Every zone that is on has number `i` or more.
abbrev pub From : ℕ → Option ℕ → Type 0
From i a = (j : ℕ) → a ≡ some j → i ≤ j

abbrev minus : Option ℕ → ℕ → Option ℕ
minus none i = none
minus (some k) i = if k == i then none else some k

is_zone-some : (a : Option ℕ) (i : ℕ) → is_zone a i ≡ true → a ≡ some i
is_zone-some none i h = cc
is_zone-some (some k) i h = ap some ((==_iff k i).0 h)

minus_lit : (a : Option ℕ) (i : ℕ) → is_zone a i ≡ true → minus a i ≡ none
minus_lit none i h = refl
minus_lit (some k) i h = rw h

minus_dark : (a : Option ℕ) (i : ℕ) → is_zone a i ≡ false → minus a i ≡ a
minus_dark none i h = refl
minus_dark (some k) i h = rw h

From-minus : (a : Option ℕ) (i : ℕ) → From i a → From (suc i) (minus a i)
From-minus none i f j e = cc
From-minus (some k) i f j e = ground (arith, f k refl)

Within-minus :
    (a : Option ℕ) (i n : ℕ) → ((j : ℕ) → a ≡ some j → j ≤ n) → (j : ℕ) → minus a i ≡ some j → j ≤ n
Within-minus none i n h j e = cc
Within-minus (some k) i n h j e = ground (arith, h k refl)

From-past : (a : Option ℕ) (i : ℕ) → From i a → ((j : ℕ) → a ≡ some j → j < i) → a ≡ none
From-past none i f h = refl
From-past (some k) i f h = absurd (let l = f k refl in let m = h k refl in omega arith)

later : (a : Option ℕ) (i : ℕ) → From i a → is_zone a i ≡ false → From (suc i) a
later none i f off j e = cc
later (some k) i f off j e = ground (arith, f k refl)

other : (zone : ℤ) (i : ℕ) → zone ≢ pos i → eqb_ℤ zone (pos i) ≡ false
other zone i ne = elim (Bool-cases (eqb_ℤ zone (pos i))) [
  | inl e ↦ absurd (ne ((eqb_ℤ_iff zone (pos i)).0 e))
  | inr e ↦ e
]

module _ ⦃P : Platform⦄ ⦃D : Driver⦄ where
  -- A zone's test of its pin, in the abstract view.
  pub test_at :
      (s : State) (i : ℕ) (z : GpioCfg) (a : Option ℕ) (v : Bool)
      → Shows s s.board a v
      → 1 ≤ i
      → i ≤ s.zones
      → get_elem? s.zonecfg i ≡ some z
      → pin_is_on z s.board ≡ is_zone a i
  test_at s i z a v p lo hi at = sym (lit_at s.zonecfg s.board i z at) ∙ p.zones_lit i lo hi

  zone_off-Shows :
      (s : State) (i : ℕ) (a : Option ℕ) (v : Bool)
      → Shows s s.board a v
      → 1 ≤ i
      → i ≤ s.zones
      → Acts s (λ _ b. Shows s b (minus a i) false) (zone_off i s)
  unfolding zone_off
  zone_off-Shows s i a v p lo hi = Acts-trans _ (zc_master-Shows s zc_off a v p) λ _ b e q.
      let t = ran s s.current_zone b e in
      let (z, at) = zone_exists t i q.wiring hi in
      elim (Bool-cases (is_zone a i)) [
        | inl on ↦
            rw (zone_at-some t i z at, test_at t i z a false q lo hi at, on)
              (Acts-trans _
                (zc_stop-Shows t i false (subst (λ o. Shows t b o false) (is_zone-some a i on) q) lo
                  hi)
                (λ r b' e' (ok, q'). acts _ _ _ (rw (minus_lit a i on) q')))
        | inr off ↦
            rw (zone_at-some t i z at, test_at t i z a false q lo hi at, off)
              (acts _ _ _ (rw (minus_dark a i off) q))
      ]

  all_off-Shows :
      (rounds i : ℕ) (s : State) (a : Option ℕ)
      → Shows s s.board a false
      → From i a
      → 1 ≤ i
      → rounds + i ≡ suc s.zones
      → ((j : ℕ) → a ≡ some j → j ≤ s.zones)
      → Acts s (λ _ b. Shows s b none false) (all_off rounds i s)
  unfolding all_off
  all_off-Shows zero i s a p f lo total h = acts _ _ _ (
      subst (λ o. Shows s s.board o false) (From-past a i f (λ j e. let l = h j e in omega arith))
        p)
  all_off-Shows (suc rounds) i s a p f lo total h =
      Acts-trans _ (zone_off-Shows s i a false p lo (omega arith)) λ _ b e q.
        all_off-Shows rounds (suc i) (ran s s.current_zone b e) (minus a i) q (From-minus a i f)
          (omega arith) (omega arith) (Within-minus a i s.zones h)

  -- From pins of which at most one zone is on, the loop over all zones that begins a request for
  -- all zones leaves every zone and the master valve off.
  pub all_off_every :
      (rounds : ℕ) (s : State) (a : Option ℕ) (v : Bool)
      → Shows s s.board a v
      → From 1 a
      → ((j : ℕ) → a ≡ some j → j ≤ s.zones)
      → 1 ≤ s.zones
      → rounds ≡ s.zones
      → Acts s (λ _ b. Shows s b none false) (all_off rounds 1 s)
  unfolding all_off
  all_off_every zero s a v p f h n e = absurd (omega arith)
  all_off_every (suc rounds) s a v p f h n e =
      Acts-trans _ (zone_off-Shows s 1 a v p (omega arith) n) λ _ b m q.
        all_off-Shows rounds 2 (ran s s.current_zone b m) (minus a 1) q (From-minus a 1 f)
          (omega arith) (omega arith) (Within-minus a 1 s.zones h)

  -- The loop before a zone is started turns the others off, and finds the zone itself off.
  pub others_off-Shows :
      (zone : ℤ) (rounds i : ℕ) (s : State) (a : Option ℕ) (v : Bool)
      → Shows s s.board a v
      → From i a
      → ((j : ℕ) → a ≡ some j → j ≤ s.zones)
      → ((j : ℕ) → a ≡ some j → zone ≢ pos j)
      → 1 ≤ i
      → rounds + i ≡ suc s.zones
      → Acts s (λ r b. (r ≡ false) × Shows s b none v) (others_off zone rounds i s)
  unfolding others_off
  others_off-Shows zone zero i s a v p f h ne lo total = acts _ _ _ (
    refl,
    subst (λ o. Shows s s.board o v) (From-past a i f (λ j e. let l = h j e in omega arith)) p,
  )
  others_off-Shows zone (suc rounds) i s a v p f h ne lo total =
      let hi : i ≤ s.zones = omega arith in
      let (z, at) = zone_exists s i p.wiring hi in
      elim (Bool-cases (is_zone a i)) [
        | inl on ↦
            let e = is_zone-some a i on in
            rw (zone_at-some s i z at, test_at s i z a v p lo hi at, on, other zone i (ne i e))
              (Acts-trans _ (zc_stop-Shows s i v (subst (λ o. Shows s s.board o v) e p) lo hi)
                λ r b m (ok, q).
                  others_off-Shows zone rounds (suc i) (ran s s.current_zone b m) none v q
                    (λ j x. cc) (λ j x. cc) (λ j x. cc) (omega arith) (omega arith))
        | inr off ↦
            rw (zone_at-some s i z at, test_at s i z a v p lo hi at, off)
              (others_off-Shows zone rounds (suc i) s a v p (later a i f off) h ne (omega arith)
                (omega arith))
      ]
