-- ===== src/Web/Held.antt =====
-- A request that sets a run time builds its text before it ends.
use sprinkler_d.Prelude.{
  and_left, and_right, ℕ, ℤ, pos, negsuc, ltb_ℤ, leb_ℤ, ◌≤◌, ◌≡◌, refl, ap, ◌∙◌, sym, Bool, true,
  false, ◌&&◌, inl, inr, Bool-cases, List, if◌then◌else◌,
}
use sprinkler_d.Platform.{Platform, Driver}
use sprinkler_d.Text.{bytes, atoi}
use sprinkler_d.State.{GpioCfg, State, Run, Cmd, fault, done, and_then, Returns, returns}
use sprinkler_d.Web.Defs.{Query}
use sprinkler_d.Web.Json.{status_text}
use sprinkler_d.Web.Runtimes.{set_runtime-Sound, zc_update_runtime-Sound}
use sprinkler_d.Web.Safety.{evented, zone_of}
use sprinkler_d.Web.Serve.{change_runtime, serve_runtime}
use sprinkler_d.Web.Texts.{fits, Read, unread, read, build_sprinkler-Read}
use sprinkler_d.Sound.{Sound, Keeps, Keeps-then, in_bounds}

module _ ⦃P : Platform⦄ where
  -- The status does not depend on the zones.
  fits-zones : (s : State) (zs : List GpioCfg) → fits s ≡ fits (record s { zonecfg = zs })
  unfolding status_text
  fits-zones s zs = refl

module _ ⦃P : Platform⦄ ⦃D : Driver⦄ where
  -- A run leaves the state sound, or ends at a fault where `b` is false.
  pub data Held (b : Bool) {A : Type 0} : Run A → Type 0 where
    overran : b ≡ false → Held b fault
    held : {r : Run A} → Keeps r → Held b r

  pub Held-total : {A : Type 0} {r : Run A} (b : Bool) → Held b r → b ≡ true → Keeps r
  Held-total b (overran long) short = let bad : true ≡ false = sym short ∙ long in cc
  Held-total b (held k) short = k

  pub Held-weaken : {A : Type 0} {r : Run A} (b : Bool) → Held b r → Held false r
  Held-weaken b (overran long) = overran refl
  Held-weaken b (held k) = held k

  ended : {A : Type 0} (a : A) (s : State) → Keeps (done a s) → Sound s
  ended a s (returns h) = h

  pub Held-done : {A : Type 0} (b : Bool) (a : A) (s : State) → Held b (done a s) → Sound s
  Held-done b a s (held k) = ended a s k

  Held-Keeps :
      {A B : Type 0} {r : Run A} {Q : A → State → Type 0} (b : Bool) (k : A → Cmd B)
      → Returns Q r
      → ((a : A) (s : State) → Q a s → Held b (k a s))
      → Held b (and_then r k)
  Held-Keeps b k (returns q) next = next _ _ q

  pub Held-then :
      {A B : Type 0} {r : Run A} (b : Bool) (k : A → Cmd B)
      → Held b r
      → ((a : A) (s : State) → Sound s → Held b (k a s))
      → Held b (and_then r k)
  Held-then b k (overran long) next = overran long
  Held-then b k (held h) next = Held-Keeps b k h next

  -- A text that is built where the status fits if `b` is true.
  pub Held-Read :
      {A B : Type 0} {r : Run A} (b : Bool) (s : State) (k : A → Cmd B)
      → b ≡ fits s
      → Read s r
      → ((a : A) → Held b (k a s))
      → Held b (and_then r k)
  Held-Read b s k e (unread long) next = overran (e ∙ long)
  Held-Read b s k e (read a) next = next a

  update-Held :
      (s : State) (zone : ℤ) (k : ℕ) (runtime : ℤ)
      → zone ≡ pos k
      → k ≤ s.zones
      → Sound s
      → Held (fits s) (change_runtime zone runtime s)
  unfolding change_runtime
  update-Held s zone k runtime e hi h = rw e (
      Held-Keeps _ _ (set_runtime-Sound s k runtime hi h) λ _ u (m, (zs, same)).
        Held-Read _ u _ (fits-zones s zs ∙ ap fits (sym same)) (build_sprinkler-Read u m) λ text.
          held (
            Keeps-then _ (zc_update_runtime-Sound u k (rw same hi) m)
              λ _ v n. returns (evented v n)))

  -- The request at a state.
  pub record HeldAt {A : Type 0} (s : State) (m : Cmd A) : Type 0 where
    pub run : Held (fits s) (m s)

  pub HeldAt-if :
      {A : Type 0} (s : State) (b : Bool) (x y : Cmd A)
      → HeldAt s x
      → HeldAt s y
      → HeldAt s (if b then x else y)
  HeldAt-if s true x y left right = left
  HeldAt-if s false x y left right = right

  pub serve_runtime-Held : (s : State) (q : Query) → Sound s → HeldAt s (serve_runtime q)
  unfolding serve_runtime
  serve_runtime-Held s q h = record {
    run =
        let known = ltb_ℤ (pos 0) (zone_of q) in
        let inside = leb_ℤ (zone_of q) (pos s.zones) in
        let time = ltb_ℤ (negsuc 0) (atoi (q.get_var (bytes "time"))) in
        elim (Bool-cases (
          ltb_ℤ (pos 0) (zone_of q)
          && leb_ℤ (zone_of q) (pos s.zones)
          && ltb_ℤ (negsuc 0) (atoi (q.get_var (bytes "time"))))) [
            | inl good ↦
                let (k, e, lo, hi) =
                  in_bounds (zone_of q) s.zones
                    (and_left known inside (and_left (known && inside) time good))
                    (and_right known inside (and_left (known && inside) time good)) in
                rw good
                  (Held-then _ _ (update-Held s (zone_of q) k _ e hi h) λ _ u m. held (returns m))
            | inr bad ↦ rw bad (held (returns h))
          ];
  }
