-- ===== src/Web/Requests.antt =====
-- The web requests together.
use sprinkler_d.Prelude.{
  or_left, or_right, pos, ltb_ℤ, ◌≡◌, ◌⊎◌, inl, inr, refl, sym, ◌∙◌, Bool, Bool-cases, true, false,
  ◌||◌, ltb, length, if◌then◌else◌,
}
use sprinkler_d.Platform.{Platform, Driver}
use sprinkler_d.Text.{Text, bytes, same_text}
use sprinkler_d.State.{
  State, Run, fault, done, out_of_fuel, Cmd, ◌>>=◌, and_then, returns, zc_single, zc_cron,
}
use sprinkler_d.Web.Defs.{Query, Reply, serve_zone}
use sprinkler_d.Web.Serve.{serve_change, request, answer, buffer_size, in_buffer, serve_web_request}
use sprinkler_d.Web.Texts.{fits, Read, unread, read, answer-Read}
use sprinkler_d.Web.Held.{
  Held, overran, held, Held-weaken, Held-total, Held-then, HeldAt, HeldAt-if, serve_runtime-Held,
}
use sprinkler_d.Web.Safety.{
  zone_of, names_zone, serve_zone-Sound, serve_option-IsKept, serve_sensor-IsKept,
  set_config-IsKept,
}
use sprinkler_d.Web.Changes.{serve_calendar-IsKept}
use sprinkler_d.Sound.{Sound, Keeps, IsKept, IsKept-pure, IsKept-then}

not_cron :
    (type : Text)
    → (same_text type (bytes "cron") || same_text type (bytes "zone")) ≡ false
    → same_text type (bytes "cron") ≡ false
not_cron type none = or_left _ (same_text type (bytes "zone")) none

not_zone :
    (type : Text)
    → (same_text type (bytes "cron") || same_text type (bytes "zone")) ≡ false
    → same_text type (bytes "zone") ≡ false
not_zone type none = or_right (same_text type (bytes "cron")) _ none

module _ ⦃P : Platform⦄ where
  -- The text of the answer fits the buffer, with its NUL.
  abbrev pub FitsText : Run Text → Type 0
  FitsText fault = Unit {0}
  FitsText out_of_fuel = Unit {0}
  FitsText (done text u) = ltb (length text) (buffer_size u) ≡ true

  -- Behind the change the status and the text fit their buffers.
  abbrev pub FitsAfter : Run Reply → Type 0
  FitsAfter fault = Unit {0}
  FitsAfter out_of_fuel = Unit {0}
  FitsAfter (done reply u) = (fits u ≡ true) × FitsText (answer reply u)

module _ ⦃P : Platform⦄ ⦃D : Driver⦄ where
  serve_cron-IsKept : (q : Query) → ltb_ℤ (pos 0) (zone_of q) ≡ true → IsKept (serve_zone zc_cron q)
  serve_cron-IsKept q positive = record {
    keeps = λ s h. serve_zone-Sound s zc_cron q refl refl positive h;
  }

  serve_single-IsKept :
      (q : Query) → ltb_ℤ (pos 0) (zone_of q) ≡ true → IsKept (serve_zone zc_single q)
  serve_single-IsKept q positive = record {
    keeps = λ s h. serve_zone-Sound s zc_single q refl refl positive h;
  }

  HeldAt-skip :
      {A : Type 0} (s : State) (b : Bool) (x y : Cmd A)
      → b ≡ false
      → HeldAt s y
      → HeldAt s (if b then x else y)
  HeldAt-skip s true x y skip next = cc
  HeldAt-skip s false x y skip next = next

  HeldAt-IsKept : {A : Type 0} (s : State) (m : Cmd A) → Sound s → IsKept m → HeldAt s m
  HeldAt-IsKept s m h kept = record { run = held (kept.keeps s h) }

  change-Held :
      (s : State) (type : Text) (q : Query)
      → Sound s
      → ((same_text type (bytes "cron") || same_text type (bytes "zone")) ≡ false)
        ⊎ (ltb_ℤ (pos 0) (zone_of q) ≡ true)
      → HeldAt s (serve_change type q)
  unfolding serve_change
  change-Held s type q h (inr positive) =
      search
        (
          HeldAt-if, HeldAt-IsKept, serve_runtime-Held, IsKept-pure, IsKept-then,
          serve_option-IsKept, serve_sensor-IsKept, set_config-IsKept, serve_calendar-IsKept,
          serve_cron-IsKept, serve_single-IsKept,
        )
        depth 20
  change-Held s type q h (inl none) =
      search
        (
          HeldAt-if, HeldAt-skip, HeldAt-IsKept, not_cron, not_zone, serve_runtime-Held,
          IsKept-pure, IsKept-then, serve_option-IsKept, serve_sensor-IsKept, set_config-IsKept,
          serve_calendar-IsKept,
        )
        depth 20

  request-Held :
      (s : State) (q : Query)
      → Sound s
      → (names_zone q ≡ false) ⊎ (ltb_ℤ (pos 0) (zone_of q) ≡ true)
      → HeldAt s (request q)
  unfolding request
  request-Held s q h named = search (HeldAt-if, HeldAt-IsKept, IsKept-pure, change-Held) depth 12

  answered :
      (u : State) (run : Run Text)
      → Sound u
      → Read u run
      → fits u ≡ true
      → FitsText run
      → Keeps (and_then run in_buffer)
  unfolding in_buffer
  answered u _ h (unread long) short room = let bad : true ≡ false = sym short ∙ long in cc
  answered u _ h (read text) short room = rw room (returns h)

  replied :
      (run : Run Reply)
      → Keeps run
      → FitsAfter run
      → Keeps (and_then run (λ r. answer r >>= in_buffer))
  replied _ (returns {a = reply} {s = u} h) (short, room) =
      answered u (answer reply u) h (answer-Read reply u h) short room

  in_buffer-Held : (text : Text) (u : State) → Sound u → Held false (in_buffer text u)
  unfolding in_buffer
  in_buffer-Held text u h = elim (Bool-cases (ltb (length text) (buffer_size u))) [
    | inl room ↦ rw room (held (returns h))
    | inr long ↦ rw long (overran refl)
  ]

  text-Held :
      (u : State) (run : Run Text) → Sound u → Read u run → Held false (and_then run in_buffer)
  text-Held u _ h (unread long) = overran refl
  text-Held u _ h (read text) = in_buffer-Held text u h

  -- Without the conditions on the buffers: where a request ends at no fault, the state is sound.
  pub serve_web_request-Held :
      (s : State) (q : Query)
      → Sound s
      → (names_zone q ≡ false) ⊎ (ltb_ℤ (pos 0) (zone_of q) ≡ true)
      → Held false (serve_web_request q s)
  unfolding serve_web_request
  serve_web_request-Held s q h named =
      Held-then false _ (Held-weaken (fits s) (request-Held s q h named).run)
        λ reply u k. text-Held u (answer reply u) k (answer-Read reply u k)

  -- From a state whose pins agree with the current zone and whose tables have the sizes the
  -- handlers rely on, every web request, well formed or not, its JSON text included, ends without
  -- an access outside an array or buffer and leaves the state so, where a request to turn a zone
  -- on or off names a positive number, the status fits its buffer of 50 bytes before the request
  -- and behind its change, and the text of the answer fits the buffer of 1024 bytes and 200 for
  -- each zone.
  pub serve_web_request-Sound :
      (s : State) (q : Query)
      → Sound s
      → (names_zone q ≡ false) ⊎ (ltb_ℤ (pos 0) (zone_of q) ≡ true)
      → fits s ≡ true
      → FitsAfter (request q s)
      → Keeps (serve_web_request q s)
  unfolding serve_web_request
  serve_web_request-Sound s q h named short after =
      replied (request q s) (Held-total (fits s) (request-Held s q h named).run short) after
