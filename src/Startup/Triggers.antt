-- ===== src/Startup/Triggers.antt =====
-- The commands that an input runs over any number of changes of its pin.
use sprinkler_d.Prelude.{
  ℕ, ℤ, pos, ◌+ℤ◌, ◌-ℤ◌, ◌≤ℤ◌, ltb_ℤ, eqb_ℤ, ◌≤◌, ◌<◌, ◌≡◌, ◌⊎◌, inl, inr, refl, Bool, true, false,
  ◌&&◌, Bool-cases, Option, none, some, List, [], ◌∷◌, length, ltb, ltb→lt, int_laws, arith,
  and_right, if◌then◌else◌,
}
use sprinkler_d.Platform.{Platform}
use sprinkler_d.Text.{Text}
use sprinkler_d.Zones.Pins.{lnot}
use sprinkler_d.Startup.Inputs.{Input, input_mode, is_bounce, command_for, event_trigger}

abbrev ran_at : ℤ → Option Text → List (ℤ × Text) → List (ℤ × Text)
ran_at now none cs = cs
ran_at now (some c) cs = (now, c) ∷ cs

module _ ⦃P : Platform⦄ where
  -- The commands that a sequence of changes runs, each with its time; a change has a time and finds pins.
  unfoldable pub run_triggers : List (ℤ × P.Board) → Input → List (ℤ × Text)
  unfolding event_trigger
  run_triggers [] i = []
  run_triggers ((now, b) ∷ ts) i =
      let (j, c) = event_trigger b now i in ran_at now c (run_triggers ts j)

-- Each is one of two texts that are not empty, a second or more after the one before it.
abbrev pub IsSpaced : Text → Text → ℤ → List (ℤ × Text) → Type 0
IsSpaced on off last [] = Unit {0}
IsSpaced on off last ((now, c) ∷ cs) =
    (last +ℤ pos 1 ≤ℤ now) × ((c ≡ on) ⊎ (c ≡ off)) × (0 < length c) × IsSpaced on off now cs

IsSpaced-later :
    (on off : Text) (last now : ℤ) (cs : List (ℤ × Text))
    → last +ℤ pos 1 ≤ℤ now
    → IsSpaced on off now cs
    → IsSpaced on off last cs
IsSpaced-later on off last now [] le h = tt
IsSpaced-later on off last now ((t, c) ∷ cs) le (later, one, full, rest) =
    (omega (int_laws, later, le), one, full, rest)

ran_at-IsSpaced :
    (on off : Text) (last now : ℤ) (o : Option Text) (cs : List (ℤ × Text))
    → last +ℤ pos 1 ≤ℤ now
    → ((c : Text) → o ≡ some c → ((c ≡ on) ⊎ (c ≡ off)) × (0 < length c))
    → IsSpaced on off now cs
    → IsSpaced on off last (ran_at now o cs)
ran_at-IsSpaced on off last now none cs le own h = IsSpaced-later on off last now cs le h
ran_at-IsSpaced on off last now (some c) cs le own h =
    let (one, full) = own c refl in (le, one, full, h)

le_of_ltb : (a b : ℕ) → ltb a b ≡ false → b ≤ a
le_of_ltb a b h = ground arith

-- A change that is not a bounce comes a second or more after the last one that counted.
not_bounce :
    (now : ℤ) (i : Input)
    → i.input_output ≡ input_mode
    → is_bounce now i ≡ false
    → i.last_event_time +ℤ pos 1 ≤ℤ now
not_bounce now i mode h = elim (Bool-cases (ltb_ℤ (now -ℤ i.last_event_time) (pos 1))) [
  | inl short ↦ let full : is_bounce now i ≡ true = rw (short, mode) refl in cc (full)
  | inr long ↦ omega (int_laws, le_of_ltb _ _ long)
]

chosen :
    (a b : Bool) (x y c : Text)
    → a ≡ true
    → (if a then some x else if b then some y else none) ≡ some c
    → x ≡ c
chosen a b x y c e h = ground arith

chosen_next :
    (a b : Bool) (x y c : Text)
    → a ≡ false
    → b ≡ true
    → (if a then some x else if b then some y else none) ≡ some c
    → y ≡ c
chosen_next a b x y c e f h = ground arith

not_chosen :
    (a b : Bool) (x y c : Text)
    → a ≡ false
    → b ≡ false
    → (if a then some x else if b then some y else none) ≡ some c
    → ⊥
not_chosen a b x y c e f h = ground arith

command_for-own :
    (level : ℤ) (i : Input) (c : Text)
    → command_for level i ≡ some c
    → ((c ≡ i.command_on) ⊎ (c ≡ i.command_off)) × (0 < length c)
unfolding command_for
command_for-own level i c e =
    elim (Bool-cases (eqb_ℤ level i.on_state && ltb 0 (length i.command_on))) [
      | inl on ↦
          let same : i.command_on ≡ c = chosen _ _ _ _ c on e in
          rw (← same) (inl refl, ltb→lt 0 _ (and_right _ _ on))
      | inr other ↦
          elim (Bool-cases (eqb_ℤ level (lnot i.on_state) && ltb 0 (length i.command_off))) [
            | inl off ↦
                let same : i.command_off ≡ c = chosen_next _ _ _ _ c other off e in
                rw (← same) (inr refl, ltb→lt 0 _ (and_right _ _ off))
            | inr neither ↦ absurd (not_chosen _ _ _ _ c other neither e)
          ]
    ]

module _ ⦃P : Platform⦄ where
  -- Whatever changes of an input's pin are reported, in whatever order of times, each command that
  -- event_trigger runs is the input's command for on or for off and not empty, and comes a second
  -- or more after the one before it and after the last change that had counted.
  pub run_triggers-IsSpaced :
      (ts : List (ℤ × P.Board)) (i : Input)
      → i.input_output ≡ input_mode
      → IsSpaced i.command_on i.command_off i.last_event_time (run_triggers ts i)
  unfolding run_triggers
  run_triggers-IsSpaced [] i mode = tt
  run_triggers-IsSpaced ((now, b) ∷ ts) i mode = elim (Bool-cases (is_bounce now i)) [
    | inl bounce ↦ rw bounce (run_triggers-IsSpaced ts i mode)
    | inr counts ↦
        let level = P.digital_read b i.pin in
        rw counts (
          ran_at-IsSpaced i.command_on i.command_off i.last_event_time now (command_for level i) _
            (not_bounce now i mode counts) (command_for-own level i)
            (run_triggers-IsSpaced ts (record i { last_event_time = now; last_event_state = level })
              mode))
  ]
