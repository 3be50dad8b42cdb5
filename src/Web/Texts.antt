-- ===== src/Web/Texts.antt =====
-- The texts of the web requests are built from zones and days that are there; only the status may not fit.
use sprinkler_d.Prelude.{
  ℕ, zero, suc, ◌+◌, ◌-◌, ℤ, ◌≤◌, ◌≡◌, Bool, Bool-cases, true, false, ltb, List, [], inl, inr,
  length, get_elem?_lt, sym, subst, if◌then◌else◌, arith,
}
use sprinkler_d.Platform.{Platform, Driver}
use sprinkler_d.Text.{Text}
use sprinkler_d.State.{zone_at, GpioCfg, CalendarDay, State, Run, fault, done, Cmd, pure, and_then}
use sprinkler_d.Zones.Pins.{is_none}
use sprinkler_d.Zones.Panel.{zone_at-some}
use sprinkler_d.Mqtt.Broadcast.{first_zone}
use sprinkler_d.Startup.Shutdown.{first_ok}
use sprinkler_d.Web.Defs.{
  Reply, no_reply, sprinkler_json, calendar_json, advanced_json, homebridge_json, unknown_request,
  unknown_option, unknown_zone, unknown_state, bad_runtime, built,
}
use sprinkler_d.Web.Json.{
  status_text, status_buffer, zones_text, zone_state, build_sprinkler, zone_runtime, runtimes_text,
  has_start, days_text, cal_runtime, cal_day, build_sprinkler_cal, zone_object, active_text,
  advanced_runtime, advanced_day, build_advanced_sprinkler, device_object,
  build_homebridge_sprinkler,
}
use sprinkler_d.Web.Changes.{day_at-in}
use sprinkler_d.Web.Serve.{answer}
use sprinkler_d.Sound.{Sound}

module _ ⦃P : Platform⦄ where
  -- The status text of the state fits `status[50]`.
  abbrev pub fits : State → Bool
  fits s = ltb (length (status_text s)) 50

  -- A text that is built ends, with the state as it was, or at a fault where the status does not fit.
  pub data Read {A : Type 0} (s : State) : Run A → Type 0 where
    unread : fits s ≡ false → Read s fault
    read : (a : A) → Read s (done a s)

  pub Read-then :
      {A B : Type 0} {s : State} {r : Run A} (k : A → Cmd B)
      → Read s r
      → ((a : A) → Read s (k a s))
      → Read s (and_then r k)
  Read-then k (unread long) next = unread long
  Read-then k (read a) next = next a

  status-Read : (s : State) → Read s (status_buffer s)
  unfolding status_buffer
  status-Read s = elim (Bool-cases (fits s)) [
    | inl short ↦ rw short (read _)
    | inr long ↦ rw long (unread long)
  ]

  zones-Read :
      (f : State → GpioCfg → Text) (rounds i : ℕ) (s : State)
      → length s.zonecfg ≡ suc s.zones
      → rounds + i ≤ suc s.zones
      → Read s (zones_text f rounds i s)
  unfolding zones_text
  zones-Read f zero i s size h = read _
  zones-Read f (suc rounds) i s size h =
      let (z, at) = get_elem?_lt s.zonecfg i (omega (arith, size)) in
      rw (zone_at-some s i z at)
        (Read-then _ (zones-Read f rounds (suc i) s size (omega arith)) λ rest. read _)

  runtimes-Read :
      (f : ℕ → ℤ → Text) (rs : List ℤ) (rounds i : ℕ) (s : State)
      → rounds + i ≤ length rs
      → Read s (runtimes_text f rs rounds i s)
  unfolding runtimes_text
  runtimes-Read f rs zero i s h = read _
  runtimes-Read f rs (suc rounds) i s h =
      let (r, at) = get_elem?_lt rs i (omega arith) in
      rw at (Read-then _ (runtimes-Read f rs rounds (suc i) s (omega arith)) λ text. read _)

  day-Read :
      (b : Bool) (m : Cmd Text) (s : State) → Read s (m s) → Read s ((if b then m else pure []) s)
  day-Read true m s h = h
  day-Read false m s h = read _

  module _ ⦃D : Driver⦄ where
    days-Read :
        (f : ℕ → CalendarDay → Cmd Text) (s : State)
        → ((day : ℕ) (d : CalendarDay) → length d.zruntimes ≡ s.zones → Read s (f day d s))
        → Sound s
        → (rounds day : ℕ) → rounds + day ≤ 7
        → Read s (days_text f rounds day s)
    unfolding days_text
    days-Read f s each h zero day hi = read _
    days-Read f s each h (suc rounds) day hi =
        let (d, at, size) = day_at-in s day (omega arith) h.tables.week h.tables.days in
        rw at (
          Read-then _ (day-Read (has_start d) (f day d) s (each day d size)) λ text.
            Read-then _ (days-Read f s each h rounds (suc day) (omega arith)) λ rest. read _)

    pub build_sprinkler-Read : (s : State) → Sound s → Read s (build_sprinkler s)
    unfolding build_sprinkler
    build_sprinkler-Read s h = Read-then _ (status-Read s) λ status.
        Read-then _ (zones-Read zone_state s.zones 1 s h.safe.2.wiring.size (omega arith))
          λ zones. read _

    cal_day-Read :
        (day : ℕ) (d : CalendarDay) (s : State)
        → length d.zruntimes ≡ s.zones
        → Read s (cal_day day d s)
    unfolding cal_day
    cal_day-Read day d s size =
        Read-then _ (runtimes-Read (cal_runtime day) d.zruntimes s.zones 0 s (omega (arith, size)))
          λ runtimes. read _

    advanced_day-Read :
        (day : ℕ) (d : CalendarDay) (s : State)
        → 1 ≤ s.zones
        → length d.zruntimes ≡ s.zones
        → Read s (advanced_day day d s)
    unfolding advanced_day
    advanced_day-Read day d s one size =
        Read-then _
          (runtimes-Read advanced_runtime d.zruntimes (s.zones - 1) 1 s (omega (arith, size, one)))
          λ runtimes. read _

    cal-Read : (s : State) → Sound s → Read s (build_sprinkler_cal s)
    unfolding build_sprinkler_cal
    cal-Read s h = Read-then _ (build_sprinkler-Read s h) λ start.
        Read-then _ (zones-Read zone_runtime s.zones 1 s h.safe.2.wiring.size (omega arith))
          λ zones.
            Read-then _
              (days-Read cal_day s (λ day d size. cal_day-Read day d s size) h 7 0 (omega arith))
              λ days. read _

    active-Read : (s : State) → Sound s → Read s (active_text s)
    unfolding active_text
    active-Read s h = elim h.safe.1 [
      | inl idle ↦ rw idle (read _)
      | inr (k, at, lo, hi) ↦
          let (z, here) = get_elem?_lt s.zonecfg k (omega (arith, h.safe.2.wiring.size)) in
          let found = subst (λ x. zone_at x s ≡ done z s) (sym at) (zone_at-some s k z here) in
          elim (Bool-cases (is_none s.current_zone.type)) [
            | inl idle ↦ rw idle (read _)
            | inr runs ↦ rw (runs, found) (read _)
          ]
    ]

    advanced-Read : (s : State) → Sound s → Read s (build_advanced_sprinkler s)
    unfolding build_advanced_sprinkler
    advanced-Read s h =
        Read-then _ (zones-Read zone_object s.zones 1 s h.safe.2.wiring.size (omega arith)) λ zones.
          Read-then _ (active-Read s h) λ active.
            Read-then _
              (days-Read advanced_day s (λ day d size. advanced_day-Read day d s h.safe.0 size) h 7
                0 (omega arith))
              λ days. read _

    homebridge-Read : (s : State) → Sound s → Read s (build_homebridge_sprinkler s)
    unfolding build_homebridge_sprinkler
    homebridge-Read s h =
        let (fitted, total) = first_ok s.master_valve s.zones in
        Read-then _
          (zones-Read device_object (suc s.zones - first_zone s) (first_zone s) s
            h.safe.2.wiring.size (omega (arith, total)))
          λ zones. read _

    pub answer-Read : (r : Reply) (s : State) → Sound s → Read s (answer r s)
    unfolding answer
    answer-Read no_reply s h = read _
    answer-Read sprinkler_json s h = build_sprinkler-Read s h
    answer-Read calendar_json s h = cal-Read s h
    answer-Read advanced_json s h = advanced-Read s h
    answer-Read homebridge_json s h = homebridge-Read s h
    answer-Read unknown_request s h = read _
    answer-Read unknown_option s h = read _
    answer-Read (unknown_zone zone) s h = read _
    answer-Read (unknown_state zone state) s h = read _
    answer-Read (bad_runtime zone runtime) s h = read _
    answer-Read (built text) s h = read _
