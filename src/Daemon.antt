-- ===== src/Daemon.antt =====
-- sprinkler.c: the rounds of `main_loop`, and the daemon as a sequence of events and rounds.
use sprinkler_d.Prelude.{
  ℕ, suc, ℤ, pos, ltb_ℤ, ltb, leb, not, ◌≡◌, inl, inr, subst, Bool, true, false, ◌&&◌, List,
  Bool-cases, if◌then◌else◌,
}
use sprinkler_d.Platform.{Platform, Driver}
use sprinkler_d.State.{State, any_event, Cmd, done, pure, gets, ◌>>=◌, ◌>>◌, returns}
use sprinkler_d.Zones.Cycle.{zc_check}
use sprinkler_d.Zones.Pins.{is_none}
use sprinkler_d.Zones.Check.{zc_check-Safe}
use sprinkler_d.Rain.Defs.{check_delay24h}
use sprinkler_d.Cron.Defs.{check_cron}
use sprinkler_d.Cron.Safety.{check_cron-Sound}
use sprinkler_d.Mqtt.Defs.{Connection, Net}
use sprinkler_d.Mqtt.Lifecycle.{Host, check_net_services}
use sprinkler_d.Mqtt.Broadcast.{broadcast_sprinklerdstate, broadcast_sprinklerdactivestate}
use sprinkler_d.Mqtt.Events.{Event, ev_handler}
use sprinkler_d.Mqtt.Published.{
  broadcast_sprinklerdstate-IsZoned, broadcast_sprinklerdactivestate-IsZoned,
}
use sprinkler_d.Mqtt.Handler.{Allowed, ev_handler-Held}
use sprinkler_d.Web.Held.{Held, Held-done}
use sprinkler_d.Zoned.{IsKept-IsZoned, IsZoned-bind, IsZoned-pure}
use sprinkler_d.Sound.{
  Sound, Sound-Effect, Keeps, Keeps-then, IsKept, IsKept-if, IsKept-pure, enable_delay24h-Sound,
}

module _ ⦃P : Platform⦄ where
  -- The checks of a round, in their order; the result is true where the state is broadcast. A
  -- check is left out where one before it says so.
  unfoldable pub check_round : Cmd Bool
  check_round = do
    check_cron
    due ← zc_check
    if due then pure true else do
      over ← check_delay24h
      if over then pure true else gets (λ s. any_event s.update_event_mask)

  unfoldable pub both_broadcasts : ℕ → Net → Cmd (ℕ × Net)
  both_broadcasts j n = do
    m ← broadcast_sprinklerdstate n
    o ← broadcast_sprinklerdactivestate m
    pure (j, o)

  unfoldable pub active_broadcast : Net → Cmd (ℕ × Net)
  active_broadcast n = do o ← broadcast_sprinklerdactivestate n; pure (0, o)

  -- The broadcasts that end a round, by whether the checks ask for them and the number of rounds
  -- since the last; the result has the new count.
  unfoldable pub round_broadcasts : Bool → ℕ → Bool → Net → Cmd (ℕ × Net)
  unfolding both_broadcasts active_broadcast
  round_broadcasts due i runs n =
      if due
      then both_broadcasts i n
      else if ltb 10 i && runs
      then active_broadcast n
      else if leb 600 i
      then both_broadcasts 0 n
      else pure (i, n)

  -- A round of the endless loop behind `mg_mgr_poll`, whose events are steps of their own; the wait of a
  -- second where MQTT is started again is left to the clock.
  unfoldable pub main_round : Host → ℕ → Net → Cmd (ℕ × Net)
  unfolding check_round round_broadcasts
  main_round h i n = do
    due ← check_round
    c ← gets (λ s. s.current_zone)
    (j, m) ← round_broadcasts due i (not (is_none c.type)) n
    pure (suc j, (check_net_services h m).1)

  -- What may happen to the daemon: an event of mongoose, a round of the loop, time that passes, and
  -- connections that come and go.
  pub data Step : Net → State → Net → State → Type 0 where
    event :
        (nc : ℕ) (e : Event) (n m : Net) (s t : State)
        → Allowed s n e
        → ev_handler nc e n s ≡ done m t
        → Step n s m t
    round :
        (h : Host) (i j : ℕ) (n m : Net) (s t : State)
        → main_round h i n s ≡ done (j, m) t
        → Step n s m t
    time_passes : (now : ℤ) (n : Net) (s : State) → Step n s n (record s { clock = now })
    reconnects :
        (cs : List Connection) (n : Net) (s : State) → Step n s (record n { connections = cs }) s

  pub data Steps : Net → State → Net → State → Type 0 where
    start : (n : Net) (s : State) → Steps n s n s
    next : (n m o : Net) (s t u : State) → Steps n s m t → Step m t o u → Steps n s o u

  module _ ⦃D : Driver⦄ where
    check_delay24h-Sound : (s : State) → Sound s → Keeps (check_delay24h s)
    unfolding check_delay24h
    check_delay24h-Sound s h =
        elim (Bool-cases (ltb_ℤ (pos 0) s.delay24h_time && ltb_ℤ s.delay24h_time s.clock)) [
          | inl over ↦ rw over (Keeps-then _ (enable_delay24h-Sound s false h) λ _ u k. returns k)
          | inr waits ↦ rw waits (returns h)
        ]

    delay_checked :
        (over : Bool) (s : State)
        → Sound s
        → Keeps ((if over then pure true else gets (λ s. any_event s.update_event_mask)) s)
    delay_checked true s h = returns h
    delay_checked false s h = returns h

    zone_checked :
        (due : Bool) (s : State)
        → Sound s
        → Keeps (
            (if due
                then pure true
                else (check_delay24h >>= λ over.
                    if over then pure true else gets (λ s. any_event s.update_event_mask)))
              s)
    zone_checked true s h = returns h
    zone_checked false s h = Keeps-then _ (check_delay24h-Sound s h) delay_checked

    -- From a state whose pins agree with the current zone and whose calendar has seven days with a
    -- run time for each zone, the checks of a round of the main loop end without an access outside
    -- an array and leave the state so.
    pub check_round-Sound : (s : State) → Sound s → Keeps (check_round s)
    unfolding check_round
    check_round-Sound s h =
        Keeps-then _ (check_cron-Sound s h)
          λ _ t k. Keeps-then _ (Sound-Effect k.tables (zc_check-Safe t k.safe)) zone_checked

    ended : {A : Type 0} (a : A) (t : State) → Keeps (done a t) → Sound t
    ended a t (returns h) = h

    pub both_broadcasts-IsKept : (j : ℕ) (n : Net) → IsKept (both_broadcasts j n)
    unfolding both_broadcasts
    both_broadcasts-IsKept j n = IsKept-IsZoned _ λ k.
        IsZoned-bind k _ _ (broadcast_sprinklerdstate-IsZoned k n) λ m.
          IsZoned-bind k _ _ (broadcast_sprinklerdactivestate-IsZoned k m)
            λ o. IsZoned-pure k (j, o)

    active-IsKept : (n : Net) → IsKept (active_broadcast n)
    unfolding active_broadcast
    active-IsKept n = IsKept-IsZoned _ λ k.
        IsZoned-bind k _ _ (broadcast_sprinklerdactivestate-IsZoned k n) λ o. IsZoned-pure k (0, o)

    round_broadcasts-IsKept :
        (due : Bool) (i : ℕ) (runs : Bool) (n : Net) → IsKept (round_broadcasts due i runs n)
    unfolding round_broadcasts
    round_broadcasts-IsKept due i runs n = IsKept-if due _ _ (both_broadcasts-IsKept i n) (
        IsKept-if (ltb 10 i && runs) _ _ (active-IsKept n)
          (IsKept-if (leb 600 i) _ _ (both_broadcasts-IsKept 0 n) (IsKept-pure (i, n))))

    -- From a state whose pins agree with the current zone and whose tables have the sizes the
    -- handlers rely on, a round of the main loop, with its checks and broadcasts, ends without an
    -- access outside an array and leaves the state so, whatever is connected and however long ago
    -- the last broadcast was.
    pub main_round-Sound :
        (s : State) (host : Host) (i : ℕ) (n : Net) → Sound s → Keeps (main_round host i n s)
    unfolding main_round
    main_round-Sound s host i n h = Keeps-then _ (check_round-Sound s h) λ due t k.
        Keeps-then _
          ((round_broadcasts-IsKept due i (not (is_none t.current_zone.type)) n).keeps t k)
          λ r u g. returns g

    Step-Sound : (n m : Net) (s t : State) → Step n s m t → Sound s → Sound t
    Step-Sound n m s t (event nc e _ _ _ _ allowed reached) h =
        Held-done false m t (subst (Held false) reached (ev_handler-Held s nc e n h allowed))
    Step-Sound n m s t (round host i j _ _ _ _ reached) h =
        ended (j, m) t (subst Keeps reached (main_round-Sound s host i n h))
    Step-Sound n m s t (time_passes now _ _) h = record { safe = h.safe; tables = h.tables }
    Step-Sound n m s t (reconnects cs _ _) h = h

    -- Whatever events of mongoose (web requests, MQTT messages, connections that open and close),
    -- rounds of the main loop and clock settings follow each other, where each event meets the
    -- conditions of ev_handler-Sound but for those on the buffers of a web request, and each step
    -- comes to its end, a state whose pins agree with the current zone and whose tables have the
    -- sizes the handlers rely on leads to such states only.
    pub Steps-Sound : (n m : Net) (s t : State) → Steps n s m t → Sound s → Sound t
    Steps-Sound n m s t (start _ _) h = h
    Steps-Sound n o s u (next _ m _ _ t _ before step) h =
        Step-Sound m o t u step (Steps-Sound n m s t before h)
