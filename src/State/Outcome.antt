-- ===== src/State/Outcome.antt =====
-- Total correctness of a run: it ends, at no fault, and its result and state satisfy a predicate.
-- `Acts` says so of a run that changes nothing but the pins and the event mask, and `Effect` of one
-- that may change the current zone too.
use sprinkler_d.Prelude.{List}
use sprinkler_d.Platform.{Platform}
use sprinkler_d.State.Defs.{EventMask, Running}
use sprinkler_d.State.Config.{State, CacheLine, Run, done, Cmd, and_then}

module _ ⦃P : Platform⦄ where
  pub data Returns {A : Type 0} (Q : A → State → Type 0) : Run A → Type 0 where
    returns : {a : A} {s : State} → Q a s → Returns Q (done a s)

  abbrev pub moved : State → P.Board → EventMask → State
  moved s b e = record s { board = b; update_event_mask = e }

  pub data Acts {A : Type 0} (s : State) (Q : A → P.Board → Type 0) : Run A → Type 0 where
    acts : (a : A) (b : P.Board) (e : EventMask) → Q a b → Acts s Q (done a (moved s b e))

  pub Returns-and_then :
      {A B : Type 0} {r : Run A} {k : A → Cmd B} {Q : A → State → Type 0} {R : B → State → Type 0}
      → Returns Q r
      → ((a : A) (s : State) → Q a s → Returns R (k a s))
      → Returns R (and_then r k)
  Returns-and_then (returns q) next = next _ _ q

  pub Acts-widen :
      {B : Type 0} {s : State} {b : P.Board} {e : EventMask} {R : B → P.Board → Type 0} {r : Run B}
      → Acts (moved s b e) R r
      → Acts s R r
  Acts-widen (acts a b e q) = acts a b e q

  pub Acts-trans :
      {A B : Type 0} {s : State} {r : Run A} (k : A → Cmd B) {Q : A → P.Board → Type 0}
      {R : B → P.Board → Type 0}
      → Acts s Q r
      → ((a : A) (b : P.Board) (e : EventMask) → Q a b → Acts (moved s b e) R (k a (moved s b e)))
      → Acts s R (and_then r k)
  Acts-trans {s} k {R} (acts a b e q) next = Acts-widen {s = s} {b = b} {e = e} (next a b e q)

  pub Returns-mono :
      {A : Type 0} {Q R : A → State → Type 0} {r : Run A}
      → Returns Q r
      → ((a : A) (s : State) → Q a s → R a s)
      → Returns R r
  Returns-mono (returns q) weaken = returns (weaken _ _ q)

  pub Acts-mono :
      {A : Type 0} {s : State} {Q R : A → P.Board → Type 0} {r : Run A}
      → Acts s Q r
      → ((a : A) (b : P.Board) → Q a b → R a b)
      → Acts s R r
  Acts-mono (acts a b e q) weaken = acts a b e (weaken a b q)

  abbrev pub ran : State → Running → P.Board → EventMask → State
  ran s c b e = record s { current_zone = c; board = b; update_event_mask = e }

  pub data Effect {A : Type 0} (s : State) (Q : A → Running → P.Board → Type 0)
      : Run A → Type 0 where
    effect :
        (a : A) (c : Running) (b : P.Board) (e : EventMask)
        → Q a c b
        → Effect s Q (done a (ran s c b e))

  pub Effect-widen :
      {B : Type 0} {s : State} (c : Running) (b : P.Board) (e : EventMask)
      {R : B → Running → P.Board → Type 0} {r : Run B}
      → Effect (ran s c b e) R r
      → Effect s R r
  Effect-widen c b e (effect a c' b' e' q) = effect a c' b' e' q

  pub Effect-mono :
      {A : Type 0} {s : State} {Q R : A → Running → P.Board → Type 0} {r : Run A}
      → Effect s Q r
      → ((a : A) (c : Running) (b : P.Board) → Q a c b → R a c b)
      → Effect s R r
  Effect-mono (effect a c b e q) weaken = effect a c b e (weaken a c b q)

  pub Acts-then :
      {A B : Type 0} {s : State} {r : Run A} (k : A → Cmd B) {Q : A → P.Board → Type 0}
      {R : B → Running → P.Board → Type 0}
      → Acts s Q r
      → ((a : A) (b : P.Board) (e : EventMask) → Q a b → Effect (moved s b e) R (k a (moved s b e)))
      → Effect s R (and_then r k)
  Acts-then {s} k (acts a b e q) next = Effect-widen s.current_zone b e (next a b e q)

  pub Effect-then :
      {A B : Type 0} {s : State} {r : Run A} (k : A → Cmd B) {Q : A → Running → P.Board → Type 0}
      {R : B → Running → P.Board → Type 0}
      → Effect s Q r
      → ((a : A) (c : Running) (b : P.Board) (e : EventMask)
          → Q a c b
          → Effect (ran s c b e) R (k a (ran s c b e)))
      → Effect s R (and_then r k)
  Effect-then {s} k (effect a c b e q) next = Effect-widen c b e (next a c b e q)

  -- `Saves` allows a run to write the cache file too.
  abbrev pub saved : State → Running → P.Board → EventMask → List CacheLine → State
  saved s c b e f = record s { current_zone = c; board = b; update_event_mask = e; cache_file = f }

  pub data Saves {A : Type 0} (s : State) (Q : A → Running → P.Board → Type 0)
      : Run A → Type 0 where
    saves :
        (a : A) (c : Running) (b : P.Board) (e : EventMask) (f : List CacheLine)
        → Q a c b
        → Saves s Q (done a (saved s c b e f))

  pub Saves-mono :
      {A : Type 0} {s : State} {Q R : A → Running → P.Board → Type 0} {r : Run A}
      → Saves s Q r
      → ((a : A) (c : Running) (b : P.Board) → Q a c b → R a c b)
      → Saves s R r
  Saves-mono (saves a c b e f q) weaken = saves a c b e f (weaken a c b q)

  pub Saves-widen :
      {B : Type 0} {s : State} (c : Running) (b : P.Board) (e : EventMask) (f : List CacheLine)
      {R : B → Running → P.Board → Type 0} {r : Run B}
      → Saves (saved s c b e f) R r
      → Saves s R r
  Saves-widen c b e f (saves a c' b' e' f' q) = saves a c' b' e' f' q

  pub Saves-then :
      {A B : Type 0} {s : State} {r : Run A} (k : A → Cmd B) {Q : A → Running → P.Board → Type 0}
      {R : B → Running → P.Board → Type 0}
      → Saves s Q r
      → ((a : A) (c : Running) (b : P.Board) (e : EventMask) (f : List CacheLine)
          → Q a c b
          → Saves (saved s c b e f) R (k a (saved s c b e f)))
      → Saves s R (and_then r k)
  Saves-then {s} k (saves a c b e f q) next = Saves-widen c b e f (next a c b e f q)

  pub Effect-Saves :
      {A B : Type 0} {s : State} {r : Run A} (k : A → Cmd B) {Q : A → Running → P.Board → Type 0}
      {R : B → Running → P.Board → Type 0}
      → Effect s Q r
      → ((a : A) (c : Running) (b : P.Board) (e : EventMask)
          → Q a c b
          → Saves (ran s c b e) R (k a (ran s c b e)))
      → Saves s R (and_then r k)
  Effect-Saves {s} k (effect a c b e q) next = Saves-widen c b e s.cache_file (next a c b e q)

  pub Saves-Returns :
      {A B : Type 0} {s : State} {r : Run A} (k : A → Cmd B) {Q : A → Running → P.Board → Type 0}
      {R : B → State → Type 0}
      → Saves s Q r
      → ((a : A) (c : Running) (b : P.Board) (e : EventMask) (f : List CacheLine)
          → Q a c b
          → Returns R (k a (saved s c b e f)))
      → Returns R (and_then r k)
  Saves-Returns k (saves a c b e f q) next = next a c b e f q

  pub Returns-saved :
      {A : Type 0} {s : State} {Q : A → Running → P.Board → Type 0} {R : A → State → Type 0}
      {r : Run A}
      → Saves s Q r
      → ((a : A) (c : Running) (b : P.Board) (e : EventMask) (f : List CacheLine)
          → Q a c b
          → R a (saved s c b e f))
      → Returns R r
  Returns-saved (saves a c b e f q) weaken = returns (weaken a c b e f q)
