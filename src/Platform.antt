-- ===== src/Platform.antt =====
-- What the program takes from outside its own files: the GPIO driver (digitalRead and digitalWrite of
-- GPIO_Pi or wiringPi) and C's `float`. Both are parameters of the model.
use sprinkler_d.Prelude.{ℤ, pos, leb_ℤ, ◌&&◌, ◌≡◌, ◌≢◌, ◌⊎◌, Bool, true, ℕ, List}

pub record Platform : Type 1 where
  -- The pins' registers.
  pub Board : Type 0
  pub digital_read : Board → ℤ → ℤ
  -- The second part is the returned code, `GPIO_OK` (0) when the level was set.
  pub digital_write : Board → ℤ → ℤ → Board × ℤ
  -- `pinMode`, with INPUT (0) or OUTPUT (1)
  pub pin_mode : Board → ℤ → ℤ → Board
  -- C's `float`: conversions, what `%f` reads of the text that `%.1f` writes, `==`, `<` and `<=`.
  pub Real : Type 0
  pub real_of_int : ℤ → Real
  pub int_of_real : Real → ℤ
  pub real_tenth : Real → Real
  -- `atof`
  pub real_of_text : List ℕ → Real
  -- `printf` of a float with so many digits, and `strftime` of a time.
  pub real_text : ℕ → Real → List ℕ
  pub time_text : List ℕ → ℤ → List ℕ
  pub real_eqb : Real → Real → Bool
  pub real_ltb : Real → Real → Bool
  pub real_leb : Real → Real → Bool

abbrev pub gpio_ok : ℤ
gpio_ok = pos 0

-- The macro validGPIO, with GPIO_MIN and GPIO_MAX without wiringPi.
unfoldable pub valid_gpio : ℤ → Bool
valid_gpio x = leb_ℤ x (pos 27) && leb_ℤ (pos 2) x

-- LOW and HIGH.
abbrev pub IsLevel : ℤ → Type 0
IsLevel l = (l ≡ pos 0) ⊎ (l ≡ pos 1)

-- What a GPIO driver documents: a write to a pin that is set up as an output succeeds and is read
-- back, no write or mode changes the reading of another pin, a pin that is an output stays one, and
-- `pinMode` makes a pin an output where its number is one that the library takes, and does nothing to
-- another.
pub record Driver ⦃P : Platform⦄ : Type 1 where
  pub Output : P.Board → ℤ → Type 0
  pub write_ok :
      (b : P.Board) (p l : ℤ) → Output b p → IsLevel l → (P.digital_write b p l).1 ≡ gpio_ok
  pub read-write_self :
      (b : P.Board) (p l : ℤ)
      → Output b p
      → IsLevel l
      → P.digital_read (P.digital_write b p l).0 p ≡ l
  pub read-write_ne :
      (b : P.Board) (p q l : ℤ)
      → p ≢ q
      → P.digital_read (P.digital_write b p l).0 q ≡ P.digital_read b q
  pub Output-write : (b : P.Board) (p q l : ℤ) → Output b q → Output (P.digital_write b p l).0 q
  pub Output-mode_self :
      (b : P.Board) (p : ℤ) → valid_gpio p ≡ true → Output (P.pin_mode b p (pos 1)) p
  pub Output-mode : (b : P.Board) (p q m : ℤ) → p ≢ q → Output b q → Output (P.pin_mode b p m) q
  pub read-mode_ne :
      (b : P.Board) (p q m : ℤ) → p ≢ q → P.digital_read (P.pin_mode b p m) q ≡ P.digital_read b q
