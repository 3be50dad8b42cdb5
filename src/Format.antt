-- ===== src/Format.antt =====
-- What `sprintf` writes for a whole number, and C's division, which rounds towards zero.
pub mod Decimal
use Prim.Native.Nat.{◌/◌, ◌%◌}
use sprinkler_d.Prelude.{
  ℕ, zero, suc, ◌+◌, ℤ, pos, negsuc, [], ◌∷◌, ◌++◌, if◌then◌else◌, ltb, neg_ℕ,
}
use sprinkler_d.Text.{Text}

-- The digits of a number on fuel; a number has no more digits than its value plus one.
unfoldable pub decimal_digits : ℕ → ℕ → Text
decimal_digits zero n = []
decimal_digits (suc fuel) n =
    let rest = decimal_digits fuel (n / 10) in
    if ltb n 10 then (b'0' + n) ∷ [] else rest ++ ((b'0' + n % 10) ∷ [])

unfoldable pub decimal_ℕ : ℕ → Text
unfolding decimal_digits
decimal_ℕ n = decimal_digits (suc n) n

-- `%d`
unfoldable pub decimal : ℤ → Text
unfolding decimal_ℕ
decimal (pos n) = decimal_ℕ n
decimal (negsuc n) = b'-' ∷ decimal_ℕ (suc n)

-- `%02d`, and `%.2d` of a number that is not negative
unfoldable pub two_digits : ℤ → Text
unfolding decimal_ℕ
two_digits (pos n) = if ltb n 10 then b'0' ∷ decimal_ℕ n else decimal_ℕ n
two_digits (negsuc n) = b'-' ∷ decimal_ℕ (suc n)

abbrev pub quot : ℤ → ℕ → ℤ
quot (pos n) d = pos (n / d)
quot (negsuc n) d = neg_ℕ (suc n / d)

abbrev pub rem : ℤ → ℕ → ℤ
rem (pos n) d = pos (n % d)
rem (negsuc n) d = neg_ℕ (suc n % d)
