-- ===== src/Text.antt =====
-- The C library's functions on text that the requests use, and `str2int` of utils.c. A text is the
-- list of its bytes, without the NUL at its end.
use Prim.Native.Char.{code}
use Prim.Native.String.{String}
use sprinkler_d.Prelude.{
  ℕ, zero, suc, ◌+◌, ◌-◌, ◌*◌, ℤ, pos, Bool, true, false, ◌&&◌, ◌||◌, List, [], ◌∷◌, map,
  if◌then◌else◌, ◌==◌, leb, neg_ℕ,
}

abbrev pub Text : Type 0
Text = List ℕ

unfoldable pub bytes : String → Text
bytes String.[] = []
bytes (String.◌∷◌ c s) = code c ∷ bytes s

-- `strncmp(a, b, n) == 0`
unfoldable pub same_upto : ℕ → Text → Text → Bool
same_upto zero a b = true
same_upto (suc n) [] [] = true
same_upto (suc n) [] (y ∷ b) = false
same_upto (suc n) (x ∷ a) [] = false
same_upto (suc n) (x ∷ a) (y ∷ b) = (x == y) && same_upto n a b

-- `strcmp(a, b) == 0`
unfoldable pub same_text : Text → Text → Bool
same_text [] [] = true
same_text [] (y ∷ b) = false
same_text (x ∷ a) [] = false
same_text (x ∷ a) (y ∷ b) = (x == y) && same_text a b

abbrev pub lower_byte : ℕ → ℕ
lower_byte c = if leb b'A' c && leb c b'Z' then c + 32 else c

-- `strncasecmp(a, b, n) == 0`
unfoldable pub same_upto_case : ℕ → Text → Text → Bool
unfolding same_upto
same_upto_case n a b = same_upto n (map lower_byte a) (map lower_byte b)

abbrev pub is_digit : ℕ → Bool
is_digit c = leb b'0' c && leb c b'9'

abbrev pub is_space : ℕ → Bool
is_space c = (c == b' ') || (leb b'\t' c && leb c b'\r')

-- The digits at the start, read behind the value `n`.
unfoldable pub digits : ℕ → Text → ℕ
digits n [] = n
digits n (c ∷ s) = elim (is_digit c) [ true ↦ digits (n * 10 + (c - b'0')) s | false ↦ n ]

abbrev pub skip_spaces : Text → Text
skip_spaces [] = []
skip_spaces (c ∷ s) = if is_space c then skip_spaces s else c ∷ s

-- A number with its sign, where one stands in front.
abbrev signed : Text → ℤ
signed [] = pos 0
signed (c ∷ s) =
    if c == b'-'
    then neg_ℕ (digits 0 s)
    else if c == b'+'
    then pos (digits 0 s)
    else pos (digits 0 (c ∷ s))

unfoldable pub atoi : Text → ℤ
unfolding digits
atoi s = signed (skip_spaces s)

abbrev pub first : ℕ → Text → Text
first zero s = []
first (suc n) [] = []
first (suc n) (c ∷ s) = c ∷ first n s

unfoldable pub str2int : Text → ℕ → ℤ
unfolding digits
str2int s len = pos (digits 0 (first len s))
