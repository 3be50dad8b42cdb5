-- ===== src/Utils/Replace.antt =====
-- utils.c: `count_characters` and `replace`. The C library's strstr is written out; a buffer's size is in bytes.
use Prim.Native.Nat.{◌%◌, ◌^◌}
use sprinkler_d.Prelude.{
  ℕ, zero, suc, ◌+◌, ◌-◌, ◌*◌, Option, none, some, [], ◌∷◌, ◌++◌, length, if◌then◌else◌, ◌==◌,
}
use sprinkler_d.Text.{Text, first, same_upto}

-- The loop over the text's bytes, the NUL at its end included.
unfoldable pub count_characters : Text → ℕ → ℕ
count_characters [] c = if c == 0 then 1 else 0
count_characters (d ∷ s) c = let n = count_characters s c in if d == c then suc n else n

-- The place of the first `pattern`.
unfoldable pub strstr : Text → Text → Option ℕ
strstr [] pattern = if same_upto (length pattern) pattern [] then some 0 else none
strstr (c ∷ s) pattern =
    if same_upto (length pattern) pattern (c ∷ s)
    then some 0
    else elim (strstr s pattern) [ none ↦ none | some k ↦ some (suc k) ]

-- `s + n`
abbrev pub behind : ℕ → Text → Text
behind zero s = s
behind (suc n) [] = []
behind (suc n) (c ∷ s) = behind n s

-- How many times the pattern occurs, from the text's start on, on fuel; none is the end of the fuel.
unfoldable pub count_patterns : ℕ → Text → Text → Option ℕ
unfolding strstr
count_patterns zero s pattern = none
count_patterns (suc fuel) s pattern = elim (strstr s pattern) [
  | none ↦ some 0
  | some k ↦ elim (count_patterns fuel (behind (k + length pattern) s) pattern) [
    | none ↦ none
    | some n ↦ some (suc n)
  ]
]

-- The copy, with the replacement for each pattern.
unfoldable pub copy_replaced : ℕ → Text → Text → Text → Option Text
unfolding strstr
copy_replaced zero s pattern replacement = none
copy_replaced (suc fuel) s pattern replacement = elim (strstr s pattern) [
  | none ↦ some s
  | some k ↦ elim (copy_replaced fuel (behind (k + length pattern) s) pattern replacement) [
    | none ↦ none
    | some t ↦ some (first k s ++ (replacement ++ t))
  ]
]

-- The modulus of `size_t`.
abbrev pub size_mod : ℕ
size_mod = 2 ^ 64

-- `retlen + 1`
abbrev pub returned_size : ℕ → Text → Text → Text → ℕ
returned_size n s pattern replacement =
    (length s + n * ((length replacement + size_mod - length pattern) % size_mod) + 1) % size_mod

abbrev pub with_size : Option ℕ → Option Text → Text → Text → Text → Option (Text × ℕ)
with_size none t s pattern replacement = none
with_size (some n) none s pattern replacement = none
with_size (some n) (some t) s pattern replacement = some (t, returned_size n s pattern replacement)

-- The new text and the size of its buffer, where malloc succeeds.
unfoldable pub replace : ℕ → Text → Text → Text → Option (Text × ℕ)
unfolding count_patterns copy_replaced
replace fuel s pattern replacement =
    with_size (count_patterns fuel s pattern) (copy_replaced fuel s pattern replacement) s pattern
      replacement
