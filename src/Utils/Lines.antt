-- ===== src/Utils/Lines.antt =====
-- The lines of the log fit the buffer, and each is one line at its end.
use sprinkler_d.Prelude.{
  ℕ, zero, suc, ◌+◌, ◌-◌, ◌≤◌, ◌<◌, ℤ, ◌≡◌, refl, inl, inr, Bool-cases, true, false, [], ◌∷◌, ◌++◌,
  length, leb, ◌==◌, arith,
}
use sprinkler_d.Text.{Text, bytes, first}
use sprinkler_d.Utils.Log.{elevel2text, mxprnt, spaces, body, ends_line, log_line}

pub length-append : (a b : Text) → length (a ++ b) ≡ length a + length b
length-append [] b = omega arith
length-append (c ∷ a) b = omega (arith, length-append a b)

length-first : (n : ℕ) (t : Text) → length (first n t) ≤ n
length-first zero t = omega arith
length-first (suc n) [] = omega arith
length-first (suc n) (c ∷ t) = omega (arith, length-first n t)

length-spaces : (n : ℕ) → length (spaces n) ≡ n
length-spaces zero = omega arith
length-spaces (suc n) = omega (arith, length-spaces n)

elevel2text_bounds :
    (level : ℤ) → (1 ≤ length (elevel2text level)) × (length (elevel2text level) ≤ 8)
unfolding elevel2text bytes
elevel2text_bounds level = ground arith

-- A message of 502 bytes or more is cut off, and ends in a newline.
body_bounds : (m : Text) → length (body m) ≤ 504
unfolding body bytes
body_bounds m = elim (Bool-cases (leb (mxprnt - 10) (length m))) [
  | inl long ↦
      rw long (omega (arith, length-append (first 499 m) (bytes "....\n"), length-first 499 m))
  | inr short ↦ rw short (ground arith)
]

ends_snoc : (t : Text) (c : ℕ) → ends_line (t ++ (c ∷ [])) ≡ (c == b'\n')
ends_snoc [] c = refl
ends_snoc (d ∷ []) c = refl
ends_snoc (d ∷ e ∷ t) c = ends_snoc (e ∷ t) c

-- The line before a newline is added.
abbrev unended : ℤ → Text → Text
unended level m = let name = elevel2text level in name ++ (spaces (8 - length name) ++ body m)

length-unended : (level : ℤ) (m : Text) → length (unended level m) ≡ 8 + length (body m)
length-unended level m =
    let name = elevel2text level in
    omega (
      arith,
      length-append name (spaces (8 - length name) ++ body m),
      length-append (spaces (8 - length name)) (body m),
      length-spaces (8 - length name),
      elevel2text_bounds level,
    )

ends-append : (a b : Text) → ends_line b ≡ true → ends_line (a ++ b) ≡ true
ends-append [] b h = h
ends-append (c ∷ []) [] h = cc
ends-append (c ∷ []) (d ∷ b) h = h
ends-append (c ∷ d ∷ a) b h = ends-append (d ∷ a) b h

cut_ends : (m : Text) → leb (mxprnt - 10) (length m) ≡ true → ends_line (body m) ≡ true
unfolding body bytes
cut_ends m long = rw long (ends-append (first 499 m) (bytes "....\n") refl)

lt_of_leb : (a b : ℕ) → leb a b ≡ false → b < a
lt_of_leb a b h = ground arith

-- A line that is not ended has a message that was not cut off.
short_of_unended :
    (level : ℤ) (m : Text) → ends_line (unended level m) ≡ false → length (body m) ≤ 501
unfolding body
short_of_unended level m h = elim (Bool-cases (leb (mxprnt - 10) (length m))) [
  | inl long ↦
      let name = elevel2text level in
      let ends : ends_line (unended level m) ≡ true =
        ends-append name _ (ends-append (spaces (8 - length name)) (body m) (cut_ends m long)) in
      cc (ends)
  | inr short ↦ rw short (omega (arith, lt_of_leb _ _ short))
]

-- Whatever the level and however long the message, the line that logMessage puts together fits its
-- buffer of 513 bytes with the NUL behind it, and ends in a newline.
pub log_line_bounds :
    (level : ℤ) (m : Text)
    → (length (log_line level m) ≤ mxprnt) × (ends_line (log_line level m) ≡ true)
unfolding log_line
log_line_bounds level m = elim (Bool-cases (ends_line (unended level m))) [
  | inl ended ↦ rw ended (omega (arith, length-unended level m, body_bounds m), ended)
  | inr open_line ↦ rw open_line (
    omega (
      arith,
      length-append (unended level m) (b'\n' ∷ []),
      length-unended level m,
      short_of_unended level m open_line,
    ),
    ends_snoc (unended level m) b'\n',
  )
]
