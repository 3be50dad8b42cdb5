-- ===== src/Format/Decimal.antt =====
-- `atoi` reads what `%d` writes.
use Prim.Native.Nat.{◌/◌, ◌%◌}
use mathlib.Core.List.{append_assoc}
use sprinkler_d.Prelude.{
  ℕ, zero, suc, ◌+◌, ◌-◌, ◌*◌, ◌<◌, pos, ◌≡◌, refl, ap, ◌∙◌, inl, inr, Bool-cases, true, false, [],
  ◌∷◌, ◌++◌, length, ltb, ltb→lt, ◌==◌, arith,
}
use sprinkler_d.Text.{Text, digits, is_digit, is_space, atoi}
use sprinkler_d.Format.{decimal_digits, decimal_ℕ}

abbrev pub AllDigits : Text → Type 0
AllDigits [] = Unit {0}
AllDigits (c ∷ s) = (is_digit c ≡ true) × AllDigits s

AllDigits-append : (a b : Text) → AllDigits a → AllDigits b → AllDigits (a ++ b)
AllDigits-append [] b h k = k
AllDigits-append (c ∷ a) b (d, h) k = (d, AllDigits-append a b h k)

digit-is_digit : (d : ℕ) → d < 10 → is_digit (b'0' + d) ≡ true
digit-is_digit d h = ground arith

decimal_digits-AllDigits : (fuel n : ℕ) → AllDigits (decimal_digits fuel n)
unfolding decimal_digits
decimal_digits-AllDigits zero n = tt
decimal_digits-AllDigits (suc fuel) n = elim (Bool-cases (ltb n 10)) [
  | inl one ↦ rw one (digit-is_digit n (ltb→lt n 10 one), tt)
  | inr more ↦ rw more (
      AllDigits-append (decimal_digits fuel (n / 10)) _ (decimal_digits-AllDigits fuel (n / 10))
        (digit-is_digit (n % 10) (omega arith), tt))
]

digits_step :
    (acc d : ℕ) (r : Text) → d < 10 → digits acc ((b'0' + d) ∷ r) ≡ digits (acc * 10 + d) r
unfolding digits
digits_step acc d r h =
    let same : acc * 10 + (b'0' + d - b'0') ≡ acc * 10 + d = omega arith in
    rw (digit-is_digit d h, digits) (ap (λ n. digits n r) same)

digits-decimal_digits :
    (fuel n : ℕ) (r : Text) → n < fuel → digits 0 (decimal_digits fuel n ++ r) ≡ digits n r
unfolding decimal_digits
digits-decimal_digits zero n r h = absurd (omega arith)
digits-decimal_digits (suc fuel) n r h = elim (Bool-cases (ltb n 10)) [
  | inl one ↦ rw one (digits_step 0 n r (ltb→lt n 10 one) ∙ ap (λ m. digits m r) (omega arith))
  | inr more ↦
      let d = b'0' + n % 10 in
      rw more (
        ap (digits 0) (append_assoc (decimal_digits fuel (n / 10)) (d ∷ []) r)
        ∙ digits-decimal_digits fuel (n / 10) (d ∷ r) (ground arith)
        ∙ digits_step (n / 10) (n % 10) r (omega arith)
        ∙ ap (λ m. digits m r) (omega arith))
]

not_space : (c : ℕ) → is_digit c ≡ true → is_space c ≡ false
not_space c d = ground arith

not_minus : (c : ℕ) → is_digit c ≡ true → (c == b'-') ≡ false
not_minus c d = ground arith

not_plus : (c : ℕ) → is_digit c ≡ true → (c == b'+') ≡ false
not_plus c d = ground arith

-- A number starts with a digit.
signed-digits :
    (s : Text) → AllDigits s → 0 < length s → (r : Text) → atoi (s ++ r) ≡ pos (digits 0 (s ++ r))
unfolding atoi
signed-digits [] h full r = absurd (omega arith)
signed-digits (c ∷ s) (d, h) full r =
    rw (not_space c d, atoi) (rw (not_minus c d, not_plus c d) refl)

snoc_full : (s : Text) (c : ℕ) → 0 < length (s ++ (c ∷ []))
snoc_full [] c = omega arith
snoc_full (d ∷ s) c = omega arith

decimal_ℕ_full : (n : ℕ) → 0 < length (decimal_ℕ n)
unfolding decimal_ℕ decimal_digits
decimal_ℕ_full n = elim (Bool-cases (ltb n 10)) [
  | inl one ↦ rw one (omega arith)
  | inr more ↦ rw more (snoc_full (decimal_digits n (n / 10)) (b'0' + n % 10))
]

pub decimal_ℕ-AllDigits : (n : ℕ) → AllDigits (decimal_ℕ n)
unfolding decimal_ℕ
decimal_ℕ-AllDigits n = decimal_digits-AllDigits (suc n) n

digits_stop : (n c : ℕ) (r : Text) → is_digit c ≡ false → digits n (c ∷ r) ≡ n
unfolding digits
digits_stop n c r stop = rw (stop, digits) refl

-- A number is read up to the first byte that is no digit.
pub atoi-decimal_ℕ :
    (n c : ℕ) (r : Text) → is_digit c ≡ false → atoi (decimal_ℕ n ++ (c ∷ r)) ≡ pos n
unfolding decimal_ℕ
atoi-decimal_ℕ n c r stop =
    signed-digits (decimal_ℕ n) (decimal_ℕ-AllDigits n) (decimal_ℕ_full n) (c ∷ r)
    ∙ ap pos (digits-decimal_digits (suc n) n (c ∷ r) (omega arith) ∙ digits_stop n c r stop)
