-- ===== src/Utils/Replaced.antt =====
-- The replacement of a text comes to its end, and its buffer is as large as the new text and its NUL.
use Prim.Native.Nat.{◌%◌}
use native.Mathlib.Nat.{
  mod-eq_of_lt, mul-add, mul-le-mul_right, add-mod_right, add-mul-mod_self_right,
}
use sprinkler_d.Prelude.{
  ℕ, zero, suc, ◌+◌, ◌-◌, ◌*◌, ◌≤◌, ◌<◌, ◌≡◌, refl, inl, inr, Bool-cases, some, Option-cases, true,
  false, [], ◌∷◌, ◌++◌, length, ◌==◌, and_right, leb, sym, subst, ap, ◌∙◌, arith,
}
use sprinkler_d.Text.{Text, first, same_upto}
use sprinkler_d.Utils.Lines.{length-append}
use sprinkler_d.Utils.Replace.{strstr, behind, count_patterns, copy_replaced, size_mod, replace}

same_upto-length : (p s : Text) → (same_upto (length p) p s ≡ true) → length p ≤ length s
unfolding same_upto
same_upto-length [] s h = omega arith
same_upto-length (c ∷ p) [] h = cc
same_upto-length (c ∷ p) (d ∷ s) h =
    omega (arith, same_upto-length p s (and_right (c == d) (same_upto (length p) p s) h))

strstr-length : (s p : Text) (k : ℕ) → strstr s p ≡ some k → k + length p ≤ length s
unfolding strstr
strstr-length [] p k h = elim (Bool-cases (same_upto (length p) p [])) [
  | inl e ↦ let q = simp e at h in let z : k ≡ 0 = cc in omega (arith, same_upto-length p [] e)
  | inr e ↦ let q = simp e at h in cc
]
strstr-length (c ∷ s) p k h = elim (Bool-cases (same_upto (length p) p (c ∷ s))) [
  | inl e ↦ let q = simp e at h in let z : k ≡ 0 = cc in omega (arith, same_upto-length p (c ∷ s) e)
  | inr e ↦ elim (Option-cases (strstr s p)) [
    | inl f ↦ let q = simp (e, f) at h in cc
    | inr (j, f) ↦
        let q = simp (e, f) at h in let z : k ≡ suc j = cc in omega (arith, strstr-length s p j f)
  ]
]

length-first : (k : ℕ) (s : Text) → k ≤ length s → length (first k s) ≡ k
length-first zero s h = refl
length-first (suc k) [] h = omega arith
length-first (suc k) (c ∷ s) h = ap suc (length-first k s (omega arith))

length-behind : (n : ℕ) (s : Text) → n ≤ length s → n + length (behind n s) ≡ length s
length-behind zero s h = omega arith
length-behind (suc n) [] h = omega arith
length-behind (suc n) (c ∷ s) h = omega (arith, length-behind n s (omega arith))

-- A shorter replacement wraps around once for each pattern.
size_shorter :
    (M n s r d t : ℕ)
    → 0 < d
    → r + d < M
    → t + 1 < M
    → t + n * (r + d) ≡ s + n * r
    → (s + n * ((r + M - (r + d)) % M) + 1) % M ≡ t + 1
size_shorter M n s r d t pos pm tm e =
    let w : (r + M - (r + d)) % M ≡ M - d =
      (let q : r + M - (r + d) ≡ M - d = omega arith in
        ap (λ x. x % M) q ∙ mod-eq_of_lt (omega arith)) in
    let whole : n * ((M - d) + d) ≡ n * M = ap (λ x. n * x) (omega arith) in
    let v : s + n * ((r + M - (r + d)) % M) + 1 ≡ t + 1 + n * M =
      rw w (omega (arith, mul-add n r d, mul-add n (M - d) d, whole)) in
    rw v (add-mul-mod_self_right (t + 1) n M ∙ mod-eq_of_lt tm)

size_longer :
    (M n s p d t : ℕ)
    → p + d < M
    → t + 1 < M
    → t + n * p ≡ s + n * (p + d)
    → (s + n * ((p + d + M - p) % M) + 1) % M ≡ t + 1
size_longer M n s p d t rm tm e =
    let w : (p + d + M - p) % M ≡ d =
      (let q : p + d + M - p ≡ d + M = omega arith in
        ap (λ x. x % M) q ∙ (add-mod_right d M ∙ mod-eq_of_lt (omega arith))) in
    let v : s + n * ((p + d + M - p) % M) + 1 ≡ t + 1 = rw w (omega (arith, mul-add n p d)) in
    rw v (mod-eq_of_lt tm)

leb-le : (a b : ℕ) → leb a b ≡ true → a ≤ b
leb-le a b h = ground arith

leb-gt : (a b : ℕ) → leb a b ≡ false → b < a
leb-gt a b h = ground arith

size :
    (M n s p r t : ℕ)
    → p < M
    → r < M
    → t + 1 < M
    → t + n * p ≡ s + n * r
    → (s + n * ((r + M - p) % M) + 1) % M ≡ t + 1
size M n s p r t pm rm tm e = elim (Bool-cases (leb p r)) [
  | inl le ↦
      let above = leb-le p r le in
      let x : r ≡ p + (r - p) = omega arith in
      subst (λ y. (s + n * ((y + M - p) % M) + 1) % M ≡ t + 1) (sym x)
        (size_longer M n s p (r - p) t (omega arith) tm (subst (λ y. t + n * p ≡ s + n * y) x e))
  | inr gt ↦
      let below = leb-gt p r gt in
      let x : p ≡ r + (p - r) = omega arith in
      subst (λ y. (s + n * ((r + M - y) % M) + 1) % M ≡ t + 1) (sym x)
        (size_shorter M n s r (p - r) t (omega arith) (omega arith) tm
          (subst (λ y. t + n * y ≡ s + n * r) x e))
]

-- The count and the copy of a text come to their ends, and the lengths add up.
abbrev Replaced : ℕ → Text → Text → Text → Type 0
Replaced fuel s p r =
    (n : ℕ) × (t : Text) × (count_patterns fuel s p ≡ some n)
    × (copy_replaced fuel s p r ≡ some t)
    × (n ≤ length s)
    × (length t + n * length p ≡ length s + n * length r)

replaced : (fuel : ℕ) (s p r : Text) → 0 < length p → length s < fuel → Replaced fuel s p r
unfolding count_patterns copy_replaced
replaced zero s p r pos lt = absurd (omega arith)
replaced (suc fuel) s p r pos lt = elim (Option-cases (strstr s p)) [
  | inl e ↦
      (0, s, rw (e, count_patterns) refl, rw (e, copy_replaced) refl, omega arith, omega arith)
  | inr (k, e) ↦
      let fits = strstr-length s p k e in
      let rest = behind (k + length p) s in
      let l = length-behind (k + length p) s fits in
      let (n, t, c, d, few, sum) = replaced fuel rest p r pos (omega arith) in
      (
        suc n,
        first k s ++ (r ++ t),
        rw (e, count_patterns) (rw c refl),
        rw (e, copy_replaced) (rw d refl),
        omega arith,
        omega (
          arith,
          length-append (first k s) (r ++ t),
          length-append r t,
          length-first k s (omega arith),
        ),
      )
]

-- Where the pattern is not empty, and the pattern, the replacement and a text with a replacement
-- behind each of its bytes have fewer than 2^64 bytes, replace ends with fuel for one round more
-- than the text has bytes: the buffer it asks for, in arithmetic of size_t that wraps around where
-- the pattern is the longer, is as large as the new text and its NUL, and the new text differs in
-- length from the old by the difference of replacement and pattern for each pattern counted.
pub replace_ends :
    (fuel : ℕ) (s p r : Text)
    → 0 < length p
    → length s < fuel
    → length p < size_mod
    → length r < size_mod
    → length s + length s * length r + 1 < size_mod
    → (n : ℕ) × (t : Text) × (count_patterns fuel s p ≡ some n)
      × (replace fuel s p r ≡ some (t, length t + 1))
      × (length t + n * length p ≡ length s + n * length r)
unfolding replace
replace_ends fuel s p r pos enough pm rm tm =
    let (n, t, c, d, few, sum) = replaced fuel s p r pos enough in
    let less = mul-le-mul_right (length r) few in
    let e = size size_mod n (length s) (length p) (length r) (length t) pm rm (omega arith) sum in
    (n, t, c, rw c (rw d (ap (λ y. some (t, y)) e)), sum)
