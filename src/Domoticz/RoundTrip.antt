-- ===== src/Domoticz/RoundTrip.antt =====
-- parseJSONmqttrequest of the message that build_dz_mqtt_status_JSON writes.
use mathlib.Core.List.{append_assoc}
use sprinkler_d.Prelude.{
  ℕ, zero, suc, ◌+◌, ◌≤◌, ◌<◌, pos, negsuc, ◌≡◌, refl, sym, subst, ◌∙◌, true, false, none, some, [],
  ◌∷◌, ◌++◌, length, ltb, leb, ◌==◌, arith,
}
use sprinkler_d.Platform.{Platform}
use sprinkler_d.Text.{Text, bytes, is_digit, same_upto}
use sprinkler_d.Format.{decimal, decimal_ℕ}
use sprinkler_d.Format.Decimal.{AllDigits, decimal_ℕ-AllDigits, atoi-decimal_ℕ}
use sprinkler_d.Domoticz.Parse.{
  Parsed, Key, idx_key, nvalue_key, take_value, scan_value, drop_text, key_at, scan,
  parse_mqtt_request,
}
use sprinkler_d.Mqtt.Defs.{build_dz_mqtt_status}

length-append : (a b : Text) → length (a ++ b) ≡ length a + length b
length-append [] b = omega arith
length-append (c ∷ a) b = omega (arith, length-append a b)

-- No place of `xs` begins a key, where `behind` follows.
abbrev NoKeys : Text → Text → Type 0
NoKeys [] behind = Unit {0}
NoKeys (c ∷ xs) behind = (key_at (c ∷ (xs ++ behind)) ≡ none) × NoKeys xs behind

within_lt : (k n : ℕ) → k ≤ n → ltb k (suc n) ≡ true
within_lt k n h = ground arith

not_within : (k : ℕ) → ltb k k ≡ false
not_within k = ground arith

-- Bytes without a key are passed over up to the end of the payload.
scan-NoKeys :
    (xs behind : Text) (fuel : ℕ) (p : Parsed)
    → NoKeys xs behind
    → scan fuel (length behind) (xs ++ behind) p ≡ some p
unfolding scan
scan-NoKeys xs behind zero p h = refl
scan-NoKeys [] behind (suc fuel) p h = rw (not_within (length behind)) refl
scan-NoKeys (c ∷ xs) behind (suc fuel) p (plain, h) =
    rw
      (
        within_lt (length behind) (length (xs ++ behind)) (omega (arith, length-append xs behind)),
        plain,
      )
      (scan-NoKeys xs behind fuel p h)

-- A byte that begins no key is passed over.
scan_skip :
    (c : ℕ) (t : Text) (k fuel : ℕ) (p : Parsed)
    → k ≤ length t
    → key_at (c ∷ t) ≡ none
    → scan (suc fuel) k (c ∷ t) p ≡ scan fuel k t p
unfolding scan
scan_skip c t k fuel p h plain = rw (within_lt k (length t) h, plain) refl

digit_not_comma : (c : ℕ) → is_digit c ≡ true → (c == b',') ≡ false
digit_not_comma c d = ground arith

digit_not_colon : (c : ℕ) → is_digit c ≡ true → (c == b':') ≡ false
digit_not_colon c d = ground arith

-- The digits of a value are passed over up to the comma.
scan_value-digits :
    (d : Text) (fuel : ℕ) (key : Key) (r : Text) (p : Parsed)
    → AllDigits d
    → length d < fuel
    → scan_value fuel key (d ++ (b',' ∷ r)) p ≡ some (p, b',' ∷ r)
unfolding scan_value
scan_value-digits d zero key r p h enough = absurd (omega arith)
scan_value-digits [] (suc fuel) key r p h enough = refl
scan_value-digits (c ∷ d) (suc fuel) key r p (digit, h) enough =
    rw (digit_not_comma c digit, digit_not_colon c digit)
      (scan_value-digits d fuel key r p h (omega arith))

scan_value-idx :
    (n fuel : ℕ) (r : Text) (p : Parsed)
    → length (decimal_ℕ n) < fuel
    → scan_value (suc fuel) idx_key (b':' ∷ (decimal_ℕ n ++ (b',' ∷ r))) p
      ≡ some (record p { idx = pos n; found = suc p.found }, b',' ∷ r)
unfolding scan_value take_value
scan_value-idx n fuel r p enough =
    rw (atoi-decimal_ℕ n b',' r refl)
      (scan_value-digits (decimal_ℕ n) fuel idx_key r _ (decimal_ℕ-AllDigits n) enough)

scan_value-nvalue :
    (n fuel : ℕ) (r : Text) (p : Parsed)
    → length (decimal_ℕ n) < fuel
    → scan_value (suc fuel) nvalue_key (b':' ∷ (decimal_ℕ n ++ (b',' ∷ r))) p
      ≡ some (record p { nvalue = pos n; found = suc p.found }, b',' ∷ r)
unfolding scan_value take_value
scan_value-nvalue n fuel r p enough =
    rw (atoi-decimal_ℕ n b',' r refl)
      (scan_value-digits (decimal_ℕ n) fuel nvalue_key r _ (decimal_ℕ-AllDigits n) enough)

-- A key with its value.
scan_key :
    (c : ℕ) (t u : Text) (k fuel size : ℕ) (key : Key) (p q : Parsed)
    → k ≤ length t
    → key_at (c ∷ t) ≡ some (key, size)
    → scan_value (suc (length t)) key (drop_text size (c ∷ t)) p ≡ some (q, b',' ∷ u)
    → leb 4 q.found ≡ false
    → scan (suc fuel) k (c ∷ t) p ≡ scan fuel k u q
unfolding scan
scan_key c t u k fuel size key p q h at value few =
    rw (within_lt k (length t) h, at) (rw value (rw few refl))

abbrev tail : Text → Text
tail behind = bytes "\"svalue\":\"\"}" ++ behind

abbrev from_nvalue : ℕ → Text → Text
from_nvalue v behind = bytes "\"nvalue\":" ++ (decimal_ℕ v ++ (b',' ∷ tail behind))

abbrev from_idx : ℕ → ℕ → Text → Text
from_idx i v behind = bytes "\"idx\":" ++ (decimal_ℕ i ++ (b',' ∷ from_nvalue v behind))

abbrev nothing : Parsed
nothing = record { idx = negsuc 0; nvalue = negsuc 0; svalue = []; found = 0 }

-- Where the loop ends with two values, they are the message.
parsed :
    (payload behind : Text) (p : Parsed)
    → scan (length (payload ++ behind)) (length behind) (payload ++ behind) nothing ≡ some p
    → leb 2 p.found ≡ true
    → parse_mqtt_request payload behind
      ≡ some (some (record { idx = p.idx; nvalue = p.nvalue; svalue = p.svalue }))
unfolding parse_mqtt_request
parsed payload behind p e enough = rw (e, parse_mqtt_request) (rw enough refl)

module _ (i v : ℕ) (behind : Text) where
  abbrev k : ℕ
  k = length behind

  abbrev with_idx : Parsed
  with_idx = record nothing { idx = pos i; found = 1 }

  scan-nvalue :
      (fuel : ℕ)
      → scan (suc fuel) k (from_nvalue v behind) with_idx
        ≡ scan fuel k (tail behind) (record with_idx { nvalue = pos v; found = 2 })
  unfolding bytes key_at same_upto
  scan-nvalue fuel =
      scan_key b'"' _ (tail behind) k fuel 8 nvalue_key with_idx _
        (omega (arith, length-append (decimal_ℕ v) (b',' ∷ tail behind))) refl
        (scan_value-nvalue v _ (tail behind) with_idx
          (omega (arith, length-append (decimal_ℕ v) (b',' ∷ tail behind))))
        refl

  scan-idx :
      (fuel : ℕ)
      → scan (suc fuel) k (from_idx i v behind) nothing
        ≡ scan fuel k (from_nvalue v behind) with_idx
  unfolding bytes key_at same_upto
  scan-idx fuel =
      let inner = length-append (decimal_ℕ v) (b',' ∷ tail behind) in
      scan_key b'"' _ (from_nvalue v behind) k fuel 5 idx_key nothing _
        (omega (arith, length-append (decimal_ℕ i) (b',' ∷ from_nvalue v behind), inner)) refl
        (scan_value-idx i _ (from_nvalue v behind) nothing
          (omega (arith, length-append (decimal_ℕ i) (b',' ∷ from_nvalue v behind))))
        refl

  tail-NoKeys : NoKeys (bytes "\"svalue\":\"\"}") behind
  unfolding bytes key_at same_upto
  tail-NoKeys = (
    refl,
    (refl, (refl, (refl, (refl, (refl, (refl, (refl, (refl, (refl, (refl, (refl, tt))))))))))),
  )

  scan-message :
      (fuel : ℕ)
      → scan (suc (suc (suc fuel))) k (b'{' ∷ from_idx i v behind) nothing
        ≡ some (record with_idx { nvalue = pos v; found = 2 })
  unfolding bytes key_at same_upto
  scan-message fuel =
      let inner = length-append (decimal_ℕ v) (b',' ∷ tail behind) in
      scan_skip b'{' (from_idx i v behind) k (suc (suc fuel)) nothing
        (omega (arith, length-append (decimal_ℕ i) (b',' ∷ from_nvalue v behind), inner)) refl
      ∙ scan-idx (suc fuel)
      ∙ scan-nvalue fuel
      ∙ scan-NoKeys (bytes "\"svalue\":\"\"}") behind fuel _ tail-NoKeys

module _ ⦃P : Platform⦄ where
  message-text :
      (i v : ℕ) (behind : Text)
      → build_dz_mqtt_status (pos i) (pos v) ++ behind ≡ b'{' ∷ from_idx i v behind
  unfolding build_dz_mqtt_status bytes decimal
  message-text i v behind = simp append_assoc

  -- For every index and every value that is not negative, and whatever follows the message in the
  -- buffer, parseJSONmqttrequest reads the index and the value of the message that
  -- build_dz_mqtt_status_JSON writes without a text value, with an empty text value and at no
  -- access outside a buffer.
  pub parse_mqtt_request-build :
      (i v : ℕ) (behind : Text)
      → parse_mqtt_request (build_dz_mqtt_status (pos i) (pos v)) behind
        ≡ some (some (record { idx = pos i; nvalue = pos v; svalue = [] }))
  unfolding bytes
  parse_mqtt_request-build i v behind =
      let p : Parsed = record { idx = pos i; nvalue = pos v; svalue = []; found = 2 } in
      parsed _ behind p
        (subst (λ t. scan (length t) (length behind) t nothing ≡ some p)
          (sym (message-text i v behind)) (scan-message i v behind _))
        refl
