-- ===== src/Domoticz/Parse.antt =====
-- json_messages.c: `parseJSONmqttrequest`, called for "svalue2". It reads the payload's bytes and
-- what the buffer holds behind them, up to a NUL.
use sprinkler_d.Prelude.{
  ℕ, zero, suc, ℤ, negsuc, Bool, true, false, ◌||◌, Option, none, some, [], ◌∷◌, ◌++◌, length,
  if◌then◌else◌, ◌==◌, leb, ltb,
}
use sprinkler_d.Text.{Text, bytes, same_upto, atoi, first}
use sprinkler_d.Domoticz.Defs.{DzMessage}

-- `DZ_SVALUE_LEN`, the size of the buffer for the text value.
abbrev pub dz_svalue_len : ℕ
dz_svalue_len = 20

-- `idx`, `nvalue`, `svalue` and `found`.
pub record Parsed : Type 0 where
  pub idx : ℤ
  pub nvalue : ℤ
  pub svalue : Text
  pub found : ℕ

-- How a value is read: as a number for `idx` or `nvalue`, or as a text.
pub data Key : Type 0 where
  idx_key nvalue_key svalue_key : Key

-- `while (str[i] == ':' || ...) i++`
abbrev pub skip_quotes : Text → Text
skip_quotes [] = []
skip_quotes (c ∷ t) =
    if (c == b':') || (c == b' ') || (c == b'"') || (c == b'\'') then skip_quotes t else c ∷ t

abbrev is_end : ℕ → Bool
is_end c = (c == b'"') || (c == b'\'') || (c == b',') || (c == b'}')

-- The bytes up to the first that ends a value; none is a text without one, where the loop runs on
-- behind the NUL.
unfoldable pub value_length : Text → Option ℕ
value_length [] = none
value_length (c ∷ t) = elim (is_end c) [
  | true ↦ some 0
  | false ↦ elim (value_length t) [ none ↦ none | some n ↦ some (suc n) ]
]

-- The copy into `svalue`, whose NUL lies behind the buffer where the value has 20 bytes or more.
unfoldable pub take_svalue : Text → Parsed → Option Parsed
unfolding value_length
take_svalue [] p = none
take_svalue (c ∷ t) p = elim (value_length t) [
  | none ↦ none
  | some n ↦
      if ltb (suc n) dz_svalue_len
      then some (record p { svalue = c ∷ first n t; found = suc p.found })
      else none
]

abbrev pub drop_text : ℕ → Text → Text
drop_text zero t = t
drop_text (suc n) [] = []
drop_text (suc n) (c ∷ t) = drop_text n t

-- What a `:` does, where `t` is the text behind it; the second part is how the loop goes on: for a
-- number behind the `:`, for a text behind the value's first byte.
unfoldable pub take_value : Key → Text → Parsed → Option (Parsed × Text)
unfolding take_svalue atoi
take_value idx_key t p = some (record p { idx = atoi t; found = suc p.found }, t)
take_value nvalue_key t p = some (record p { nvalue = atoi t; found = suc p.found }, t)
take_value svalue_key t p =
    let value = skip_quotes t in
    elim (take_svalue value p) [ none ↦ none | some q ↦ some (q, drop_text 1 value) ]

-- The loop behind a key up to a `,` or the end, on fuel.
unfoldable pub scan_value : ℕ → Key → Text → Parsed → Option (Parsed × Text)
unfolding take_value
scan_value zero key t p = some (p, t)
scan_value (suc fuel) key [] p = some (p, [])
scan_value (suc fuel) key (c ∷ t) p =
    if c == b','
    then some (p, c ∷ t)
    else if c == b':'
    then elim (take_value key t p) [ none ↦ none | some (q, u) ↦ scan_value fuel key u q ]
    else scan_value fuel key t p

-- The key that the text at a quote starts with, and its length with the quotes.
unfoldable pub key_at : Text → Option (Key × ℕ)
key_at t =
    if same_upto 5 (bytes "\"idx\"") t
    then some (idx_key, 5)
    else if same_upto 8 (bytes "\"nvalue\"") t
    then some (nvalue_key, 8)
    else if same_upto 9 (bytes "\"svalue2\"") t
    then some (svalue_key, 9)
    else none

-- The bytes of the payload that are left at a place, where `behind` bytes of the buffer follow it.
abbrev within : Text → ℕ → Bool
within t behind = ltb behind (length t)

-- The loop over the payload, on fuel; every round passes a byte.
unfoldable pub scan : ℕ → ℕ → Text → Parsed → Option Parsed
unfolding key_at scan_value
scan zero behind t p = some p
scan (suc fuel) behind t p =
    if within t behind
    then elim (key_at t) [
      | none ↦ scan fuel behind (drop_text 1 t) p
      | some (key, size) ↦ elim (scan_value (length t) key (drop_text size t) p) [
        | none ↦ none
        | some (q, u) ↦ if leb 4 q.found then some q else scan fuel behind (drop_text 1 u) q
      ]
    ]
    else some p

-- Where two values were found, the message is used. The outer none is an access outside a buffer.
unfoldable pub parse_mqtt_request : Text → Text → Option (Option DzMessage)
unfolding scan
parse_mqtt_request payload behind =
    let text = payload ++ behind in
    elim (scan (length text) (length behind) text
      (record { idx = negsuc 0; nvalue = negsuc 0; svalue = []; found = 0 })) [
        | none ↦ none
        | some p ↦
            if leb 2 p.found
            then some (some (record { idx = p.idx; nvalue = p.nvalue; svalue = p.svalue }))
            else some none
      ]
