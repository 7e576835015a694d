-- ===== src/Fp2/Scalar.antt =====
-- The scalar encoders of traigent_schema/fp2.py: strings, safe integers, and finite floats in the
-- notation of ECMAScript's `Number::toString`.
use traigent_schema.Prelude.{
  ℕ, ◌+◌, ◌-◌, ◌/◌, ◌%◌, ◌^◌, Bool, ◌&&◌, not, List, [], ◌∷◌, ◌++◌, ltb, leb, ◌==◌, if◌then◌else◌,
  length, take, drop, replicate,
}
use traigent_schema.Python.Result.{Result, ok, ◌>>=◌, ◌>>◌, guard}
use traigent_schema.Python.Text.{Text, codes, decimal, partition, lstrip, rstrip}
use traigent_schema.Python.Int.{ℤ, pos, negsuc, abs, ◌+ℤ◌, ◌-ℤ◌, ℤ_leb, int_text, parse_int}
use traigent_schema.Python.Object.{Floats}

-- the reasons of `Fp2UnsupportedValue`
pub data Unsupported : Type 0 where
  lone_surrogate non_finite unsafe_integer non_plain_key too_deep circular unsupported_type :
      Unsupported

abbrev pub max_safe_integer : ℕ
max_safe_integer = 2 ^ 53 - 1

-- the UTF-16 big-endian bytes of one code point
unfoldable pub utf16_bytes : ℕ → List ℕ
utf16_bytes c =
    if ltb c 0x10000
    then c / 256 ∷ c % 256 ∷ []
    else (let v : ℕ = c - 0x10000 in
        let high : ℕ = 0xD800 + v / 0x400 in
        let low : ℕ = 0xDC00 + v % 0x400 in high / 256 ∷ high % 256 ∷ low / 256 ∷ low % 256 ∷ [])

abbrev pub is_surrogate : ℕ → Bool
is_surrogate c = leb 0xD800 c && leb c 0xDFFF

unfoldable pub utf16_sort_key : Text → Result Unsupported (List ℕ)
unfolding utf16_bytes
utf16_sort_key [] = ok []
utf16_sort_key (c ∷ s) = do
  guard (not (is_surrogate c)) lone_surrogate
  rest ← utf16_sort_key s
  ok (utf16_bytes c ++ rest)

-- `04x` of a code below 32
abbrev hex_digit : ℕ → ℕ
hex_digit d = if ltb d 10 then b'0' + d else b'a' + (d - 10)

unfoldable pub escape : ℕ → Text
escape c =
    if c == b'"'
    then codes "\\\""
    else if c == b'\\'
    then codes "\\\\"
    else if c == 10
    then codes "\\n"
    else if c == 13
    then codes "\\r"
    else if c == 9
    then codes "\\t"
    else if c == 8
    then codes "\\b"
    else if c == 12
    then codes "\\f"
    else if ltb c 32
    then codes "\\u00" ++ hex_digit (c / 16) ∷ hex_digit (c % 16) ∷ []
    else c ∷ []

unfoldable pub escape_all : Text → Text
unfolding escape
escape_all [] = []
escape_all (c ∷ s) = escape c ++ escape_all s

unfoldable pub encode_string : Text → Result Unsupported Text
unfolding utf16_sort_key escape_all
encode_string s = do key ← utf16_sort_key s; ok (b'"' ∷ escape_all s ++ b'"' ∷ [])

unfoldable pub encode_int : ℤ → Result Unsupported Text
unfolding int_text
encode_int n = do guard (leb (abs n) max_safe_integer) unsafe_integer; ok (int_text n)

-- `digits or "0"`
abbrev or_zero : Text → Text
or_zero [] = codes "0"
or_zero (c ∷ s) = c ∷ s

-- the exponent of a `repr`, 0 where there is none
abbrev exponent_of : Text → ℤ
exponent_of [] = pos 0
exponent_of (c ∷ s) = parse_int (c ∷ s)

-- `_shortest_digits`, on the text of `repr(value)`
unfoldable pub shortest_digits : Text → Text × ℤ
unfolding partition lstrip rstrip parse_int ◌+ℤ◌ ◌-ℤ◌
shortest_digits text =
    let (mantissa, exponent_text) = partition b'e' text in
    let (integer_part, fraction_part) = partition b'.' mantissa in
    let digits = integer_part ++ fraction_part in
    let n = pos (length integer_part) +ℤ exponent_of exponent_text in
    let stripped = lstrip b'0' digits in
    (or_zero (rstrip b'0' stripped), n -ℤ pos (length digits - length stripped))

abbrev significand : Text → Text
significand [] = []
significand (d ∷ []) = d ∷ []
significand (d ∷ e ∷ s) = d ∷ b'.' ∷ e ∷ s

-- the notation of `_ecmascript_number_to_string` for the digits of a positive value
unfoldable pub notation : Text → ℤ → Text
unfolding ◌-ℤ◌
notation digits n =
    let k = pos (length digits) in
    let exponent = n -ℤ pos 1 in
    if ℤ_leb k n && ℤ_leb n (pos 21)
    then digits ++ replicate (abs n - length digits) b'0'
    else if ℤ_leb (pos 1) n && ℤ_leb n (pos 21)
    then take (abs n) digits ++ b'.' ∷ drop (abs n) digits
    else if ℤ_leb (negsuc 4) n && ℤ_leb n (pos 0)
    then codes "0." ++ replicate (abs n) b'0' ++ digits
    else significand digits
      ++ b'e' ∷ (if ℤ_leb (pos 0) exponent then b'+' else b'-') ∷ decimal (abs exponent)

module _ (fl : Floats) where
  open fl use {Float, is_finite, is_zero, is_negative, negate, repr}

  -- of a value that is not below 0
  unfoldable pub positive_to_string : Float → Text
  unfolding shortest_digits notation
  positive_to_string x =
      if is_zero x
      then codes "0"
      else (let (digits, n) = shortest_digits (repr x) in notation digits n)

  -- the call on `-value` is on a value that is not below 0
  unfoldable pub ecmascript_number_to_string : Float → Text
  unfolding positive_to_string
  ecmascript_number_to_string x =
      if is_zero x
      then codes "0"
      else if is_negative x
      then b'-' ∷ positive_to_string (negate x)
      else positive_to_string x

  unfoldable pub encode_float : Float → Result Unsupported Text
  unfolding ecmascript_number_to_string
  encode_float x = do guard (is_finite x) non_finite; ok (ecmascript_number_to_string x)
