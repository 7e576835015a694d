-- ===== src/BestConfig/Decode.antt =====
-- The hooks that `loads_strict` hands to `json.loads`: duplicate keys, and integer literals beyond the
-- safe range, which are refused by their number of digits before `int()` is called.
use traigent_schema.Prelude.{
  ℕ, zero, suc, ◌+◌, ◌-◌, ◌*◌, ◌≤◌, ◌<◌, ◌≡◌, refl, false, not, List, [], ◌∷◌, arith, ltb, leb,
  ◌==◌, if◌then◌else◌, length, Bool-cases, inl, inr, All,
}
use traigent_schema.Python.Result.{Result, ok, err, ◌>>◌, guard}
use traigent_schema.Python.Text.{Text, text_mem}
use traigent_schema.Python.Int.{ℤ, abs, sub_ℕ, parse_int, digits_value}
use traigent_schema.BestConfig.{
  ProfileError, duplicate_property_name, unsafe_integral, max_safe_integer,
}

-- `len(str(_MAX_SAFE_INTEGER))`
abbrev pub safe_integer_digit_count : ℕ
safe_integer_digit_count = 16

-- `literal[1:] if literal.startswith("-") else literal`
unfoldable pub unsigned : Text → Text
unsigned [] = []
unsigned (c ∷ s) = if c == b'-' then s else c ∷ s

unfoldable pub parse_int_rejecting_unsafe_magnitude : Text → Result ProfileError ℤ
unfolding unsigned parse_int
parse_int_rejecting_unsafe_magnitude literal = do
  guard (not (ltb safe_integer_digit_count (length (unsigned literal)))) unsafe_integral
  guard (not (ltb max_safe_integer (abs (parse_int literal)))) unsafe_integral
  ok (parse_int literal)

module _ {ℓ} {V : Type ℓ} where
  -- `for key, _ in pairs`, with the keys seen so far
  unfoldable pub reject_seen : List Text → List (Text × V) → Result ProfileError (Unit {0})
  reject_seen seen [] = ok tt
  reject_seen seen ((k, v) ∷ pairs) = do
    guard (not (text_mem k seen)) duplicate_property_name
    reject_seen (k ∷ seen) pairs

  -- `dict(pairs)` of pairs with distinct keys is the pairs
  unfoldable pub reject_duplicate_object_keys :
      List (Text × V) → Result ProfileError (List (Text × V))
  unfolding reject_seen text_mem
  reject_duplicate_object_keys pairs = do reject_seen [] pairs; ok pairs

-- no two entries have the same key
abbrev pub Distinct : List Text → Type 0
Distinct [] = Unit
Distinct (k ∷ ks) = (text_mem k ks ≡ false) × Distinct ks

abbrev pub keys_of {ℓ} : {V : Type ℓ} → List (Text × V) → List Text
keys_of [] = []
keys_of ((k, v) ∷ pairs) = k ∷ keys_of pairs

-- a literal's digits: no leading zero but in a number of one digit
abbrev pub IsDigit : ℕ → Type 0
IsDigit c = (b'0' ≤ c) × (c ≤ b'9')

abbrev pub IsNumeral : Text → Type 0
IsNumeral [] = ⊥
IsNumeral (c ∷ []) = IsDigit c
IsNumeral (c ∷ d ∷ s) = (b'0' < c) × (c ≤ b'9') × IsDigit d × All IsDigit s

-- `a` followed by `k` zeros
abbrev tens : ℕ → ℕ → ℕ
tens zero a = a
tens (suc k) a = tens k (a * 10)

tens_mono : (k a b : ℕ) → a ≤ b → tens k a ≤ tens k b
tens_mono zero a b h = h
tens_mono (suc k) a b h = tens_mono k (a * 10) (b * 10) (omega arith)

digits_value-ge : (a : ℕ) (s : Text) → a ≤ digits_value a s
unfolding digits_value
digits_value-ge a [] = omega arith
digits_value-ge a (c ∷ s) = omega (arith, digits_value-ge (a * 10 + (c - b'0')) s)

-- more digits are a larger number
digits_value-long : (k a : ℕ) (s : Text) → k ≤ length s → tens k a ≤ digits_value a s
unfolding digits_value
digits_value-long zero a s h = digits_value-ge a s
digits_value-long (suc k) a [] h = absurd (omega arith)
digits_value-long (suc k) a (c ∷ s) h =
    omega (
      arith,
      digits_value-long k (a * 10 + (c - b'0')) s,
      tens_mono k (a * 10) (a * 10 + (c - b'0')),
    )

numeral_long :
    (s : Text)
    → IsNumeral s
    → safe_integer_digit_count < length s
    → max_safe_integer < digits_value 0 s
unfolding digits_value
numeral_long [] n h = absurd (omega arith)
numeral_long (c ∷ []) n h = absurd (omega arith)
numeral_long (c ∷ d ∷ s) n h =
    let more : max_safe_integer < digits_value (0 * 10 + (c - b'0')) (d ∷ s) = omega (
      arith,
      digits_value-long 16 (0 * 10 + (c - b'0')) (d ∷ s) (omega arith),
      tens_mono 16 1 (0 * 10 + (c - b'0')) (omega arith),
    ) in
    more

numeral_head : (c : ℕ) (s : Text) → IsNumeral (c ∷ s) → IsDigit c
numeral_head c [] n = n
numeral_head c (d ∷ s) n = (omega arith, n.1)

abs-parse_int :
    (literal : Text)
    → IsNumeral (unsigned literal)
    → abs (parse_int literal) ≡ digits_value 0 (unsigned literal)
unfolding unsigned parse_int
abs-parse_int [] n = absurd n
abs-parse_int (c ∷ s) n = elim (Bool-cases (c == b'-')) [
  | inl minus ↦ rw minus (abs-negated (digits_value 0 s))
  | inr plain ↦ go plain
]
  where
    abs-negated : (n : ℕ) → abs (sub_ℕ 0 n) ≡ n
    abs-negated n = ground arith

    go : (c == b'-') ≡ false → abs (parse_int (c ∷ s)) ≡ digits_value 0 (unsigned (c ∷ s))
    go plain =
        let n' : IsNumeral (c ∷ s) = rw plain at n in
        let digit : IsDigit c = numeral_head c s n' in
        let no_plus : (c == b'+') ≡ false = ground (arith, digit) in rw (plain, no_plus) refl

-- For an integer literal of JSON the test on the number of digits changes no outcome: the hook
-- returns the number exactly when its magnitude is at most 2 ** 53 - 1, and rejects it otherwise.
pub parse_int_rejecting_exact :
    (literal : Text)
    → IsNumeral (unsigned literal)
    → parse_int_rejecting_unsafe_magnitude literal ≡ (
        if leb (abs (parse_int literal)) max_safe_integer
        then ok (parse_int literal)
        else err unsafe_integral)
unfolding parse_int_rejecting_unsafe_magnitude
parse_int_rejecting_exact literal n =
    ground (arith, abs-parse_int literal n, numeral_long (unsigned literal) n)
