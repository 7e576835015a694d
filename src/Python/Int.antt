-- ===== src/Python/Int.antt =====
-- Python's `int` as a signed number over the native ones.
use traigent_schema.Prelude.{ℕ, suc, ◌+◌, ◌-◌, ◌*◌, Bool, [], ◌∷◌, leb, ◌==◌, if◌then◌else◌}
use traigent_schema.Python.Text.{Text, decimal}

-- `negsuc n` is -(n + 1)
pub data ℤ : Type 0 where
  pos : ℕ → ℤ
  negsuc : ℕ → ℤ

abbrev pub abs : ℤ → ℕ
abs (pos n) = n
abs (negsuc n) = suc n

abbrev pub pos_part : ℤ → ℕ
pos_part (pos n) = n
pos_part (negsuc n) = 0

abbrev pub neg_part : ℤ → ℕ
neg_part (pos n) = 0
neg_part (negsuc n) = suc n

-- a - b, as an integer
abbrev pub sub_ℕ : ℕ → ℕ → ℤ
sub_ℕ a b = if leb b a then pos (a - b) else negsuc (b - a - 1)

infixl 65 ◌+ℤ◌ ◌-ℤ◌
unfoldable pub ◌+ℤ◌ : ℤ → ℤ → ℤ
a +ℤ b = sub_ℕ (pos_part a + pos_part b) (neg_part a + neg_part b)

unfoldable pub ◌-ℤ◌ : ℤ → ℤ → ℤ
a -ℤ b = sub_ℕ (pos_part a + neg_part b) (neg_part a + pos_part b)

-- `a <= b`
abbrev pub ℤ_leb : ℤ → ℤ → Bool
ℤ_leb a b = leb (pos_part a + neg_part b) (pos_part b + neg_part a)

-- `str(n)`
unfoldable pub int_text : ℤ → Text
int_text (pos n) = decimal n
int_text (negsuc n) = b'-' ∷ decimal (suc n)

-- the number that decimal digits stand for, after `acc`
unfoldable pub digits_value : ℕ → Text → ℕ
digits_value acc [] = acc
digits_value acc (c ∷ s) = digits_value (acc * 10 + (c - b'0')) s

-- `int(text)` of an optional sign and digits
unfoldable pub parse_int : Text → ℤ
unfolding digits_value
parse_int [] = pos 0
parse_int (c ∷ s) =
    if c == b'-'
    then sub_ℕ 0 (digits_value 0 s)
    else if c == b'+'
    then pos (digits_value 0 s)
    else pos (digits_value 0 (c ∷ s))
