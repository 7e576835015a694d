-- ===== src/Python/BigEndian.antt =====
-- Unsigned integers as big-endian bytes, as `struct` and `int.to_bytes` write them.
use traigent_schema.Prelude.{
  ℕ, zero, suc, ◌+◌, ◌*◌, ◌/◌, ◌%◌, ◌<◌, ◌≡◌, refl, sym, ap, ◌∙◌, List, [], ◌∷◌, ◌++◌, arith,
  length, length-append,
}

-- 256 ^ w
abbrev pub byte_range : ℕ → ℕ
byte_range zero = 1
byte_range (suc w) = 256 * byte_range w

unfoldable pub be_bytes : ℕ → ℕ → List ℕ
be_bytes zero x = []
be_bytes (suc w) x = be_bytes w (x / 256) ++ x % 256 ∷ []

unfoldable pub of_be : ℕ → List ℕ → ℕ
of_be acc [] = acc
of_be acc (b ∷ bytes) = of_be (acc * 256 + b) bytes

pub length-be_bytes : (w x : ℕ) → length (be_bytes w x) ≡ w
unfolding be_bytes
length-be_bytes zero x = refl
length-be_bytes (suc w) x =
    omega (arith, length-append (be_bytes w (x / 256)) (x % 256 ∷ []), length-be_bytes w (x / 256))

of_be-snoc : (acc : ℕ) (s : List ℕ) (b : ℕ) → of_be acc (s ++ b ∷ []) ≡ of_be acc s * 256 + b
unfolding of_be
of_be-snoc acc [] b = refl
of_be-snoc acc (c ∷ s) b = of_be-snoc (acc * 256 + c) s b

pub of_be-be_bytes : (w x : ℕ) → x < byte_range w → of_be 0 (be_bytes w x) ≡ x
unfolding be_bytes of_be
of_be-be_bytes zero x h = omega arith
of_be-be_bytes (suc w) x h =
    of_be-snoc 0 (be_bytes w (x / 256)) (x % 256)
    ∙ omega (arith, of_be-be_bytes w (x / 256) (omega arith))

-- The number determines the bytes, and below the range the bytes determine the number.
pub be_bytes-inj :
    (w x y : ℕ) → x < byte_range w → y < byte_range w → be_bytes w x ≡ be_bytes w y → x ≡ y
be_bytes-inj w x y hx hy e = sym (of_be-be_bytes w x hx) ∙ ap (of_be 0) e ∙ of_be-be_bytes w y hy
