-- ===== src/Python/Text.antt =====
-- Python's `str` as its code points, lone surrogates included, and `bytes` as numbers.
use Prim.Native.Char.{code}
use Prim.Native.String.{String}
use traigent_schema.Prelude.{
  ℕ, zero, suc, ◌+◌, ◌/◌, ◌%◌, ◌≡◌, refl, Bool, true, false, ◌&&◌, ◌||◌, List, [], ◌∷◌, ◌++◌, arith,
  ltb, ◌==◌, if◌then◌else◌, ℕ_discrete,
}

abbrev pub Text : Type 0
Text = List ℕ

abbrev pub codes : String → Text
codes String.[] = []
codes (String.◌∷◌ c s) = code c ∷ codes s

pub Text-discrete : Discrete Text
Text-discrete = hlevel ℕ_discrete

-- `==` on texts
abbrev pub text_eq : Text → Text → Bool
text_eq [] [] = true
text_eq (a ∷ s) (b ∷ t) = (a == b) && text_eq s t
text_eq _ _ = false

-- `<=` on sequences of numbers, as Python compares `bytes`
unfoldable pub text_le : List ℕ → List ℕ → Bool
text_le [] t = true
text_le (a ∷ s) [] = false
text_le (a ∷ s) (b ∷ t) =
    let rest = text_le s t in if ltb a b then true else if a == b then rest else false

-- `str(n)` of a non-negative int; the fuel exceeds the number of digits
decimal_fuel : ℕ → ℕ → Text
decimal_fuel zero n = []
decimal_fuel (suc f) n =
    let high = decimal_fuel f (n / 10) in
    if ltb n 10 then (b'0' + n) ∷ [] else high ++ (b'0' + n % 10) ∷ []

unfoldable pub decimal : ℕ → Text
unfolding decimal_fuel
decimal n = decimal_fuel (suc n) n

-- `key in seen`
unfoldable pub text_mem : Text → List Text → Bool
text_mem k [] = false
text_mem k (x ∷ xs) = text_eq x k || text_mem k xs

-- `text.partition(c)`: what stands before the first `c`, and what stands after it
unfoldable pub partition : ℕ → Text → Text × Text
partition c [] = ([], [])
partition c (x ∷ s) = let rest = partition c s in if x == c then ([], s) else (x ∷ rest.0, rest.1)

-- `text.lstrip(c)`
unfoldable pub lstrip : ℕ → Text → Text
lstrip c [] = []
lstrip c (x ∷ s) = let rest = lstrip c s in if x == c then rest else x ∷ s

abbrev pub rstrip_cons : ℕ → ℕ → Text → Text
rstrip_cons c x [] = if x == c then [] else x ∷ []
rstrip_cons c x (y ∷ s) = x ∷ y ∷ s

-- `text.rstrip(c)`
unfoldable pub rstrip : ℕ → Text → Text
rstrip c [] = []
rstrip c (x ∷ s) = rstrip_cons c x (rstrip c s)

-- the UTF-8 bytes of one code point that is no surrogate
unfoldable pub utf8_bytes : ℕ → List ℕ
utf8_bytes c =
    if ltb c 0x80
    then c ∷ []
    else if ltb c 0x800
    then (0xC0 + c / 0x40) ∷ (0x80 + c % 0x40) ∷ []
    else if ltb c 0x10000
    then (0xE0 + c / 0x1000) ∷ (0x80 + c / 0x40 % 0x40) ∷ (0x80 + c % 0x40) ∷ []
    else (0xF0 + c / 0x40000)
      ∷ (0x80 + c / 0x1000 % 0x40)
      ∷ (0x80 + c / 0x40 % 0x40)
      ∷ (0x80 + c % 0x40)
      ∷ []

-- `text.encode("utf-8")` of a text with no surrogate
unfoldable pub utf8 : Text → List ℕ
unfolding utf8_bytes
utf8 [] = []
utf8 (c ∷ s) = utf8_bytes c ++ utf8 s

-- `text.endswith(suffix)`
unfoldable pub ends_with : Text → Text → Bool
ends_with suffix [] = text_eq suffix []
ends_with suffix (c ∷ s) = text_eq suffix (c ∷ s) || ends_with suffix s

-- `text.startswith(prefix)`
unfoldable pub starts_with : Text → Text → Bool
starts_with [] s = true
starts_with (p ∷ ps) [] = false
starts_with (p ∷ ps) (c ∷ s) = (p == c) && starts_with ps s

-- `text.isascii()`
unfoldable pub is_ascii : Text → Bool
is_ascii [] = true
is_ascii (c ∷ s) = ltb c 128 && is_ascii s

-- a run of the characters of a class
unfoldable pub all_in : (ℕ → Bool) → Text → Bool
all_in class [] = true
all_in class (c ∷ s) = class c && all_in class s

pub text_eq_sound : (s t : Text) → text_eq s t ≡ true → s ≡ t
text_eq_sound [] [] h = refl
text_eq_sound [] (b ∷ t) h = absurd (cc)
text_eq_sound (a ∷ s) [] h = absurd (cc)
text_eq_sound (a ∷ s) (b ∷ t) h = ground (arith, text_eq_sound s t)

pub text_eq_refl : (s : Text) → text_eq s s ≡ true
text_eq_refl [] = refl
text_eq_refl (a ∷ s) = ground (arith, text_eq_refl s)
