-- ===== src/ContentIdentity/Identifier.antt =====
-- The identifiers `ex1:<kid>:<hex>`, `exv1:<kid>:<hex>` and `msr1:<kid>:<hex>`: the patterns that
-- example_identity.py applies by `fullmatch`, `key_id_of`, and hexadecimal text.
use traigent_schema.Prelude.{
  ℕ, ◌+◌, ◌-◌, ◌*◌, ◌/◌, ◌%◌, ◌<◌, ◌≡◌, refl, Bool, true, false, ◌&&◌, ◌||◌, Option, none, some,
  List, [], ◌∷◌, arith, ltb, leb, ◌==◌, if◌then◌else◌, length, take, drop, All,
}
use traigent_schema.Python.Result.{Result, ok, err}
use traigent_schema.Python.Text.{Text, codes}

pub data IdentityError : Type 0 where
  content_identity_error : IdentityError

-- [0-9a-f]
abbrev pub is_hex : ℕ → Bool
is_hex c = (leb b'0' c && leb c b'9') || (leb b'a' c && leb c b'f')

unfoldable pub all_hex : Text → Bool
all_hex [] = true
all_hex (c ∷ s) = is_hex c && all_hex s

-- [0-9a-f]{n}
abbrev pub hex_text : ℕ → Text → Bool
hex_text n s = (length s == n) && all_hex s

-- k[0-9a-f]{16}
unfoldable pub is_key_id : Text → Bool
unfolding all_hex
is_key_id [] = false
is_key_id (c ∷ s) = (c == b'k') && hex_text 16 s

-- `text.startswith(prefix)`, with what follows
unfoldable pub strip_prefix : Text → Text → Option Text
strip_prefix [] s = some s
strip_prefix (p ∷ ps) [] = none
strip_prefix (p ∷ ps) (c ∷ s) = if p == c then strip_prefix ps s else none

-- (k[0-9a-f]{16}):([0-9a-f]{64}), as its two groups
abbrev pub grouped : Text → Option Text → Option (Text × Text)
grouped kid none = none
grouped kid (some hex) = if is_key_id kid && hex_text 64 hex then some (kid, hex) else none

unfoldable pub key_and_digest : Text → Option (Text × Text)
unfolding is_key_id strip_prefix
key_and_digest s = grouped (take 17 s) (strip_prefix (codes ":") (drop 17 s))

abbrev pub matched : Option Text → Option (Text × Text)
matched none = none
matched (some s) = key_and_digest s

unfoldable pub match_example_id : Text → Option (Text × Text)
unfolding strip_prefix key_and_digest
match_example_id s = matched (strip_prefix (codes "ex1:") s)

unfoldable pub match_example_version : Text → Option (Text × Text)
unfolding strip_prefix key_and_digest
match_example_version s = matched (strip_prefix (codes "exv1:") s)

unfoldable pub match_root : Text → Option (Text × Text)
unfolding strip_prefix key_and_digest
match_root s = matched (strip_prefix (codes "msr1:") s)

-- the first of the three patterns that matches
abbrev pub first_group :
    Option (Text × Text) → Result IdentityError Text → Result IdentityError Text
first_group none rest = rest
first_group (some (kid, hex)) rest = ok kid

unfoldable pub key_id_of : Text → Result IdentityError Text
unfolding match_example_id match_example_version match_root
key_id_of s = first_group (match_example_id s) (
    first_group (match_example_version s) (first_group (match_root s) (err content_identity_error)))

-- `bytes.hex()` and `bytes.fromhex`
abbrev pub hex_digit : ℕ → ℕ
hex_digit d = if ltb d 10 then b'0' + d else b'a' + (d - 10)

abbrev pub hex_value : ℕ → ℕ
hex_value c = if leb c b'9' then c - b'0' else c - b'a' + 10

unfoldable pub hex : List ℕ → Text
hex [] = []
hex (b ∷ bytes) = hex_digit (b / 16) ∷ hex_digit (b % 16) ∷ hex bytes

unfoldable pub from_hex : Text → List ℕ
from_hex [] = []
from_hex (c ∷ []) = []
from_hex (c ∷ d ∷ s) = (hex_value c * 16 + hex_value d) ∷ from_hex s

abbrev pub IsByte : ℕ → Type 0
IsByte b = b < 256

pub from_hex-hex : (bytes : List ℕ) → All IsByte bytes → from_hex (hex bytes) ≡ bytes
unfolding from_hex hex
from_hex-hex [] h = refl
from_hex-hex (b ∷ bytes) h =
    let this : hex_value (hex_digit (b / 16)) * 16 + hex_value (hex_digit (b % 16)) ≡ b =
      byte_hex b h.0 in
    rw (this, from_hex-hex bytes h.1) refl
  where
    nibble : (d : ℕ) → d < 16 → hex_value (hex_digit d) ≡ d
    nibble d h = ground arith

    byte_hex :
        (b : ℕ) → b < 256 → hex_value (hex_digit (b / 16)) * 16 + hex_value (hex_digit (b % 16)) ≡ b
    byte_hex b h = omega (arith, nibble (b / 16) (omega arith), nibble (b % 16) (omega arith))

pub length-hex : (bytes : List ℕ) → length (hex bytes) ≡ 2 * length bytes
unfolding hex
length-hex [] = refl
length-hex (b ∷ bytes) = omega (arith, length-hex bytes)

pub all_hex-hex : (bytes : List ℕ) → All IsByte bytes → all_hex (hex bytes) ≡ true
unfolding all_hex hex
all_hex-hex [] h = refl
all_hex-hex (b ∷ bytes) h = ground (
  arith,
  is_hex_digit (b / 16) (omega arith),
  is_hex_digit (b % 16) (omega arith),
  all_hex-hex bytes h.1,
)
  where
    is_hex_digit : (d : ℕ) → d < 16 → is_hex (hex_digit d) ≡ true
    is_hex_digit d h = ground arith
