-- ===== src/Invariants/Pointer.antt =====
-- JSON pointers (RFC 6901): `_unescape_segment`, `_resolve_pointer` and its steps.
use traigent_schema.Prelude.{
  ℕ, Bool, true, false, ◌&&◌, Option, none, some, List, [], ◌∷◌, leb, ◌==◌, if◌then◌else◌,
  get_elem?,
}
use traigent_schema.Python.Result.{Result, ok, err}
use traigent_schema.Python.Text.{Text, text_eq}
use traigent_schema.Python.Int.{digits_value}
use traigent_schema.Python.Object.{
  Value, ref, Key, str_key, foreign_key, Container, list, dict, Heap,
}

pub data InvariantError : Type 0 where
  declaration_error comparison_bound noncanonical_payload : InvariantError

-- `segment.replace("~" + b, c)`, for a two-character pattern that starts with `~`
unfoldable pub replace_tilde : ℕ → ℕ → Text → Text
replace_tilde b c [] = []
replace_tilde b c (x ∷ []) = x ∷ []
replace_tilde b c (x ∷ y ∷ s) =
    let skip = c ∷ replace_tilde b c s in
    let keep = x ∷ replace_tilde b c (y ∷ s) in if (x == b'~') && (y == b) then skip else keep

unfoldable pub unescape_segment : Text → Text
unfolding replace_tilde
unescape_segment segment = replace_tilde b'0' b'~' (replace_tilde b'1' b'/' segment)

-- `text.split("/")`: the first piece, and those after it
unfoldable pub split_slash : Text → Text × List Text
split_slash [] = ([], [])
split_slash (c ∷ s) =
    let rest = split_slash s in if c == b'/' then ([], rest.0 ∷ rest.1) else (c ∷ rest.0, rest.1)

-- `_ARRAY_INDEX_SEGMENT`: "0", or a digit other than 0 and further ASCII digits
abbrev is_digit : ℕ → Bool
is_digit c = leb b'0' c && leb c b'9'

abbrev all_digits : Text → Bool
all_digits [] = true
all_digits (c ∷ s) = is_digit c && all_digits s

unfoldable pub is_array_index : Text → Bool
is_array_index [] = false
is_array_index (c ∷ []) = is_digit c
is_array_index (c ∷ d ∷ s) = leb b'1' c && leb c b'9' && all_digits (d ∷ s)

module _ {F : Type 0} where
  -- the value of the first plain string key that equals the segment
  unfoldable pub object_member : List (Key × Value F) → Text → Option (Value F)
  object_member [] segment = none
  object_member ((foreign_key, v) ∷ items) segment = object_member items segment
  object_member ((str_key k, v) ∷ items) segment =
      if text_eq k segment then some v else object_member items segment

  -- an index that `int` cannot convert is far out of range as well
  unfoldable pub array_item : List (Value F) → Text → Option (Value F)
  unfolding is_array_index digits_value
  array_item items segment =
      if is_array_index segment then get_elem? items (digits_value 0 segment) else none

  module _ (heap : Heap F) where
    abbrev in_container : Container F → Text → Option (Value F)
    in_container (dict items) segment = object_member items segment
    in_container (list items) segment = array_item items segment

    unfoldable pub pointer_step : Value F → Text → Option (Value F)
    unfolding object_member array_item
    pointer_step (ref a) segment = in_container (heap a) segment
    pointer_step v segment = none

    -- `if current is _MISSING: return _MISSING`
    abbrev pub unless_missing : Option (Value F) → (Value F → Option (Value F)) → Option (Value F)
    unless_missing none f = none
    unless_missing (some v) f = f v

    -- the loop over the raw segments
    unfoldable pub follow_raw : Value F → List Text → Option (Value F)
    unfolding pointer_step unescape_segment
    follow_raw current [] = some current
    follow_raw current (raw ∷ segments) =
        unless_missing (pointer_step current (unescape_segment raw))
          (λ next. follow_raw next segments)

    -- `none` is `_MISSING`
    unfoldable pub resolve_pointer : Value F → Text → Result InvariantError (Option (Value F))
    unfolding follow_raw split_slash
    resolve_pointer payload [] = ok (some payload)
    resolve_pointer payload (c ∷ rest) =
        if c == b'/'
        then ok (follow_raw payload (let pieces = split_slash rest in pieces.0 ∷ pieces.1))
        else err declaration_error
