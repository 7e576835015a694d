-- ===== src/Invariants/Escape.antt =====
-- Paths of keys written as pointers.
use traigent_schema.Prelude.{
  ℕ, ◌≡◌, refl, ap, ◌∙◌, false, Option, none, some, List, [], ◌∷◌, ◌++◌, arith, ◌==◌, if◌then◌else◌,
  map, append-nil,
}
use traigent_schema.Python.Result.{ok}
use traigent_schema.Python.Text.{Text}
use traigent_schema.Python.Object.{Value, Heap}
use traigent_schema.Invariants.Pointer.{
  replace_tilde, unescape_segment, split_slash, pointer_step, unless_missing, follow_raw,
  resolve_pointer,
}

-- `~` written `~0` and `/` written `~1`
pub escape_segment : Text → Text
escape_segment [] = []
escape_segment (c ∷ s) =
    let rest = escape_segment s in
    if c == b'~' then b'~' ∷ b'0' ∷ rest else if c == b'/' then b'~' ∷ b'1' ∷ rest else c ∷ rest

half_escaped : Text → Text
half_escaped [] = []
half_escaped (c ∷ s) =
    let rest = half_escaped s in if c == b'~' then b'~' ∷ b'0' ∷ rest else c ∷ rest

replace_tilde-other :
    (b c x : ℕ) (s : Text)
    → (x == b'~') ≡ false
    → replace_tilde b c (x ∷ s) ≡ x ∷ replace_tilde b c s
unfolding replace_tilde
replace_tilde-other b c x [] h = refl
replace_tilde-other b c x (y ∷ s) h = rw h refl

replace_slash-tilde :
    (s : Text)
    → replace_tilde b'1' b'/' (b'~' ∷ b'0' ∷ s) ≡ b'~' ∷ replace_tilde b'1' b'/' (b'0' ∷ s)
unfolding replace_tilde
replace_slash-tilde s = refl

replace_slash-slash :
    (s : Text) → replace_tilde b'1' b'/' (b'~' ∷ b'1' ∷ s) ≡ b'/' ∷ replace_tilde b'1' b'/' s
unfolding replace_tilde
replace_slash-slash s = refl

replace_zero-tilde :
    (s : Text) → replace_tilde b'0' b'~' (b'~' ∷ b'0' ∷ s) ≡ b'~' ∷ replace_tilde b'0' b'~' s
unfolding replace_tilde
replace_zero-tilde s = refl

replace_tilde-escape : (s : Text) → replace_tilde b'1' b'/' (escape_segment s) ≡ half_escaped s
unfolding escape_segment half_escaped
replace_tilde-escape [] = unfold replace_tilde in refl
replace_tilde-escape (c ∷ s) = ground (
  arith,
  replace_slash-tilde (escape_segment s),
  replace_slash-slash (escape_segment s),
  replace_tilde-other b'1' b'/' b'0' (escape_segment s),
  replace_tilde-other b'1' b'/' c (escape_segment s),
  replace_tilde-escape s,
)

replace_tilde-half : (s : Text) → replace_tilde b'0' b'~' (half_escaped s) ≡ s
unfolding half_escaped
replace_tilde-half [] = unfold replace_tilde in refl
replace_tilde-half (c ∷ s) = ground (
  arith,
  replace_zero-tilde (half_escaped s),
  replace_tilde-other b'0' b'~' c (half_escaped s),
  replace_tilde-half s,
)

unescape-escape : (s : Text) → unescape_segment (escape_segment s) ≡ s
unfolding unescape_segment
unescape-escape s = ap (replace_tilde b'0' b'~') (replace_tilde-escape s) ∙ replace_tilde-half s

-- the pointer of a path of keys
pub pointer_of : List Text → Text
pointer_of [] = []
pointer_of (s ∷ path) = b'/' ∷ escape_segment s ++ pointer_of path

abbrev pieces : Text → List Text
pieces t = let p = split_slash t in p.0 ∷ p.1

abbrev with_head : Text → List Text → List Text
with_head t [] = t ∷ []
with_head t (p ∷ ps) = (t ++ p) ∷ ps

pieces-cons :
    (c : ℕ) (t : Text) → (c == b'/') ≡ false → pieces (c ∷ t) ≡ with_head (c ∷ []) (pieces t)
unfolding split_slash
pieces-cons c t h = rw h refl

pieces-slash : (t : Text) → pieces (b'/' ∷ t) ≡ [] ∷ pieces t
unfolding split_slash
pieces-slash t = refl

pieces-escape :
    (s t : Text) → pieces (escape_segment s ++ t) ≡ with_head (escape_segment s) (pieces t)
unfolding escape_segment
pieces-escape [] t = refl
pieces-escape (c ∷ s) t = ground (
  arith,
  pieces-cons c (escape_segment s ++ t),
  pieces-cons b'~' (b'0' ∷ escape_segment s ++ t),
  pieces-cons b'~' (b'1' ∷ escape_segment s ++ t),
  pieces-cons b'0' (escape_segment s ++ t),
  pieces-cons b'1' (escape_segment s ++ t),
  pieces-escape s t,
)

pieces-pointer_of :
    (s : Text) (path : List Text)
    → pieces (escape_segment s ++ pointer_of path) ≡ escape_segment s ∷ map escape_segment path
unfolding pointer_of split_slash
pieces-pointer_of s [] = pieces-escape s [] ∙ ap (λ t. t ∷ []) (append-nil (escape_segment s))
pieces-pointer_of s (q ∷ path) =
    pieces-escape s (pointer_of (q ∷ path))
    ∙ ap (λ t. t ∷ pieces (escape_segment q ++ pointer_of path)) (append-nil (escape_segment s))
    ∙ ap (λ t. escape_segment s ∷ t) (pieces-pointer_of q path)

module _ {F : Type 0} (heap : Heap F) where
  -- one step for each key of the path
  pub follow : Value F → List Text → Option (Value F)
  follow v [] = some v
  follow v (s ∷ path) = unless_missing heap (pointer_step heap v s) (λ next. follow next path)

  unless_missing_ext :
      (o : Option (Value F)) (f g : Value F → Option (Value F))
      → ((v : Value F) → f v ≡ g v)
      → unless_missing heap o f ≡ unless_missing heap o g
  unless_missing_ext none f g h = refl
  unless_missing_ext (some v) f g h = h v

  follow_raw-escape :
      (path : List Text) (v : Value F) → follow_raw heap v (map escape_segment path) ≡ follow v path
  unfolding follow follow_raw
  follow_raw-escape [] v = refl
  follow_raw-escape (s ∷ path) v =
      ap
        (λ k.
          unless_missing heap (pointer_step heap v k)
            (λ next. follow_raw heap next (map escape_segment path)))
        (unescape-escape s)
      ∙ unless_missing_ext (pointer_step heap v s) _ _ (follow_raw-escape path)

  -- The pointer that escapes the keys of a path and joins them by `/` resolves, in every payload, to
  -- what following the keys one by one leads to, and is missing exactly where a key is.
  pub resolve_pointer-pointer_of :
      (payload : Value F) (path : List Text)
      → resolve_pointer heap payload (pointer_of path) ≡ ok (follow payload path)
  unfolding resolve_pointer pointer_of follow
  resolve_pointer-pointer_of payload [] = refl
  resolve_pointer-pointer_of payload (s ∷ path) =
      ap (λ p. ok (follow_raw heap payload p)) (pieces-pointer_of s path)
      ∙ ap ok (follow_raw-escape (s ∷ path) payload)
