-- ===== src/Fp2/Canon.antt =====
-- The canonical text by recursion on the nesting, as docs/fingerprints/fp2.md describes it.
use traigent_schema.Prelude.{
  ℕ, zero, suc, Bool, true, false, none, some, List, [], ◌∷◌, ◌++◌, if◌then◌else◌,
}
use traigent_schema.Python.Result.{Result, ok, err, ◌>>=◌}
use traigent_schema.Python.Text.{Text, codes}
use traigent_schema.Python.Object.{Floats, Value, ref, Container, list, dict, Heap}
use traigent_schema.Python.Identity.{is_open}
use traigent_schema.Fp2.{encode_scalar, encode_string, sorted_members}
use traigent_schema.Fp2.Scalar.{Unsupported, too_deep, circular, unsupported_type, encode_string}

module _ (fl : Floats) where
  open fl use {Float}

  -- the texts of a container's items, separated by commas
  unfoldable pub items_text :
      (Value Float → Result Unsupported Text) → Bool → List (Value Float) → Result Unsupported Text
  items_text f first [] = ok (codes "]")
  items_text f first (v ∷ items) = do
    text ← f v
    rest ← items_text f false items
    let item = text ++ rest
    ok (if first then item else codes "," ++ item)

  unfoldable pub members_text :
      (Value Float → Result Unsupported Text)
      → Bool
      → List (Text × Value Float)
      → Result Unsupported Text
  members_text f first [] = ok (codes "}")
  members_text f first ((quoted, v) ∷ items) = do
    text ← f v
    rest ← members_text f false items
    let member = (quoted ++ codes ":") ++ (text ++ rest)
    ok (if first then member else codes "," ++ member)

  -- every key is encoded before a value is
  unfoldable pub quoted_keys :
      List (List ℕ × (Text × Value Float)) → Result Unsupported (List (Text × Value Float))
  quoted_keys [] = ok []
  quoted_keys ((s, (k, v)) ∷ items) = do
    quoted ← encode_string k
    rest ← quoted_keys items
    ok ((quoted, v) ∷ rest)

  unfoldable pub container_text :
      (Value Float → Result Unsupported Text) → Container Float → Result Unsupported Text
  unfolding items_text members_text quoted_keys
  container_text f (list items) = do rest ← items_text f true items; ok (codes "[" ++ rest)
  container_text f (dict items) = do
    sorted ← sorted_members fl items
    quoted ← quoted_keys sorted
    rest ← members_text f true quoted
    ok (codes "{" ++ rest)

  module _ (heap : Heap Float) where
    -- the text of a value in the containers `opened`, with `room` more levels allowed
    unfoldable pub canon : Value Float → ℕ → List ℕ → Result Unsupported Text
    unfolding container_text
    canon (ref a) zero opened = err too_deep
    canon (ref a) (suc room) opened =
        let inside = container_text (λ v. canon v room (a ∷ opened)) (heap a) in
        if is_open a opened then err circular else inside
    canon v room opened = do
      scalar ← encode_scalar fl v
      elim scalar [ some text ↦ ok text | none ↦ err unsupported_type ]
