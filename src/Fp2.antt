-- ===== src/Fp2.antt =====
-- traigent_schema/fp2.py: the canonical text of a manifest. `Scalar` holds the encoders of strings
-- and numbers, this file the work-stack encoder over the object graph.
pub mod Scalar
pub mod Canon
pub mod Refine
pub mod Digest
use mathlib.Core.List.{map, reverse}
use traigent_schema.Prelude.{
  ℕ, zero, suc, ◌+◌, Bool, true, false, Option, none, some, List, [], ◌∷◌, ◌++◌, ltb, ◌==◌,
  if◌then◌else◌, leb,
}
use traigent_schema.Python.Result.{Result, ok, err, ◌>>=◌, ◌>>◌, guard, traverse}
use traigent_schema.Python.Text.{Text, codes, text_le}
use traigent_schema.Python.Object.{
  Floats, Value, null, bool, int, float, str, ref, foreign, Key, str_key, foreign_key, Container,
  list, dict, Heap,
}
use traigent_schema.Python.Worklist.{drain}
use traigent_schema.Python.Identity.{is_open, discard}
use Scalar.{
  Unsupported, non_plain_key, too_deep, circular, unsupported_type, utf16_sort_key, encode_string,
  encode_int, encode_float,
}

abbrev pub max_depth : ℕ
max_depth = 100

-- the tags of the work stack
pub data Entry (F : Type 0) : Type 0 where
  emit : Text → Entry F
  value : Value F → ℕ → Entry F
  close : ℕ → Entry F

-- what `_encode` keeps beside the stack: the joined output, and the open containers
pub record Encoder : Type 0 where
  pub out : Text
  pub open_containers : List ℕ

-- `sorted` by the sort key: stable, ascending
unfoldable pub insert_item {ℓ} : {A : Type ℓ} → (List ℕ × A) → List (List ℕ × A) → List (List ℕ × A)
insert_item (k, a) [] = (k, a) ∷ []
insert_item (k, a) ((j, b) ∷ items) =
    let rest = insert_item (k, a) items in
    if text_le k j then (k, a) ∷ (j, b) ∷ items else (j, b) ∷ rest

unfoldable pub sort_items {ℓ} : {A : Type ℓ} → List (List ℕ × A) → List (List ℕ × A)
unfolding insert_item
sort_items [] = []
sort_items (i ∷ items) = insert_item i (sort_items items)

module _ (fl : Floats) where
  open fl use {Float}

  -- `none`: not a scalar
  unfoldable pub encode_scalar : Value Float → Result Unsupported (Option Text)
  encode_scalar null = ok (some (codes "null"))
  encode_scalar (bool true) = ok (some (codes "true"))
  encode_scalar (bool false) = ok (some (codes "false"))
  encode_scalar (str s) = do t ← encode_string s; ok (some t)
  encode_scalar (int n) = do t ← encode_int n; ok (some t)
  encode_scalar (float x) = do t ← encode_float fl x; ok (some t)
  encode_scalar (ref a) = ok none
  encode_scalar foreign = ok none

  -- `for key in value: if type(key) is not str: raise`
  unfoldable pub plain_keys :
      List (Key × Value Float) → Result Unsupported (List (Text × Value Float))
  plain_keys [] = ok []
  plain_keys ((str_key k, v) ∷ items) = do rest ← plain_keys items; ok ((k, v) ∷ rest)
  plain_keys ((foreign_key, v) ∷ items) = err non_plain_key

  -- the key function of `sorted`, which runs on every item first
  unfoldable pub with_sort_key :
      (Text × Value Float) → Result Unsupported (List ℕ × (Text × Value Float))
  with_sort_key (k, v) = do s ← utf16_sort_key k; ok (s, (k, v))

  -- the loop over the sorted items; `first` is `index == 0`
  unfoldable pub member_entries :
      Bool → ℕ → List (List ℕ × (Text × Value Float)) → Result Unsupported (List (Entry Float))
  member_entries first depth [] = ok (emit (codes "}") ∷ [])
  member_entries first depth ((s, (k, v)) ∷ items) = do
    quoted ← encode_string k
    rest ← member_entries false depth items
    let member = emit (quoted ++ codes ":") ∷ value v (depth + 1) ∷ rest
    ok (if first then member else emit (codes ",") ∷ member)

  unfoldable pub sorted_members :
      List (Key × Value Float) → Result Unsupported (List (List ℕ × (Text × Value Float)))
  unfolding plain_keys with_sort_key sort_items
  sorted_members items = do
    plain ← plain_keys items
    keyed ← traverse with_sort_key plain
    ok (sort_items keyed)

  unfoldable pub dict_children :
      List (Key × Value Float) → ℕ → Result Unsupported (List (Entry Float))
  unfolding sorted_members member_entries
  dict_children items depth = do sorted ← sorted_members items; member_entries true depth sorted

  unfoldable pub item_entries : Bool → ℕ → List (Value Float) → List (Entry Float)
  item_entries first depth [] = emit (codes "]") ∷ []
  item_entries first depth (v ∷ items) =
      let item = value v (depth + 1) ∷ item_entries false depth items in
      if first then item else emit (codes ",") ∷ item

  unfoldable pub list_children : List (Value Float) → ℕ → List (Entry Float)
  unfolding item_entries
  list_children items depth = item_entries true depth items

  unfoldable pub children : Container Float → ℕ → Result Unsupported (Text × List (Entry Float))
  unfolding dict_children list_children
  children (dict items) depth = do pending ← dict_children items depth; ok (codes "{", pending)
  children (list items) depth = ok (codes "[", list_children items depth)

  module _ (heap : Heap Float) where
    -- the opener, what is pushed, and the open containers
    unfoldable pub open_container :
        ℕ → ℕ → List ℕ → Result Unsupported (Text × List (Entry Float) × List ℕ)
    unfolding is_open children
    open_container a depth opened = do
      guard (leb depth max_depth) too_deep
      guard (if is_open a opened then false else true) circular
      pending ← children (heap a) depth
      ok (pending.0, pending.1 ++ close a ∷ [], a ∷ opened)

    -- `type(payload) in (list, dict)`
    unfoldable pub visit_container :
        Value Float → ℕ → Encoder → Result Unsupported (List (Entry Float) × Encoder)
    unfolding open_container
    visit_container (ref a) depth s = do
      opened ← open_container a depth s.open_containers
      ok (opened.1, record { out = s.out ++ opened.0; open_containers = opened.2 })
    visit_container v depth s = err unsupported_type

    unfoldable pub visit :
        Value Float → ℕ → Encoder → Option Text → Result Unsupported (List (Entry Float) × Encoder)
    unfolding visit_container
    visit v depth s (some text) = ok ([], record s { out = s.out ++ text })
    visit v depth s none = visit_container v depth s

    -- one round of the loop of `_encode`
    unfoldable pub encode_step :
        Entry Float → Encoder → Result Unsupported (List (Entry Float) × Encoder)
    unfolding encode_scalar visit discard
    encode_step (emit text) s = ok ([], record s { out = s.out ++ text })
    encode_step (close a) s = ok ([], record s { open_containers = discard a s.open_containers })
    encode_step (value v depth) s = do scalar ← encode_scalar v; visit v depth s scalar

    unfoldable pub encode : ℕ → Value Float → Option (Result Unsupported Encoder)
    unfolding drain encode_step
    encode fuel root =
        drain encode_step fuel (value root 1 ∷ []) (record { out = []; open_containers = [] })

    abbrev pub joined : Option (Result Unsupported Encoder) → Option (Result Unsupported Text)
    joined none = none
    joined (some (err x)) = some (err x)
    joined (some (ok s)) = some (ok s.out)

    -- `canonicalize`: everything that `_encode` can raise here is already `Fp2UnsupportedValue`
    unfoldable pub canonicalize : ℕ → Value Float → Option (Result Unsupported Text)
    unfolding encode
    canonicalize fuel root = joined (encode fuel root)
