-- ===== src/CommitmentLinkage/Sidecar.antt =====
-- What `_verify` reads of the envelope, and the shape of its entries. A lookup that fails raises inside
-- `_verify`, which becomes the code VERIFICATION_FAILED.
use traigent_schema.Prelude.{
  Bool, true, false, ◌&&◌, not, Option, none, some, List, [], ◌∷◌, if◌then◌else◌,
}
use traigent_schema.Python.Result.{Result, ok, err, ◌>>=◌, ◌>>◌, guard, traverse}
use traigent_schema.Python.Text.{Text, codes, text_eq, text_mem}
use traigent_schema.Python.Object.{
  Value, null, str, ref, Key, str_key, foreign_key, Container, list, dict, Heap,
}
use traigent_schema.CommitmentLinkage.{LinkageError, duplicate_role, verification_failed}
use traigent_schema.CommitmentLinkage.Commitment.{checked_role}

-- `raise ... from` by code, whatever was raised
abbrev pub recode {ℓ κ} :
    {A : Type ℓ} {E : Type κ} → LinkageError → Result E A → Result LinkageError A
recode code (err raised) = err code
recode code (ok a) = ok a

-- `len(set(texts)) == len(texts)`
unfoldable pub distinct : List Text → Bool
distinct [] = true
distinct (t ∷ texts) = not (text_mem t texts) && distinct texts

-- `(entry["role"], entry["basis"], entry.get("commitment"))`
pub record LinkageEntry (F : Type 0) : Type 0 where
  pub role : Value F
  pub basis : Value F
  pub commitment : Value F

pub record VerifiedLinkage (F : Type 0) : Type 0 where
  pub process_record_digest : Value F
  pub unsigned_linkage_digest : Text
  pub entries : List (LinkageEntry F)

module _ {F : Type 0} where
  -- `value == text`
  abbrev pub is_text : Text → Value F → Bool
  is_text text (str s) = text_eq s text
  is_text text _ = false

  -- `items.get(name)`
  unfoldable pub get_item : Text → List (Key × Value F) → Option (Value F)
  get_item name [] = none
  get_item name ((str_key k, v) ∷ items) =
      let rest = get_item name items in if text_eq k name then some v else rest
  get_item name ((foreign_key, v) ∷ items) = get_item name items

  abbrev pub found : Option (Value F) → Result LinkageError (Value F)
  found none = err verification_failed
  found (some v) = ok v

  abbrev pub or_null : Option (Value F) → Value F
  or_null none = null
  or_null (some v) = v

module _ {F : Type 0} (heap : Heap F) where
  abbrev pub dict_items : Container F → Result LinkageError (List (Key × Value F))
  dict_items (dict items) = ok items
  dict_items (list vs) = err verification_failed

  abbrev pub list_items : Container F → Result LinkageError (List (Value F))
  list_items (list vs) = ok vs
  list_items (dict items) = err verification_failed

  unfoldable pub items_of : Value F → Result LinkageError (List (Key × Value F))
  items_of (ref a) = dict_items (heap a)
  items_of _ = err verification_failed

  -- the schema has admitted an array
  unfoldable pub elements_of : Value F → Result LinkageError (List (Value F))
  elements_of (ref a) = list_items (heap a)
  elements_of _ = err verification_failed

  -- `value[name]`
  unfoldable pub member : Text → Value F → Result LinkageError (Value F)
  unfolding items_of get_item
  member name v = do items ← items_of v; found (get_item name items)

  unfoldable pub entry_of : Value F → Result LinkageError (LinkageEntry F)
  unfolding items_of get_item
  entry_of v = do
    items ← items_of v
    role ← found (get_item (codes "role") items)
    basis ← found (get_item (codes "basis") items)
    ok (record {
      role = role;
      basis = basis;
      commitment = or_null (get_item (codes "commitment") items);
    })

  -- the members that `_verify` and `_check_signature` read
  pub record Sidecar : Type 0 where
    pub unsigned : Value F
    pub signature : Value F
    pub entries : List (Value F)

  unfoldable pub opened_envelope : Value F → Result LinkageError Sidecar
  unfolding member elements_of checked_role traverse distinct
  opened_envelope envelope = do
    unsigned ← member (codes "unsigned_linkage") envelope
    signature ← member (codes "signature") envelope
    listed ← member (codes "entries") unsigned
    entries ← elements_of listed
    values ← traverse (member (codes "role")) entries
    texts ← traverse checked_role values
    guard (distinct texts) duplicate_role
    ok (record { unsigned = unsigned; signature = signature; entries = entries })
