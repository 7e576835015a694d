-- ===== src/ContentIdentity/Payload.antt =====
-- The payloads that the identifiers of an example commit to, and the projection of an SDK example.
-- `none` is ABSENT. A foreign key stands for one that equals no reserved key.
use traigent_schema.Prelude.{
  ℕ, ◌≡◌, refl, sym, ap, ◌∙◌, Bool, true, false, ◌||◌, Option, none, some, List, [], ◌∷◌, ◌++◌,
  if◌then◌else◌, Bool-cases, inl, inr,
}
use traigent_schema.Python.Result.{ok_inj, Result, ok, err, ◌>>=◌, ◌>>◌, guard, >>=-eq-ok}
use traigent_schema.Python.Text.{Text, codes, text_mem}
use traigent_schema.Python.Object.{
  Value, null, str, ref, Key, str_key, foreign_key, Container, list, dict, Heap,
}
use traigent_schema.Invariants.Pointer.{object_member}
use traigent_schema.ContentIdentity.Identifier.{
  IdentityError, content_identity_error, match_example_id,
}

abbrev pub reserved_metadata_keys : List Text
reserved_metadata_keys =
    codes "context"
    ∷ codes "example_id"
    ∷ codes "external_id"
    ∷ codes "source_ref"
    ∷ codes "tags"
    ∷ codes "split"
    ∷ codes "splits"
    ∷ codes "difficulty"
    ∷ codes "confidence"
    ∷ codes "status"
    ∷ codes "score"
    ∷ codes "explanation"
    ∷ codes "created_at"
    ∷ codes "updated_at"
    ∷ codes "supersedes"
    ∷ []

unfoldable pub is_reserved : Key → Bool
unfolding text_mem
is_reserved (str_key k) = text_mem k reserved_metadata_keys
is_reserved foreign_key = false

abbrev is_some : Option (Text × Text) → Bool
is_some none = false
is_some (some p) = true

-- the items of a dict
abbrev pub Items : Type 0 → Type 0
Items F = List (Key × Value F)

-- the argument `metadata` of `project_sdk_example`: None, a mapping by its items, or anything else
pub data Metadata (F : Type 0) : Type 0 where
  no_metadata : Metadata F
  mapping : Items F → Metadata F
  not_mapping : Metadata F

pub record ExampleProjection (F : Type 0) : Type 0 where
  pub input : Value F
  pub context : Option (Value F)
  pub expected : Option (Value F)
  pub metadata : Option (Items F)

module _ {F : Type 0} where
  -- `_is_absent`, with the value where there is one
  unfoldable pub present : Option (Value F) → Option (Value F)
  present none = none
  present (some null) = none
  present (some v) = some v

  -- `payload[key] = value` unless the value is absent
  abbrev pub entry : Text → Option (Value F) → Items F
  entry key none = []
  entry key (some v) = (str_key key, v) ∷ []

  unfoldable pub example_id_payload :
      Option (Value F) → Option (Value F) → Result IdentityError (Items F)
  unfolding present
  example_id_payload none context = err content_identity_error
  example_id_payload (some input) context =
      ok ((str_key (codes "input"), input) ∷ entry (codes "context") (present context))

  unfoldable pub any_reserved : Items F → Bool
  unfolding is_reserved
  any_reserved [] = false
  any_reserved ((k, v) ∷ items) = is_reserved k || any_reserved items

  abbrev pub or_none : ℕ → Items F → Option (Value F)
  or_none a [] = none
  or_none a (i ∷ items) = some (ref a)

  module _ (heap : Heap F) where
    abbrev pub check_container : ℕ → Container F → Result IdentityError (Option (Value F))
    check_container a (list vs) = err content_identity_error
    check_container a (dict items) =
        if any_reserved items then err content_identity_error else ok (or_none a items)

    unfoldable pub check_metadata : Option (Value F) → Result IdentityError (Option (Value F))
    unfolding any_reserved
    check_metadata none = ok none
    check_metadata (some null) = ok none
    check_metadata (some (ref a)) = check_container a (heap a)
    check_metadata (some v) = err content_identity_error

    unfoldable pub example_version_payload :
        Text → Option (Value F) → Option (Value F) → Result IdentityError (Items F)
    unfolding match_example_id present check_metadata
    example_version_payload example_id expected metadata = do
      guard (is_some (match_example_id example_id)) content_identity_error
      checked ← check_metadata metadata
      ok (
          (str_key (codes "example_id"), str example_id)
            ∷ entry (codes "expected") (present expected)
          ++ entry (codes "metadata") checked)

  unfoldable pub kept_items : Items F → Items F
  unfolding is_reserved
  kept_items [] = []
  kept_items ((k, v) ∷ items) =
      let rest = kept_items items in if is_reserved k then rest else (k, v) ∷ rest

  unfoldable pub all_plain : Items F → Bool
  all_plain [] = true
  all_plain ((str_key k, v) ∷ items) = all_plain items
  all_plain ((foreign_key, v) ∷ items) = false

  -- `kept or None`
  abbrev pub nonempty : Items F → Option (Items F)
  nonempty [] = none
  nonempty (i ∷ items) = some (i ∷ items)

  abbrev pub project_items :
      Value F → Option (Value F) → Items F → Result IdentityError (ExampleProjection F)
  project_items input expected items = do
    guard (all_plain (kept_items items)) content_identity_error
    ok (record {
      input = input;
      context = present (object_member items (codes "context"));
      expected = present expected;
      metadata = nonempty (kept_items items);
    })

  unfoldable pub project_sdk_example :
      Value F → Option (Value F) → Metadata F → Result IdentityError (ExampleProjection F)
  unfolding kept_items all_plain object_member present
  project_sdk_example input expected no_metadata = project_items input expected []
  project_sdk_example input expected (mapping items) = project_items input expected items
  project_sdk_example input expected not_mapping = err content_identity_error

  any_reserved-kept_items : (items : Items F) → any_reserved (kept_items items) ≡ false
  unfolding any_reserved kept_items
  any_reserved-kept_items [] = refl
  any_reserved-kept_items ((k, v) ∷ items) = elim (Bool-cases (is_reserved k)) [
    | inl drop ↦ rw drop (any_reserved-kept_items items)
    | inr keep ↦ rw keep (rw keep (any_reserved-kept_items items))
  ]

  nonempty-some :
      (kept items : Items F)
      → nonempty kept ≡ some items
      → (a : ℕ) → (kept ≡ items) × (or_none a items ≡ some (ref a))
  nonempty-some [] items e a = absurd (cc)
  nonempty-some (i ∷ kept) items e a =
      let same : ◌≡◌ {A = Items F} (i ∷ kept) items = cc in (same, rw (sym same) refl)

  project_items-accepted :
      (heap : Heap F) (input : Value F) (expected : Option (Value F)) (source items : Items F)
      (p : ExampleProjection F) (a : ℕ)
      → project_items input expected source ≡ ok p
      → p.metadata ≡ some items
      → heap a ≡ dict items
      → check_metadata heap (some (ref a)) ≡ ok (some (ref a))
  unfolding check_metadata
  project_items-accepted heap input expected source items p a e hm ha =
      let (unit, plain, built) =
        >>=-eq-ok (guard (all_plain (kept_items source)) content_identity_error) _ e in
      let kept : nonempty (kept_items source) ≡ some items =
        ap (λ q. q.metadata) (ok_inj built) ∙ hm in
      let (same, some_ref) = nonempty-some (kept_items source) items kept a in
      let clean : any_reserved items ≡ false = rw (sym same) (any_reserved-kept_items source) in
      rw (ha, clean, some_ref) refl

  -- The metadata that `project_sdk_example` keeps is, as a dict, what `_check_metadata` accepts and
  -- returns.
  pub check_metadata-project_sdk_example :
      (heap : Heap F) (input : Value F) (expected : Option (Value F)) (metadata : Metadata F)
      (p : ExampleProjection F) (items : Items F) (a : ℕ)
      → project_sdk_example input expected metadata ≡ ok p
      → p.metadata ≡ some items
      → heap a ≡ dict items
      → check_metadata heap (some (ref a)) ≡ ok (some (ref a))
  unfolding project_sdk_example
  check_metadata-project_sdk_example heap input expected no_metadata p items a e hm ha =
      project_items-accepted heap input expected [] items p a e hm ha
  check_metadata-project_sdk_example heap input expected (mapping source) p items a e hm ha =
      project_items-accepted heap input expected source items p a e hm ha
  check_metadata-project_sdk_example heap input expected not_mapping p items a e hm ha = absurd (cc)
