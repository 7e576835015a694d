-- ===== src/AgentQuality/Unique.antt =====
-- `_unique_by`: the rows of a signed list by their key, where no key repeats. A key is a text.
use traigent_schema.Prelude.{
  ℕ, zero, suc, ◌≡◌, refl, ◌∙◌, Bool, true, false, not, ◌&&◌, Option, none, some, List, [], ◌∷◌,
  map, arith, get_elem?, if◌then◌else◌, Bool-cases, inl, inr,
}
use traigent_schema.Python.Result.{Result, ok, ok_inj, ◌>>◌, guard, guard->>-ok}
use traigent_schema.Python.Text.{Text, text_eq, text_eq_sound, text_eq_refl, text_mem}

-- `by_key[key] = row`
unfoldable pub assign {ℓ} : {A : Type ℓ} → Text → A → List (Text × A) → List (Text × A)
assign key row [] = (key, row) ∷ []
assign key row ((k, r) ∷ items) =
    let rest = assign key row items in if text_eq k key then (k, row) ∷ items else (k, r) ∷ rest

-- `by_key.get(key)`
unfoldable pub row_of {ℓ} : {A : Type ℓ} → Text → List (Text × A) → Option A
row_of key [] = none
row_of key ((k, r) ∷ items) = let rest = row_of key items in if text_eq k key then some r else rest

-- no key stands twice
unfoldable pub all_different : List Text → Bool
unfolding text_mem
all_different [] = true
all_different (k ∷ keys) = not (text_mem k keys) && all_different keys

module _ {A : Type 0} (key_fn : A → Text) where
  -- the first pass, over the set of the keys seen
  unfoldable pub keys_unseen : List Text → List A → Bool
  unfolding text_mem
  keys_unseen seen [] = true
  keys_unseen seen (row ∷ rows) =
      let rest = keys_unseen (key_fn row ∷ seen) rows in
      if text_mem (key_fn row) seen then false else rest

  -- the second pass
  unfoldable pub by_key : List A → List (Text × A) → List (Text × A)
  unfolding assign
  by_key [] items = items
  by_key (row ∷ rows) items = by_key rows (assign (key_fn row) row items)

  unfoldable pub unique_by {ℓ} : {E : Type ℓ} → E → List A → Result E (List (Text × A))
  unfolding keys_unseen by_key
  unique_by duplicate rows = guard (keys_unseen [] rows) duplicate >> ok (by_key rows [])

row_of-assign :
    {A : Type 0} (key : Text) (row : A) (items : List (Text × A))
    → row_of key (assign key row items) ≡ some row
unfolding row_of assign
row_of-assign key row [] = rw (text_eq_refl key) refl
row_of-assign key row ((k, r) ∷ items) = elim (Bool-cases (text_eq k key)) [
  | inl here ↦ rw (here, here) refl
  | inr away ↦ rw (away, away) (row_of-assign key row items)
]

row_of-assign_other :
    {A : Type 0} (key other : Text) (row : A) (items : List (Text × A))
    → text_eq key other ≡ false
    → row_of other (assign key row items) ≡ row_of other items
unfolding row_of assign
row_of-assign_other key other row [] differ = rw differ refl
row_of-assign_other key other row ((k, r) ∷ items) differ = elim (Bool-cases (text_eq k key)) [
  | inl here ↦
      let same = text_eq_sound k key here in
      let away : text_eq k other ≡ false = rw same differ in rw (here, away) refl
  | inr apart ↦ elim (Bool-cases (text_eq k other)) [
    | inl found ↦ rw (apart, found) refl
    | inr later ↦ rw (apart, later) (row_of-assign_other key other row items differ)
  ]
]

text_mem-head : (k : Text) (seen : List Text) → text_mem k (k ∷ seen) ≡ true
unfolding text_mem
text_mem-head k seen = rw (text_eq_refl k) refl

module _ {A : Type 0} (key_fn : A → Text) where
  -- a key that was seen does not come again
  unseen_later :
      (seen : List Text) (rows : List A) (k : Text)
      → keys_unseen key_fn seen rows ≡ true
      → text_mem k seen ≡ true
      → text_mem k (map key_fn rows) ≡ false
  unfolding keys_unseen text_mem
  unseen_later seen [] k h m = refl
  unseen_later seen (row ∷ rows) k h m = elim (Bool-cases (text_mem (key_fn row) seen)) [
    | inl old ↦ absurd (let differ : false ≡ true = rw old at h in cc)
    | inr new ↦
        let rest = unseen_later (key_fn row ∷ seen) rows k (rw new at h) (rw m (ground arith)) in
        elim (Bool-cases (text_eq (key_fn row) k)) [
          | inl same ↦ absurd (
              let e = text_eq_sound (key_fn row) k same in
              let old : text_mem (key_fn row) seen ≡ true = rw e m in cc)
          | inr other ↦ rw (other, rest) refl
        ]
  ]

  row_of-by_key_other :
      (k : Text) (rows : List A) (items : List (Text × A))
      → text_mem k (map key_fn rows) ≡ false
      → row_of k (by_key key_fn rows items) ≡ row_of k items
  unfolding by_key text_mem
  row_of-by_key_other k [] items h = refl
  row_of-by_key_other k (row ∷ rows) items h = elim (Bool-cases (text_eq (key_fn row) k)) [
    | inl same ↦ absurd (let differ : true ≡ false = rw same at h in cc)
    | inr other ↦
        row_of-by_key_other k rows (assign (key_fn row) row items) (rw other at h)
        ∙ row_of-assign_other (key_fn row) k row items other
  ]

  row_of-by_key :
      (seen : List Text) (rows : List A) (items : List (Text × A)) (i : ℕ) (row : A)
      → keys_unseen key_fn seen rows ≡ true
      → get_elem? rows i ≡ some row
      → row_of (key_fn row) (by_key key_fn rows items) ≡ some row
  unfolding by_key keys_unseen
  row_of-by_key seen [] items i row h e = absurd (cc)
  row_of-by_key seen (x ∷ rows) items zero row h e = elim (Bool-cases (text_mem (key_fn x) seen)) [
    | inl old ↦ absurd (let differ : false ≡ true = rw old at h in cc)
    | inr new ↦
        let here : x ≡ row = cc in
        let away =
          unseen_later (key_fn x ∷ seen) rows (key_fn x) (rw new at h)
            (text_mem-head (key_fn x) seen) in
        let found =
          row_of-by_key_other (key_fn x) rows (assign (key_fn x) x items) away
          ∙ row_of-assign (key_fn x) x items in
        cc
  ]
  row_of-by_key seen (x ∷ rows) items (suc i) row h e =
      elim (Bool-cases (text_mem (key_fn x) seen)) [
        | inl old ↦ absurd (let differ : false ≡ true = rw old at h in cc)
        | inr new ↦
            row_of-by_key (key_fn x ∷ seen) rows (assign (key_fn x) x items) i row (rw new at h) e
      ]

  keys_unseen-all_different :
      (seen : List Text) (rows : List A)
      → keys_unseen key_fn seen rows ≡ true
      → all_different (map key_fn rows) ≡ true
  unfolding keys_unseen all_different
  keys_unseen-all_different seen [] h = refl
  keys_unseen-all_different seen (row ∷ rows) h = elim (Bool-cases (text_mem (key_fn row) seen)) [
    | inl old ↦ absurd (let differ : false ≡ true = rw old at h in cc)
    | inr new ↦
        let rest = rw new at h in
        let away =
          unseen_later (key_fn row ∷ seen) rows (key_fn row) rest
            (text_mem-head (key_fn row) seen) in
        rw (away, keys_unseen-all_different (key_fn row ∷ seen) rows rest) refl
  ]

-- When _unique_by returns a dict, the keys of the rows are all different and every row is found under its own key.
pub unique_by-row_of :
    {A E : Type 0} (key_fn : A → Text) (duplicate : E) (rows : List A) (items : List (Text × A))
    (i : ℕ) (row : A)
    → unique_by key_fn duplicate rows ≡ ok items
    → get_elem? rows i ≡ some row
    → (all_different (map key_fn rows) ≡ true) × (row_of (key_fn row) items ≡ some row)
unfolding unique_by
unique_by-row_of key_fn duplicate rows items i row accepted e =
    let parts =
      guard->>-ok (keys_unseen key_fn [] rows) duplicate (ok (by_key key_fn rows [])) accepted in
    let kept = ok_inj (parts.1) in
    let found = row_of-by_key key_fn [] rows [] i row (parts.0) e in
    (keys_unseen-all_different key_fn [] rows (parts.0), cc)
