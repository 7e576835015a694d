-- ===== src/BreakingCheck/Keywords.antt =====
-- What the comparator reads of a resolved schema object, and the comparison of one keyword at a time:
-- `type`, `enum`, `additionalProperties`, `pattern`, the bounds and `required`.
use traigent_schema.Prelude.{
  ℕ, Bool, true, false, ◌&&◌, ◌||◌, Option, none, some, List, [], ◌∷◌, ◌++◌, ltb, ◌==◌,
  if◌then◌else◌,
}
use traigent_schema.Python.Text.{Text, codes, text_eq, text_mem}
use traigent_schema.ContentIdentity.Multiset.{insert_text}
use traigent_schema.BreakingCheck.{
  Role, named, removed_values, added_values, Finding, keyword_finding,
}

-- the numbers of JSON with Python's `<` and `==`
pub record Numbers : Type 1 where
  pub Number : Type 0
  pub lt : Number → Number → Bool
  pub equal : Number → Number → Bool

-- `schema.get("type")`; a list holds texts
pub data TypeMember : Type 0 where
  no_type : TypeMember
  one_type : Text → TypeMember
  type_list : List Text → TypeMember
  other_type : TypeMember

-- `schema.get("additionalProperties", True)`
pub data Additional : Type 0 where
  denied : Additional
  value_schema : Additional
  allowed : Additional

-- the members of a schema object; `enum` holds `json.dumps` of the values
pub record Schema (Number : Type 0) : Type 0 where
  pub type : TypeMember
  pub enum : Option (List Text)
  pub additional : Additional
  pub pattern : Option Text
  pub bound : Text → Option Number
  pub required : List Text

unfoldable pub type_set : TypeMember → Option (List Text)
type_set no_type = none
type_set (one_type t) = some (t ∷ [])
type_set (type_list ts) = some ts
type_set other_type = none

unfoldable pub closedness_rank : Additional → ℕ
closedness_rank denied = 2
closedness_rank value_schema = 1
closedness_rank allowed = 0

-- `sorted(xs - ys)` of two sets
unfoldable pub difference : List Text → List Text → List Text
unfolding insert_text text_mem
difference [] ys = []
difference (x ∷ xs) ys =
    let rest = difference xs ys in
    if text_mem x ys || text_mem x rest then rest else insert_text x rest

unfoldable pub is_empty : List Text → Bool
is_empty [] = true
is_empty (x ∷ xs) = false

-- `==` of two sets, or of two missing ones
unfoldable pub same_set : Option (List Text) → Option (List Text) → Bool
unfolding difference is_empty
same_set none none = true
same_set (some xs) (some ys) = is_empty (difference xs ys) && is_empty (difference ys xs)
same_set _ _ = false

-- what was removed and what was added
unfoldable pub set_delta :
    (was_unset now_unset : Text) → (old new : Option (List Text)) → List Text × List Text
unfolding difference
set_delta was_unset now_unset none none = ([], [])
set_delta was_unset now_unset none (some new) = (was_unset ∷ [], difference new [])
set_delta was_unset now_unset (some old) none = (difference old [], now_unset ∷ [])
set_delta was_unset now_unset (some old) (some new) = (difference old new, difference new old)

unfoldable pub enum_delta : (old new : Option (List Text)) → List Text × List Text
unfolding difference
enum_delta none none = ([], [])
enum_delta none (some new) = ([], codes "<enum constraint added>" ∷ [])
enum_delta (some old) none = (codes "<enum constraint removed entirely>" ∷ [], [])
enum_delta (some old) (some new) = (difference old new, difference new old)

-- the two findings of a change of a set
unfoldable pub report_delta : Text → Role → (keyword : Text) → List Text × List Text → List Finding
unfolding is_empty keyword_finding
report_delta pointer role keyword (removed, added) =
    (if is_empty removed
      then []
      else keyword_finding pointer role keyword true (some (removed_values removed)) ∷ [])
    ++ (if is_empty added
        then []
        else keyword_finding pointer role keyword false (some (added_values added)) ∷ [])

-- a constraint that disappears reports its types as removed, and the placeholder as added
unfoldable pub compare_type : Text → Role → (old new : TypeMember) → List Finding
unfolding type_set same_set set_delta report_delta
compare_type pointer role old new =
    let delta =
      set_delta (codes "<was unconstrained>") (codes "<now unconstrained>") (type_set old)
        (type_set new) in
    if same_set (type_set old) (type_set new)
    then []
    else report_delta pointer role (codes "type") delta

unfoldable pub compare_enum : Text → Role → (old new : Option (List Text)) → List Finding
unfolding same_set enum_delta report_delta
compare_enum pointer role old new =
    if same_set old new then [] else report_delta pointer role (codes "enum") (enum_delta old new)

unfoldable pub compare_closedness : Text → Role → (old new : Additional) → List Finding
unfolding closedness_rank keyword_finding
compare_closedness pointer role old new =
    if closedness_rank old == closedness_rank new
    then []
    else keyword_finding pointer role (codes "additionalProperties")
        (ltb (closedness_rank old) (closedness_rank new)) none
      ∷ []

unfoldable pub compare_pattern : Text → Role → (old new : Option Text) → List Finding
unfolding keyword_finding
compare_pattern pointer role none none = []
compare_pattern pointer role none (some new) =
    keyword_finding pointer role (codes "pattern") true none ∷ []
compare_pattern pointer role (some old) none =
    keyword_finding pointer role (codes "pattern") false none ∷ []
compare_pattern pointer role (some old) (some new) =
    if text_eq old new then [] else keyword_finding pointer role (codes "pattern") true none ∷ []

-- `for name in names: scope.keyword(...)`
unfoldable pub report_names : Text → Role → Bool → List Text → List Finding
unfolding keyword_finding
report_names pointer role narrowed [] = []
report_names pointer role narrowed (name ∷ names) =
    keyword_finding pointer role (codes "required") narrowed (some (named name))
    ∷ report_names pointer role narrowed names

unfoldable pub compare_required : Text → Role → (old new : List Text) → List Finding
unfolding difference report_names
compare_required pointer role old new =
    report_names pointer role true (difference new old)
    ++ report_names pointer role false (difference old new)

module _ (numbers : Numbers) where
  open numbers use {Number, lt, equal}

  -- one turn of a loop over the bounds: `tighter` and `looser` compare the old value and the new one,
  -- an absent one being infinite
  unfoldable pub compare_bound :
      (tighter looser : Number → Number → Bool)
      → Text
      → Role
      → (keyword : Text) → (old new : Option Number) → List Finding
  unfolding keyword_finding
  compare_bound tighter looser pointer role keyword none none = []
  compare_bound tighter looser pointer role keyword none (some new) =
      keyword_finding pointer role keyword true none ∷ []
  compare_bound tighter looser pointer role keyword (some old) none =
      keyword_finding pointer role keyword false none ∷ []
  compare_bound tighter looser pointer role keyword (some old) (some new) =
      if equal old new
      then []
      else if tighter old new
      then keyword_finding pointer role keyword true none ∷ []
      else if looser old new
      then keyword_finding pointer role keyword false none ∷ []
      else []

  unfoldable pub compare_bounds :
      (tighter looser : Number → Number → Bool)
      → Text
      → Role
      → List Text
      → (old new : Text → Option Number) → List Finding
  unfolding compare_bound
  compare_bounds tighter looser pointer role [] old new = []
  compare_bounds tighter looser pointer role (kw ∷ kws) old new =
      compare_bound tighter looser pointer role kw (old kw) (new kw)
      ++ compare_bounds tighter looser pointer role kws old new

abbrev pub max_keys : List Text
max_keys = codes "maxLength" ∷ codes "maximum" ∷ codes "maxItems" ∷ codes "maxProperties" ∷ []

abbrev pub min_keys : List Text
min_keys = codes "minLength" ∷ codes "minimum" ∷ codes "minItems" ∷ codes "minProperties" ∷ []

module _ (numbers : Numbers) where
  open numbers use {Number, lt, equal}

  unfoldable pub compare_max_bounds : Text → Role → (old new : Text → Option Number) → List Finding
  unfolding compare_bounds
  compare_max_bounds pointer role =
      compare_bounds numbers (λ old new. lt new old) (λ old new. lt old new) pointer role max_keys

  unfoldable pub compare_min_bounds : Text → Role → (old new : Text → Option Number) → List Finding
  unfolding compare_bounds
  compare_min_bounds pointer role =
      compare_bounds numbers (λ old new. lt old new) (λ old new. lt new old) pointer role min_keys

  -- the findings of one pair of schema objects, in the order of `compare_node`; its members are
  -- compared by the recursion
  unfoldable pub compare_keywords : Text → Role → (old new : Schema Number) → List Finding
  unfolding compare_type compare_enum compare_closedness compare_pattern compare_max_bounds
      compare_min_bounds compare_required
  compare_keywords pointer role old new =
      compare_type pointer role old.type new.type
      ++ (compare_enum pointer role old.enum new.enum
          ++ (compare_closedness pointer role old.additional new.additional
              ++ (compare_pattern pointer role old.pattern new.pattern
                  ++ (compare_max_bounds pointer role old.bound new.bound
                      ++ (compare_min_bounds pointer role old.bound new.bound
                          ++ compare_required pointer role old.required new.required)))))
