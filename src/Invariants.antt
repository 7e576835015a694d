-- ===== src/Invariants.antt =====
-- traigent_schema/invariants.py: the interpreter of a schema's declared relations. `Pointer` resolves
-- JSON pointers, `Compare` validates and compares two subtrees, and this file evaluates declarations.
-- A declaration has already been checked against the closed shape of its relation, which is the
-- meta-schema's and jsonschema's part; loading the schema is outside too.
pub mod Pointer
pub mod Escape
pub mod Compare
pub mod Bound
pub mod Holds
pub mod Report
use traigent_schema.Prelude.{
  ℕ, Bool, true, false, not, Option, none, some, List, [], ◌∷◌, if◌then◌else◌,
}
use traigent_schema.Python.Result.{Result, ok, err}
use traigent_schema.Python.Text.{Text, codes}
use traigent_schema.Python.Object.{
  Floats, Value, null, bool, int, float, str, ref, foreign, Key, Container, list, dict, Heap,
}
use Pointer.{InvariantError, declaration_error, object_member, resolve_pointer}
use Compare.{exact_structural_equal}

-- what a run of a check comes to: no fuel left, an exception, or an answer
abbrev pub Run {ℓ} : Type ℓ → Type ℓ
Run A = Option (Result InvariantError A)

infixl 5 ◌>>=◌
abbrev pub ◌>>=◌ {ℓ κ} : {A : Type ℓ} {B : Type κ} → Run A → (A → Run B) → Run B
none >>= f = none
some (err x) >>= f = some (err x)
some (ok a) >>= f = f a

abbrev pub pure {ℓ} : {A : Type ℓ} → A → Run A
pure a = some (ok a)

-- one constructor for each relation, with the fields of its closed shape
pub data Relation (F : Type 0) : Type 0 where
  present_and_equal : (left_pointer right_pointer : Text) → Relation F
  selector_lookup_equals_literal : (selector_pointer map_pointer : Text) → Value F → Relation F
  condition_implies_unequal : (condition_pointer left_pointer right_pointer : Text) → Relation F

pub record Declaration (F : Type 0) : Type 0 where
  pub code : Text
  pub relation : Relation F

pub record InvariantViolation : Type 0 where
  pub code : Text
  pub relation : Text
  pub left_pointer : Text
  pub right_pointer : Text
  pub condition_pointer : Option Text

module _ (fl : Floats) (heap : Heap fl.Float) (fuel : ℕ) where
  open fl use {Float}

  abbrev equal : Value Float → Value Float → Run Bool
  equal left right = exact_structural_equal fl heap fuel left right

  abbrev both_equal : Option (Value Float) → Option (Value Float) → Run Bool
  both_equal (some left) (some right) = equal left right
  both_equal left right = pure false

  unfoldable pub check_present_and_equal : Value Float → Text → Text → Run Bool
  unfolding resolve_pointer
  check_present_and_equal payload left_pointer right_pointer = do
    left ← some (resolve_pointer heap payload left_pointer)
    right ← some (resolve_pointer heap payload right_pointer)
    both_equal left right

  abbrev entry_equal : Option (Value Float) → Value Float → Run Bool
  entry_equal none literal = pure false
  entry_equal (some looked_up) literal = equal looked_up literal

  abbrev in_mapping : Container Float → Text → Value Float → Run Bool
  in_mapping (dict items) selector literal = entry_equal (object_member items selector) literal
  in_mapping (list items) selector literal = pure false

  abbrev selected : Option (Value Float) → Text → Value Float → Run Bool
  selected (some (ref a)) selector literal = in_mapping (heap a) selector literal
  selected mapping selector literal = pure false

  abbrev with_selector : Option (Value Float) → Run (Option (Value Float)) → Value Float → Run Bool
  with_selector (some (str selector)) mapping literal = do m ← mapping; selected m selector literal
  with_selector v mapping literal = pure false

  unfoldable pub check_selector_lookup : Value Float → Text → Text → Value Float → Run Bool
  unfolding resolve_pointer object_member
  check_selector_lookup payload selector_pointer map_pointer literal = do
    selector ← some (resolve_pointer heap payload selector_pointer)
    with_selector selector (some (resolve_pointer heap payload map_pointer)) literal

  abbrev both_unequal : Option (Value Float) → Option (Value Float) → Run Bool
  both_unequal (some left) (some right) = do same ← equal left right; pure (not same)
  both_unequal left right = pure false

  -- `condition is not True` asserts nothing
  abbrev under_condition : Option (Value Float) → Run Bool → Run Bool
  under_condition (some (bool true)) asserted = asserted
  under_condition v asserted = pure true

  unfoldable pub check_condition_implies_unequal : Value Float → Text → Text → Text → Run Bool
  unfolding resolve_pointer
  check_condition_implies_unequal payload condition_pointer left_pointer right_pointer = do
    condition ← some (resolve_pointer heap payload condition_pointer)
    under_condition condition (do
      left ← some (resolve_pointer heap payload left_pointer)
      right ← some (resolve_pointer heap payload right_pointer)
      both_unequal left right)

  -- `_RELATION_CHECKS`
  unfoldable pub check : Value Float → Relation Float → Run Bool
  unfolding check_present_and_equal check_selector_lookup check_condition_implies_unequal
  check payload (present_and_equal l r) = check_present_and_equal payload l r
  check payload (selector_lookup_equals_literal s m v) = check_selector_lookup payload s m v
  check payload (condition_implies_unequal c l r) = check_condition_implies_unequal payload c l r

  unfoldable pub violation : Declaration Float → InvariantViolation
  violation d = elim d.relation [
    | present_and_equal l r ↦ record {
      code = d.code;
      relation = codes "present_and_equal";
      left_pointer = l;
      right_pointer = r;
      condition_pointer = none;
    }
    | selector_lookup_equals_literal s m v ↦ record {
      code = d.code;
      relation = codes "selector_lookup_equals_literal";
      left_pointer = s;
      right_pointer = m;
      condition_pointer = none;
    }
    | condition_implies_unequal c l r ↦ record {
      code = d.code;
      relation = codes "condition_implies_unequal";
      left_pointer = l;
      right_pointer = r;
      condition_pointer = some c;
    }
  ]

  -- the loop of `validate_declared_invariants` over the declarations of the schema
  unfoldable pub report : Value Float → List (Declaration Float) → Run (List InvariantViolation)
  unfolding check violation
  report payload [] = pure []
  report payload (d ∷ declarations) = do
    holds ← check payload d.relation
    violations ← report payload declarations
    pure (if holds then violations else violation d ∷ violations)

  -- `declared` is the list under the schema's `x-traigent-invariants`, of checked shapes, if there is a list;
  -- a missing or empty one raises in `_declarations`
  unfoldable pub validate_declared_invariants :
      Value Float → Option (List (Declaration Float)) → Run (List InvariantViolation)
  unfolding report
  validate_declared_invariants payload none = some (err declaration_error)
  validate_declared_invariants payload (some []) = some (err declaration_error)
  validate_declared_invariants payload (some (d ∷ declarations)) = report payload (d ∷ declarations)
