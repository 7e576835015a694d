-- ===== src/Invariants/Compare.antt =====
-- `_prevalidate_canonical`, `_compare_validated` and `_exact_structural_equal`.
use mathlib.Core.List.{reverse}
use mathlib.Core.Option
use traigent_schema.Prelude.{
  ℕ, ◌-◌, Bool, true, false, not, Option, none, some, List, [], ◌∷◌, leb, ◌==◌, if◌then◌else◌,
  length,
}
use traigent_schema.Python.Result.{Result, ok, err, ◌>>=◌, ◌>>◌, guard}
use traigent_schema.Python.Text.{text_eq}
use traigent_schema.Python.Int.{ℤ, pos, negsuc}
use traigent_schema.Python.Object.{
  Floats, Value, null, bool, int, float, str, ref, foreign, Key, str_key, foreign_key, Container,
  list, dict, Heap,
}
use traigent_schema.Python.Identity.{is_open, discard}
use traigent_schema.Python.Worklist.{drain}
use traigent_schema.Python.Walk.{visit, walk_step}
use traigent_schema.Invariants.Pointer.{
  InvariantError, comparison_bound, noncanonical_payload, object_member,
}

abbrev pub max_comparison_depth : ℕ
max_comparison_depth = 100

abbrev pub max_comparison_nodes : ℕ
max_comparison_nodes = 100_000

-- the open containers, and the nodes that may still be discovered
pub record Budget : Type 0 where
  pub open_ids : List ℕ
  pub remaining : ℕ

pub data Mismatch : Type 0 where
  mismatch : Mismatch

module _ (fl : Floats) where
  open fl use {Float, is_finite, equal}

  unfoldable pub is_canonical_scalar : Value Float → Result InvariantError (Unit {0})
  is_canonical_scalar (float x) = guard (is_finite x) noncanonical_payload
  is_canonical_scalar foreign = err noncanonical_payload
  is_canonical_scalar v = ok tt

  unfoldable pub size : Container Float → ℕ
  size (dict items) = length items
  size (list items) = length items

  -- the values of a dict with plain string keys
  unfoldable pub canonical_members :
      List (Key × Value Float) → Result InvariantError (List (Value Float))
  canonical_members [] = ok []
  canonical_members ((str_key k, v) ∷ items) = do vs ← canonical_members items; ok (v ∷ vs)
  canonical_members ((foreign_key, v) ∷ items) = err noncanonical_payload

  -- `_push_canonical_children`, in the order in which the stack pops them
  unfoldable pub canonical_children : Container Float → Result InvariantError (List (Value Float))
  unfolding canonical_members
  canonical_children (dict items) = do vs ← canonical_members items; ok (reverse vs)
  canonical_children (list items) = ok (reverse items)

  -- `_LEAVE`
  unfoldable pub leave_container : ℕ → Budget → Budget
  leave_container a s = record s { open_ids = discard a s.open_ids }

  module _ (heap : Heap Float) where
    unfoldable pub reserve_container : ℕ → ℕ → Budget → Result InvariantError Budget
    unfolding is_open size
    reserve_container a depth s = do
      guard (leb depth max_comparison_depth) comparison_bound
      guard (not (is_open a s.open_ids)) comparison_bound
      guard (leb (size (heap a)) s.remaining) comparison_bound
      ok (record { open_ids = a ∷ s.open_ids; remaining = s.remaining - size (heap a) })

    unfoldable pub prevalidate_canonical : ℕ → Value Float → Option (Result InvariantError Budget)
    unfolding drain walk_step is_canonical_scalar reserve_container canonical_children
        leave_container
    prevalidate_canonical fuel root =
        drain
          (walk_step is_canonical_scalar reserve_container canonical_children leave_container heap)
          fuel (visit root 1 ∷ []) (record { open_ids = []; remaining = max_comparison_nodes - 1 })

    abbrev same_container : Container Float → Container Float → Bool
    same_container (dict l) (dict r) = true
    same_container (list l) (list r) = true
    same_container _ _ = false

    -- `type(node_left) is type(node_right)`, of validated nodes
    unfoldable pub same_type : Value Float → Value Float → Bool
    same_type null null = true
    same_type (bool a) (bool b) = true
    same_type (int m) (int n) = true
    same_type (float x) (float y) = true
    same_type (str s) (str t) = true
    same_type (ref a) (ref b) = same_container (heap a) (heap b)
    same_type _ _ = false

    abbrev bool_eq : Bool → Bool → Bool
    bool_eq true b = b
    bool_eq false b = not b

    abbrev int_eq : ℤ → ℤ → Bool
    int_eq (pos m) (pos n) = m == n
    int_eq (negsuc m) (negsuc n) = m == n
    int_eq _ _ = false

    -- `==` on two scalars of one type
    unfoldable pub scalar_eq : Value Float → Value Float → Bool
    scalar_eq null null = true
    scalar_eq (bool a) (bool b) = bool_eq a b
    scalar_eq (int m) (int n) = int_eq m n
    scalar_eq (float x) (float y) = equal x y
    scalar_eq (str s) (str t) = text_eq s t
    scalar_eq _ _ = false

    abbrev Pairs : Type 0
    Pairs = List (Value Float × Value Float)

    abbrev pair_with : Value Float → Option (Value Float) → Option Pairs → Option Pairs
    pair_with v (some w) (some pairs) = some ((v, w) ∷ pairs)
    pair_with v _ _ = none

    -- the pairs for the keys of the left dict, `none` where the right one lacks a key
    unfoldable pub member_pairs : List (Key × Value Float) → List (Key × Value Float) → Option Pairs
    member_pairs [] right = some []
    member_pairs ((foreign_key, v) ∷ items) right = none
    member_pairs ((str_key k, v) ∷ items) right =
        pair_with v (object_member right k) (member_pairs items right)

    unfoldable pub zip_items : List (Value Float) → List (Value Float) → Pairs
    zip_items (v ∷ vs) (w ∷ ws) = (v, w) ∷ zip_items vs ws
    zip_items _ _ = []

    -- equal key sets are as many keys, each of which the other dict has
    abbrev container_pairs : Container Float → Container Float → Option Pairs
    container_pairs (dict l) (dict r) = if length l == length r then member_pairs l r else none
    container_pairs (list l) (list r) = if length l == length r then some (zip_items l r) else none
    container_pairs _ _ = none

    -- the child pairs, in the order in which the stack pops them; `none` is `False`
    unfoldable pub expand_validated_pair : Value Float → Value Float → Option Pairs
    unfolding member_pairs zip_items scalar_eq
    expand_validated_pair (ref a) (ref b) = Option.map reverse (container_pairs (heap a) (heap b))
    expand_validated_pair left right = if scalar_eq left right then some [] else none

    abbrev pushed : Option Pairs → Result Mismatch (Pairs × Unit {0})
    pushed none = err mismatch
    pushed (some pairs) = ok (pairs, tt)

    -- one round of `_compare_validated`
    unfoldable pub compare_step :
        Value Float × Value Float → Unit {0} → Result Mismatch (Pairs × Unit {0})
    unfolding same_type expand_validated_pair
    compare_step (left, right) s =
        if same_type left right then pushed (expand_validated_pair left right) else err mismatch

    abbrev answer : Option (Result Mismatch (Unit {0})) → Option (Result InvariantError Bool)
    answer none = none
    answer (some (ok s)) = some (ok true)
    answer (some (err x)) = some (ok false)

    unfoldable pub compare_validated :
        ℕ → Value Float → Value Float → Option (Result InvariantError Bool)
    unfolding drain compare_step
    compare_validated fuel left right = answer (drain compare_step fuel ((left, right) ∷ []) tt)

    abbrev after :
        Option (Result InvariantError Budget)
        → Option (Result InvariantError Bool)
        → Option (Result InvariantError Bool)
    after none rest = none
    after (some (err x)) rest = some (err x)
    after (some (ok s)) rest = rest

    -- both sides are validated before they are compared
    unfoldable pub exact_structural_equal :
        ℕ → Value Float → Value Float → Option (Result InvariantError Bool)
    exact_structural_equal fuel left right =
        after (prevalidate_canonical fuel left)
          (after (prevalidate_canonical fuel right) (compare_validated fuel left right))
