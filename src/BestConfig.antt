-- ===== src/BestConfig.antt =====
-- traigent_schema/best_config_profile.py: the integrity digests of a best-config. The child modules
-- hold the contract constants and the hooks of the strict JSON decoder.
pub mod Contract
pub mod Decode
pub mod Admitted
pub mod Digest
pub mod Separate
use mathlib.Core.List.{map, reverse}
use traigent_schema.Prelude.{
  ℕ, zero, suc, ◌+◌, ◌-◌, ◌^◌, Bool, true, false, ◌&&◌, not, Option, none, some, List, [], ◌∷◌,
  ◌++◌, ltb, leb, ◌==◌, if◌then◌else◌, length,
}
use traigent_schema.Python.Result.{Result, ok, err, ◌>>=◌, ◌>>◌, guard}
use traigent_schema.Python.Text.{is_ascii, Text, codes, utf8}
use traigent_schema.Python.Int.{ℤ, abs}
use traigent_schema.Python.Object.{
  Floats, Value, null, bool, int, float, str, ref, foreign, Key, str_key, foreign_key, Container,
  list, dict, Heap,
}
use traigent_schema.Python.Identity.{is_open, discard}
use traigent_schema.Python.Worklist.{drain}
use traigent_schema.Python.Walk.{Visit, visit, leave, walk_step}
use traigent_schema.Fp2.{canonicalize}
use traigent_schema.Fp2.Scalar.{Unsupported}

-- the subclasses of `BestConfigProfileError`; the base class itself is `contract_error`;
-- `unicode_encode` is Python's UnicodeEncodeError
pub data ProfileError : Type 0 where
  contract_error unsafe_integral canonical_too_large circular_reference exceeds_max_depth
        non_string_key unsupported_type fp2_canonicalization duplicate_property_name malformed_json
        unicode_encode :
      ProfileError

abbrev pub max_safe_integer : ℕ
max_safe_integer = 2 ^ 53 - 1

-- `MAX_DEPTH`, which importing the module checks to be `fp2.MAX_DEPTH`
abbrev pub max_depth : ℕ
max_depth = 100

module _ (fl : Floats) where
  open fl use {Float, is_finite, is_integral, is_unsafe}

  unfoldable pub is_unsafe_integral_int : ℤ → Bool
  is_unsafe_integral_int n = ltb max_safe_integer (abs n)

  unfoldable pub is_unsafe_integral_float : Float → Bool
  is_unsafe_integral_float x =
      if not (is_finite x) then false else if not (is_integral x) then false else is_unsafe x

  -- a scalar is admitted or raises; a container is handled by `walk_step`
  unfoldable pub is_admissible_scalar : Value Float → Result ProfileError (Unit {0})
  unfolding is_unsafe_integral_int is_unsafe_integral_float
  is_admissible_scalar (int n) = guard (not (is_unsafe_integral_int n)) unsafe_integral
  is_admissible_scalar (float x) = guard (not (is_unsafe_integral_float x)) unsafe_integral
  is_admissible_scalar foreign = err unsupported_type
  is_admissible_scalar v = ok tt

  -- `_open_profile_container` up to the children: depth, then identity
  unfoldable pub open_profile_container : ℕ → ℕ → List ℕ → Result ProfileError (List ℕ)
  unfolding is_open
  open_profile_container a depth open_ids = do
    guard (leb depth max_depth) exceeds_max_depth
    guard (not (is_open a open_ids)) circular_reference
    ok (a ∷ open_ids)

  -- the values of a dict whose keys are all plain strings, in its order
  unfoldable pub member_values : List (Key × Value Float) → Result ProfileError (List (Value Float))
  member_values [] = ok []
  member_values ((str_key k, v) ∷ items) = do vs ← member_values items; ok (v ∷ vs)
  member_values ((foreign_key, v) ∷ items) = err non_string_key

  -- its children, in the order in which the stack pops them: the last one first
  unfoldable pub profile_children : Container Float → Result ProfileError (List (Value Float))
  unfolding member_values
  profile_children (dict items) = do vs ← member_values items; ok (reverse vs)
  profile_children (list items) = ok (reverse items)

  module _ (heap : Heap Float) where
    unfoldable pub prevalidate : ℕ → Value Float → Option (Result ProfileError (List ℕ))
    unfolding drain walk_step is_admissible_scalar open_profile_container profile_children discard
    prevalidate fuel root =
        drain (walk_step is_admissible_scalar open_profile_container profile_children discard heap)
          fuel (visit root 1 ∷ []) []

    -- `except fp2.Fp2UnsupportedValue`
    abbrev pub wrapped : Result Unsupported Text → Result ProfileError Text
    wrapped (ok text) = ok text
    wrapped (err x) = err fp2_canonicalization

    unfoldable pub bounded : ℕ → Text → Result ProfileError (List ℕ)
    bounded max_bytes canonical =
        let encoded = utf8 canonical in
        if ltb max_bytes (length encoded) then err canonical_too_large else ok encoded

    unfoldable pub within_bound :
        ℕ → Option (Result Unsupported Text) → Option (Result ProfileError (List ℕ))
    unfolding bounded
    within_bound max_bytes none = none
    within_bound max_bytes (some r) = some (do canonical ← wrapped r; bounded max_bytes canonical)

    -- what follows the prevalidation, which it reaches only if that raised nothing
    unfoldable pub after_prevalidation :
        ℕ
        → ℕ
        → Value Float
        → Option (Result ProfileError (List ℕ))
        → Option (Result ProfileError (List ℕ))
    unfolding within_bound
    after_prevalidation max_bytes fuel v none = none
    after_prevalidation max_bytes fuel v (some (err x)) = some (err x)
    after_prevalidation max_bytes fuel v (some (ok _)) =
        within_bound max_bytes (canonicalize fl heap fuel v)

    -- `_canonical_bytes`; the fuel is for both loops
    unfoldable pub canonical_bytes : ℕ → ℕ → Value Float → Option (Result ProfileError (List ℕ))
    canonical_bytes max_bytes fuel v = after_prevalidation max_bytes fuel v (prevalidate fuel v)

    module _ (sha256_hexdigest : List ℕ → Text) where
      -- `domain_tag.encode("ascii")` raises UnicodeEncodeError on other tags
      unfoldable pub tagged :
          Text → Option (Result ProfileError (List ℕ)) → Option (Result ProfileError Text)
      unfolding is_ascii
      tagged tag none = none
      tagged tag (some (err x)) = some (err x)
      tagged tag (some (ok encoded)) = some (
          if is_ascii tag
          then ok (codes "sha256:" ++ sha256_hexdigest (tag ++ 0 ∷ encoded))
          else err unicode_encode)

      unfoldable pub domain_digest : ℕ → Text → ℕ → Value Float → Option (Result ProfileError Text)
      unfolding tagged
      domain_digest max_bytes domain_tag fuel v =
          tagged domain_tag (canonical_bytes max_bytes fuel v)
