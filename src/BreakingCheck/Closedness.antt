-- ===== src/BreakingCheck/Closedness.antt =====
-- `_compare_additional_properties` without a breaking finding, for the members that a schema lists nowhere.
use traigent_schema.Prelude.{◌≡◌, refl, true, false, none, []}
use traigent_schema.Python.Text.{Text, codes}
use traigent_schema.BreakingCheck.{Role, breaking, routed, has_breaking}
use traigent_schema.BreakingCheck.Keywords.{
  Additional, denied, value_schema, allowed, closedness_rank, compare_closedness,
}
use traigent_schema.BreakingCheck.Constraint.{Extras, absent, fitting, unfitting, allows_extras}
use traigent_schema.BreakingCheck.Directions.{keyword_finding-breaking}

module _ (pointer : Text) (role : Role) where
  pub compare_closedness-narrowed :
      (old new : Additional) (extras : Extras)
      → routed role true ≡ breaking
      → has_breaking (compare_closedness pointer role old new) ≡ false
      → allows_extras old extras ≡ true
      → allows_extras new extras ≡ true
  unfolding compare_closedness closedness_rank allows_extras
  compare_closedness-narrowed old allowed extras severe h m = refl
  compare_closedness-narrowed denied denied extras severe h m = m
  compare_closedness-narrowed value_schema value_schema extras severe h m = m
  compare_closedness-narrowed denied value_schema absent severe h m = refl
  compare_closedness-narrowed denied value_schema fitting severe h m = refl
  compare_closedness-narrowed denied value_schema unfitting severe h m = absurd (cc)
  compare_closedness-narrowed value_schema denied extras severe h m =
      absurd
        (keyword_finding-breaking pointer role (codes "additionalProperties") true none [] severe h)
  compare_closedness-narrowed allowed denied extras severe h m =
      absurd
        (keyword_finding-breaking pointer role (codes "additionalProperties") true none [] severe h)
  compare_closedness-narrowed allowed value_schema extras severe h m =
      absurd
        (keyword_finding-breaking pointer role (codes "additionalProperties") true none [] severe h)

  pub compare_closedness-widened :
      (old new : Additional) (extras : Extras)
      → routed role false ≡ breaking
      → has_breaking (compare_closedness pointer role old new) ≡ false
      → allows_extras new extras ≡ true
      → allows_extras old extras ≡ true
  unfolding compare_closedness closedness_rank allows_extras
  compare_closedness-widened allowed new extras severe h m = refl
  compare_closedness-widened denied denied extras severe h m = m
  compare_closedness-widened value_schema value_schema extras severe h m = m
  compare_closedness-widened value_schema denied absent severe h m = refl
  compare_closedness-widened value_schema denied fitting severe h m = refl
  compare_closedness-widened value_schema denied unfitting severe h m = absurd (cc)
  compare_closedness-widened denied value_schema extras severe h m =
      absurd (
        keyword_finding-breaking pointer role (codes "additionalProperties") false none [] severe h)
  compare_closedness-widened denied allowed extras severe h m =
      absurd (
        keyword_finding-breaking pointer role (codes "additionalProperties") false none [] severe h)
  compare_closedness-widened value_schema allowed extras severe h m =
      absurd (
        keyword_finding-breaking pointer role (codes "additionalProperties") false none [] severe h)
