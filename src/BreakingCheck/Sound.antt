-- ===== src/BreakingCheck/Sound.antt =====
-- What a comparison of the keywords without a breaking finding shows of the instances of the two schemas, under the
-- conditions on enum and pattern that the theorems name.
use traigent_schema.Prelude.{◌≡◌, true, false, none, some, ◌⊎◌, inl, inr}
use traigent_schema.Python.Text.{Text}
use traigent_schema.BreakingCheck.{Role, breaking, routed, has_breaking}
use traigent_schema.BreakingCheck.Keywords.{
  Numbers, Schema, type_set, compare_type, compare_enum, compare_closedness, compare_pattern,
  max_keys, min_keys, compare_max_bounds, compare_min_bounds, compare_keywords,
}
use traigent_schema.BreakingCheck.Constraint.{Instance, Admits}
use traigent_schema.BreakingCheck.Directions.{
  has_breaking-append, compare_set-narrowed, compare_set-widened, set_delta-removed,
  set_delta-added, enum_delta-removed, enum_delta-added, compare_pattern-narrowed,
  compare_pattern-widened, compare_required-narrowed, compare_required-widened,
}
use traigent_schema.BreakingCheck.Closedness.{
  compare_closedness-narrowed, compare_closedness-widened,
}
use traigent_schema.BreakingCheck.Bounds.{IsOrder, compare_bounds-narrowed, compare_bounds-widened}

swap {ℓ} : {A B : Type ℓ} → A ⊎ B → B ⊎ A
swap (inl a) = inr a
swap (inr b) = inl b

module _ (numbers : Numbers) (order : IsOrder numbers) (pointer : Text) (role : Role) where
  open numbers use {Number, lt, equal}

  -- In a role whose narrowings are breaking, as of requests: when the comparison of the keywords has no
  -- breaking finding and no enum was introduced where there was none, every instance that met the old
  -- keywords meets the new ones, where the listed members and the value schema of additionalProperties are
  -- the same in both.
  pub compare_keywords-narrowed :
      (old new : Schema Number) (i : Instance Number)
      → routed role true ≡ breaking
      → (old.enum ≡ none → new.enum ≡ none)
      → has_breaking (compare_keywords numbers pointer role old new) ≡ false
      → Admits numbers old i
      → Admits numbers new i
  unfolding compare_keywords compare_type compare_enum compare_max_bounds compare_min_bounds
  compare_keywords-narrowed old new i severe enum_kept h a =
      let (h_type, h1) = has_breaking-append (compare_type pointer role old.type new.type) _ h in
      let (h_enum, h2) = has_breaking-append (compare_enum pointer role old.enum new.enum) _ h1 in
      let (h_closed, h3) =
        has_breaking-append (compare_closedness pointer role old.additional new.additional) _ h2 in
      let (h_pattern, h4) =
        has_breaking-append (compare_pattern pointer role old.pattern new.pattern) _ h3 in
      let (h_max, h5) =
        has_breaking-append (compare_max_bounds numbers pointer role old.bound new.bound) _ h4 in
      let (h_min, h_req) =
        has_breaking-append (compare_min_bounds numbers pointer role old.bound new.bound) _ h5 in
      record {
        type_allowed =
            compare_set-narrowed pointer role _ (type_set old.type) (type_set new.type) _ i.type
              severe h_type (set_delta-removed _ _ (type_set old.type) (type_set new.type) i.type)
              a.type_allowed;
        value_allowed =
            compare_set-narrowed pointer role _ old.enum new.enum _ i.dumped severe h_enum
              (enum_delta-removed old.enum new.enum i.dumped enum_kept) a.value_allowed;
        extras_allowed =
            compare_closedness-narrowed pointer role old.additional new.additional i.extras severe
              h_closed a.extras_allowed;
        pattern_allowed =
            compare_pattern-narrowed pointer role old.pattern new.pattern i.matches severe h_pattern
              a.pattern_allowed;
        below_max =
            compare_bounds-narrowed numbers (λ o n. lt n o) (λ o n. lt o n) (λ b m. lt b m) pointer
              role max_keys old.bound new.bound i.measure (λ o n m. order.split n o m)
              (λ o n e. (order.apart o n e).1) severe h_max a.below_max;
        above_min =
            compare_bounds-narrowed numbers (λ o n. lt o n) (λ o n. lt n o) (λ b m. lt m b) pointer
              role min_keys old.bound new.bound i.measure
              (λ o n m over. swap (order.split m o n over)) (λ o n e. (order.apart o n e).0) severe
              h_min a.above_min;
        complete =
            compare_required-narrowed pointer role old.required new.required i.names severe h_req
              a.complete;
      }

  -- In a role whose widenings are breaking, as of responses: when the comparison of the keywords has no
  -- breaking finding, no enum was dropped and no pattern replaced by another one, every instance that
  -- meets the new keywords met the old ones, where the listed members and the value schema of
  -- additionalProperties are the same in both.
  pub compare_keywords-widened :
      (old new : Schema Number) (i : Instance Number)
      → routed role false ≡ breaking
      → (new.enum ≡ none → old.enum ≡ none)
      → ((p q : Text) → old.pattern ≡ some p → new.pattern ≡ some q → p ≡ q)
      → has_breaking (compare_keywords numbers pointer role old new) ≡ false
      → Admits numbers new i
      → Admits numbers old i
  unfolding compare_keywords compare_type compare_enum compare_max_bounds compare_min_bounds
  compare_keywords-widened old new i severe enum_kept pattern_kept h a =
      let (h_type, h1) = has_breaking-append (compare_type pointer role old.type new.type) _ h in
      let (h_enum, h2) = has_breaking-append (compare_enum pointer role old.enum new.enum) _ h1 in
      let (h_closed, h3) =
        has_breaking-append (compare_closedness pointer role old.additional new.additional) _ h2 in
      let (h_pattern, h4) =
        has_breaking-append (compare_pattern pointer role old.pattern new.pattern) _ h3 in
      let (h_max, h5) =
        has_breaking-append (compare_max_bounds numbers pointer role old.bound new.bound) _ h4 in
      let (h_min, h_req) =
        has_breaking-append (compare_min_bounds numbers pointer role old.bound new.bound) _ h5 in
      record {
        type_allowed =
            compare_set-widened pointer role _ (type_set old.type) (type_set new.type) _ i.type
              severe h_type (set_delta-added _ _ (type_set old.type) (type_set new.type) i.type)
              a.type_allowed;
        value_allowed =
            compare_set-widened pointer role _ old.enum new.enum _ i.dumped severe h_enum
              (enum_delta-added old.enum new.enum i.dumped enum_kept) a.value_allowed;
        extras_allowed =
            compare_closedness-widened pointer role old.additional new.additional i.extras severe
              h_closed a.extras_allowed;
        pattern_allowed =
            compare_pattern-widened pointer role old.pattern new.pattern i.matches severe
              pattern_kept h_pattern a.pattern_allowed;
        below_max =
            compare_bounds-widened numbers (λ o n. lt n o) (λ o n. lt o n) (λ b m. lt b m) pointer
              role max_keys old.bound new.bound i.measure (λ o n m. order.split o n m)
              (λ o n e. (order.apart o n e).0) (λ o n. order.asym o n) severe h_max a.below_max;
        above_min =
            compare_bounds-widened numbers (λ o n. lt o n) (λ o n. lt n o) (λ b m. lt m b) pointer
              role min_keys old.bound new.bound i.measure
              (λ o n m over. swap (order.split m n o over)) (λ o n e. (order.apart o n e).1)
              (λ o n. order.asym n o) severe h_min a.above_min;
        complete =
            compare_required-widened pointer role old.required new.required i.names severe h_req
              a.complete;
      }
