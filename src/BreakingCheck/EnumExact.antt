-- ===== src/BreakingCheck/EnumExact.antt =====
-- `_compare_enum` in the request role: when its findings let a change of an enum pass.
use traigent_schema.Prelude.{
  ◌≡◌, ◌↔◌, refl, Bool, true, false, Option, none, some, List, [], ◌∷◌, Bool-cases, inl, inr,
}
use traigent_schema.Python.Text.{Text, text_mem, text_eq, text_eq_refl}
use traigent_schema.BreakingCheck.{request, routed, keyword_finding, has_breaking}
use traigent_schema.BreakingCheck.Keywords.{
  difference, is_empty, same_set, enum_delta, report_delta, compare_enum,
}
use traigent_schema.BreakingCheck.Constraint.{difference-text_mem}

-- the values that an enum names; a missing one names none
abbrev pub named_in : Option (List Text) → Text → Bool
named_in none t = false
named_in (some ts) t = text_mem t ts

-- the enum is not dropped, and every value that it named is still named
pub record IsKept (old new : Option (List Text)) : Type 0 where
  pub not_dropped : new ≡ none → old ≡ none
  pub values_kept : (t : Text) → named_in old t ≡ true → named_in new t ≡ true

difference-is_empty :
    (xs ys : List Text)
    → ((t : Text) → text_mem t xs ≡ true → text_mem t ys ≡ true)
    → is_empty (difference xs ys) ≡ true
unfolding difference text_mem is_empty
difference-is_empty [] ys all = refl
difference-is_empty (x ∷ xs) ys all =
    let here : text_mem x ys ≡ true = all x (rw (text_eq_refl x) refl) in
    let rest = difference-is_empty xs ys (λ t m.
      all t (elim (Bool-cases (text_eq x t)) [ inl e ↦ rw e refl | inr e ↦ rw (e, m) refl ])) in
    rw here rest

compare_enum-kept :
    (pointer : Text) (old new : Option (List Text))
    → IsKept old new
    → has_breaking (compare_enum pointer request old new) ≡ false
unfolding compare_enum same_set enum_delta report_delta is_empty has_breaking keyword_finding routed
compare_enum-kept pointer none none kept = refl
compare_enum-kept pointer none (some ys) kept = refl
compare_enum-kept pointer (some xs) none kept =
    absurd (let gone : ◌≡◌ {A = Option (List Text)} (some xs) none = kept.not_dropped refl in cc)
compare_enum-kept pointer (some xs) (some ys) kept =
    let removed = difference-is_empty xs ys kept.values_kept in
    elim (Bool-cases (is_empty (difference ys xs))) [
      | inl e ↦ rw (removed, e) refl
      | inr e ↦ rw (removed, e) refl
    ]

compare_enum-passed :
    (pointer : Text) (old new : Option (List Text))
    → has_breaking (compare_enum pointer request old new) ≡ false
    → IsKept old new
unfolding compare_enum same_set enum_delta report_delta is_empty has_breaking keyword_finding routed
compare_enum-passed pointer none new h = record {
  not_dropped = λ e. refl;
  values_kept = λ t m. absurd (cc);
}
compare_enum-passed pointer (some xs) none h = absurd (cc)
compare_enum-passed pointer (some xs) (some ys) h = record {
  not_dropped = λ e. absurd (cc);
  values_kept = λ t m. elim (Bool-cases (is_empty (difference xs ys))) [
    | inl removed ↦ difference-text_mem xs ys t removed m
    | inr left ↦ absurd (let bad : true ≡ false = rw left at h in cc)
  ];
}

-- In the request role the comparison of the enums has no breaking finding exactly when the enum is not dropped and every
-- value that the old enum named, none where it is missing, is named by the new one. So an enum that is introduced passes.
pub compare_enum-IsKept :
    (pointer : Text) (old new : Option (List Text))
    → (has_breaking (compare_enum pointer request old new) ≡ false) ↔ IsKept old new
compare_enum-IsKept pointer old new =
    (compare_enum-passed pointer old new, compare_enum-kept pointer old new)
