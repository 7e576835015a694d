-- ===== src/Tests/Breaking.antt =====
-- The theorems on the breaking-change check at two pairs of small schemas, with natural numbers.
use traigent_schema.Prelude.{
  ℕ, ◌≡◌, ◌↔◌, ◌⊎◌, refl, true, false, Option, none, some, [], ◌∷◌, arith, ltb, ◌==◌,
}
use traigent_schema.Python.Text.{Text, codes, text_mem}
use traigent_schema.BreakingCheck.{request, response, routed, has_breaking}
use traigent_schema.BreakingCheck.Keywords.{
  Numbers, Schema, one_type, type_list, type_set, denied, allowed, compare_enum, compare_keywords,
}
use traigent_schema.BreakingCheck.Constraint.{
  Instance, absent, allows_extras, all_within, has_all, Admits,
}
use traigent_schema.BreakingCheck.Bounds.{IsOrder}
use traigent_schema.BreakingCheck.EnumExact.{IsKept, compare_enum-IsKept}
use traigent_schema.BreakingCheck.Sound.{compare_keywords-narrowed, compare_keywords-widened}

abbrev naturals : Numbers
naturals = record { Number = ℕ; lt = ltb; equal = ◌==◌ }

split_ltb : (a b c : ℕ) → ltb a c ≡ true → (ltb a b ≡ true) ⊎ (ltb b c ≡ true)
split_ltb a b c h = ground arith

naturals-IsOrder : IsOrder naturals
naturals-IsOrder = record {
  split = split_ltb;
  asym = λ a b h. ground (arith, h);
  apart = λ a b h. (ground (arith, h), ground (arith, h));
}

-- a string of at most 5 characters, and one that may be null or have up to 9
abbrev tight : Schema ℕ
tight = record {
  type = one_type (codes "string");
  enum = none;
  additional = denied;
  pattern = none;
  bound = λ kw. some 5;
  required = codes "a" ∷ codes "b" ∷ [];
}

abbrev loose : Schema ℕ
loose = record tight {
  type = type_list (codes "null" ∷ codes "string" ∷ []);
  additional = allowed;
  required = codes "b" ∷ [];
}

abbrev word : Instance ℕ
word = record {
  type = codes "string";
  dumped = codes "\"five!\"";
  matches = λ p. true;
  measure = λ kw. 5;
  names = codes "b" ∷ codes "a" ∷ [];
  extras = absent;
}

word-Admits : Admits naturals tight word
unfolding all_within has_all type_set text_mem allows_extras
word-Admits = record {
  type_allowed = refl;
  value_allowed = refl;
  extras_allowed = refl;
  pattern_allowed = refl;
  below_max = refl;
  above_min = refl;
  complete = refl;
}

request_run : has_breaking (compare_keywords naturals [] request tight loose) ≡ false
unfolding compare_keywords has_breaking
request_run = refl

compare_keywords-narrowed_example : Admits naturals loose word
unfolding routed
compare_keywords-narrowed_example =
    compare_keywords-narrowed naturals naturals-IsOrder [] request tight loose word refl (λ e. e)
      request_run word-Admits

response_run : has_breaking (compare_keywords naturals [] response loose tight) ≡ false
unfolding compare_keywords has_breaking
response_run = refl

no_pattern : {p : Text} → ◌≡◌ {A = Option Text} none (some p) → ⊥
no_pattern e = cc

compare_keywords-widened_example : Admits naturals loose word
unfolding routed
compare_keywords-widened_example =
    compare_keywords-widened naturals naturals-IsOrder [] response loose tight word refl (λ e. e)
      (λ p q e e'. absurd (no_pattern e)) response_run word-Admits

compare_enum-IsKept_example :
    (has_breaking (compare_enum [] request none (some (codes "1" ∷ []))) ≡ false)
    ↔ IsKept none (some (codes "1" ∷ []))
compare_enum-IsKept_example = compare_enum-IsKept [] none (some (codes "1" ∷ []))
