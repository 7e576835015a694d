-- ===== src/BreakingCheck/Directions.antt =====
-- One keyword's comparison without a breaking finding: nothing was narrowed, or nothing widened,
-- according to what the role makes breaking.
use traigent_schema.Prelude.{
  ◌≡◌, refl, Bool, true, false, Option, none, some, List, [], ◌∷◌, ◌++◌, if◌then◌else◌, Bool-cases,
  inl, inr,
}
use traigent_schema.Python.Text.{Text, codes, text_eq, text_eq_sound}
use traigent_schema.BreakingCheck.{
  Role, breaking, Subject, named, removed_values, added_values, Finding, routed, keyword_finding,
  is_breaking, has_breaking,
}
use traigent_schema.BreakingCheck.Keywords.{
  difference, is_empty, same_set, set_delta, enum_delta, report_delta, compare_pattern,
  report_names, compare_required,
}
use traigent_schema.BreakingCheck.Constraint.{
  allows, allows_pattern, has_all, difference-text_mem, same_set-allows, has_all_mem, has_all_of,
}

pub has_breaking-append :
    (xs ys : List Finding)
    → has_breaking (xs ++ ys) ≡ false
    → (has_breaking xs ≡ false) × (has_breaking ys ≡ false)
unfolding has_breaking
has_breaking-append [] ys h = (refl, h)
has_breaking-append (f ∷ xs) ys h = elim (Bool-cases (is_breaking f)) [
  | inl bad ↦ absurd (let no_way : true ≡ false = rw bad at h in cc)
  | inr good ↦ let (a, b) = has_breaking-append xs ys (rw good at h) in (rw good a, b)
]

pub keyword_finding-breaking :
    (pointer : Text) (role : Role) (keyword : Text) (narrowed : Bool) (subject : Option Subject)
    (rest : List Finding)
    → routed role narrowed ≡ breaking
    → has_breaking (keyword_finding pointer role keyword narrowed subject ∷ rest) ≡ false
    → ⊥
unfolding keyword_finding has_breaking
keyword_finding-breaking pointer role keyword narrowed subject rest severe h =
    let bad : true ≡ false = rw severe at h in cc

-- a finding that stands unless its set is empty
unless_empty :
    (set : List Text) (f : Finding)
    → ((rest : List Finding) → has_breaking (f ∷ rest) ≡ false → ⊥)
    → has_breaking (if is_empty set then [] else f ∷ []) ≡ false
    → is_empty set ≡ true
unless_empty set f severe h = elim (Bool-cases (is_empty set)) [
  | inl e ↦ e
  | inr e ↦ absurd (severe [] (rw e at h))
]

module _ (pointer : Text) (role : Role) where
  report_delta-removed :
      (keyword : Text) (delta : List Text × List Text)
      → routed role true ≡ breaking
      → has_breaking (report_delta pointer role keyword delta) ≡ false
      → is_empty delta.0 ≡ true
  unfolding report_delta
  report_delta-removed keyword (removed, added) severe h =
      unless_empty removed _
        (λ rest.
          keyword_finding-breaking pointer role keyword true (some (removed_values removed)) rest
            severe)
        (has_breaking-append _ _ h).0

  report_delta-added :
      (keyword : Text) (delta : List Text × List Text)
      → routed role false ≡ breaking
      → has_breaking (report_delta pointer role keyword delta) ≡ false
      → is_empty delta.1 ≡ true
  unfolding report_delta
  report_delta-added keyword (removed, added) severe h =
      unless_empty added _
        (λ rest.
          keyword_finding-breaking pointer role keyword false (some (added_values added)) rest
            severe)
        (has_breaking-append _ _ h).1

  -- a compared set lets through what it did, when its differences say so
  pub compare_set-narrowed :
      (keyword : Text) (old new : Option (List Text)) (delta : List Text × List Text) (t : Text)
      → routed role true ≡ breaking
      → has_breaking (if same_set old new then [] else report_delta pointer role keyword delta)
        ≡ false
      → (is_empty delta.0 ≡ true → allows old t ≡ true → allows new t ≡ true)
      → allows old t ≡ true
      → allows new t ≡ true
  compare_set-narrowed keyword old new delta t severe h kept m =
      elim (Bool-cases (same_set old new)) [
        | inl same ↦ (same_set-allows old new t same).0 m
        | inr differ ↦ kept (report_delta-removed keyword delta severe (rw differ at h)) m
      ]

  pub compare_set-widened :
      (keyword : Text) (old new : Option (List Text)) (delta : List Text × List Text) (t : Text)
      → routed role false ≡ breaking
      → has_breaking (if same_set old new then [] else report_delta pointer role keyword delta)
        ≡ false
      → (is_empty delta.1 ≡ true → allows new t ≡ true → allows old t ≡ true)
      → allows new t ≡ true
      → allows old t ≡ true
  compare_set-widened keyword old new delta t severe h kept m =
      elim (Bool-cases (same_set old new)) [
        | inl same ↦ (same_set-allows old new t same).1 m
        | inr differ ↦ kept (report_delta-added keyword delta severe (rw differ at h)) m
      ]

pub set_delta-removed :
    (was now : Text) (old new : Option (List Text)) (t : Text)
    → is_empty (set_delta was now old new).0 ≡ true
    → allows old t ≡ true
    → allows new t ≡ true
unfolding set_delta is_empty
set_delta-removed was now none none t e m = m
set_delta-removed was now none (some ys) t e m = absurd (cc)
set_delta-removed was now (some xs) none t e m = refl
set_delta-removed was now (some xs) (some ys) t e m = difference-text_mem xs ys t e m

pub set_delta-added :
    (was now : Text) (old new : Option (List Text)) (t : Text)
    → is_empty (set_delta was now old new).1 ≡ true
    → allows new t ≡ true
    → allows old t ≡ true
unfolding set_delta is_empty
set_delta-added was now none none t e m = m
set_delta-added was now none (some ys) t e m = refl
set_delta-added was now (some xs) none t e m = absurd (cc)
set_delta-added was now (some xs) (some ys) t e m = difference-text_mem ys xs t e m

pub enum_delta-removed :
    (old new : Option (List Text)) (t : Text)
    → (old ≡ none → new ≡ none)
    → is_empty (enum_delta old new).0 ≡ true
    → allows old t ≡ true
    → allows new t ≡ true
unfolding enum_delta
enum_delta-removed none none t stays e m = m
enum_delta-removed none (some ys) t stays e m =
    absurd (let gone : ◌≡◌ {A = Option (List Text)} (some ys) none = stays refl in cc)
enum_delta-removed (some xs) none t stays e m = refl
enum_delta-removed (some xs) (some ys) t stays e m = difference-text_mem xs ys t e m

pub enum_delta-added :
    (old new : Option (List Text)) (t : Text)
    → (new ≡ none → old ≡ none)
    → is_empty (enum_delta old new).1 ≡ true
    → allows new t ≡ true
    → allows old t ≡ true
unfolding enum_delta
enum_delta-added none none t stays e m = m
enum_delta-added none (some ys) t stays e m = refl
enum_delta-added (some xs) none t stays e m =
    absurd (let gone : ◌≡◌ {A = Option (List Text)} (some xs) none = stays refl in cc)
enum_delta-added (some xs) (some ys) t stays e m = difference-text_mem ys xs t e m

module _ (pointer : Text) (role : Role) where
  pub compare_pattern-narrowed :
      (old new : Option Text) (matches : Text → Bool)
      → routed role true ≡ breaking
      → has_breaking (compare_pattern pointer role old new) ≡ false
      → allows_pattern old matches ≡ true
      → allows_pattern new matches ≡ true
  unfolding compare_pattern
  compare_pattern-narrowed none none matches severe h m = refl
  compare_pattern-narrowed none (some q) matches severe h m =
      absurd (keyword_finding-breaking pointer role _ true none [] severe h)
  compare_pattern-narrowed (some p) none matches severe h m = refl
  compare_pattern-narrowed (some p) (some q) matches severe h m = elim (Bool-cases (text_eq p q)) [
    | inl same ↦ let e = text_eq_sound p q same in rw⁻¹ e m
    | inr differ ↦
        absurd (keyword_finding-breaking pointer role _ true none [] severe (rw differ at h))
  ]

  pub compare_pattern-widened :
      (old new : Option Text) (matches : Text → Bool)
      → routed role false ≡ breaking
      → ((p q : Text) → old ≡ some p → new ≡ some q → p ≡ q)
      → has_breaking (compare_pattern pointer role old new) ≡ false
      → allows_pattern new matches ≡ true
      → allows_pattern old matches ≡ true
  unfolding compare_pattern
  compare_pattern-widened none none matches severe stays h m = refl
  compare_pattern-widened none (some q) matches severe stays h m = refl
  compare_pattern-widened (some p) none matches severe stays h m =
      absurd (keyword_finding-breaking pointer role _ false none [] severe h)
  compare_pattern-widened (some p) (some q) matches severe stays h m =
      let e = stays p q refl refl in rw e m

  report_names-empty :
      (narrowed : Bool) (names : List Text)
      → routed role narrowed ≡ breaking
      → has_breaking (report_names pointer role narrowed names) ≡ false
      → is_empty names ≡ true
  unfolding report_names is_empty
  report_names-empty narrowed [] severe h = refl
  report_names-empty narrowed (name ∷ names) severe h = absurd (
      keyword_finding-breaking pointer role (codes "required") narrowed (some (named name))
        (report_names pointer role narrowed names) severe h)

  pub compare_required-narrowed :
      (old new names : List Text)
      → routed role true ≡ breaking
      → has_breaking (compare_required pointer role old new) ≡ false
      → has_all old names ≡ true
      → has_all new names ≡ true
  unfolding compare_required
  compare_required-narrowed old new names severe h all =
      let none_new =
        report_names-empty true (difference new old) severe (has_breaking-append _ _ h).0 in
      has_all_of new names
        (λ r m. has_all_mem old names r all (difference-text_mem new old r none_new m))

  pub compare_required-widened :
      (old new names : List Text)
      → routed role false ≡ breaking
      → has_breaking (compare_required pointer role old new) ≡ false
      → has_all new names ≡ true
      → has_all old names ≡ true
  unfolding compare_required
  compare_required-widened old new names severe h all =
      let none_lost =
        report_names-empty false (difference old new) severe
          (has_breaking-append (report_names pointer role true (difference new old)) _ h).1 in
      has_all_of old names
        (λ r m. has_all_mem new names r all (difference-text_mem old new r none_lost m))
