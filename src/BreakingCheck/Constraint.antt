-- ===== src/BreakingCheck/Constraint.antt =====
-- What the compared keywords demand of an instance, described apart from the comparator, and how the
-- differences of sets relate to it.
use traigent_schema.Prelude.{
  ◌≡◌, refl, Bool, true, false, not, ◌&&◌, ◌||◌, Option, none, some, List, [], ◌∷◌, arith,
  Bool-cases, inl, inr,
}
use traigent_schema.Python.Text.{Text, text_eq, text_eq_sound, text_eq_refl, text_mem}
use traigent_schema.ContentIdentity.Multiset.{insert_text}
use traigent_schema.BreakingCheck.Keywords.{
  Numbers, Schema, Additional, denied, value_schema, allowed, type_set, difference, is_empty,
  same_set, max_keys, min_keys,
}

-- the members of an instance that the schema lists nowhere: whether there are any, and whether they fit the
-- value schema of additionalProperties
pub data Extras : Type 0 where
  absent : Extras
  fitting : Extras
  unfitting : Extras

unfoldable pub allows_extras : Additional → Extras → Bool
allows_extras allowed extras = true
allows_extras value_schema absent = true
allows_extras value_schema fitting = true
allows_extras value_schema unfitting = false
allows_extras denied absent = true
allows_extras denied fitting = false
allows_extras denied unfitting = false

-- what the keywords see of an instance: its type, its dump, which patterns it matches, its length,
-- value or size by the bound's keyword, the names of its members and its members that are not listed;
-- `properties`, `patternProperties` and the value schema are taken as the same in both schemas
pub record Instance (Number : Type 0) : Type 0 where
  pub type : Text
  pub dumped : Text
  pub matches : Text → Bool
  pub measure : Text → Number
  pub names : List Text
  pub extras : Extras

abbrev pub allows : Option (List Text) → Text → Bool
allows none t = true
allows (some ts) t = text_mem t ts

abbrev pub allows_pattern : Option Text → (Text → Bool) → Bool
allows_pattern none matches = true
allows_pattern (some p) matches = matches p

unfoldable pub has_all : List Text → List Text → Bool
has_all [] names = true
has_all (r ∷ required) names = text_mem r names && has_all required names

module _ (numbers : Numbers) where
  open numbers use {Number, lt, equal}

  -- no bound is overstepped, where `beyond bound measure` tests one
  abbrev pub within : (Number → Number → Bool) → Option Number → Number → Bool
  within beyond none m = true
  within beyond (some b) m = not (beyond b m)

  unfoldable pub all_within :
      (Number → Number → Bool) → List Text → (Text → Option Number) → (Text → Number) → Bool
  all_within beyond [] bound measure = true
  all_within beyond (kw ∷ kws) bound measure =
      within beyond (bound kw) (measure kw) && all_within beyond kws bound measure

  -- the instance meets every compared keyword
  pub record Admits (s : Schema Number) (i : Instance Number) : Type 0 where
    pub type_allowed : allows (type_set s.type) i.type ≡ true
    pub value_allowed : allows s.enum i.dumped ≡ true
    pub extras_allowed : allows_extras s.additional i.extras ≡ true
    pub pattern_allowed : allows_pattern s.pattern i.matches ≡ true
    pub below_max : all_within (λ b m. lt b m) max_keys s.bound i.measure ≡ true
    pub above_min : all_within (λ b m. lt m b) min_keys s.bound i.measure ≡ true
    pub complete : has_all s.required i.names ≡ true

is_empty-insert_text : (x : Text) (l : List Text) → is_empty (insert_text x l) ≡ false
unfolding is_empty insert_text
is_empty-insert_text x [] = refl
is_empty-insert_text x (y ∷ l) = ground arith

is_empty-text_mem : (l : List Text) (x : Text) → is_empty l ≡ true → text_mem x l ≡ true → ⊥
unfolding is_empty text_mem
is_empty-text_mem [] x e m = cc
is_empty-text_mem (y ∷ l) x e m = cc

-- Nothing is left of a set only if it lies in the other one.
pub difference-text_mem :
    (xs ys : List Text) (t : Text)
    → is_empty (difference xs ys) ≡ true
    → text_mem t xs ≡ true
    → text_mem t ys ≡ true
unfolding difference text_mem is_empty
difference-text_mem [] ys t h m = absurd (cc)
difference-text_mem (x ∷ xs) ys t h m =
    elim (Bool-cases (text_mem x ys || text_mem x (difference xs ys))) [
      | inr new ↦ absurd (
          let left : is_empty (insert_text x (difference xs ys)) ≡ true = rw new at h in
          let no_set = is_empty-insert_text x (difference xs ys) in cc)
      | inl old ↦
          let rest : is_empty (difference xs ys) ≡ true = rw old at h in
          elim (Bool-cases (text_eq x t)) [
            | inr other ↦ difference-text_mem xs ys t rest (rw other at m)
            | inl here ↦ elim (Bool-cases (text_mem x ys)) [
              | inl inside ↦ let same = text_eq_sound x t here in rw⁻¹ same inside
              | inr outside ↦
                  absurd (is_empty-text_mem (difference xs ys) x rest (rw outside at old))
            ]
          ]
    ]

both_true : (a b : Bool) → (a && b) ≡ true → (a ≡ true) × (b ≡ true)
both_true true b h = (refl, h)
both_true false b h = absurd (cc)

pub same_set-allows :
    (old new : Option (List Text)) (t : Text)
    → same_set old new ≡ true
    → (allows old t ≡ true → allows new t ≡ true) × (allows new t ≡ true → allows old t ≡ true)
unfolding same_set
same_set-allows none none t h = (λ m. m, λ m. m)
same_set-allows none (some ys) t h = absurd (cc)
same_set-allows (some xs) none t h = absurd (cc)
same_set-allows (some xs) (some ys) t h =
    let (forth, back) = both_true (is_empty (difference xs ys)) (is_empty (difference ys xs)) h in
    (difference-text_mem xs ys t forth, difference-text_mem ys xs t back)

-- Names that are all required are all there.
pub has_all_mem :
    (required names : List Text) (r : Text)
    → has_all required names ≡ true
    → text_mem r required ≡ true
    → text_mem r names ≡ true
unfolding has_all text_mem
has_all_mem [] names r h m = absurd (cc)
has_all_mem (q ∷ required) names r h m =
    let (here, rest) = both_true (text_mem q names) (has_all required names) h in
    elim (Bool-cases (text_eq q r)) [
      | inl same ↦ let e = text_eq_sound q r same in rw⁻¹ e here
      | inr other ↦ has_all_mem required names r rest (rw other at m)
    ]

pub has_all_of :
    (required names : List Text)
    → ((r : Text) → text_mem r required ≡ true → text_mem r names ≡ true)
    → has_all required names ≡ true
unfolding has_all text_mem
has_all_of [] names all = refl
has_all_of (q ∷ required) names all =
    let here : text_mem q names ≡ true = all q (rw (text_eq_refl q) refl) in
    let rest = has_all_of required names (λ r m.
      all r (elim (Bool-cases (text_eq q r)) [ inl e ↦ rw e refl | inr e ↦ rw (e, m) refl ])) in
    rw (here, rest) refl
