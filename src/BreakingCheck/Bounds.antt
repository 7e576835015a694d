-- ===== src/BreakingCheck/Bounds.antt =====
-- The loops over the upper and the lower bounds without a breaking finding.
use traigent_schema.Prelude.{
  ◌≡◌, refl, Bool, true, false, ◌&&◌, Option, none, some, List, [], ◌∷◌, Bool-cases, ◌⊎◌, inl, inr,
}
use traigent_schema.Python.Text.{Text}
use traigent_schema.BreakingCheck.{Role, breaking, routed, has_breaking}
use traigent_schema.BreakingCheck.Keywords.{Numbers, compare_bound, compare_bounds}
use traigent_schema.BreakingCheck.Constraint.{within, all_within}
use traigent_schema.BreakingCheck.Directions.{has_breaking-append, keyword_finding-breaking}

pub both_true : (a b : Bool) → (a && b) ≡ true → (a ≡ true) × (b ≡ true)
both_true true b h = (refl, h)
both_true false b h = absurd (cc)

module _ (numbers : Numbers) where
  open numbers use {Number, lt, equal}

  -- what Python's order on the numbers of JSON documents, which hold no NaN
  pub record IsOrder : Type 0 where
    pub split : (a b c : Number) → lt a c ≡ true → (lt a b ≡ true) ⊎ (lt b c ≡ true)
    pub asym : (a b : Number) → lt a b ≡ true → lt b a ≡ false
    pub apart : (a b : Number) → equal a b ≡ true → (lt a b ≡ false) × (lt b a ≡ false)

  module _ (tighter looser beyond : Number → Number → Bool) (pointer : Text) (role : Role) where
    compare_bound-narrowed :
        (kw : Text) (old new : Option Number) (m : Number)
        → ((o n : Number) → beyond n m ≡ true → (tighter o n ≡ true) ⊎ (beyond o m ≡ true))
        → ((o n : Number) → equal o n ≡ true → tighter o n ≡ false)
        → routed role true ≡ breaking
        → has_breaking (compare_bound numbers tighter looser pointer role kw old new) ≡ false
        → within numbers beyond old m ≡ true
        → within numbers beyond new m ≡ true
    unfolding compare_bound
    compare_bound-narrowed kw none none m turn same severe h w = refl
    compare_bound-narrowed kw none (some n) m turn same severe h w =
        absurd (keyword_finding-breaking pointer role kw true none [] severe h)
    compare_bound-narrowed kw (some o) none m turn same severe h w = refl
    compare_bound-narrowed kw (some o) (some n) m turn same severe h w =
        elim (Bool-cases (beyond n m)) [
          | inr fits ↦ rw fits refl
          | inl over ↦ absurd (elim (turn o n over) [
            | inr old_over ↦ let bad : false ≡ true = rw old_over at w in cc
            | inl tight ↦ elim (Bool-cases (equal o n)) [
              | inl eq ↦ let slack = same o n eq in cc
              | inr differ ↦
                  keyword_finding-breaking pointer role kw true none [] severe
                    (rw (differ, tight) at h)
            ]
          ])
        ]

    compare_bound-widened :
        (kw : Text) (old new : Option Number) (m : Number)
        → ((o n : Number) → beyond o m ≡ true → (looser o n ≡ true) ⊎ (beyond n m ≡ true))
        → ((o n : Number) → equal o n ≡ true → looser o n ≡ false)
        → ((o n : Number) → looser o n ≡ true → tighter o n ≡ false)
        → routed role false ≡ breaking
        → has_breaking (compare_bound numbers tighter looser pointer role kw old new) ≡ false
        → within numbers beyond new m ≡ true
        → within numbers beyond old m ≡ true
    unfolding compare_bound
    compare_bound-widened kw none none m turn same one severe h w = refl
    compare_bound-widened kw none (some n) m turn same one severe h w = refl
    compare_bound-widened kw (some o) none m turn same one severe h w =
        absurd (keyword_finding-breaking pointer role kw false none [] severe h)
    compare_bound-widened kw (some o) (some n) m turn same one severe h w =
        elim (Bool-cases (beyond o m)) [
          | inr fits ↦ rw fits refl
          | inl over ↦ absurd (elim (turn o n over) [
            | inr new_over ↦ let bad : false ≡ true = rw new_over at w in cc
            | inl loose ↦ elim (Bool-cases (equal o n)) [
              | inl eq ↦ let slack = same o n eq in cc
              | inr differ ↦
                  keyword_finding-breaking pointer role kw false none [] severe
                    (rw (differ, one o n loose, loose) at h)
            ]
          ])
        ]

    pub compare_bounds-narrowed :
        (kws : List Text) (old new : Text → Option Number) (measure : Text → Number)
        → ((o n m : Number) → beyond n m ≡ true → (tighter o n ≡ true) ⊎ (beyond o m ≡ true))
        → ((o n : Number) → equal o n ≡ true → tighter o n ≡ false)
        → routed role true ≡ breaking
        → has_breaking (compare_bounds numbers tighter looser pointer role kws old new) ≡ false
        → all_within numbers beyond kws old measure ≡ true
        → all_within numbers beyond kws new measure ≡ true
    unfolding compare_bounds all_within
    compare_bounds-narrowed [] old new measure turn same severe h w = refl
    compare_bounds-narrowed (kw ∷ kws) old new measure turn same severe h w =
        let (first, rest) =
          has_breaking-append
            (compare_bound numbers tighter looser pointer role kw (old kw) (new kw)) _ h in
        let (here, later) = both_true (within numbers beyond (old kw) (measure kw)) _ w in
        let now =
          compare_bound-narrowed kw (old kw) (new kw) (measure kw) (λ o n. turn o n (measure kw))
            same severe first here in
        let next = compare_bounds-narrowed kws old new measure turn same severe rest later in
        rw (now, next) refl

    pub compare_bounds-widened :
        (kws : List Text) (old new : Text → Option Number) (measure : Text → Number)
        → ((o n m : Number) → beyond o m ≡ true → (looser o n ≡ true) ⊎ (beyond n m ≡ true))
        → ((o n : Number) → equal o n ≡ true → looser o n ≡ false)
        → ((o n : Number) → looser o n ≡ true → tighter o n ≡ false)
        → routed role false ≡ breaking
        → has_breaking (compare_bounds numbers tighter looser pointer role kws old new) ≡ false
        → all_within numbers beyond kws new measure ≡ true
        → all_within numbers beyond kws old measure ≡ true
    unfolding compare_bounds all_within
    compare_bounds-widened [] old new measure turn same one severe h w = refl
    compare_bounds-widened (kw ∷ kws) old new measure turn same one severe h w =
        let (first, rest) =
          has_breaking-append
            (compare_bound numbers tighter looser pointer role kw (old kw) (new kw)) _ h in
        let (here, later) = both_true (within numbers beyond (new kw) (measure kw)) _ w in
        let now =
          compare_bound-widened kw (old kw) (new kw) (measure kw) (λ o n. turn o n (measure kw))
            same one severe first here in
        let next = compare_bounds-widened kws old new measure turn same one severe rest later in
        rw (now, next) refl
