-- ===== src/ContentIdentity/SubMultiset.antt =====
-- `is_sub_multiset` and the number of times that a multiset holds a pair.
use traigent_schema.Prelude.{
  ℕ, ◌+◌, ◌≤◌, ◌≡◌, ◌↔◌, refl, sym, ap, ◌∙◌, Bool, true, false, ◌||◌, none, some, List, [], ◌∷◌,
  arith, if◌then◌else◌, Bool-cases, Option-cases, inl, inr,
}
use traigent_schema.Python.Text.{Text, text_eq, text_eq_sound, text_eq_refl}
use traigent_schema.ContentIdentity.Multiset.{MultisetMember, MultisetRoot, same_pair}
use traigent_schema.ContentIdentity.Relations.{
  pair_of, or_zero, available, all_available, is_sub_multiset,
}

-- how many times the members hold a pair
unfoldable pub count_of : List MultisetMember → Text × Text → ℕ
count_of [] p = 0
count_of (m ∷ members) p = (if same_pair (pair_of m) p then m.count else 0) + count_of members p

unfoldable pub pair_mem : Text × Text → List MultisetMember → Bool
pair_mem p [] = false
pair_mem p (m ∷ members) = same_pair (pair_of m) p || pair_mem p members

-- no pair stands twice
abbrev pub IsDistinct : List MultisetMember → Type 0
IsDistinct [] = Unit {0}
IsDistinct (m ∷ members) = (pair_mem (pair_of m) members ≡ false) × IsDistinct members

same_pair_sound : (p q : Text × Text) → same_pair p q ≡ true → p ≡ q
same_pair_sound (i, v) (j, w) h =
    let left : i ≡ j = text_eq_sound i j (ground (arith, h)) in
    let right : v ≡ w = text_eq_sound v w (ground (arith, h)) in cc

-- what is available to every member of a list is available to those of its pairs
available-all_available :
    (members outer : List MultisetMember) (p : Text × Text) (n : ℕ)
    → all_available members outer ≡ true
    → available members p ≡ some n
    → n ≤ or_zero (available outer p)
unfolding all_available
available-all_available [] outer p n h e = absurd (cc)
available-all_available (m ∷ members) outer p n h e = elim (Option-cases (available members p)) [
  | inr (k, later) ↦
      let same : k ≡ n = ground (arith, later, e) in
      available-all_available members outer p n (ground (arith, h)) (later ∙ ap some same)
  | inl nothing ↦ elim (Bool-cases (same_pair (pair_of m) p)) [
    | inl same ↦
        let here : pair_of m ≡ p = same_pair_sound (pair_of m) p same in
        let count : m.count ≡ n = ground (arith, nothing, same, e) in
        rw (sym here, sym count) (ground (arith, h))
    | inr other ↦ absurd (ground (arith, nothing, other, e))
  ]
]

same_pair_refl : (p : Text × Text) → same_pair p p ≡ true
same_pair_refl (i, v) = rw (text_eq_refl i, text_eq_refl v) refl

available-none :
    (members : List MultisetMember) (p : Text × Text)
    → pair_mem p members ≡ false
    → available members p ≡ none
unfolding available pair_mem
available-none [] p h = refl
available-none (m ∷ members) p h = elim (Bool-cases (same_pair (pair_of m) p)) [
  | inl same ↦ absurd (let bad : true ≡ false = rw same at h in cc)
  | inr other ↦ rw (other, available-none members p (rw other at h)) refl
]

count_of-none :
    (members : List MultisetMember) (p : Text × Text)
    → pair_mem p members ≡ false
    → count_of members p ≡ 0
unfolding count_of pair_mem
count_of-none [] p h = refl
count_of-none (m ∷ members) p h = elim (Bool-cases (same_pair (pair_of m) p)) [
  | inl same ↦ absurd (let bad : true ≡ false = rw same at h in cc)
  | inr other ↦ rw (other, count_of-none members p (rw other at h)) refl
]

-- without a repeated pair the dict holds the count of each pair
available-count_of :
    (members : List MultisetMember) (p : Text × Text)
    → IsDistinct members
    → or_zero (available members p) ≡ count_of members p
unfolding available count_of
available-count_of [] p d = refl
available-count_of (m ∷ members) p d = elim (Bool-cases (same_pair (pair_of m) p)) [
  | inl same ↦
      let here : pair_of m ≡ p = same_pair_sound (pair_of m) p same in
      let away : pair_mem p members ≡ false = rw here at d.0 in
      rw (same, available-none members p away, count_of-none members p away) (omega arith)
  | inr other ↦ elim (Option-cases (available members p)) [
    | inl nothing ↦
        let rest : or_zero none ≡ count_of members p =
          rw nothing at (available-count_of members p d.1) in
        rw (other, nothing) (omega (arith, rest))
    | inr (k, later) ↦
        let rest : or_zero (some k) ≡ count_of members p =
          rw later at (available-count_of members p d.1) in
        rw (other, later) (omega (arith, rest))
  ]
]

count_of-below :
    (members outer : List MultisetMember) (p : Text × Text)
    → IsDistinct members
    → all_available members outer ≡ true
    → count_of members p ≤ or_zero (available outer p)
count_of-below members outer p d h = elim (Option-cases (available members p)) [
  | inl nothing ↦
      let count : or_zero none ≡ count_of members p =
        rw nothing at (available-count_of members p d) in
      omega (arith, count)
  | inr (n, e) ↦
      let count : or_zero (some n) ≡ count_of members p =
        rw e at (available-count_of members p d) in
      omega (arith, count, available-all_available members outer p n h e)
]

all_available-of :
    (members outer : List MultisetMember)
    → ((p : Text × Text) → count_of members p ≤ or_zero (available outer p))
    → all_available members outer ≡ true
unfolding all_available count_of
all_available-of [] outer below = refl
all_available-of (m ∷ members) outer below =
    let rest = all_available-of members outer (λ p. omega (arith, below p)) in
    let here : m.count + count_of members (pair_of m) ≤ or_zero (available outer (pair_of m)) =
      rw (same_pair_refl (pair_of m)) at (below (pair_of m)) in
    ground (arith, rest, here)

-- For two roots in whose members no pair of id and version repeats, is_sub_multiset answers true exactly when the roots have
-- one key id and the outer multiset holds every pair at least as often as the inner one.
pub is_sub_multiset-count_of :
    (inner outer : MultisetRoot)
    → IsDistinct inner.members
    → IsDistinct outer.members
    → (is_sub_multiset inner outer ≡ true) ↔ (
        (inner.key_id ≡ outer.key_id)
        × ((p : Text × Text) → count_of inner.members p ≤ count_of outer.members p))
unfolding is_sub_multiset
is_sub_multiset-count_of inner outer d d' = (
  λ h. elim (Bool-cases (text_eq inner.key_id outer.key_id)) [
    | inr other ↦ absurd (let bad : false ≡ true = rw other at h in cc)
    | inl same ↦ (
      text_eq_sound inner.key_id outer.key_id same,
      λ p.
          rw (sym (available-count_of outer.members p d'))
            (count_of-below inner.members outer.members p d (rw same at h)),
    )
  ],
  λ (key, below).
      let same : text_eq inner.key_id outer.key_id ≡ true = rw key (text_eq_refl outer.key_id) in
      rw same (
        all_available-of inner.members outer.members
          (λ p. rw (available-count_of outer.members p d') (below p))),
)
