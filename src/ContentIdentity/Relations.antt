-- ===== src/ContentIdentity/Relations.antt =====
-- `is_sub_multiset` and `example_id_overlap`: the relations between two multiset roots.
use traigent_schema.Prelude.{
  ℕ, ◌≡◌, refl, sym, ap, ◌∙◌, Bool, true, false, ◌&&◌, ◌||◌, not, Option, none, some, List, [], ◌∷◌,
  arith, leb, if◌then◌else◌, Bool-cases, inl, inr,
}
use traigent_schema.Python.Result.{ok_inj, Result, ok, err}
use traigent_schema.Python.Text.{Text, text_eq, text_mem, text_eq_sound}
use traigent_schema.ContentIdentity.Identifier.{IdentityError, content_identity_error}
use traigent_schema.ContentIdentity.Multiset.{
  MultisetMember, MultisetRoot, same_pair, distinct_ids, insert_text,
}

abbrev pub pair_of : MultisetMember → Text × Text
pair_of m = (m.example_id, m.example_version)

abbrev pub or_else : Option ℕ → Option ℕ → Option ℕ
or_else none rest = rest
or_else (some n) rest = some n

-- the value of a pair in the dict `available`, in which a later member replaces an earlier one
unfoldable pub available : List MultisetMember → Text × Text → Option ℕ
available [] p = none
available (m ∷ members) p =
    or_else (available members p) (if same_pair (pair_of m) p then some m.count else none)

-- `available.get(p, 0)`
abbrev pub or_zero : Option ℕ → ℕ
or_zero none = 0
or_zero (some n) = n

-- `all(...)` over the members of `inner`
unfoldable pub all_available : List MultisetMember → List MultisetMember → Bool
unfolding available
all_available [] outer = true
all_available (m ∷ members) outer =
    leb m.count (or_zero (available outer (pair_of m))) && all_available members outer

unfoldable pub is_sub_multiset : MultisetRoot → MultisetRoot → Bool
unfolding all_available
is_sub_multiset inner outer =
    if not (text_eq inner.key_id outer.key_id)
    then false
    else all_available inner.members outer.members

abbrev pub ids_of : List MultisetMember → List Text
ids_of [] = []
ids_of (m ∷ members) = m.example_id ∷ ids_of members

-- the sorted ids that occur among the others
unfoldable pub sorted_shared : List Text → List Text → List Text
unfolding insert_text
sorted_shared [] others = []
sorted_shared (i ∷ ids) others =
    let rest = sorted_shared ids others in if text_mem i others then insert_text i rest else rest

unfoldable pub example_id_overlap : MultisetRoot → MultisetRoot → Result IdentityError (List Text)
unfolding sorted_shared
example_id_overlap first second =
    if not (text_eq first.key_id second.key_id)
    then err content_identity_error
    else ok (sorted_shared (distinct_ids [] first.members) (ids_of second.members))

text_mem-eq : (i j : Text) (l : List Text) → text_eq i j ≡ true → text_mem i l ≡ text_mem j l
text_mem-eq i j l h = ap (λ t. text_mem t l) (text_eq_sound i j h)

text_mem-insert_text :
    (i j : Text) (l : List Text) → text_mem i (insert_text j l) ≡ (text_eq j i || text_mem i l)
unfolding insert_text text_mem
text_mem-insert_text i j [] = refl
text_mem-insert_text i j (u ∷ l) = ground (arith, text_mem-insert_text i j l)

text_mem-distinct_ids :
    (i : Text) (seen : List Text) (members : List MultisetMember)
    → text_mem i (distinct_ids seen members)
      ≡ (text_mem i (ids_of members) && not (text_mem i seen))
unfolding distinct_ids text_mem
text_mem-distinct_ids i seen [] = refl
text_mem-distinct_ids i seen (m ∷ members) = ground (
  arith,
  text_mem-distinct_ids i seen members,
  text_mem-distinct_ids i (m.example_id ∷ seen) members,
  text_mem-eq m.example_id i seen,
)

distinct_ids-ids_of :
    (i : Text) (members : List MultisetMember)
    → text_mem i (distinct_ids [] members) ≡ text_mem i (ids_of members)
unfolding text_mem
distinct_ids-ids_of i members = ground (arith, text_mem-distinct_ids i [] members)

text_mem-sorted_shared :
    (i : Text) (ids others : List Text)
    → text_mem i (sorted_shared ids others) ≡ (text_mem i ids && text_mem i others)
unfolding sorted_shared text_mem
text_mem-sorted_shared i [] others = refl
text_mem-sorted_shared i (j ∷ ids) others = ground (
  arith,
  text_mem-sorted_shared i ids others,
  text_mem-insert_text i j (sorted_shared ids others),
  text_mem-eq j i others,
)

-- When `example_id_overlap` returns a list, the two roots have one key id, and an id is in the list
-- exactly when both multisets have a member with that id.
pub example_id_overlap-text_mem :
    (first second : MultisetRoot) (overlap : List Text)
    → example_id_overlap first second ≡ ok overlap
    → (first.key_id ≡ second.key_id)
      × ((i : Text)
          → text_mem i overlap
            ≡ (text_mem i (ids_of first.members) && text_mem i (ids_of second.members)))
unfolding example_id_overlap
example_id_overlap-text_mem first second overlap e =
    elim (Bool-cases (text_eq first.key_id second.key_id)) [
      | inr other ↦ absurd (ground (arith, other, e))
      | inl same ↦
          let shared : sorted_shared (distinct_ids [] first.members) (ids_of second.members)
              ≡ overlap =
            ok_inj (rw same at e) in
          (
            text_eq_sound first.key_id second.key_id same,
            λ i. rw (sym shared) (
                text_mem-sorted_shared i (distinct_ids [] first.members) (ids_of second.members)
                ∙ ap (λ t. t && text_mem i (ids_of second.members))
                    (distinct_ids-ids_of i first.members)),
          )
    ]
