-- ===== src/Tests/Relations.antt =====
-- The theorems on the relations between multiset roots, at roots with two members.
use traigent_schema.Prelude.{ℕ, ◌≡◌, ◌≤◌, ◌↔◌, refl, true, ◌&&◌, List, [], ◌∷◌}
use traigent_schema.Python.Result.{ok}
use traigent_schema.Python.Text.{Text, codes, text_mem, text_le}
use traigent_schema.ContentIdentity.Multiset.{MultisetMember, MultisetRoot, distinct_ids}
use traigent_schema.ContentIdentity.SubMultiset.{count_of, pair_mem, is_sub_multiset-count_of}
use traigent_schema.ContentIdentity.Relations.{
  is_sub_multiset, example_id_overlap, example_id_overlap-text_mem, ids_of,
}

abbrev member_of : Text → ℕ → MultisetMember
member_of i n = record {
  example_id = i;
  example_version = codes "v";
  count = n;
  key_id = codes "k";
}

abbrev root_of : List MultisetMember → MultisetRoot
root_of members = record {
  root = [];
  key_id = codes "k";
  members = members;
  distinct_count = 2;
  total_count = 3;
  conflicting_example_ids = [];
}

abbrev small : MultisetRoot
small = root_of (member_of (codes "b") 1 ∷ [])

abbrev middle : MultisetRoot
middle = root_of (member_of (codes "a") 2 ∷ member_of (codes "b") 1 ∷ [])

abbrev large : MultisetRoot
large = root_of (member_of (codes "b") 4 ∷ member_of (codes "a") 2 ∷ [])

is_sub_multiset-count_of_example : (is_sub_multiset middle large ≡ true) ↔ (
    (middle.key_id ≡ large.key_id)
    × ((p : Text × Text) → count_of middle.members p ≤ count_of large.members p))
unfolding pair_mem
is_sub_multiset-count_of_example =
    is_sub_multiset-count_of middle large (refl, (refl, tt)) (refl, (refl, tt))

overlap_run : example_id_overlap middle large ≡ ok (codes "a" ∷ codes "b" ∷ [])
unfolding example_id_overlap distinct_ids text_mem text_le
overlap_run = refl

example_id_overlap-text_mem_example :
    (middle.key_id ≡ large.key_id)
    × ((i : Text)
        → text_mem i (codes "a" ∷ codes "b" ∷ [])
          ≡ (text_mem i (ids_of middle.members) && text_mem i (ids_of large.members)))
example_id_overlap-text_mem_example =
    example_id_overlap-text_mem middle large (codes "a" ∷ codes "b" ∷ []) overlap_run
