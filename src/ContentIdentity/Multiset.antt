-- ===== src/ContentIdentity/Multiset.antt =====
-- Multisets of (example_id, example_version) pairs: members, normalisation and the root.
use traigent_schema.Prelude.{
  ℕ, suc, ◌+◌, ◌-◌, ◌^◌, Bool, true, ◌&&◌, Option, none, some, List, [], ◌∷◌, ◌++◌, ltb, leb,
  if◌then◌else◌, length,
}
use traigent_schema.Python.Result.{Result, ok, err, ◌>>=◌, ◌>>◌, guard, traverse}
use traigent_schema.Python.Text.{Text, codes, text_eq, text_le, text_mem, utf8}
use traigent_schema.Python.Int.{ℤ, pos, negsuc}
use traigent_schema.Python.Object.{Floats, str, int, ref, list, Heap}
use traigent_schema.Fp2.{canonicalize}
use traigent_schema.Fp2.Scalar.{Unsupported}
use traigent_schema.Merkle.{Bytes, leaf_hash, mth}
use traigent_schema.ContentIdentity.Identifier.{
  IdentityError, content_identity_error, match_example_id, match_example_version, is_key_id, hex,
}

abbrev pub max_count : ℕ
max_count = 2 ^ 53 - 1

pub record MultisetMember : Type 0 where
  pub example_id : Text
  pub example_version : Text
  pub count : ℕ
  -- the kid that both identifiers carry
  pub key_id : Text

abbrev pub same_kid : Option (Text × Text) → Option (Text × Text) → Result IdentityError Text
same_kid (some (k, h)) (some (k', h')) = if text_eq k k' then ok k else err content_identity_error
same_kid _ _ = err content_identity_error

abbrev pub counted : ℤ → Result IdentityError ℕ
counted (pos n) = if leb 1 n && leb n max_count then ok n else err content_identity_error
counted (negsuc n) = err content_identity_error

-- `MultisetMember(example_id, example_version, count)` with its `__post_init__`
unfoldable pub new_member : Text → Text → ℤ → Result IdentityError MultisetMember
unfolding match_example_id match_example_version
new_member example_id example_version count = do
  kid ← same_kid (match_example_id example_id) (match_example_version example_version)
  n ← counted count
  ok (record {
    example_id = example_id;
    example_version = example_version;
    count = n;
    key_id = kid;
  })

-- what an iterable of members may hold
pub data Item : Type 0 where
  member : MultisetMember → Item
  pair : Text → Text → Item
  triple : Text → Text → ℤ → Item
  other : Item

unfoldable pub coerce_member : Item → Result IdentityError MultisetMember
unfolding new_member
coerce_member (member m) = ok m
coerce_member (pair i v) = new_member i v (pos 1)
coerce_member (triple i v n) = new_member i v n
coerce_member other = err content_identity_error

-- `dict[tuple[str, str], int]`, in insertion order
abbrev pub Totals : Type 0
Totals = List ((Text × Text) × ℕ)

abbrev pub same_pair : Text × Text → Text × Text → Bool
same_pair (i, v) (j, w) = text_eq i j && text_eq v w

unfoldable pub add_total : Text × Text → ℕ → Totals → Totals
add_total p n [] = (p, n) ∷ []
add_total p n ((q, k) ∷ totals) =
    let rest = add_total p n totals in if same_pair q p then (q, k + n) ∷ totals else (q, k) ∷ rest

unfoldable pub total_of : Text × Text → Totals → ℕ
total_of p [] = 0
total_of p ((q, k) ∷ totals) = if same_pair q p then k else total_of p totals

unfoldable pub merge_members : Totals → List MultisetMember → Result IdentityError Totals
unfolding add_total total_of
merge_members totals [] = ok totals
merge_members totals (m ∷ members) =
    let p : Text × Text = (m.example_id, m.example_version) in
    let totals' = add_total p m.count totals in
    let rest = merge_members totals' members in
    if ltb max_count (total_of p totals') then err content_identity_error else rest

-- `<=` on the sorted tuples; the pairs are distinct, so the counts are not reached
abbrev pub pair_le : Text × Text → Text × Text → Bool
pair_le (i, v) (j, w) = if text_eq i j then text_le v w else text_le i j

unfoldable pub insert_total : (Text × Text) × ℕ → Totals → Totals
insert_total t [] = t ∷ []
insert_total t (u ∷ totals) =
    let rest = insert_total t totals in if pair_le t.0 u.0 then t ∷ u ∷ totals else u ∷ rest

unfoldable pub sort_totals : Totals → Totals
unfolding insert_total
sort_totals [] = []
sort_totals (t ∷ totals) = insert_total t (sort_totals totals)

abbrev pub total_member : (Text × Text) × ℕ → Result IdentityError MultisetMember
total_member ((i, v), n) = new_member i v (pos n)

unfoldable pub normalize : List Item → Result IdentityError (List MultisetMember)
unfolding coerce_member merge_members sort_totals new_member
normalize items = do
  members ← traverse coerce_member items
  totals ← merge_members [] members
  traverse total_member (sort_totals totals)

-- the set of the members' key ids has one element
abbrev pub all_kid : Text → List MultisetMember → Bool
all_kid k [] = true
all_kid k (m ∷ members) = text_eq m.key_id k && all_kid k members

unfoldable pub single_key_id : List MultisetMember → Option Text → Result IdentityError Text
unfolding is_key_id
single_key_id [] none = err content_identity_error
single_key_id (m ∷ members) none =
    if all_kid m.key_id members then ok m.key_id else err content_identity_error
single_key_id members (some k) =
    if is_key_id k && all_kid k members then ok k else err content_identity_error

-- `versions_per_id[eid]`
unfoldable pub count_id : Text → List MultisetMember → ℕ
count_id i [] = 0
count_id i (m ∷ members) = let n = count_id i members in if text_eq m.example_id i then suc n else n

-- the keys of `versions_per_id`
unfoldable pub distinct_ids : List Text → List MultisetMember → List Text
distinct_ids seen [] = []
distinct_ids seen (m ∷ members) =
    let rest = distinct_ids (m.example_id ∷ seen) members in
    if text_mem m.example_id seen then distinct_ids seen members else m.example_id ∷ rest

unfoldable pub insert_text : Text → List Text → List Text
insert_text t [] = t ∷ []
insert_text t (u ∷ ts) = let rest = insert_text t ts in if text_le t u then t ∷ u ∷ ts else u ∷ rest

-- `sorted(eid for eid, n in versions_per_id.items() if n > 1)`
unfoldable pub sorted_conflicts : List Text → List MultisetMember → List Text
unfolding insert_text count_id
sorted_conflicts [] members = []
sorted_conflicts (i ∷ ids) members =
    let rest = sorted_conflicts ids members in
    if ltb 1 (count_id i members) then insert_text i rest else rest

unfoldable pub conflicting_example_ids : List MultisetMember → List Text
unfolding distinct_ids sorted_conflicts
conflicting_example_ids members = sorted_conflicts (distinct_ids [] members) members

unfoldable pub total_count : List MultisetMember → ℕ
total_count [] = 0
total_count (m ∷ members) = m.count + total_count members

pub record MultisetRoot : Type 0 where
  pub root : Text
  pub key_id : Text
  pub members : List MultisetMember
  pub distinct_count : ℕ
  pub total_count : ℕ
  pub conflicting_example_ids : List Text

abbrev pub leaf_domain : Text
leaf_domain = codes "traigent.content_identity.multiset_leaf.v1"

module _ (fl : Floats) (sha256 : Bytes → Bytes) where
  -- the list `[example_id, example_version, count]`
  abbrev pub leaf_list : MultisetMember → Heap fl.Float
  leaf_list m a = list (str m.example_id ∷ str m.example_version ∷ int (pos m.count) ∷ [])

  -- the rounds that the encoder takes for a list of three scalars
  abbrev leaf_rounds : ℕ
  leaf_rounds = 8

  abbrev framed : Option (Result Unsupported Text) → Result IdentityError Bytes
  framed (some (ok text)) = ok (utf8 leaf_domain ++ 0 ∷ utf8 text)
  framed _ = err content_identity_error

  unfoldable pub multiset_leaf_data : MultisetMember → Result IdentityError Bytes
  multiset_leaf_data m = framed (canonicalize fl (leaf_list m) leaf_rounds (ref 0))

  unfoldable pub leaf_hashes : List MultisetMember → Result IdentityError (List Bytes)
  leaf_hashes [] = ok []
  leaf_hashes (m ∷ members) = do
    leaf ← multiset_leaf_data m
    rest ← leaf_hashes members
    ok (leaf_hash sha256 leaf ∷ rest)

  unfoldable pub compute_multiset_root : List Item → Option Text → Result IdentityError MultisetRoot
  compute_multiset_root items key_id = do
    members ← normalize items
    kid ← single_key_id members key_id
    guard (leb (total_count members) max_count) content_identity_error
    leaves ← leaf_hashes members
    ok (record {
      root = codes "msr1:" ++ kid ++ b':' ∷ hex (mth sha256 leaves);
      key_id = kid;
      members = members;
      distinct_count = length members;
      total_count = total_count members;
      conflicting_example_ids = conflicting_example_ids members;
    })
