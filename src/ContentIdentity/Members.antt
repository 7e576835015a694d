-- ===== src/ContentIdentity/Members.antt =====
-- What a `MultisetMember` has once its `__post_init__` has run, and the members and key id of a root.
use mathlib.Core.Path.{subst}
use traigent_schema.Prelude.{
  ℕ, ◌≡◌, refl, sym, ap, ◌∙◌, true, ◌&&◌, Option, none, some, List, [], ◌∷◌, arith, get_elem?, suc,
  zero, take, drop, All, Bool-cases, inl, inr,
}
use traigent_schema.Python.Result.{ok_inj, Result, ok, >>=-eq-ok, traverse}
use traigent_schema.Python.Text.{Text, codes, text_eq, text_eq_sound, text_eq_refl}
use traigent_schema.Python.Int.{ℤ, pos, negsuc}
use traigent_schema.ContentIdentity.Identifier.{
  IdentityError, is_key_id, hex_text, strip_prefix, grouped, key_and_digest, matched,
  match_example_id, match_example_version,
}
use traigent_schema.ContentIdentity.Proof.{member_eq, index_of, one_more}
use traigent_schema.ContentIdentity.Multiset.{
  MultisetMember, Item, coerce_member, merge_members, sort_totals, same_kid, counted, new_member,
  total_member, normalize, all_kid, single_key_id,
}

-- what its `__post_init__` accepts
abbrev pub IsMember : MultisetMember → Type 0
IsMember m = new_member m.example_id m.example_version (pos m.count) ≡ ok m

grouped-is_key_id :
    (kid : Text) (o : Option Text) (k h : Text) → grouped kid o ≡ some (k, h) → is_key_id k ≡ true
grouped-is_key_id kid none k h e = absurd (cc)
grouped-is_key_id kid (some hex) k h e = elim (Bool-cases (is_key_id kid && hex_text 64 hex)) [
  | inl good ↦ let same : kid ≡ k = ap first (some_of good) in rw⁻¹ same (ground (arith, good))
  | inr bad ↦ absurd (ground (arith, bad, e))
]
  where
    first : Option (Text × Text) → Text
    first none = kid
    first (some p) = p.0

    some_of :
        (is_key_id kid && hex_text 64 hex) ≡ true
        → ◌≡◌ {A = Option (Text × Text)} (some (kid, hex)) (some (k, h))
    some_of good = rw good at e

matched-is_key_id : (o : Option Text) (k h : Text) → matched o ≡ some (k, h) → is_key_id k ≡ true
unfolding key_and_digest
matched-is_key_id none k h e = absurd (cc)
matched-is_key_id (some s) k h e =
    grouped-is_key_id (take 17 s) (strip_prefix (codes ":") (drop 17 s)) k h e

match_example_id-is_key_id : (i k h : Text) → match_example_id i ≡ some (k, h) → is_key_id k ≡ true
unfolding match_example_id
match_example_id-is_key_id i k h e = matched-is_key_id (strip_prefix (codes "ex1:") i) k h e

same_kid-left :
    (p q : Option (Text × Text)) (k : Text) → same_kid p q ≡ ok k → (h : Text) × (p ≡ some (k, h))
same_kid-left none q k e = absurd (cc)
same_kid-left (some (a, h)) none k e = absurd (cc)
same_kid-left (some (a, h)) (some (b, h')) k e = elim (Bool-cases (text_eq a b)) [
  | inl good ↦ (h, ground (arith, good, e))
  | inr bad ↦ absurd (ground (arith, bad, e))
]

counted-pos : (z : ℤ) (n : ℕ) → counted z ≡ ok n → z ≡ pos n
counted-pos (pos m) n e = ground (arith, e)
counted-pos (negsuc m) n e = absurd (cc)

pub new_member-IsMember :
    (i v : Text) (z : ℤ) (m : MultisetMember)
    → new_member i v z ≡ ok m
    → IsMember m × (is_key_id m.key_id ≡ true)
unfolding new_member
new_member-IsMember i v z m e =
    let (kid, hk, e1) = >>=-eq-ok (same_kid (match_example_id i) (match_example_version v)) _ e in
    let (n, hn, e2) = >>=-eq-ok (counted z) _ e1 in
    let (h, hm) = same_kid-left (match_example_id i) (match_example_version v) kid hk in
    let built : MultisetMember = record {
      example_id = i;
      example_version = v;
      count = n;
      key_id = kid;
    } in
    let same : built ≡ m = ok_inj e2 in
    let now : IsMember built = rw (counted-pos z n hn) at e ∙ ap ok (sym same) in
    subst (λ x. IsMember x × (is_key_id x.key_id ≡ true)) same
      (now, match_example_id-is_key_id i kid h hm)

pub traverse-All :
    {A B : Type 0} (f : A → Result IdentityError B) (P : B → Type 0)
    → ((a : A) (b : B) → f a ≡ ok b → P b)
    → (xs : List A) (ys : List B) → traverse f xs ≡ ok ys
    → All P ys
unfolding traverse
traverse-All f P each [] ys e = rw⁻¹ (ok_inj e) tt
traverse-All f P each (x ∷ xs) ys e =
    let (y, hy, e1) = >>=-eq-ok (f x) _ e in
    let (zs, hz, e2) = >>=-eq-ok (traverse f xs) _ e1 in
    rw⁻¹ (ok_inj e2) (each x y hy, traverse-All f P each xs zs hz)

abbrev pub HasKey : MultisetMember → Type 0
HasKey m = IsMember m × (is_key_id m.key_id ≡ true)

pub normalize-HasKey :
    (items : List Item) (members : List MultisetMember)
    → normalize items ≡ ok members
    → All HasKey members
unfolding normalize
normalize-HasKey items members e =
    let (ms, hm, e1) = >>=-eq-ok (traverse coerce_member items) _ e in
    let (totals, ht, e2) = >>=-eq-ok (merge_members [] ms) _ e1 in
    traverse-All total_member HasKey (λ t m h. new_member-IsMember t.0.0 t.0.1 (pos t.1) m h)
      (sort_totals totals) members e2

-- every member's kid is the root's, which is a key id
pub single_key_id-all_kid :
    (members : List MultisetMember) (key_id : Option Text) (kid : Text)
    → All HasKey members
    → single_key_id members key_id ≡ ok kid
    → (all_kid kid members ≡ true) × (is_key_id kid ≡ true)
unfolding single_key_id
single_key_id-all_kid [] none kid w e = absurd (cc)
single_key_id-all_kid (m ∷ members) none kid w e = elim (Bool-cases (all_kid m.key_id members)) [
  | inl same ↦
      let k : m.key_id ≡ kid = ok_inj (rw same at e) in
      subst (λ q. (all_kid q (m ∷ members) ≡ true) × (is_key_id q ≡ true)) k
        (rw (text_eq_refl m.key_id) same, w.0.1)
  | inr bad ↦ absurd (ground (arith, bad, e))
]
single_key_id-all_kid [] (some k) kid w e = elim (Bool-cases (is_key_id k)) [
  | inl good ↦ let same : k ≡ kid = ok_inj (rw good at e) in rw⁻¹ same (refl, good)
  | inr bad ↦ absurd (ground (arith, bad, e))
]
single_key_id-all_kid (m ∷ members) (some k) kid w e =
    elim (Bool-cases (is_key_id k && (text_eq m.key_id k && all_kid k members))) [
      | inl good ↦
          let same : k ≡ kid = ok_inj (rw good at e) in
          subst (λ q. (all_kid q (m ∷ members) ≡ true) × (is_key_id q ≡ true)) same
            (ground (arith, good), ground (arith, good))
      | inr bad ↦ absurd (ground (arith, bad, e))
    ]

-- members that `==` holds equal are the same
pub member_eq_sound :
    (m n : MultisetMember) → IsMember m → IsMember n → member_eq m n ≡ true → m ≡ n
unfolding member_eq
member_eq_sound m n hm hn e =
    let i : m.example_id ≡ n.example_id =
      text_eq_sound m.example_id n.example_id (ground (arith, e)) in
    let v : m.example_version ≡ n.example_version =
      text_eq_sound m.example_version n.example_version (ground (arith, e)) in
    let c : m.count ≡ n.count = ground (arith, e) in ok_inj (sym hm ∙ rw (i, v, c) refl ∙ hn)

pub index_of-at :
    (m : MultisetMember) (members : List MultisetMember) (i : ℕ)
    → IsMember m
    → All HasKey members
    → index_of m members ≡ some i
    → get_elem? members i ≡ some m
unfolding index_of
index_of-at m [] i hm w e = absurd (cc)
index_of-at m (n ∷ members) i hm w e = elim (Bool-cases (member_eq n m)) [
  | inl same ↦
      let first : 0 ≡ i = ground (arith, e, same) in
      rw⁻¹ first (ap some (member_eq_sound n m w.0.0 hm same))
  | inr other ↦
      later (λ j ho. index_of-at m members j hm w.1 ho) (index_of m members) refl (rw other at e)
]
  where
    later :
        ((j : ℕ) → index_of m members ≡ some j → get_elem? members j ≡ some m)
        → (o : Option ℕ) → index_of m members ≡ o
        → one_more o ≡ some i
        → get_elem? (n ∷ members) i ≡ some m
    later ih none ho h = absurd (cc)
    later ih (some j) ho h = let at : suc j ≡ i = ground (arith, h) in rw⁻¹ at (ih j ho)

member_eq_refl : (m : MultisetMember) → member_eq m m ≡ true
unfolding member_eq
member_eq_refl m = ground (arith, text_eq_refl m.example_id, text_eq_refl m.example_version)

pub index_of-found :
    (m : MultisetMember) (members : List MultisetMember) (i : ℕ)
    → get_elem? members i ≡ some m
    → (j : ℕ) × (index_of m members ≡ some j)
unfolding index_of
index_of-found m [] i e = absurd (cc)
index_of-found m (n ∷ members) zero e =
    let same : n ≡ m = cc in (0, rw (same, member_eq_refl m) refl)
index_of-found m (n ∷ members) (suc i) e =
    let (j, h) = index_of-found m members i e in
    elim (Bool-cases (member_eq n m)) [
      | inl same ↦ (0, rw same refl)
      | inr other ↦ (suc j, rw (other, h) refl)
    ]

pub HasKey-at :
    (members : List MultisetMember) (i : ℕ) (m : MultisetMember)
    → All HasKey members
    → get_elem? members i ≡ some m
    → HasKey m
HasKey-at [] i m w e = absurd (cc)
HasKey-at (n ∷ members) zero m w e = let same : n ≡ m = cc in subst HasKey same w.0
HasKey-at (n ∷ members) (suc i) m w e = HasKey-at members i m w.1 e

pub all_kid-at :
    (kid : Text) (members : List MultisetMember) (i : ℕ) (m : MultisetMember)
    → all_kid kid members ≡ true
    → get_elem? members i ≡ some m
    → text_eq m.key_id kid ≡ true
all_kid-at kid [] i m h e = absurd (cc)
all_kid-at kid (n ∷ members) zero m h e = let same : n ≡ m = cc in rw⁻¹ same (ground (arith, h))
all_kid-at kid (n ∷ members) (suc i) m h e = all_kid-at kid members i m (ground (arith, h)) e
