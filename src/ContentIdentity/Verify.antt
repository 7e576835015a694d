-- ===== src/ContentIdentity/Verify.antt =====
-- Inclusion proofs that `build_inclusion_proof` builds and `verify_inclusion_proof` then checks.
use mathlib.Core.Path.{subst}
use traigent_schema.Prelude.{
  ℕ, zero, suc, ◌<◌, ◌≡◌, refl, sym, true, Option, some, List, [], ◌∷◌, ◌++◌, arith, leb, ltb,
  length, get_elem?, take-append, drop-append, map, All,
}
use traigent_schema.Python.Result.{ok_inj, ok, guard, >>=-eq-ok}
use traigent_schema.Python.Text.{Text, codes, text_eq, text_eq_sound, text_eq_refl}
use traigent_schema.Python.Int.{pos}
use traigent_schema.Python.Object.{Floats}
use traigent_schema.Merkle.{Bytes, leaf_hash, mth, path}
use traigent_schema.Merkle.Tree.{fold_audit_path-path}
use traigent_schema.Merkle.Nodes.{mth-All, path-All}
use traigent_schema.ContentIdentity.Identifier.{
  content_identity_error, is_key_id, hex_text, key_and_digest, match_root, hex, IsByte,
  from_hex-hex, length-hex, all_hex-hex,
}
use traigent_schema.ContentIdentity.Multiset.{
  MultisetMember, MultisetRoot, Item, normalize, all_kid, single_key_id, total_count, max_count,
  multiset_leaf_data, leaf_hashes, compute_multiset_root,
}
use traigent_schema.ContentIdentity.Proof.{
  InclusionProof, decode_audit_path, build_inclusion_proof, verify_inclusion_proof,
}
use traigent_schema.ContentIdentity.Members.{
  HasKey, normalize-HasKey, single_key_id-all_kid, index_of-at, index_of-found, HasKey-at,
  all_kid-at,
}

-- a SHA-256 digest
abbrev pub IsDigest : Bytes → Type 0
IsDigest b = (length b ≡ 32) × All IsByte b

length-key_id : (kid : Text) → is_key_id kid ≡ true → length kid ≡ 17
unfolding is_key_id
length-key_id [] h = absurd (cc)
length-key_id (c ∷ s) h = ground (arith, h)

hex_text-hex : (b : Bytes) → IsDigest b → hex_text 64 (hex b) ≡ true
hex_text-hex b d = rw (length-hex b, d.0, all_hex-hex b d.1) refl

key_and_digest-text :
    (kid : Text) (b : Bytes)
    → is_key_id kid ≡ true
    → IsDigest b
    → key_and_digest (kid ++ b':' ∷ hex b) ≡ some (kid, hex b)
unfolding key_and_digest
key_and_digest-text kid b k d =
    rw
      (
        take-append 17 kid (b':' ∷ hex b) (length-key_id kid k),
        drop-append 17 kid (b':' ∷ hex b) (length-key_id kid k),
      )
      (rw (k, hex_text-hex b d) refl)

pub match_root-text :
    (kid : Text) (b : Bytes)
    → is_key_id kid ≡ true
    → IsDigest b
    → match_root (codes "msr1:" ++ kid ++ b':' ∷ hex b) ≡ some (kid, hex b)
unfolding match_root
match_root-text kid b k d = key_and_digest-text kid b k d

decode_audit_path-hex :
    (nodes : List Bytes) → All IsDigest nodes → decode_audit_path (map hex nodes) ≡ some nodes
unfolding decode_audit_path
decode_audit_path-hex [] w = refl
decode_audit_path-hex (b ∷ nodes) w =
    rw (hex_text-hex b w.0, from_hex-hex b w.0.1, decode_audit_path-hex nodes w.1) refl

module _ (fl : Floats) (sha256 : Bytes → Bytes) where
  -- each leaf is the hash of its member's data, at the member's index
  leaf_hashes-at :
      (ms : List MultisetMember) (leaves : List Bytes) (i : ℕ) (m : MultisetMember)
      → leaf_hashes fl sha256 ms ≡ ok leaves
      → get_elem? ms i ≡ some m
      → (bytes : Bytes) × (multiset_leaf_data fl sha256 m ≡ ok bytes)
        × (get_elem? leaves i ≡ some (leaf_hash sha256 bytes))
        × (i < length leaves)
  unfolding leaf_hashes
  leaf_hashes-at [] leaves i m e g = absurd (cc)
  leaf_hashes-at (n ∷ ms) leaves zero m e g =
      let (leaf, hl, e1) = >>=-eq-ok (multiset_leaf_data fl sha256 n) _ e in
      let (rest, hr, e2) = >>=-eq-ok (leaf_hashes fl sha256 ms) _ e1 in
      let same : n ≡ m = cc in
      let (at, below) =
        subst (λ l. (get_elem? l 0 ≡ some (leaf_hash sha256 leaf)) × (0 < length l)) (ok_inj e2)
          (refl, omega arith) in
      (leaf, rw same at hl, at, below)
  leaf_hashes-at (n ∷ ms) leaves (suc i) m e g =
      let (leaf, hl, e1) = >>=-eq-ok (multiset_leaf_data fl sha256 n) _ e in
      let (rest, hr, e2) = >>=-eq-ok (leaf_hashes fl sha256 ms) _ e1 in
      let (bytes, hb, at_rest, below_rest) = leaf_hashes-at ms rest i m hr g in
      let (at, below) =
        subst (λ l. (get_elem? l (suc i) ≡ some (leaf_hash sha256 bytes)) × (suc i < length l))
          (ok_inj e2) (at_rest, omega (arith, below_rest)) in
      (bytes, hb, at, below)

  pub leaf_hashes-All :
      (P : Bytes → Type 0)
      → ((x : Bytes) → P (sha256 x))
      → (ms : List MultisetMember) (leaves : List Bytes) → leaf_hashes fl sha256 ms ≡ ok leaves
      → All P leaves
  unfolding leaf_hashes leaf_hash
  leaf_hashes-All P digest [] leaves e = subst (All P) (ok_inj e) tt
  leaf_hashes-All P digest (n ∷ ms) leaves e =
      let (leaf, hl, e1) = >>=-eq-ok (multiset_leaf_data fl sha256 n) _ e in
      let (rest, hr, e2) = >>=-eq-ok (leaf_hashes fl sha256 ms) _ e1 in
      subst (All P) (ok_inj e2) (digest (0 ∷ leaf), leaf_hashes-All P digest ms rest hr)

  -- what `compute_multiset_root` establishes of the root that it returns
  pub record Computed (multiset : MultisetRoot) : Type 0 where
    pub leaves : List Bytes
    pub hashed : leaf_hashes fl sha256 multiset.members ≡ ok leaves
    pub text : multiset.root ≡ codes "msr1:" ++ multiset.key_id ++ b':' ∷ hex (mth sha256 leaves)
    pub keys : All HasKey multiset.members
    pub kids : all_kid multiset.key_id multiset.members ≡ true
    pub kid : is_key_id multiset.key_id ≡ true

  pub compute_multiset_root-Computed :
      (items : List Item) (key_id : Option Text) (multiset : MultisetRoot)
      → compute_multiset_root fl sha256 items key_id ≡ ok multiset
      → Computed multiset
  unfolding compute_multiset_root
  compute_multiset_root-Computed items key_id multiset e =
      let (members, hm, e1) = >>=-eq-ok (normalize items) _ e in
      let (kid, hk, e2) = >>=-eq-ok (single_key_id members key_id) _ e1 in
      let (unit, hg, e3) =
        >>=-eq-ok (guard (leb (total_count members) max_count) content_identity_error) _ e2 in
      let (leaves, hl, e4) = >>=-eq-ok (leaf_hashes fl sha256 members) _ e3 in
      let keys : All HasKey members = normalize-HasKey items members hm in
      let (kids, valid) = single_key_id-all_kid members key_id kid keys hk in
      subst Computed (ok_inj e4) (record {
        leaves = leaves;
        hashed = hl;
        text = refl;
        keys = keys;
        kids = kids;
        kid = valid;
      })

  module _ (digest : (x : Bytes) → IsDigest (sha256 x)) where
    verify-proof :
        (m : MultisetMember) (i : ℕ) (leaves : List Bytes) (kid : Text) (bytes : Bytes)
        → All IsDigest leaves
        → is_key_id kid ≡ true
        → text_eq kid m.key_id ≡ true
        → multiset_leaf_data fl sha256 m ≡ ok bytes
        → get_elem? leaves i ≡ some (leaf_hash sha256 bytes)
        → i < length leaves
        → verify_inclusion_proof fl sha256 (record {
          member = m;
          leaf_index = pos i;
          tree_size = pos (length leaves);
          audit_path = map hex (path sha256 i leaves);
          root = codes "msr1:" ++ kid ++ b':' ∷ hex (mth sha256 leaves);
        })
          ≡ ok true
    unfolding verify_inclusion_proof
    verify-proof m i leaves kid bytes w valid same data_of at below =
        let top : IsDigest (mth sha256 leaves) = mth-All sha256 IsDigest digest leaves w in
        let in_tree : ltb i (length leaves) ≡ true = ground (arith, below) in
        rw
          (
            match_root-text kid (mth sha256 leaves) valid top,
            same,
            in_tree,
            decode_audit_path-hex (path sha256 i leaves)
                (path-All sha256 IsDigest digest i leaves w),
            data_of,
            fold_audit_path-path sha256 leaves i (leaf_hash sha256 bytes) at,
            from_hex-hex (mth sha256 leaves) top.1,
            text_eq_refl (mth sha256 leaves),
          )
          refl

    -- With 32-byte digests, every member of a multiset root that `compute_multiset_root` returned has
    -- an inclusion proof: `build_inclusion_proof` returns one and `verify_inclusion_proof` accepts it.
    pub verify_inclusion_proof-build_inclusion_proof :
        (items : List Item) (key_id : Option Text) (multiset : MultisetRoot) (i : ℕ)
        (m : MultisetMember)
        → compute_multiset_root fl sha256 items key_id ≡ ok multiset
        → get_elem? multiset.members i ≡ some m
        → (proof : InclusionProof) × (build_inclusion_proof fl sha256 multiset m ≡ ok proof)
          × (verify_inclusion_proof fl sha256 proof ≡ ok true)
    unfolding build_inclusion_proof
    verify_inclusion_proof-build_inclusion_proof items key_id multiset i m e at =
        let c : Computed multiset = compute_multiset_root-Computed items key_id multiset e in
        let (j, found) = index_of-found m multiset.members i at in
        let has : HasKey m = HasKey-at multiset.members i m c.keys at in
        let at_j : get_elem? multiset.members j ≡ some m =
          index_of-at m multiset.members j has.0 c.keys found in
        let (bytes, data_of, leaf_at, below) =
          leaf_hashes-at multiset.members c.leaves j m c.hashed at_j in
        let kid : multiset.key_id ≡ m.key_id = sym (
          text_eq_sound m.key_id multiset.key_id
            (all_kid-at multiset.key_id multiset.members i m c.kids at)) in
        let kids : text_eq multiset.key_id m.key_id ≡ true = rw kid (text_eq_refl m.key_id) in
        (
          record {
            member = m;
            leaf_index = pos j;
            tree_size = pos (length c.leaves);
            audit_path = map hex (path sha256 j c.leaves);
            root = multiset.root;
          },
          rw (found, c.hashed) refl,
          rw c.text (
              verify-proof m j c.leaves multiset.key_id bytes
                (leaf_hashes-All IsDigest digest multiset.members c.leaves c.hashed) c.kid kids
                data_of leaf_at below),
        )
