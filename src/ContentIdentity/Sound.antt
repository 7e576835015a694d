-- ===== src/ContentIdentity/Sound.antt =====
-- What an accepted inclusion proof shows of the multiset that its root was computed from.
use mathlib.Core.Path.{subst}
use traigent_schema.Prelude.{
  ℕ, zero, suc, ◌-◌, ◌<◌, ◌≡◌, refl, sym, ap, ◌∙◌, true, Option, none, some, List, [], ◌∷◌, arith,
  ltb, length, get_elem?, ◌⊎◌, inl, inr, Bool-cases, All,
}
use traigent_schema.Python.Result.{ok_inj, ok, >>=-eq-ok}
use traigent_schema.Python.Text.{Text, text_eq, text_eq_sound}
use traigent_schema.Python.Int.{ℤ, pos, negsuc}
use traigent_schema.Python.Object.{Floats}
use traigent_schema.Merkle.{Bytes, leaf_hash, mth, fold_audit_path}
use traigent_schema.Merkle.Nodes.{mth-All}
use traigent_schema.Merkle.Sound.{IsHash, Collision, same_digest, fold_audit_path_sound}
use traigent_schema.ContentIdentity.Identifier.{hex, from_hex, from_hex-hex, match_root, IsByte}
use traigent_schema.ContentIdentity.Multiset.{
  MultisetMember, MultisetRoot, Item, multiset_leaf_data, leaf_hashes, compute_multiset_root,
}
use traigent_schema.ContentIdentity.Proof.{
  InclusionProof, decode_audit_path, same_bytes, check_path, in_range, against_root,
  verify_inclusion_proof,
}
use traigent_schema.ContentIdentity.Verify.{
  IsDigest, Computed, compute_multiset_root-Computed, leaf_hashes-All, match_root-text,
}

pos_inj : {m n : ℕ} → pos m ≡ pos n → m ≡ n
pos_inj e = cc

same_bytes-true : (o : Option Bytes) (d : Bytes) → same_bytes o d ≡ true → o ≡ some d
same_bytes-true none d h = absurd (cc)
same_bytes-true (some r) d h = ap some (text_eq_sound r d h)

module _ (fl : Floats) (sha256 : Bytes → Bytes) where
  -- the leaf at an index is the hash of the data of the member there
  leaf_hashes-from :
      (ms : List MultisetMember) (leaves : List Bytes) (i : ℕ) (h : Bytes)
      → leaf_hashes fl sha256 ms ≡ ok leaves
      → get_elem? leaves i ≡ some h
      → (m : MultisetMember) × (bytes : Bytes) × (get_elem? ms i ≡ some m)
        × (multiset_leaf_data fl sha256 m ≡ ok bytes)
        × (h ≡ leaf_hash sha256 bytes)
  unfolding leaf_hashes
  leaf_hashes-from [] leaves i h e g =
      let none_left : get_elem? [] i ≡ some h =
        subst (λ l. get_elem? l i ≡ some h) (sym (ok_inj e)) g in
      absurd (cc)
  leaf_hashes-from (n ∷ ms) leaves zero h e g =
      let (leaf, hl, e1) = >>=-eq-ok (multiset_leaf_data fl sha256 n) _ e in
      let (rest, hr, e2) = >>=-eq-ok (leaf_hashes fl sha256 ms) _ e1 in
      let at : get_elem? (leaf_hash sha256 leaf ∷ rest) 0 ≡ some h =
        subst (λ l. get_elem? l 0 ≡ some h) (sym (ok_inj e2)) g in
      (n, leaf, refl, hl, cc)
  leaf_hashes-from (n ∷ ms) leaves (suc i) h e g =
      let (leaf, hl, e1) = >>=-eq-ok (multiset_leaf_data fl sha256 n) _ e in
      let (rest, hr, e2) = >>=-eq-ok (leaf_hashes fl sha256 ms) _ e1 in
      leaf_hashes-from ms rest i h hr
        (subst (λ l. get_elem? l (suc i) ≡ some h) (sym (ok_inj e2)) g)

  leaf_hashes-length :
      (ms : List MultisetMember) (leaves : List Bytes)
      → leaf_hashes fl sha256 ms ≡ ok leaves
      → length leaves ≡ length ms
  unfolding leaf_hashes
  leaf_hashes-length [] leaves e = ap length (sym (ok_inj e))
  leaf_hashes-length (n ∷ ms) leaves e =
      let (leaf, hl, e1) = >>=-eq-ok (multiset_leaf_data fl sha256 n) _ e in
      let (rest, hr, e2) = >>=-eq-ok (leaf_hashes fl sha256 ms) _ e1 in
      ap length (sym (ok_inj e2)) ∙ ap suc (leaf_hashes-length ms rest hr)

  -- a path along which the member's leaf leads to the root `top`
  abbrev Leads : MultisetMember → ℕ → ℕ → Bytes → Type 0
  Leads m i n top =
      (bytes : Bytes) × (nodes : List Bytes) × (multiset_leaf_data fl sha256 m ≡ ok bytes)
      × (fold_audit_path sha256 (leaf_hash sha256 bytes) nodes i (n - 1) ≡ some top)

  check_path-true :
      (o : Option (List Bytes)) (m : MultisetMember) (i n : ℕ) (d : Text)
      → check_path fl sha256 o m i n d ≡ ok true
      → Leads m i n (from_hex d)
  check_path-true none m i n d e = absurd (cc)
  check_path-true (some nodes) m i n d e =
      let (bytes, hb, e1) = >>=-eq-ok (multiset_leaf_data fl sha256 m) _ e in
      (bytes, nodes, hb, same_bytes-true _ (from_hex d) (ok_inj e1))

  in_range-true :
      (proof : InclusionProof) (index size : ℤ) (d : Text)
      → in_range fl sha256 proof index size d ≡ ok true
      → (i : ℕ) × (n : ℕ) × (index ≡ pos i)
        × (size ≡ pos n)
        × (i < n)
        × Leads proof.member i n (from_hex d)
  in_range-true proof (pos i) (pos n) d e = elim (Bool-cases (ltb i n)) [
    | inl below ↦ (
      i,
      n,
      refl,
      refl,
      ground (arith, below),
      check_path-true (decode_audit_path proof.audit_path) proof.member i n d (rw below at e),
    )
    | inr above ↦ absurd (ground (arith, above, e))
  ]
  in_range-true proof (pos i) (negsuc n) d e = absurd (cc)
  in_range-true proof (negsuc i) (pos n) d e = absurd (cc)
  in_range-true proof (negsuc i) (negsuc n) d e = absurd (cc)

  against_root-true :
      (proof : InclusionProof) (kid d : Text)
      → against_root fl sha256 proof (some (kid, d)) ≡ ok true
      → in_range fl sha256 proof proof.leaf_index proof.tree_size d ≡ ok true
  against_root-true proof kid d e = elim (Bool-cases (text_eq kid proof.member.key_id)) [
    | inl same ↦ rw same at e
    | inr other ↦ absurd (ground (arith, other, e))
  ]

  module _ (size : (x : Bytes) → IsHash (sha256 x)) where
    -- the multiset holds, at the proof's index, a member with the leaf data of the proof's member
    abbrev pub IsIncluded : MultisetRoot → InclusionProof → Type 0
    IsIncluded multiset proof =
        (i : ℕ) × (m : MultisetMember) × (bytes : Bytes) × (proof.leaf_index ≡ pos i)
        × (get_elem? multiset.members i ≡ some m)
        × (multiset_leaf_data fl sha256 m ≡ ok bytes)
        × (multiset_leaf_data fl sha256 proof.member ≡ ok bytes)

    Leads-IsIncluded :
        (multiset : MultisetRoot) (proof : InclusionProof) (c : Computed fl sha256 multiset) (i : ℕ)
        → proof.leaf_index ≡ pos i
        → i < length multiset.members
        → Leads proof.member i (length multiset.members) (mth sha256 c.leaves)
        → IsIncluded multiset proof ⊎ Collision sha256
    unfolding leaf_hash
    Leads-IsIncluded multiset proof c i at below (bytes, nodes, hb, leads) =
        let long : length c.leaves ≡ length multiset.members =
          leaf_hashes-length multiset.members c.leaves c.hashed in
        elim (fold_audit_path_sound sha256 size c.leaves i (leaf_hash sha256 bytes) nodes
          (omega (arith, long, below))
          (leaf_hashes-All fl sha256 IsHash size multiset.members c.leaves c.hashed)
          (size (0 ∷ bytes)) (rw (sym long) at leads)) [
            | inl found ↦
                let (m, own, hm, hown, same) =
                  leaf_hashes-from multiset.members c.leaves i (leaf_hash sha256 bytes) c.hashed
                    found.0 in
                elim (same_digest sha256 (0 ∷ bytes) (0 ∷ own) same) [
                  | inl p ↦
                      let q : bytes ≡ own = cc in
                      inl (i, m, bytes, at, hm, hown ∙ ap ok (sym q), hb)
                  | inr bad ↦ inr bad
                ]
            | inr bad ↦ inr bad
          ]

    -- the root of the members' tree is made of bytes
    abbrev pub HasByteRoot : MultisetRoot → Type 0
    HasByteRoot multiset =
        (leaves : List Bytes)
        → leaf_hashes fl sha256 multiset.members ≡ ok leaves
        → All IsByte (mth sha256 leaves)

    -- With digests of length 32 and a tree root of the multiset that is made of bytes: when verify_inclusion_proof accepts a
    -- proof whose root and size are those of the computed multiset root, the multiset has at the proof's index a member with
    -- the same leaf data as the proof's member, or SHA-256 has a collision.
    pub verify_inclusion_proof_sound :
        (items : List Item) (key_id : Option Text) (multiset : MultisetRoot)
        (proof : InclusionProof)
        → HasByteRoot multiset
        → compute_multiset_root fl sha256 items key_id ≡ ok multiset
        → proof.root ≡ multiset.root
        → proof.tree_size ≡ pos (length multiset.members)
        → verify_inclusion_proof fl sha256 proof ≡ ok true
        → IsIncluded multiset proof ⊎ Collision sha256
    unfolding verify_inclusion_proof
    verify_inclusion_proof_sound items key_id multiset proof bytes e root members h =
        let c : Computed fl sha256 multiset =
          compute_multiset_root-Computed fl sha256 items key_id multiset e in
        let top : IsDigest (mth sha256 c.leaves) = (
          mth-All sha256 IsHash size c.leaves
              (leaf_hashes-All fl sha256 IsHash size multiset.members c.leaves c.hashed),
          bytes c.leaves c.hashed,
        ) in
        let text : match_root proof.root ≡ some (multiset.key_id, hex (mth sha256 c.leaves)) =
          ap match_root (root ∙ c.text)
          ∙ match_root-text multiset.key_id (mth sha256 c.leaves) c.kid top in
        let (i, n, at, hn, below, leads) =
          in_range-true proof proof.leaf_index proof.tree_size _
            (against_root-true proof _ _ (rw text at h)) in
        let same : n ≡ length multiset.members = pos_inj (sym hn ∙ members) in
        Leads-IsIncluded multiset proof c i at (omega (arith, same, below))
          (rw (same, from_hex-hex (mth sha256 c.leaves) top.1) at leads)
