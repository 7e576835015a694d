-- ===== src/ContentIdentity/Proof.antt =====
-- Inclusion proofs: `build_inclusion_proof` and `verify_inclusion_proof`. An audit path is a list of
-- texts, and the index and size are ints.
use traigent_schema.Prelude.{
  ℕ, suc, ◌-◌, Bool, true, false, ◌&&◌, Option, none, some, List, [], ◌∷◌, ltb, ◌==◌, if◌then◌else◌,
  length, map,
}
use traigent_schema.Python.Result.{Result, ok, err, ◌>>=◌}
use traigent_schema.Python.Text.{Text, text_eq}
use traigent_schema.Python.Int.{ℤ, pos}
use traigent_schema.Python.Object.{Floats}
use traigent_schema.Merkle.{Bytes, leaf_hash, path, fold_audit_path}
use traigent_schema.ContentIdentity.Identifier.{
  IdentityError, content_identity_error, match_root, hex_text, all_hex, hex, from_hex,
}
use traigent_schema.ContentIdentity.Multiset.{
  MultisetMember, MultisetRoot, multiset_leaf_data, leaf_hashes,
}

pub record InclusionProof : Type 0 where
  pub member : MultisetMember
  pub leaf_index : ℤ
  pub tree_size : ℤ
  pub audit_path : List Text
  pub root : Text

-- `==` of the dataclass
unfoldable pub member_eq : MultisetMember → MultisetMember → Bool
member_eq m n =
    text_eq m.example_id n.example_id
    && text_eq m.example_version n.example_version
    && (m.count == n.count)

abbrev pub one_more : Option ℕ → Option ℕ
one_more none = none
one_more (some i) = some (suc i)

-- `members.index(member)`
unfoldable pub index_of : MultisetMember → List MultisetMember → Option ℕ
unfolding member_eq
index_of m [] = none
index_of m (n ∷ members) =
    let rest = one_more (index_of m members) in if member_eq n m then some 0 else rest

abbrev pub prepend : Bool → Bytes → Option (List Bytes) → Option (List Bytes)
prepend true b (some path) = some (b ∷ path)
prepend _ b _ = none

-- `_decode_audit_path`
unfoldable pub decode_audit_path : List Text → Option (List Bytes)
unfolding all_hex from_hex
decode_audit_path [] = some []
decode_audit_path (node ∷ nodes) =
    prepend (hex_text 64 node) (from_hex node) (decode_audit_path nodes)

abbrev pub same_bytes : Option Bytes → Bytes → Bool
same_bytes none digest = false
same_bytes (some r) digest = text_eq r digest

module _ (fl : Floats) (sha256 : Bytes → Bytes) where
  abbrev proof_at : MultisetRoot → MultisetMember → Option ℕ → Result IdentityError InclusionProof
  proof_at multiset m none = err content_identity_error
  proof_at multiset m (some index) = do
    leaves ← leaf_hashes fl sha256 multiset.members
    ok (record {
      member = m;
      leaf_index = pos index;
      tree_size = pos (length leaves);
      audit_path = map hex (path sha256 index leaves);
      root = multiset.root;
    })

  unfoldable pub build_inclusion_proof :
      MultisetRoot → MultisetMember → Result IdentityError InclusionProof
  build_inclusion_proof multiset m = proof_at multiset m (index_of m multiset.members)

  abbrev pub check_path :
      Option (List Bytes) → MultisetMember → ℕ → ℕ → Text → Result IdentityError Bool
  check_path none m index size digest = ok false
  check_path (some nodes) m index size digest = do
    leaf ← multiset_leaf_data fl sha256 m
    ok (
        same_bytes (fold_audit_path sha256 (leaf_hash sha256 leaf) nodes index (size - 1))
          (from_hex digest))

  -- `0 <= leaf_index < tree_size`
  abbrev pub in_range : InclusionProof → ℤ → ℤ → Text → Result IdentityError Bool
  in_range proof (pos index) (pos size) digest =
      if ltb index size
      then check_path (decode_audit_path proof.audit_path) proof.member index size digest
      else ok false
  in_range proof _ _ digest = ok false

  abbrev pub against_root : InclusionProof → Option (Text × Text) → Result IdentityError Bool
  against_root proof none = ok false
  against_root proof (some (kid, digest)) =
      if text_eq kid proof.member.key_id
      then in_range proof proof.leaf_index proof.tree_size digest
      else ok false

  unfoldable pub verify_inclusion_proof : InclusionProof → Result IdentityError Bool
  verify_inclusion_proof proof = against_root proof (match_root proof.root)
