-- ===== src/Tests/Proofs.antt =====
-- The theorems on inclusion proofs at a multiset of two members.
use mathlib.Core.Path.{subst}
use traigent_schema.Merkle.Sound.{IsHash, Collision}
use traigent_schema.Merkle.Nodes.{mth-All}
use traigent_schema.ContentIdentity.Sound.{HasByteRoot, IsIncluded, verify_inclusion_proof_sound}
use traigent_schema.Prelude.{
  length, sym, ◌∙◌, ◌⊎◌, ℕ, zero, suc, ◌+◌, ◌*◌, ◌%◌, ◌≡◌, refl, true, none, some, List, [], ◌∷◌,
  ◌++◌, arith, get_elem?, replicate, All,
}
use traigent_schema.Python.Result.{ok_inj, Result, ok, err, traverse}
use traigent_schema.Python.Text.{Text, codes, text_le}
use traigent_schema.Python.Int.{pos}
use traigent_schema.Prelude.Lists.{take, drop}
use traigent_schema.Fp2.{canonicalize}
use traigent_schema.Fp2.Scalar.{encode_string, encode_int}
use traigent_schema.Merkle.{Bytes}
use traigent_schema.ContentIdentity.Identifier.{IdentityError, IsByte}
use traigent_schema.ContentIdentity.Multiset.{
  MultisetMember, MultisetRoot, Item, pair, triple, compute_multiset_root, normalize, single_key_id,
  total_count, leaf_hashes, multiset_leaf_data,
}
use traigent_schema.ContentIdentity.Proof.{
  index_of, InclusionProof, build_inclusion_proof, verify_inclusion_proof,
}
use traigent_schema.ContentIdentity.Verify.{
  IsDigest, leaf_hashes-All, verify_inclusion_proof-build_inclusion_proof,
}
use traigent_schema.Tests.{whole}

-- a digest of 32 bytes
abbrev weighted : Bytes → ℕ
weighted [] = 7
weighted (b ∷ bytes) = b + 3 * weighted bytes

abbrev byte_digest : Bytes → Bytes
byte_digest bytes = weighted bytes % 256 ∷ replicate 31 0

replicate-IsByte : (n : ℕ) → All IsByte (replicate n 0)
replicate-IsByte zero = tt
replicate-IsByte (suc n) = (omega arith, replicate-IsByte n)

byte_digest-IsDigest : (x : Bytes) → IsDigest (byte_digest x)
byte_digest-IsDigest x = (refl, (omega arith, replicate-IsByte 31))

byte_digest-IsHash : (x : Bytes) → IsHash (byte_digest x)
byte_digest-IsHash x = refl

abbrev id_of : ℕ → Text
id_of c = codes "ex1:k0123456789abcdef:" ++ replicate 64 c

abbrev version_of : ℕ → Text
version_of c = codes "exv1:k0123456789abcdef:" ++ replicate 64 c

abbrev two_items : List Item
two_items = pair (id_of b'b') (version_of b'0') ∷ triple (id_of b'a') (version_of b'1') (pos 2) ∷ []

abbrev held : Result IdentityError MultisetRoot → MultisetRoot
held (ok r) = r
held (err x) = record {
  root = [];
  key_id = [];
  members = [];
  distinct_count = 0;
  total_count = 0;
  conflicting_example_ids = [];
}

abbrev two_root : MultisetRoot
two_root = held (compute_multiset_root whole byte_digest two_items none)

abbrev member_a : MultisetMember
member_a = record {
  example_id = id_of b'a';
  example_version = version_of b'1';
  count = 2;
  key_id = codes "k0123456789abcdef";
}

two_root_run : compute_multiset_root whole byte_digest two_items none ≡ ok two_root
unfolding compute_multiset_root normalize traverse drop take text_le single_key_id total_count
    leaf_hashes multiset_leaf_data canonicalize encode_string encode_int
two_root_run = refl

member_a_run : get_elem? two_root.members 0 ≡ some member_a
unfolding compute_multiset_root normalize traverse drop take text_le single_key_id total_count
    leaf_hashes multiset_leaf_data canonicalize encode_string encode_int
member_a_run = refl

verify_inclusion_proof-build_inclusion_proof_example :
    (proof : InclusionProof) × (build_inclusion_proof whole byte_digest two_root member_a
      ≡ ok proof)
    × (verify_inclusion_proof whole byte_digest proof ≡ ok true)
verify_inclusion_proof-build_inclusion_proof_example =
    verify_inclusion_proof-build_inclusion_proof whole byte_digest byte_digest-IsDigest two_items
      none two_root 0 member_a two_root_run member_a_run

abbrev held_proof : Result IdentityError InclusionProof → InclusionProof
held_proof (ok p) = p
held_proof (err x) = record {
  member = member_a;
  leaf_index = pos 0;
  tree_size = pos 0;
  audit_path = [];
  root = [];
}

abbrev proof_a : InclusionProof
proof_a = held_proof (build_inclusion_proof whole byte_digest two_root member_a)

proof_a_run :
    (build_inclusion_proof whole byte_digest two_root member_a ≡ ok proof_a)
    × (proof_a.root ≡ two_root.root)
    × (proof_a.tree_size ≡ pos (length two_root.members))
unfolding build_inclusion_proof index_of compute_multiset_root normalize traverse drop take text_le
    single_key_id total_count leaf_hashes multiset_leaf_data canonicalize encode_string encode_int
proof_a_run = (refl, refl, refl)

proof_a_accepted : verify_inclusion_proof whole byte_digest proof_a ≡ ok true
proof_a_accepted =
    let (p, built, accepted) =
      verify_inclusion_proof-build_inclusion_proof whole byte_digest byte_digest-IsDigest two_items
        none two_root 0 member_a two_root_run member_a_run in
    subst (λ q. verify_inclusion_proof whole byte_digest q ≡ ok true)
      (ok_inj (sym built ∙ proof_a_run.0)) accepted

two_root-HasByteRoot : HasByteRoot whole byte_digest byte_digest-IsHash two_root
two_root-HasByteRoot leaves e =
    mth-All byte_digest (All IsByte) (λ x. (byte_digest-IsDigest x).1) leaves
      (leaf_hashes-All whole byte_digest (All IsByte) (λ x. (byte_digest-IsDigest x).1)
        two_root.members leaves e)

verify_inclusion_proof_sound_example :
    IsIncluded whole byte_digest byte_digest-IsHash two_root proof_a ⊎ Collision byte_digest
verify_inclusion_proof_sound_example =
    verify_inclusion_proof_sound whole byte_digest byte_digest-IsHash two_items none two_root
      proof_a two_root-HasByteRoot two_root_run proof_a_run.1 proof_a_run.2 proof_a_accepted
