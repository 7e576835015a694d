-- ===== src/Tests.antt =====
-- The theorems at concrete inputs, and small runs of the definitions.
mod Proofs
mod Contract
mod Payload
mod Relations
mod Labels
mod Linkage
mod Statistics
mod Breaking
mod Roles
use traigent_schema.Prelude.{
  ℕ, zero, suc, ◌+◌, ◌-◌, ◌*◌, ◌≡◌, ◌↔◌, ◌⊎◌, refl, Bool, true, false, some, List, [], ◌∷◌, ◌++◌,
  arith, ltb, leb, ◌==◌, if◌then◌else◌, get_elem?, replicate, length,
}
use traigent_schema.Python.Result.{Result, ok, err, is_ok}
use traigent_schema.Python.Text.{Text, codes, text_eq, decimal, utf8}
use traigent_schema.Python.Int.{ℤ, pos, negsuc, abs, int_text, parse_int}
use traigent_schema.Python.Object.{Floats, null, bool, int, ref, str_key, list, dict, Heap}
use traigent_schema.Merkle.{Bytes, mth, path, fold_audit_path}
use traigent_schema.Merkle.Shape.{replay, turns}
use traigent_schema.Merkle.Fold.{fold_audit_path-replay}
use traigent_schema.Merkle.Tree.{fold_audit_path-path}
use traigent_schema.Merkle.Sound.{IsHash, Collision, fold_audit_path_sound}
use traigent_schema.Fp2.{canonicalize}
use traigent_schema.Fp2.Scalar.{encode_int}
use traigent_schema.Fp2.Canon.{canon}
use traigent_schema.Fp2.Refine.{canonicalize-canon}
use traigent_schema.BestConfig.{
  ProfileError, unsafe_integral, prevalidate, after_prevalidation, canonical_bytes, domain_digest,
}
use traigent_schema.BestConfig.Admitted.{admitted, prevalidate-admitted}
use traigent_schema.BestConfig.Digest
use traigent_schema.BestConfig.Digest.{IsCanonical, domain_digest_inj}
use traigent_schema.BestConfig.Decode.{
  IsNumeral, unsigned, parse_int_rejecting_unsafe_magnitude, parse_int_rejecting_exact,
}
use traigent_schema.Invariants.{present_and_equal, Declaration, violation}
use traigent_schema.Invariants.Pointer.{InvariantError, resolve_pointer}
use traigent_schema.Invariants.Escape.{pointer_of, follow, resolve_pointer-pointer_of}
use traigent_schema.Invariants.Compare.{Budget, prevalidate_canonical}
use traigent_schema.Invariants.Bound.{prevalidate_canonical_ends}

-- floats that are all integral, for the runs
abbrev is_negative_int : ℤ → Bool
is_negative_int (pos n) = false
is_negative_int (negsuc n) = true

abbrev negate_int : ℤ → ℤ
negate_int (pos zero) = pos zero
negate_int (pos (suc n)) = negsuc n
negate_int (negsuc n) = pos (suc n)

abbrev pub whole : Floats
whole = record {
  Float = ℤ;
  is_finite = λ x. true;
  is_zero = λ x. abs x == 0;
  is_negative = is_negative_int;
  negate = negate_int;
  is_integral = λ x. true;
  is_unsafe = λ x. ltb 9007199254740991 (abs x);
  repr = λ x. int_text x ++ codes ".0";
  equal = λ x y. text_eq (int_text x) (int_text y);
}

-- container 0 is {"b": [1, true], "a/b": null}, container 1 the list in it, container 2 holds itself
abbrev shared_heap : Heap ℤ
shared_heap zero = dict ((str_key (codes "b"), ref 1) ∷ (str_key (codes "a/b"), null) ∷ [])
shared_heap (suc zero) = list (int (pos 1) ∷ bool true ∷ [])
shared_heap (suc (suc n)) = list (ref 2 ∷ [])

-- a digest of 32 bytes
abbrev sum_of : Bytes → ℕ
sum_of [] = 7
sum_of (b ∷ bytes) = b + 3 * sum_of bytes

abbrev digest : Bytes → Bytes
digest bytes = sum_of bytes ∷ replicate 31 0

abbrev leaves : List Bytes
leaves = digest (1 ∷ []) ∷ digest (2 ∷ []) ∷ digest (3 ∷ []) ∷ []

fold_audit_path-replay_example :
    fold_audit_path digest (digest (3 ∷ [])) (digest (9 ∷ []) ∷ []) 2 (3 - 1)
    ≡ replay digest (turns 2 3) (digest (3 ∷ [])) (digest (9 ∷ []) ∷ [])
fold_audit_path-replay_example =
    fold_audit_path-replay digest 2 3 (omega arith) (digest (3 ∷ [])) (digest (9 ∷ []) ∷ [])

fold_audit_path-path_example :
    fold_audit_path digest (digest (2 ∷ [])) (path digest 1 leaves) 1 (length leaves - 1)
    ≡ some (mth digest leaves)
fold_audit_path-path_example = fold_audit_path-path digest leaves 1 (digest (2 ∷ [])) refl

digest_size : (x : Bytes) → IsHash (digest x)
digest_size x = refl

fold_audit_path_sound_example :
    ((get_elem? leaves 1 ≡ some (digest (2 ∷ []))) × (path digest 1 leaves ≡ path digest 1 leaves))
    ⊎ Collision digest
fold_audit_path_sound_example =
    fold_audit_path_sound digest digest_size leaves 1 (digest (2 ∷ [])) (path digest 1 leaves)
      (omega arith) (refl, (refl, (refl, tt))) refl
      (fold_audit_path-path digest leaves 1 (digest (2 ∷ [])) refl)

canonicalize-canon_example :
    (n : ℕ) × ((k : ℕ)
      → canonicalize whole shared_heap (n + k) (ref 2)
        ≡ some (canon whole shared_heap (ref 2) 100 []))
canonicalize-canon_example = canonicalize-canon whole shared_heap (ref 2)

prevalidate-admitted_example :
    (n : ℕ) × (r : Result ProfileError (List ℕ)) × ((k : ℕ)
      → prevalidate whole shared_heap (n + k) (ref 0) ≡ some r)
    × ((is_ok r ≡ true) ↔ (admitted whole shared_heap (ref 0) 100 ≡ true))
prevalidate-admitted_example = prevalidate-admitted whole shared_heap (ref 0)

minus-IsNumeral : IsNumeral (unsigned (codes "-9007199254740992"))
unfolding unsigned
minus-IsNumeral = ground arith

parse_int_rejecting_exact_example :
    parse_int_rejecting_unsafe_magnitude (codes "-9007199254740992") ≡ (
      if leb (abs (parse_int (codes "-9007199254740992"))) 9007199254740991
      then ok (parse_int (codes "-9007199254740992"))
      else err unsafe_integral)
parse_int_rejecting_exact_example =
    parse_int_rejecting_exact (codes "-9007199254740992") minus-IsNumeral

resolve_pointer-pointer_of_example :
    resolve_pointer shared_heap (ref 0) (pointer_of (codes "a/b" ∷ []))
    ≡ ok (follow shared_heap (ref 0) (codes "a/b" ∷ []))
resolve_pointer-pointer_of_example =
    resolve_pointer-pointer_of shared_heap (ref 0) (codes "a/b" ∷ [])

prevalidate_canonical_ends_example :
    (r : Result InvariantError Budget) × (prevalidate_canonical whole shared_heap 200000 (ref 2)
      ≡ some r)
prevalidate_canonical_ends_example =
    prevalidate_canonical_ends whole shared_heap 200000 (ref 2) (omega arith)

abbrev equal_entries : Declaration ℤ
equal_entries = record {
  code = codes "E";
  relation = present_and_equal (codes "/b/0") (codes "/b/1");
}

-- the root is equal to itself
abbrev reflexive : Declaration ℤ
reflexive = record { code = codes "R"; relation = present_and_equal (codes "/b") (codes "/b") }

-- `hexdigest` as the bytes themselves
abbrev as_hex : List ℕ → Text
as_hex bytes = bytes

abbrev list_digest : Text
list_digest = codes "sha256:" ++ (codes "t.config.v1" ++ 0 ∷ codes "[1,true]")

domain_digest_run :
    domain_digest whole shared_heap as_hex 65536 (codes "t.config.v1") 20 (ref 1)
    ≡ some (ok list_digest)
unfolding domain_digest canonical_bytes after_prevalidation prevalidate canonicalize encode_int utf8
    decimal
domain_digest_run = refl

domain_digest_inj_example :
    ((encoded : List ℕ) × (codes "t.config.v1" ≡ codes "t.config.v1")
      × IsCanonical whole shared_heap 65536 20 (ref 1) encoded
      × IsCanonical whole shared_heap 65536 20 (ref 1) encoded)
    ⊎ Digest.Collision whole shared_heap as_hex
domain_digest_inj_example =
    domain_digest_inj whole shared_heap as_hex (codes "t.config.v1") (codes "t.config.v1") 65536 20
      20 (ref 1) (ref 1) list_digest (ground arith) (ground arith) domain_digest_run
      domain_digest_run
