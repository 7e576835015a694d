-- ===== src/Tests/Linkage.antt =====
-- The theorems on the commitment linkage at one sidecar, under a digest that is constant and keys that
-- accept every signature.
use traigent_schema.Prelude.{
  ℕ, zero, suc, ◌≡◌, ◌⊎◌, refl, true, false, Option, some, [], ◌∷◌, ◌++◌, arith, ◌==◌,
  if◌then◌else◌, length, replicate,
}
use traigent_schema.Prelude.Lists.{take, drop}
use traigent_schema.Python.Result.{ok, err}
use traigent_schema.Python.Text.{Text, codes, utf8, is_ascii, text_mem, text_le}
use traigent_schema.Python.Int.{ℤ}
use traigent_schema.Python.Object.{Value, str, ref, str_key, list, dict, Heap}
use traigent_schema.Fp2.{canonicalize}
use traigent_schema.Fp2.Scalar.{utf16_sort_key, encode_string}
use traigent_schema.ContentIdentity.Identifier.{all_hex}
use traigent_schema.Merkle.{Bytes}
use traigent_schema.RelyingParty.Signature.{Crypto}
use traigent_schema.CommitmentLinkage.{record_binding_mismatch}
use traigent_schema.CommitmentLinkage.Commitment.{compute_commitment}
use traigent_schema.CommitmentLinkage.Binding.{Collision, compute_commitment_inj}
use traigent_schema.CommitmentLinkage.Context.{VerificationContext}
use traigent_schema.CommitmentLinkage.Sidecar.{VerifiedLinkage}
use traigent_schema.CommitmentLinkage.Verify.{verify_commitment_linkage}
use traigent_schema.CommitmentLinkage.Accepted.{IsAccepted, verify_commitment_linkage_sound}
use traigent_schema.CommitmentLinkage.Rebinding.{verify_commitment_linkage-other_record}
use traigent_schema.CommitmentLinkage.Open.{opened_match, open_commitment}
use traigent_schema.CommitmentLinkage.Opening.{open_commitment-match}
use traigent_schema.CommitmentLinkage.Reopening.{open_commitment-compute_commitment}
use traigent_schema.Tests.{whole}

abbrev constant : Bytes → Text
constant x = codes "0"

abbrev signature_text : Text
signature_text = replicate 86 b'A' ++ codes "=="

abbrev trusting : Crypto
trusting = record {
  PublicKey = Bytes;
  b64decode = λ t. some (if length t == 88 then replicate 64 0 else t);
  b64encode = λ b. if length b == 64 then signature_text else b;
  load_der = λ der. some der;
  spki = λ key. key;
  is_ed25519 = λ key. true;
  is_p256 = λ key. false;
  ed25519_verify = λ key raw material. true;
  ecdsa_verify = λ key r s material. false;
}

abbrev sidecar_heap : Heap ℤ
sidecar_heap zero =
    dict ((str_key (codes "unsigned_linkage"), ref 1) ∷ (str_key (codes "signature"), ref 2) ∷ [])
sidecar_heap (suc zero) = dict (
    (str_key (codes "process_record_digest"), str (codes "r"))
    ∷ (str_key (codes "project_ref"), str (codes "p"))
    ∷ (str_key (codes "build_session_ref"), str (codes "b"))
    ∷ (str_key (codes "entries"), ref 3)
    ∷ [])
sidecar_heap (suc (suc zero)) = dict (
    (str_key (codes "issuer_key_ref"), str (codes "k"))
    ∷ (str_key (codes "trust_ring_ref"), str (codes "t"))
    ∷ (str_key (codes "algorithm"), str (codes "ed25519"))
    ∷ (str_key (codes "unsigned_linkage_digest"), str (codes "sha256:0"))
    ∷ (str_key (codes "signature"), str signature_text)
    ∷ [])
sidecar_heap (suc (suc (suc zero))) = list (ref 4 ∷ [])
sidecar_heap (suc (suc (suc (suc n)))) = dict (
    (str_key (codes "role"), str (codes "agent"))
    ∷ (str_key (codes "basis"), str (codes "source_text"))
    ∷ (str_key (codes "commitment"), str (codes "sha256:0"))
    ∷ [])

abbrev context_for : Text → VerificationContext
context_for expected = record {
  expected_process_record_digest = expected;
  expected_project_ref = codes "p";
  expected_build_session_ref = codes "b";
  issuer_key = record {
    key_ref = codes "k";
    trust_ring_ref = codes "t";
    algorithm = codes "ed25519";
    public_key_der_b64 = codes "AA";
    public_key_digest = codes "sha256:0";
  };
}

abbrev linkage : VerifiedLinkage ℤ
linkage = record {
  process_record_digest = str (codes "r");
  unsigned_linkage_digest = codes "sha256:0";
  entries =
      record {
        role = str (codes "agent");
        basis = str (codes "source_text");
        commitment = str (codes "sha256:0");
      }
      ∷ [];
}

verify_run :
    verify_commitment_linkage whole sidecar_heap trusting constant
      (λ v. true)
      60
      (ref 0)
      (context_for (codes "r"))
    ≡ some (ok linkage)
unfolding verify_commitment_linkage canonicalize utf8 text_mem utf16_sort_key text_le encode_string
    take drop
verify_run = refl

verify_commitment_linkage_sound_example :
    (true ≡ true)
    × IsAccepted whole sidecar_heap trusting constant 60 (ref 0) (context_for (codes "r")) linkage
verify_commitment_linkage_sound_example =
    verify_commitment_linkage_sound whole sidecar_heap trusting constant (λ v. true) 60 (ref 0)
      (context_for (codes "r")) linkage verify_run

verify_commitment_linkage-other_record_example :
    verify_commitment_linkage whole sidecar_heap trusting constant
      (λ v. true)
      60
      (ref 0)
      (context_for (codes "q"))
    ≡ some (err record_binding_mismatch)
verify_commitment_linkage-other_record_example =
    verify_commitment_linkage-other_record whole sidecar_heap trusting constant (λ v. true) 60
      (ref 0) (context_for (codes "r")) (context_for (codes "q")) linkage verify_run refl
      (λ e. ground (arith, e))

abbrev opening : Option Bytes
opening = some (replicate 32 3)

abbrev fingerprint : ℕ → Value ℤ
fingerprint c = str (codes "sha256:" ++ replicate 64 c)

commitment_run :
    compute_commitment constant
      (str (codes "agent"))
      (str (codes "source_text"))
      (fingerprint b'a')
      opening
    ≡ ok (codes "sha256:0")
unfolding compute_commitment text_mem drop all_hex
commitment_run = refl

compute_commitment_inj_example :
    ((◌≡◌ {A = Value ℤ} (str (codes "agent")) (str (codes "agent")))
      × (◌≡◌ {A = Value ℤ} (str (codes "source_text")) (str (codes "source_text")))
      × (fingerprint b'a' ≡ fingerprint b'a')
      × (opening ≡ opening))
    ⊎ Collision constant
compute_commitment_inj_example =
    compute_commitment_inj constant (str (codes "agent")) (str (codes "source_text"))
      (fingerprint b'a') (str (codes "agent")) (str (codes "source_text")) (fingerprint b'a')
      opening opening (codes "sha256:0") commitment_run commitment_run

open_run :
    open_commitment constant linkage (str (codes "agent")) (fingerprint b'a') opening
    ≡ ok opened_match
unfolding open_commitment text_mem drop all_hex
open_run = refl

other_run :
    open_commitment constant linkage (str (codes "agent")) (fingerprint b'b') opening
    ≡ ok opened_match
unfolding open_commitment text_mem drop all_hex
other_run = refl

open_commitment-match_example :
    ((fingerprint b'a' ≡ fingerprint b'b') × (opening ≡ opening)) ⊎ Collision constant
open_commitment-match_example =
    open_commitment-match constant linkage (str (codes "agent")) (fingerprint b'a')
      (fingerprint b'b') opening opening open_run other_run

constant_ascii : (x : Bytes) → is_ascii (constant x) ≡ true
unfolding is_ascii
constant_ascii x = refl

open_commitment-compute_commitment_example :
    open_commitment constant linkage (str (codes "agent")) (fingerprint b'a') opening
    ≡ ok opened_match
open_commitment-compute_commitment_example =
    open_commitment-compute_commitment constant constant_ascii linkage (codes "agent")
      (str (codes "source_text")) (fingerprint b'a') opening (codes "sha256:0") [] commitment_run
      refl
