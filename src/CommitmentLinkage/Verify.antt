-- ===== src/CommitmentLinkage/Verify.antt =====
-- `verify_commitment_linkage`, `_verify`, `_check_signature` and `_role_digest`. jsonschema's verdict
-- on the envelope is a parameter.
use traigent_schema.Prelude.{ℕ, Bool, true, false, ◌&&◌, Option, none, some, ◌∷◌, ◌++◌}
use traigent_schema.Python.Result.{Result, ok, err, ◌>>=◌, ◌>>◌, guard, traverse}
use traigent_schema.Python.Text.{Text, codes, utf8, is_ascii}
use traigent_schema.Python.Object.{Floats, Value, ref, list, dict, Heap}
use traigent_schema.Fp2.{canonicalize}
use traigent_schema.Fp2.Scalar.{Unsupported}
use traigent_schema.Merkle.{Bytes}
use traigent_schema.RelyingParty.Signature.{Crypto, Material, material_public_key, verify_signature}
use traigent_schema.CommitmentLinkage.{
  LinkageError, envelope_shape, schema_error, canonicalization, unsigned_linkage_digest_mismatch,
  key_mismatch, key_material, signature_rejected, record_binding_mismatch, scope_mismatch,
}
use traigent_schema.CommitmentLinkage.Context.{IssuerKey, VerificationContext}
use traigent_schema.CommitmentLinkage.Sidecar.{
  recode, is_text, member, entry_of, VerifiedLinkage, Sidecar, opened_envelope,
}

abbrev pub unsigned_linkage_domain : Bytes
unsigned_linkage_domain = codes "traigent.commitment_linkage.unsigned.v1"

abbrev pub issuer_signature_domain : Bytes
issuer_signature_domain = codes "traigent.commitment_linkage.issuer_signature.v1"

abbrev pub issuer_spki_domain : Bytes
issuer_spki_domain = codes "traigent.agent_certificate.issuer_spki_der.v0"

-- the projection of the pinned key
abbrev pub material_of : IssuerKey → Material
material_of key = record {
  public_key_der_b64 = key.public_key_der_b64;
  public_key_digest = key.public_key_digest;
  algorithm = key.algorithm;
}

module _ (fl : Floats) (heap : Heap fl.Float) (crypto : Crypto)
    (sha256_hexdigest : Bytes → Text) where
  open fl use {Float}

  unfoldable pub check_signature : Value Float → Bytes → IssuerKey → Result LinkageError (Unit {0})
  unfolding member is_ascii material_public_key verify_signature
  check_signature signature canonical key = do
    key_ref ← member heap (codes "issuer_key_ref") signature
    guard (is_text key.key_ref key_ref) key_mismatch
    trust_ring_ref ← member heap (codes "trust_ring_ref") signature
    guard (is_text key.trust_ring_ref trust_ring_ref) key_mismatch
    algorithm ← member heap (codes "algorithm") signature
    guard (is_text key.algorithm algorithm) key_mismatch
    guard (is_ascii key.public_key_der_b64 && is_ascii key.public_key_digest) key_material
    public_key ←
        recode key_material
          (material_public_key crypto sha256_hexdigest (material_of key) issuer_spki_domain)
    encoded ← member heap (codes "signature") signature
    recode signature_rejected (
        verify_signature crypto sha256_hexdigest public_key algorithm
          (issuer_signature_domain ++ 0 ∷ canonical) encoded)

  -- `_role_digest` of canonical bytes
  abbrev pub role_digest : Bytes → Bytes → Text
  role_digest domain canonical = codes "sha256:" ++ sha256_hexdigest (domain ++ 0 ∷ canonical)

  unfoldable pub check_bindings :
      Value Float → VerificationContext → Result LinkageError (Value Float)
  unfolding member
  check_bindings unsigned context = do
    process_record ← member heap (codes "process_record_digest") unsigned
    guard (is_text context.expected_process_record_digest process_record) record_binding_mismatch
    project_ref ← member heap (codes "project_ref") unsigned
    guard (is_text context.expected_project_ref project_ref) scope_mismatch
    build_session_ref ← member heap (codes "build_session_ref") unsigned
    guard (is_text context.expected_build_session_ref build_session_ref) scope_mismatch
    ok process_record

  -- `_verify` after the canonical bytes of the unsigned linkage
  unfoldable pub authenticate :
      Sidecar heap → Bytes → VerificationContext → Result LinkageError (VerifiedLinkage Float)
  unfolding member check_signature check_bindings entry_of traverse
  authenticate sidecar canonical context = do
    let digest = role_digest unsigned_linkage_domain canonical
    claimed ← member heap (codes "unsigned_linkage_digest") sidecar.signature
    guard (is_text digest claimed) unsigned_linkage_digest_mismatch
    check_signature sidecar.signature canonical context.issuer_key
    process_record ← check_bindings sidecar.unsigned context
    entries ← traverse (entry_of heap) sidecar.entries
    ok (record {
      process_record_digest = process_record;
      unsigned_linkage_digest = digest;
      entries = entries;
    })

  abbrev pub with_canonical :
      Sidecar heap
      → VerificationContext
      → Option (Result Unsupported Text)
      → Option (Result LinkageError (VerifiedLinkage Float))
  with_canonical sidecar context none = none
  with_canonical sidecar context (some (err raised)) = some (err canonicalization)
  with_canonical sidecar context (some (ok text)) = some (authenticate sidecar (utf8 text) context)

  abbrev pub with_sidecar :
      ℕ
      → VerificationContext
      → Result LinkageError (Sidecar heap)
      → Option (Result LinkageError (VerifiedLinkage Float))
  with_sidecar fuel context (err raised) = some (err raised)
  with_sidecar fuel context (ok sidecar) =
      with_canonical sidecar context (canonicalize fl heap fuel sidecar.unsigned)

  -- `type(envelope) is dict`
  abbrev pub is_dict : Value Float → Bool
  is_dict (ref a) = elim (heap a) [ dict items ↦ true | list vs ↦ false ]
  is_dict _ = false

  -- `schema_valid` is jsonschema's verdict: no error was found, and none was raised
  unfoldable pub verify_commitment_linkage :
      (schema_valid : Value Float → Bool)
      → ℕ
      → Value Float
      → VerificationContext
      → Option (Result LinkageError (VerifiedLinkage Float))
  unfolding opened_envelope authenticate
  verify_commitment_linkage schema_valid fuel envelope context = with_sidecar fuel context do
    guard (is_dict envelope) envelope_shape
    guard (schema_valid envelope) schema_error
    opened_envelope heap envelope
