-- ===== src/CommitmentLinkage/Rebinding.antt =====
-- A sidecar in the context of another record.
use traigent_schema.Prelude.{ℕ, ◌≡◌, ◌≢◌, refl, sym, Bool, Option, some, Bool-cases, inl, inr}
use traigent_schema.Python.Result.{Result, ok, err}
use traigent_schema.Python.Text.{Text, text_eq, text_eq_sound, text_eq_refl, utf8}
use traigent_schema.Python.Object.{Floats, Value, Heap}
use traigent_schema.Merkle.{Bytes}
use traigent_schema.RelyingParty.Signature.{Crypto}
use traigent_schema.CommitmentLinkage.{LinkageError, envelope_shape, record_binding_mismatch}
use traigent_schema.CommitmentLinkage.Context.{VerificationContext}
use traigent_schema.CommitmentLinkage.Sidecar.{VerifiedLinkage, Sidecar}
use traigent_schema.CommitmentLinkage.Authentic.{IsAuthentic, verify_commitment_linkage-IsAuthentic}
use traigent_schema.CommitmentLinkage.Verify.{
  unsigned_linkage_domain, role_digest, check_bindings, authenticate, is_dict,
  verify_commitment_linkage,
}

module _ (fl : Floats) (heap : Heap fl.Float) (crypto : Crypto)
    (sha256_hexdigest : Bytes → Text) where
  open fl use {Float}

  authenticate-other_record :
      (sidecar : Sidecar heap) (canonical : Bytes) (context other : VerificationContext)
      (linkage : VerifiedLinkage Float)
      → IsAuthentic fl heap crypto sha256_hexdigest sidecar canonical context linkage
      → other.issuer_key ≡ context.issuer_key
      → other.expected_process_record_digest ≢ context.expected_process_record_digest
      → authenticate fl heap crypto sha256_hexdigest sidecar canonical other
        ≡ err record_binding_mismatch
  unfolding authenticate check_bindings
  authenticate-other_record sidecar canonical context other linkage a same differ =
      let expected = context.expected_process_record_digest in
      let digest = role_digest fl heap crypto sha256_hexdigest unsigned_linkage_domain canonical in
      elim (Bool-cases (text_eq expected other.expected_process_record_digest)) [
        | inl equal ↦ absurd (differ (sym (text_eq_sound expected _ equal)))
        | inr unequal ↦
            rw (a.digest_stored, text_eq_refl digest, same, a.checked, a.record_is, unequal) refl
      ]

  module _ (schema_valid : Value Float → Bool) where
    -- A sidecar that `verify_commitment_linkage` accepts for one record is refused with
    -- RECORD_BINDING_MISMATCH in every context with the same issuer key that expects another record.
    pub verify_commitment_linkage-other_record :
        (fuel : ℕ) (envelope : Value Float) (context other : VerificationContext)
        (linkage : VerifiedLinkage Float)
        → verify_commitment_linkage fl heap crypto sha256_hexdigest schema_valid fuel envelope
            context
          ≡ some (ok linkage)
        → other.issuer_key ≡ context.issuer_key
        → other.expected_process_record_digest ≢ context.expected_process_record_digest
        → verify_commitment_linkage fl heap crypto sha256_hexdigest schema_valid fuel envelope other
          ≡ some (err record_binding_mismatch)
    unfolding verify_commitment_linkage
    verify_commitment_linkage-other_record fuel envelope context other linkage e same differ =
        let (valid, sidecar, read, text, hc, authentic) =
          verify_commitment_linkage-IsAuthentic fl heap crypto sha256_hexdigest schema_valid fuel
            envelope context linkage e in
        let refused =
          authenticate-other_record sidecar (utf8 text) context other linkage authentic same
            differ in
        elim (Bool-cases (is_dict fl heap crypto sha256_hexdigest envelope)) [
          | inl shape ↦ rw (shape, valid, read, hc, refused) refl
          | inr other_type ↦ absurd (
              let no_linkage : ◌≡◌ {A = Option (Result LinkageError (VerifiedLinkage Float))}
                  (some (err envelope_shape)) (some (ok linkage)) =
                rw other_type at e in
              cc)
        ]
