-- ===== src/CommitmentLinkage/Accepted.antt =====
-- `verify_commitment_linkage` where it accepts an envelope.
use traigent_schema.Prelude.{ℕ, ◌≡◌, sym, ap, ◌∙◌, Bool, true, ◌++◌, ◌∷◌, some}
use traigent_schema.Python.Result.{ok, traverse}
use traigent_schema.Python.Text.{Text, codes, utf8}
use traigent_schema.Python.Object.{Floats, Value, str, Heap}
use traigent_schema.Fp2.{canonicalize}
use traigent_schema.Merkle.{Bytes}
use traigent_schema.RelyingParty.Signature.{Crypto}
use traigent_schema.RelyingParty.Verified.{
  IsPinned, IsVerified, material_public_key-IsPinned, verify_signature-IsVerified,
}
use traigent_schema.CommitmentLinkage.Context.{VerificationContext}
use traigent_schema.CommitmentLinkage.Sidecar.{member, entry_of, VerifiedLinkage, Sidecar}
use traigent_schema.CommitmentLinkage.Verify.{
  unsigned_linkage_domain, issuer_signature_domain, issuer_spki_domain, material_of,
  verify_commitment_linkage,
}
use traigent_schema.CommitmentLinkage.Authentic.{IsSigned, verify_commitment_linkage-IsAuthentic}
use traigent_schema.CommitmentLinkage.Opened.{IsOpened, opened_envelope-IsOpened}

module _ (fl : Floats) (heap : Heap fl.Float) (crypto : Crypto)
    (sha256_hexdigest : Bytes → Text) where
  open fl use {Float}

  -- the pinned key verifies the stored signature over the canonical bytes
  pub record IsSealed (signature : Value Float) (canonical : Bytes) (context : VerificationContext)
      : Type 0 where
    pub key : crypto.PublicKey
    pub encoded : Text
    pub key_ref_is :
        member heap (codes "issuer_key_ref") signature ≡ ok (str context.issuer_key.key_ref)
    pub trust_ring_is :
        member heap (codes "trust_ring_ref") signature ≡ ok (str context.issuer_key.trust_ring_ref)
    pub pinned :
        IsPinned crypto sha256_hexdigest (material_of context.issuer_key) issuer_spki_domain key
    pub stored : member heap (codes "signature") signature ≡ ok (str encoded)
    pub verified :
        IsVerified crypto sha256_hexdigest key context.issuer_key.algorithm
          (issuer_signature_domain ++ 0 ∷ canonical)
          encoded

  IsSigned-IsSealed :
      (signature : Value Float) (canonical : Bytes) (context : VerificationContext)
      → IsSigned fl heap crypto sha256_hexdigest signature canonical context.issuer_key
      → IsSealed signature canonical context
  IsSigned-IsSealed signature canonical context s =
      let (text, is_text, verified) =
        verify_signature-IsVerified crypto sha256_hexdigest s.public_key
          context.issuer_key.algorithm (issuer_signature_domain ++ 0 ∷ canonical) s.encoded tt
          (rw s.algorithm_is at s.accepted) in
      record {
        key = s.public_key;
        encoded = text;
        key_ref_is = s.key_ref_is;
        trust_ring_is = s.trust_ring_is;
        pinned =
            material_public_key-IsPinned crypto sha256_hexdigest _ issuer_spki_domain s.public_key
              s.loaded;
        stored = s.stored ∙ ap ok is_text;
        verified = verified;
      }

  -- what an accepted envelope shows
  pub record IsAccepted (fuel : ℕ) (envelope : Value Float) (context : VerificationContext)
      (linkage : VerifiedLinkage Float) : Type 0 where
    pub sidecar : Sidecar heap
    pub opened : IsOpened heap envelope sidecar
    pub text : Text
    pub canonical : canonicalize fl heap fuel sidecar.unsigned ≡ some (ok text)
    pub sealed : IsSealed sidecar.signature (utf8 text) context
    pub digest_stored :
        member heap (codes "unsigned_linkage_digest") sidecar.signature
        ≡ ok (str linkage.unsigned_linkage_digest)
    pub digest_is :
        linkage.unsigned_linkage_digest
        ≡ codes "sha256:" ++ sha256_hexdigest (unsigned_linkage_domain ++ 0 ∷ utf8 text)
    pub record_is : linkage.process_record_digest ≡ str context.expected_process_record_digest
    pub record_stored :
        member heap (codes "process_record_digest") sidecar.unsigned
        ≡ ok (str context.expected_process_record_digest)
    pub project_stored :
        member heap (codes "project_ref") sidecar.unsigned ≡ ok (str context.expected_project_ref)
    pub session_stored :
        member heap (codes "build_session_ref") sidecar.unsigned
        ≡ ok (str context.expected_build_session_ref)
    pub entries_are : traverse (entry_of heap) sidecar.entries ≡ ok linkage.entries

  module _ (schema_valid : Value Float → Bool) where
    -- When verify_commitment_linkage accepts an envelope: the schema admits it; the roles of its entries are known and no
    -- one stands twice; the issuer key is the pinned one, in canonical DER form and with the pinned digest; the key has
    -- accepted, by the check of the pinned algorithm and for ECDSA with scalars in range and a low s, the stored 64-byte
    -- signature over the canonical bytes of the unsigned linkage; the stored digest is the one of these bytes; the record,
    -- the project and the build session are the expected ones; and the linkage returned has that record, that digest and
    -- the sidecar's entries.
    pub verify_commitment_linkage_sound :
        (fuel : ℕ) (envelope : Value Float) (context : VerificationContext)
        (linkage : VerifiedLinkage Float)
        → verify_commitment_linkage fl heap crypto sha256_hexdigest schema_valid fuel envelope
            context
          ≡ some (ok linkage)
        → (schema_valid envelope ≡ true) × IsAccepted fuel envelope context linkage
    verify_commitment_linkage_sound fuel envelope context linkage e =
        let (valid, sidecar, read, text, canonical, a) =
          verify_commitment_linkage-IsAuthentic fl heap crypto sha256_hexdigest schema_valid fuel
            envelope context linkage e in
        (
          valid,
          record {
            sidecar = sidecar;
            opened = opened_envelope-IsOpened heap envelope sidecar read;
            text = text;
            canonical = canonical;
            sealed = IsSigned-IsSealed sidecar.signature (utf8 text) context a.signed;
            digest_stored = a.digest_stored ∙ ap ok (ap str (sym a.digest_returned));
            digest_is = a.digest_returned;
            record_is = a.record_returned;
            record_stored = a.record_is;
            project_stored = a.project_is;
            session_stored = a.session_is;
            entries_are = a.entries_are;
          },
        )
