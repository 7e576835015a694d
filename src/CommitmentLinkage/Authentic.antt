-- ===== src/CommitmentLinkage/Authentic.antt =====
-- What a verified sidecar is bound to, as `_verify` checks it step by step.
use traigent_schema.Prelude.{
  ℕ, ◌≡◌, refl, sym, ap, ◌∙◌, Bool, true, Option, none, some, ◌∷◌, ◌++◌, ◌&&◌,
}
use traigent_schema.Python.Result.{Result, ok, err, ok_inj, traverse, >>=-eq-ok, guard->>-ok}
use traigent_schema.Python.Text.{Text, codes, text_eq_sound, utf8, is_ascii}
use traigent_schema.Python.Object.{Floats, Value, null, bool, int, float, str, ref, foreign, Heap}
use traigent_schema.Fp2.{canonicalize}
use traigent_schema.Fp2.Scalar.{Unsupported}
use traigent_schema.Merkle.{Bytes}
use traigent_schema.RelyingParty.{RelyingPartyError}
use traigent_schema.RelyingParty.Signature.{Crypto, material_public_key, verify_signature}
use traigent_schema.CommitmentLinkage.{
  LinkageError, envelope_shape, schema_error, record_binding_mismatch, scope_mismatch, key_mismatch,
  key_material, unsigned_linkage_digest_mismatch,
}
use traigent_schema.CommitmentLinkage.Context.{IssuerKey, VerificationContext}
use traigent_schema.CommitmentLinkage.Sidecar.{
  recode, is_text, member, entry_of, VerifiedLinkage, Sidecar, opened_envelope,
}
use traigent_schema.CommitmentLinkage.Verify.{
  unsigned_linkage_domain, issuer_signature_domain, issuer_spki_domain, material_of,
  check_signature, role_digest, check_bindings, authenticate, with_canonical, with_sidecar, is_dict,
  verify_commitment_linkage,
}

recode-ok {ℓ} :
    {A : Type ℓ} (code : LinkageError) (r : Result RelyingPartyError A) (a : A)
    → recode code r ≡ ok a
    → r ≡ ok a
recode-ok code (err raised) a e = absurd (cc)
recode-ok code (ok b) a e = ap ok (ok_inj e)

is_text-true : {F : Type 0} (t : Text) (v : Value F) → is_text t v ≡ true → v ≡ str t
is_text-true t (str s) e = ap str (text_eq_sound s t e)
is_text-true t null e = absurd (cc)
is_text-true t (bool b) e = absurd (cc)
is_text-true t (int n) e = absurd (cc)
is_text-true t (float x) e = absurd (cc)
is_text-true t (ref a) e = absurd (cc)
is_text-true t foreign e = absurd (cc)

module _ (fl : Floats) (heap : Heap fl.Float) (crypto : Crypto)
    (sha256_hexdigest : Bytes → Text) where
  open fl use {Float}

  -- the signature of the pinned key over the canonical bytes
  pub record IsSigned (signature : Value Float) (canonical : Bytes) (key : IssuerKey) : Type 0 where
    pub key_ref_is : member heap (codes "issuer_key_ref") signature ≡ ok (str key.key_ref)
    pub trust_ring_is : member heap (codes "trust_ring_ref") signature ≡ ok (str key.trust_ring_ref)
    pub public_key : crypto.PublicKey
    pub algorithm : Value Float
    pub encoded : Value Float
    pub loaded :
        material_public_key crypto sha256_hexdigest (material_of key) issuer_spki_domain
        ≡ ok public_key
    pub algorithm_is : algorithm ≡ str key.algorithm
    pub stored : member heap (codes "signature") signature ≡ ok encoded
    pub accepted :
        verify_signature crypto sha256_hexdigest public_key algorithm
          (issuer_signature_domain ++ 0 ∷ canonical)
          encoded
        ≡ ok tt

  check_signature-IsSigned :
      (signature : Value Float) (canonical : Bytes) (key : IssuerKey) (u : Unit {0})
      → check_signature fl heap crypto sha256_hexdigest signature canonical key ≡ ok u
      → IsSigned signature canonical key
  unfolding check_signature
  check_signature-IsSigned signature canonical key u e =
      let (key_ref, hr, e1) = >>=-eq-ok (member heap (codes "issuer_key_ref") signature) _ e in
      let (is_ref, e2) = guard->>-ok (is_text key.key_ref key_ref) key_mismatch _ e1 in
      let (ring, ht, e3) = >>=-eq-ok (member heap (codes "trust_ring_ref") signature) _ e2 in
      let (is_ring, e4) = guard->>-ok (is_text key.trust_ring_ref ring) key_mismatch _ e3 in
      let (algorithm, _, e5) = >>=-eq-ok (member heap (codes "algorithm") signature) _ e4 in
      let (is_alg, e6) = guard->>-ok (is_text key.algorithm algorithm) key_mismatch _ e5 in
      let (_, e7) =
        guard->>-ok (is_ascii key.public_key_der_b64 && is_ascii key.public_key_digest) key_material
          _ e6 in
      let (public_key, hk, e8) =
        >>=-eq-ok
          (recode key_material
            (material_public_key crypto sha256_hexdigest (material_of key) issuer_spki_domain))
          _ e7 in
      let (encoded, hs, e9) = >>=-eq-ok (member heap (codes "signature") signature) _ e8 in
      record {
        key_ref_is = hr ∙ ap ok (is_text-true key.key_ref key_ref is_ref);
        trust_ring_is = ht ∙ ap ok (is_text-true key.trust_ring_ref ring is_ring);
        public_key = public_key;
        algorithm = algorithm;
        encoded = encoded;
        loaded = recode-ok _ _ _ hk;
        algorithm_is = is_text-true key.algorithm algorithm is_alg;
        stored = hs;
        accepted = recode-ok _ _ _ e9;
      }

  -- what `_verify` has checked of a sidecar
  pub record IsAuthentic (sidecar : Sidecar heap) (canonical : Bytes)
      (context : VerificationContext) (linkage : VerifiedLinkage Float) : Type 0 where
    pub digest_stored :
        member heap (codes "unsigned_linkage_digest") sidecar.signature
        ≡ ok (str (role_digest fl heap crypto sha256_hexdigest unsigned_linkage_domain canonical))
    pub checked :
        check_signature fl heap crypto sha256_hexdigest sidecar.signature canonical
          context.issuer_key
        ≡ ok tt
    pub signed : IsSigned sidecar.signature canonical context.issuer_key
    pub record_is :
        member heap (codes "process_record_digest") sidecar.unsigned
        ≡ ok (str context.expected_process_record_digest)
    pub project_is :
        member heap (codes "project_ref") sidecar.unsigned ≡ ok (str context.expected_project_ref)
    pub session_is :
        member heap (codes "build_session_ref") sidecar.unsigned
        ≡ ok (str context.expected_build_session_ref)
    pub record_returned : linkage.process_record_digest ≡ str context.expected_process_record_digest
    pub digest_returned :
        linkage.unsigned_linkage_digest
        ≡ role_digest fl heap crypto sha256_hexdigest unsigned_linkage_domain canonical
    pub entries_are : traverse (entry_of heap) sidecar.entries ≡ ok linkage.entries

  authenticate-IsAuthentic :
      (sidecar : Sidecar heap) (canonical : Bytes) (context : VerificationContext)
      (linkage : VerifiedLinkage Float)
      → authenticate fl heap crypto sha256_hexdigest sidecar canonical context ≡ ok linkage
      → IsAuthentic sidecar canonical context linkage
  unfolding authenticate check_bindings
  authenticate-IsAuthentic sidecar canonical context linkage e =
      let (claimed, hc, e1) =
        >>=-eq-ok (member heap (codes "unsigned_linkage_digest") sidecar.signature) _ e in
      let (is_digest, e2) =
        guard->>-ok
          (is_text (role_digest fl heap crypto sha256_hexdigest unsigned_linkage_domain canonical)
            claimed)
          unsigned_linkage_digest_mismatch _ e1 in
      let (u, signed, e3) =
        >>=-eq-ok
          (check_signature fl heap crypto sha256_hexdigest sidecar.signature canonical
            context.issuer_key)
          _ e2 in
      let (process_record, bound, e4) =
        >>=-eq-ok (check_bindings fl heap crypto sha256_hexdigest sidecar.unsigned context) _ e3 in
      let (entries, he, e5) = >>=-eq-ok (traverse (entry_of heap) sidecar.entries) _ e4 in
      let (r, hr, b1) =
        >>=-eq-ok (member heap (codes "process_record_digest") sidecar.unsigned) _ bound in
      let (is_r, b2) =
        guard->>-ok (is_text context.expected_process_record_digest r) record_binding_mismatch _
          b1 in
      let (p, hp, b3) = >>=-eq-ok (member heap (codes "project_ref") sidecar.unsigned) _ b2 in
      let (is_p, b4) = guard->>-ok (is_text context.expected_project_ref p) scope_mismatch _ b3 in
      let (s, hs, b5) = >>=-eq-ok (member heap (codes "build_session_ref") sidecar.unsigned) _ b4 in
      let (is_s, b6) =
        guard->>-ok (is_text context.expected_build_session_ref s) scope_mismatch _ b5 in
      record {
        digest_stored = hc ∙ ap ok (is_text-true _ claimed is_digest);
        checked = signed;
        signed = check_signature-IsSigned sidecar.signature canonical context.issuer_key u signed;
        record_is = hr ∙ ap ok (is_text-true _ r is_r);
        project_is = hp ∙ ap ok (is_text-true _ p is_p);
        session_is = hs ∙ ap ok (is_text-true _ s is_s);
        record_returned =
            ap (λ (l : VerifiedLinkage Float). l.process_record_digest) (sym (ok_inj e5))
            ∙ sym (ok_inj b6)
            ∙ is_text-true _ r is_r;
        digest_returned =
            ap (λ (l : VerifiedLinkage Float). l.unsigned_linkage_digest) (sym (ok_inj e5));
        entries_are = he ∙ ap ok (ap (λ (l : VerifiedLinkage Float). l.entries) (ok_inj e5));
      }

  with_canonical-ok :
      (sidecar : Sidecar heap) (context : VerificationContext)
      (c : Option (Result Unsupported Text)) (linkage : VerifiedLinkage Float)
      → with_canonical fl heap crypto sha256_hexdigest sidecar context c ≡ some (ok linkage)
      → (text : Text) × (c ≡ some (ok text)) × IsAuthentic sidecar (utf8 text) context linkage
  with_canonical-ok sidecar context none linkage e = absurd (cc)
  with_canonical-ok sidecar context (some (err raised)) linkage e = absurd (cc)
  with_canonical-ok sidecar context (some (ok text)) linkage e =
      (text, refl, authenticate-IsAuthentic sidecar (utf8 text) context linkage (cc))

  with_sidecar-ok :
      (fuel : ℕ) (context : VerificationContext) (r : Result LinkageError (Sidecar heap))
      (linkage : VerifiedLinkage Float)
      → with_sidecar fl heap crypto sha256_hexdigest fuel context r ≡ some (ok linkage)
      → (sidecar : Sidecar heap) × (r ≡ ok sidecar)
        × (with_canonical fl heap crypto sha256_hexdigest sidecar context
              (canonicalize fl heap fuel sidecar.unsigned)
            ≡ some (ok linkage))
  with_sidecar-ok fuel context (err raised) linkage e = absurd (cc)
  with_sidecar-ok fuel context (ok sidecar) linkage e = (sidecar, refl, e)

  module _ (schema_valid : Value Float → Bool) where
    pub verify_commitment_linkage-IsAuthentic :
        (fuel : ℕ) (envelope : Value Float) (context : VerificationContext)
        (linkage : VerifiedLinkage Float)
        → verify_commitment_linkage fl heap crypto sha256_hexdigest schema_valid fuel envelope
            context
          ≡ some (ok linkage)
        → (schema_valid envelope ≡ true)
          × (sidecar : Sidecar heap) × (opened_envelope heap envelope ≡ ok sidecar)
          × (text : Text) × (canonicalize fl heap fuel sidecar.unsigned ≡ some (ok text))
          × IsAuthentic sidecar (utf8 text) context linkage
    unfolding verify_commitment_linkage
    verify_commitment_linkage-IsAuthentic fuel envelope context linkage e =
        let (sidecar, read, e1) = with_sidecar-ok fuel context _ linkage e in
        let (_, r1) =
          guard->>-ok (is_dict fl heap crypto sha256_hexdigest envelope) envelope_shape _ read in
        let (valid, r2) = guard->>-ok (schema_valid envelope) schema_error _ r1 in
        let (text, hc, authentic) = with_canonical-ok sidecar context _ linkage e1 in
        (valid, sidecar, r2, text, hc, authentic)
