-- ===== src/CommitmentLinkage/Binding.antt =====
-- `compute_commitment` and the four inputs of its preimage.
use traigent_schema.Prelude.{
  ◌<◌, ◌≡◌, refl, sym, ap, ◌∙◌, Bool, true, Option, none, some, ◌++◌, arith, ◌==◌, length,
  append_inj, Bool-cases, ◌⊎◌, inl, inr, ◌≢◌,
}
use traigent_schema.Python.Result.{Result, ok, err, ok_inj, >>=-eq-ok}
use traigent_schema.Python.Text.{Text, codes}
use traigent_schema.Python.BigEndian.{byte_range}
use traigent_schema.Python.Object.{Value, null, bool, int, float, str, ref, foreign}
use traigent_schema.Merkle.{Bytes}
use traigent_schema.Merkle.Sound.{Bytes-discrete}
use traigent_schema.CommitmentLinkage.{LinkageError, opening_shape}
use traigent_schema.CommitmentLinkage.Commitment.{
  roles, bases, is_sha256, preimage, text_where, checked_role, checked_basis, checked_fingerprint,
  checked_opening, compute_commitment,
}
use traigent_schema.CommitmentLinkage.Framing.{
  IsShort, preimage_inj, text_mem-All, All-roles, All-bases, both_true, is_sha256-length,
}

module _ {F : Type 0} where
  pub text_where-ok :
      (test : Text → Bool) (raised : LinkageError) (v : Value F) (s : Text)
      → text_where test raised v ≡ ok s
      → (v ≡ str s) × (test s ≡ true)
  text_where-ok test raised (str text) s e = elim (Bool-cases (test text)) [
    | inl passes ↦ let same : text ≡ s = ok_inj (rw passes at e) in (ap str same, rw⁻¹ same passes)
    | inr fails ↦
        absurd
          (let no : ◌≡◌ {A = Result LinkageError Text} (err raised) (ok s) = rw fails at e in cc)
  ]
  text_where-ok test raised null s e = absurd (cc)
  text_where-ok test raised (bool b) s e = absurd (cc)
  text_where-ok test raised (int n) s e = absurd (cc)
  text_where-ok test raised (float x) s e = absurd (cc)
  text_where-ok test raised (ref a) s e = absurd (cc)
  text_where-ok test raised foreign s e = absurd (cc)

checked_opening-ok :
    (o : Option Bytes) (raw : Bytes)
    → checked_opening o ≡ ok raw
    → (o ≡ some raw) × (length raw ≡ 32)
unfolding checked_opening
checked_opening-ok none raw e = absurd (cc)
checked_opening-ok (some o) raw e = elim (Bool-cases (length o == 32)) [
  | inl size ↦
      let same : o ≡ raw = ok_inj (rw size at e) in (ap some same, rw⁻¹ same (ground (arith, size)))
  | inr other ↦ absurd (
      let no : ◌≡◌ {A = Result LinkageError Bytes} (err opening_shape) (ok raw) = rw other at e in
      cc)
]

-- two inputs with one hex digest
abbrev pub Collision : (Bytes → Text) → Type 0
Collision sha256_hexdigest =
    (x : Bytes) × (y : Bytes) × (x ≢ y) × (sha256_hexdigest x ≡ sha256_hexdigest y)

module _ {F : Type 0} (sha256_hexdigest : Bytes → Text) where
  -- what a returned commitment is of
  record IsCommitment (role basis fp_digest : Value F) (opening : Option Bytes) (commitment : Text)
      : Type 0 where
    role_text : Text
    basis_text : Text
    fp_text : Text
    raw : Bytes
    from_role : role ≡ str role_text
    from_basis : basis ≡ str basis_text
    from_fp : fp_digest ≡ str fp_text
    from_opening : opening ≡ some raw
    short_role : IsShort role_text
    short_basis : IsShort basis_text
    short_fp : length fp_text < byte_range 8
    sized : length raw ≡ 32
    hashed :
        commitment ≡ codes "sha256:" ++ sha256_hexdigest (preimage role_text basis_text fp_text raw)

  compute_commitment-IsCommitment :
      (role basis fp_digest : Value F) (opening : Option Bytes) (commitment : Text)
      → compute_commitment sha256_hexdigest role basis fp_digest opening ≡ ok commitment
      → IsCommitment role basis fp_digest opening commitment
  unfolding compute_commitment checked_role checked_basis checked_fingerprint
  compute_commitment-IsCommitment role basis fp_digest opening commitment e =
      let (r, hr, e1) = >>=-eq-ok (checked_role role) _ e in
      let (b, hb, e2) = >>=-eq-ok (checked_basis basis) _ e1 in
      let (f, hf, e3) = >>=-eq-ok (checked_fingerprint fp_digest) _ e2 in
      let (o, ho, e4) = >>=-eq-ok (checked_opening opening) _ e3 in
      let (from_r, in_roles) = text_where-ok _ _ role r hr in
      let (from_b, in_bases) = text_where-ok _ _ basis b hb in
      let (from_f, is_fp) = text_where-ok is_sha256 _ fp_digest f hf in
      let (from_o, size) = checked_opening-ok opening o ho in
      record {
        role_text = r;
        basis_text = b;
        fp_text = f;
        raw = o;
        from_role = from_r;
        from_basis = from_b;
        from_fp = from_f;
        from_opening = from_o;
        short_role = text_mem-All IsShort r roles in_roles All-roles;
        short_basis = text_mem-All IsShort b bases (both_true _ _ in_bases).0 All-bases;
        short_fp = is_sha256-length f is_fp;
        sized = size;
        hashed = sym (ok_inj e4);
      }

  -- Two calls of `compute_commitment` return the same commitment only if they were given the same
  -- role, basis, fingerprint and opening, or SHA-256 has a collision.
  pub compute_commitment_inj :
      (role basis fp_digest role' basis' fp_digest' : Value F) (opening opening' : Option Bytes)
      (commitment : Text)
      → compute_commitment sha256_hexdigest role basis fp_digest opening ≡ ok commitment
      → compute_commitment sha256_hexdigest role' basis' fp_digest' opening' ≡ ok commitment
      → ((role ≡ role') × (basis ≡ basis') × (fp_digest ≡ fp_digest') × (opening ≡ opening'))
        ⊎ Collision sha256_hexdigest
  compute_commitment_inj role basis fp_digest role' basis' fp_digest' opening opening' commitment e
        e' =
      let a = compute_commitment-IsCommitment role basis fp_digest opening commitment e in
      let b = compute_commitment-IsCommitment role' basis' fp_digest' opening' commitment e' in
      let p = preimage a.role_text a.basis_text a.fp_text a.raw in
      let q = preimage b.role_text b.basis_text b.fp_text b.raw in
      let same : sha256_hexdigest p ≡ sha256_hexdigest q =
        (append_inj (codes "sha256:") _ (codes "sha256:") _ refl (sym a.hashed ∙ b.hashed)).1 in
      elim (Bytes-discrete p q) [
        | yes one ↦
            let (hr, hb, hf, ho) =
              preimage_inj a.role_text a.basis_text a.fp_text b.role_text b.basis_text b.fp_text
                a.raw b.raw a.short_role b.short_role a.short_basis b.short_basis a.short_fp
                b.short_fp a.sized b.sized one in
            inl (
              a.from_role ∙ ap str hr ∙ sym b.from_role,
              a.from_basis ∙ ap str hb ∙ sym b.from_basis,
              a.from_fp ∙ ap str hf ∙ sym b.from_fp,
              a.from_opening ∙ ap some ho ∙ sym b.from_opening,
            )
        | no differ ↦ inr (p, q, differ, same)
      ]
