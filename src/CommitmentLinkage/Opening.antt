-- ===== src/CommitmentLinkage/Opening.antt =====
-- `_open_commitment` with two fingerprints for one role.
use traigent_schema.Prelude.{
  ◌≡◌, sym, ap, ◌∙◌, Option, List, [], ◌∷◌, Bool-cases, ◌⊎◌, inl, inr, ◌&&◌, ◌||◌,
}
use traigent_schema.Python.Result.{Result, ok, err, ok_inj, ◌>>=◌, >>=-eq-ok}
use traigent_schema.Python.Text.{Text, text_eq, text_eq_sound, is_ascii}
use traigent_schema.Python.Object.{Value, null, bool, int, float, str, ref, foreign}
use traigent_schema.Merkle.{Bytes}
use traigent_schema.CommitmentLinkage.{LinkageError, uncaught}
use traigent_schema.CommitmentLinkage.Binding.{Collision, compute_commitment_inj}
use traigent_schema.CommitmentLinkage.Commitment.{
  unavailable, checked_role, checked_fingerprint, checked_opening, compute_commitment,
}
use traigent_schema.CommitmentLinkage.Sidecar.{is_text, LinkageEntry, VerifiedLinkage}
use traigent_schema.CommitmentLinkage.Open.{
  OpenResult, opened_match, opened_mismatch, commitment_unavailable, compared, is_null, open_entry,
  open_role, open_commitment,
}

module _ {F : Type 0} (sha256_hexdigest : Bytes → Text) where
  compared-match :
      (expected : Text) (v : Value F)
      → compared sha256_hexdigest expected v ≡ ok opened_match
      → v ≡ str expected
  compared-match expected (str c) e = elim (Bool-cases (is_ascii expected && is_ascii c)) [
    | inl ascii ↦ elim (Bool-cases (text_eq expected c)) [
      | inl same ↦ ap str (sym (text_eq_sound expected c same))
      | inr other ↦ absurd (
          let differ : ◌≡◌ {A = Result LinkageError OpenResult} (ok opened_mismatch)
              (ok opened_match) =
            rw (ascii, other) at e in
          cc)
    ]
    | inr raises ↦ absurd (
        let differ : ◌≡◌ {A = Result LinkageError OpenResult} (err uncaught) (ok opened_match) =
          rw raises at e in
        cc)
  ]
  compared-match expected null e = absurd (cc)
  compared-match expected (bool b) e = absurd (cc)
  compared-match expected (int n) e = absurd (cc)
  compared-match expected (float x) e = absurd (cc)
  compared-match expected (ref a) e = absurd (cc)
  compared-match expected foreign e = absurd (cc)

  open_entry-match :
      (entry : LinkageEntry F) (fp : Value F) (opening : Option Bytes)
      → open_entry sha256_hexdigest entry fp opening ≡ ok opened_match
      → (c : Text) × (compute_commitment sha256_hexdigest entry.role entry.basis fp opening ≡ ok c)
        × (entry.commitment ≡ str c)
  unfolding open_entry
  open_entry-match entry fp opening e =
      elim (Bool-cases
        (is_text unavailable entry.basis || is_null sha256_hexdigest entry.commitment)) [
          | inl missing ↦ absurd (
              let differ : ◌≡◌ {A = Result LinkageError OpenResult} (ok commitment_unavailable)
                  (ok opened_match) =
                rw missing at e in
              cc)
          | inr there ↦
              let run : (compute_commitment sha256_hexdigest entry.role entry.basis fp opening
                    >>= λ c. compared sha256_hexdigest c entry.commitment)
                  ≡ ok opened_match =
                rw there at e in
              let (c, hc, e1) =
                >>=-eq-ok (compute_commitment sha256_hexdigest entry.role entry.basis fp opening) _
                  run in
              (c, hc, compared-match c entry.commitment e1)
        ]

  str_inj : {s t : Text} → ◌≡◌ {A = Value F} (str s) (str t) → s ≡ t
  str_inj e = cc

  open_role-match :
      (role : Text) (entries : List (LinkageEntry F)) (fp fp' : Value F)
      (opening opening' : Option Bytes)
      → open_role sha256_hexdigest role entries fp opening ≡ ok opened_match
      → open_role sha256_hexdigest role entries fp' opening' ≡ ok opened_match
      → ((fp ≡ fp') × (opening ≡ opening')) ⊎ Collision sha256_hexdigest
  unfolding open_role
  open_role-match role [] fp fp' opening opening' e e' = absurd (cc)
  open_role-match role (entry ∷ entries) fp fp' opening opening' e e' =
      elim (Bool-cases (is_text role entry.role)) [
        | inl here ↦
            let (c, hc, is_c) = open_entry-match entry fp opening (rw here at e) in
            let (d, hd, is_d) = open_entry-match entry fp' opening' (rw here at e') in
            let same : d ≡ c = str_inj (sym is_d ∙ is_c) in
            elim (compute_commitment_inj sha256_hexdigest entry.role entry.basis fp entry.role
              entry.basis fp' opening opening' c hc (hd ∙ ap ok same)) [
                | inl (_, _, hf, ho) ↦ inl (hf, ho)
                | inr bad ↦ inr bad
              ]
        | inr later ↦
            open_role-match role entries fp fp' opening opening' (rw later at e) (rw later at e')
      ]

  -- For one role of a verified linkage, `_open_commitment` reports a match for two fingerprints with
  -- their openings only if the fingerprints and the openings are the same, or SHA-256 has a collision.
  pub open_commitment-match :
      (linkage : VerifiedLinkage F) (role fp fp' : Value F) (opening opening' : Option Bytes)
      → open_commitment sha256_hexdigest linkage role fp opening ≡ ok opened_match
      → open_commitment sha256_hexdigest linkage role fp' opening' ≡ ok opened_match
      → ((fp ≡ fp') × (opening ≡ opening')) ⊎ Collision sha256_hexdigest
  unfolding open_commitment
  open_commitment-match linkage role fp fp' opening opening' e e' =
      let (r, hr, e1) = >>=-eq-ok (checked_role role) _ e in
      let (_, _, e2) = >>=-eq-ok (checked_fingerprint fp) _ e1 in
      let (_, _, e3) = >>=-eq-ok (checked_opening opening) _ e2 in
      let (r', hr', f1) = >>=-eq-ok (checked_role role) _ e' in
      let (_, _, f2) = >>=-eq-ok (checked_fingerprint fp') _ f1 in
      let (_, _, f3) = >>=-eq-ok (checked_opening opening') _ f2 in
      let same : r' ≡ r = ok_inj (sym hr' ∙ hr) in
      open_role-match r linkage.entries fp fp' opening opening' e3
        (ap (λ t. open_role sha256_hexdigest t linkage.entries fp' opening') (sym same) ∙ f3)
