-- ===== src/CommitmentLinkage/Reopening.antt =====
-- `_open_commitment` on a commitment that `compute_commitment` made.
use mathlib.Core.Path.{subst}
use traigent_schema.Prelude.{◌≡◌, refl, ap, ◌∙◌, true, false, not, Option, List, ◌∷◌, ◌++◌, arith}
use traigent_schema.Python.Result.{ok, ok_inj, >>=-eq-ok}
use traigent_schema.Python.Text.{Text, codes, text_eq, text_eq_refl, text_mem, is_ascii}
use traigent_schema.Python.Object.{Value, str}
use traigent_schema.Merkle.{Bytes}
use traigent_schema.CommitmentLinkage.{role_shape}
use traigent_schema.CommitmentLinkage.Framing.{both_true}
use traigent_schema.CommitmentLinkage.Binding.{text_where-ok}
use traigent_schema.CommitmentLinkage.Commitment.{
  roles, bases, unavailable, preimage, checked_role, checked_basis, checked_fingerprint,
  checked_opening, compute_commitment,
}
use traigent_schema.CommitmentLinkage.Sidecar.{is_text, LinkageEntry, VerifiedLinkage}
use traigent_schema.CommitmentLinkage.Open.{opened_match, open_entry, open_role, open_commitment}

commitment-ascii : (hex : Text) → is_ascii hex ≡ true → is_ascii (codes "sha256:" ++ hex) ≡ true
unfolding is_ascii
commitment-ascii hex h = h

module _ {F : Type 0} (sha256_hexdigest : Bytes → Text)
    (hex : (x : Bytes) → is_ascii (sha256_hexdigest x) ≡ true) where
  checked_basis-available :
      (basis : Value F) (b : Text) → checked_basis basis ≡ ok b → is_text unavailable basis ≡ false
  unfolding checked_basis
  checked_basis-available basis b e =
      let (is_b, test) = text_where-ok _ _ basis b e in
      let available = (both_true (text_mem b bases) (not (text_eq b unavailable)) test).1 in
      rw is_b (ground (arith, available))

  text_of : {s t : Text} → ◌≡◌ {A = Value F} (str s) (str t) → s ≡ t
  text_of e = cc

  open_entry-committed :
      (role basis fp : Value F) (opening : Option Bytes) (c : Text)
      → is_text unavailable basis ≡ false
      → is_ascii c ≡ true
      → compute_commitment sha256_hexdigest role basis fp opening ≡ ok c
      → open_entry sha256_hexdigest
          (record { role = role; basis = basis; commitment = str c })
          fp
          opening
        ≡ ok opened_match
  unfolding open_entry
  open_entry-committed role basis fp opening c available ascii made =
      rw (available, made, ascii, text_eq_refl c) refl

  open_commitment-checked :
      (linkage : VerifiedLinkage F) (role fp : Value F) (opening : Option Bytes) (r f : Text)
      (raw : Bytes)
      → checked_role role ≡ ok r
      → checked_fingerprint fp ≡ ok f
      → checked_opening opening ≡ ok raw
      → open_commitment sha256_hexdigest linkage role fp opening
        ≡ open_role sha256_hexdigest r linkage.entries fp opening
  unfolding open_commitment
  open_commitment-checked linkage role fp opening r f raw hr hf ho = rw (hr, hf, ho) refl

  open_role-first :
      (r : Text) (entry : LinkageEntry F) (entries : List (LinkageEntry F)) (fp : Value F)
      (opening : Option Bytes)
      → is_text r entry.role ≡ true
      → open_role sha256_hexdigest r (entry ∷ entries) fp opening
        ≡ open_entry sha256_hexdigest entry fp opening
  unfolding open_role
  open_role-first r entry entries fp opening here = rw here refl

  -- With hexadecimal digests in ASCII: when the first entry of a verified linkage holds for a role the commitment
  -- that `compute_commitment` made of the role, the entry's basis, a fingerprint and an opening,
  -- `_open_commitment` reports a match for the role, the fingerprint and the opening.
  pub open_commitment-compute_commitment :
      (linkage : VerifiedLinkage F) (role : Text) (basis fp : Value F) (opening : Option Bytes)
      (c : Text) (entries : List (LinkageEntry F))
      → compute_commitment sha256_hexdigest (str role) basis fp opening ≡ ok c
      → linkage.entries ≡ record { role = str role; basis = basis; commitment = str c } ∷ entries
      → open_commitment sha256_hexdigest linkage (str role) fp opening ≡ ok opened_match
  unfolding compute_commitment checked_role
  open_commitment-compute_commitment linkage role basis fp opening c entries made first =
      let (r, hr, e1) = >>=-eq-ok (checked_role {F = F} (str role)) _ made in
      let (b, hb, e2) = >>=-eq-ok (checked_basis basis) _ e1 in
      let (f, hf, e3) = >>=-eq-ok (checked_fingerprint fp) _ e2 in
      let (o, ho, e4) = >>=-eq-ok (checked_opening opening) _ e3 in
      let same : role ≡ r =
        text_of (text_where-ok {F = F} (λ x. text_mem x roles) role_shape (str role) r hr).0 in
      let ascii : is_ascii c ≡ true =
        subst (λ t. is_ascii t ≡ true) (ok_inj e4)
          (commitment-ascii (sha256_hexdigest (preimage r b f o)) (hex (preimage r b f o))) in
      let entry : LinkageEntry F = record { role = str role; basis = basis; commitment = str c } in
      open_commitment-checked linkage (str role) fp opening r f o hr hf ho
      ∙ ap (λ l. open_role sha256_hexdigest r l fp opening) first
      ∙ open_role-first r entry entries fp opening
          (subst (λ t. text_eq role t ≡ true) same (text_eq_refl role))
      ∙ open_entry-committed (str role) basis fp opening c (checked_basis-available basis b hb)
          ascii made
