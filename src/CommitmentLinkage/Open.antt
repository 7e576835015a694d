-- ===== src/CommitmentLinkage/Open.antt =====
-- `_open_commitment` and `verify_and_open_commitment`.
use traigent_schema.Prelude.{
  ℕ, Bool, true, false, ◌&&◌, ◌||◌, Option, none, some, List, [], ◌∷◌, if◌then◌else◌,
}
use traigent_schema.Python.Result.{Result, ok, err, ◌>>=◌}
use traigent_schema.Python.Text.{Text, text_eq, is_ascii}
use traigent_schema.Python.Object.{Floats, Value, null, str, Heap}
use traigent_schema.Merkle.{Bytes}
use traigent_schema.RelyingParty.Signature.{Crypto}
use traigent_schema.CommitmentLinkage.{LinkageError, uncaught}
use traigent_schema.CommitmentLinkage.Commitment.{
  unavailable, checked_role, checked_fingerprint, checked_opening, compute_commitment,
}
use traigent_schema.CommitmentLinkage.Context.{VerificationContext}
use traigent_schema.CommitmentLinkage.Sidecar.{is_text, LinkageEntry, VerifiedLinkage}
use traigent_schema.CommitmentLinkage.Verify.{verify_commitment_linkage}

pub data OpenResult : Type 0 where
  opened_match : OpenResult
  opened_mismatch : OpenResult
  commitment_unavailable : OpenResult

module _ {F : Type 0} (sha256_hexdigest : Bytes → Text) where
  -- `hmac.compare_digest` of the two texts as ASCII; what is no ASCII text raises
  abbrev pub compared : Text → Value F → Result LinkageError OpenResult
  compared expected (str commitment) =
      if is_ascii expected && is_ascii commitment
      then ok (if text_eq expected commitment then opened_match else opened_mismatch)
      else err uncaught
  compared expected _ = err uncaught

  -- `commitment is None`
  abbrev pub is_null : Value F → Bool
  is_null null = true
  is_null _ = false

  unfoldable pub open_entry :
      LinkageEntry F → Value F → Option Bytes → Result LinkageError OpenResult
  unfolding compute_commitment is_ascii
  open_entry entry fp_digest opening =
      let opened =
        compute_commitment sha256_hexdigest entry.role entry.basis fp_digest opening >>= λ expected.
        compared expected entry.commitment in
      if is_text unavailable entry.basis || is_null entry.commitment
      then ok commitment_unavailable
      else opened

  -- the first entry of the role
  unfoldable pub open_role :
      Text → List (LinkageEntry F) → Value F → Option Bytes → Result LinkageError OpenResult
  unfolding open_entry
  open_role role [] fp_digest opening = ok commitment_unavailable
  open_role role (entry ∷ entries) fp_digest opening =
      let rest = open_role role entries fp_digest opening in
      if is_text role entry.role then open_entry entry fp_digest opening else rest

  unfoldable pub open_commitment :
      VerifiedLinkage F → (role fp_digest : Value F) → Option Bytes → Result LinkageError OpenResult
  unfolding checked_role checked_fingerprint checked_opening open_role
  open_commitment linkage role fp_digest opening = do
    role_text ← checked_role role
    fp_text ← checked_fingerprint fp_digest
    raw ← checked_opening opening
    open_role role_text linkage.entries fp_digest opening

module _ (fl : Floats) (heap : Heap fl.Float) (crypto : Crypto)
    (sha256_hexdigest : Bytes → Text) where
  open fl use {Float}

  abbrev pub opened_after :
      (role fp_digest : Value Float)
      → Option Bytes
      → Option (Result LinkageError (VerifiedLinkage Float))
      → Option (Result LinkageError OpenResult)
  opened_after role fp_digest opening none = none
  opened_after role fp_digest opening (some (err raised)) = some (err raised)
  opened_after role fp_digest opening (some (ok linkage)) =
      some (open_commitment sha256_hexdigest linkage role fp_digest opening)

  unfoldable pub verify_and_open_commitment :
      (schema_valid : Value Float → Bool)
      → ℕ
      → Value Float
      → VerificationContext
      → (role fp_digest : Value Float) → Option Bytes
      → Option (Result LinkageError OpenResult)
  unfolding verify_commitment_linkage open_commitment
  verify_and_open_commitment schema_valid fuel envelope context role fp_digest opening =
      opened_after role fp_digest opening (
        verify_commitment_linkage fl heap crypto sha256_hexdigest schema_valid fuel envelope
          context)
