-- ===== src/CommitmentLinkage/Commitment.antt =====
-- `_lp` and `compute_commitment`, with the closed vocabularies of roles and bases.
use traigent_schema.Prelude.{
  ℕ, Bool, ◌&&◌, not, Option, none, some, List, [], ◌∷◌, ◌++◌, map, ◌==◌, if◌then◌else◌, length,
  drop,
}
use traigent_schema.Python.Result.{Result, ok, err, ◌>>=◌}
use traigent_schema.Python.Text.{Text, codes, text_eq, text_mem, utf8, starts_with}
use traigent_schema.Python.BigEndian.{be_bytes}
use traigent_schema.Python.Object.{Value, str}
use traigent_schema.Merkle.{Bytes}
use traigent_schema.ContentIdentity.Identifier.{hex_text}
use traigent_schema.CommitmentLinkage.{LinkageError, opening_shape, fingerprint_shape, role_shape}

abbrev pub commitment_domain : Bytes
commitment_domain = codes "traigent.commitment-linkage.v1"

abbrev pub fp_schema : Bytes
fp_schema = codes "fp1"

abbrev pub opening_bytes : ℕ
opening_bytes = 32

abbrev pub roles : List Text
roles =
    codes "agent"
    ∷ codes "dataset"
    ∷ codes "config_space"
    ∷ codes "evaluator:primary"
    ∷ map (λ i. codes "evaluator:r" ++ i ∷ []) (codes "01234567")

abbrev pub unavailable : Text
unavailable = codes "unavailable"

abbrev pub bases : List Text
bases =
    codes "source_text"
    ∷ codes "name_only"
    ∷ codes "endpoint_only"
    ∷ codes "order_free_multiset"
    ∷ codes "config_space"
    ∷ unavailable
    ∷ []

-- sha256:[a-f0-9]{64}
unfoldable pub is_sha256 : Text → Bool
unfolding starts_with
is_sha256 s = starts_with (codes "sha256:") s && hex_text 64 (drop 7 s)

unfoldable pub lp : Bytes → Bytes
unfolding be_bytes
lp value = be_bytes 8 (length value) ++ value

unfoldable pub preimage : (role basis fp_digest : Text) → Bytes → Bytes
unfolding lp utf8
preimage role basis fp_digest opening =
    lp commitment_domain
    ++ (lp (utf8 role) ++ (lp (utf8 basis) ++ (lp fp_schema ++ (lp fp_digest ++ lp opening))))

-- `none`: a value that is not `bytes`
unfoldable pub checked_opening : Option Bytes → Result LinkageError Bytes
checked_opening none = err opening_shape
checked_opening (some opening) =
    if length opening == opening_bytes then ok opening else err opening_shape

module _ {F : Type 0} where
  -- `type(value) is not str or ...`, with the text where it passes
  abbrev pub text_where : (Text → Bool) → LinkageError → Value F → Result LinkageError Text
  text_where test raised (str text) = if test text then ok text else err raised
  text_where test raised _ = err raised

  unfoldable pub checked_role : Value F → Result LinkageError Text
  checked_role = text_where (λ role. text_mem role roles) role_shape

  unfoldable pub checked_basis : Value F → Result LinkageError Text
  checked_basis =
      text_where (λ basis. text_mem basis bases && not (text_eq basis unavailable)) role_shape

  unfoldable pub checked_fingerprint : Value F → Result LinkageError Text
  unfolding is_sha256
  checked_fingerprint = text_where is_sha256 fingerprint_shape

  module _ (sha256_hexdigest : Bytes → Text) where
    unfoldable pub compute_commitment :
        (role basis fp_digest : Value F) → Option Bytes → Result LinkageError Text
    unfolding checked_role checked_basis checked_fingerprint checked_opening preimage
    compute_commitment role basis fp_digest opening = do
      role_text ← checked_role role
      basis_text ← checked_basis basis
      fp_text ← checked_fingerprint fp_digest
      raw ← checked_opening opening
      ok (codes "sha256:" ++ sha256_hexdigest (preimage role_text basis_text fp_text raw))
